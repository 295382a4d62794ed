-- ===== src/Projects/TowerRoute.antt =====
-- apps/web/src/app/api/v1/projects/[id]/towers/route.js, POST: a new tower with its location. The ids
-- are those of `gen_random_uuid()`; `admits` stands for the references and types of the table `towers`
-- besides UNIQUE (project_id, code).
pub mod Located
use hippo_build_x.Prelude.{
  String, Bool, not, ◌&&◌, ◌||◌, Option, none, some, List, [], ◌∷◌, ◌++◌, any, or_null,
  if◌then◌else◌, ◌==◌,
}
use hippo_build_x.Prelude.Effect.{Result, ok, err, other, bind_result}
use hippo_build_x.Shared.Errors.{validation}
use hippo_build_x.Rbac.Context.{Ctx, JsString, present}
use hippo_build_x.Projects.Access.{assert_project_access}
use hippo_build_x.Projects.Locations.{Location, Tower, sync_location_for_tower}

pub record TowerRow : Type 0 where
  pub id : String
  pub project_id : String
  pub block_id : Option String
  pub name : String
  pub code : String

pub record Tables : Type 0 where
  pub towers : List TowerRow
  pub locations : List Location

pub record Body : Type 0 where
  pub name : Option String
  pub code : Option String
  pub block_id : Option String

abbrev pub same_code : String → String → TowerRow → Bool
same_code project_id code t = t.project_id == project_id && t.code == code

-- The arguments of `syncLocationForTower`.
abbrev pub tower_of : Ctx → String → TowerRow → Tower
tower_of ctx tenant_id t = record {
  tenant_id = tenant_id;
  project_id = t.project_id;
  name = t.name;
  code = t.code;
  user_id = present ctx.user_id;
}

module _ (admits : TowerRow → Bool) (ctx : Ctx)
    (tenant_id project_id tower_id location_id : String) where
  abbrev pub new_tower : Body → String → String → TowerRow
  new_tower b name code = record {
    id = tower_id;
    project_id = project_id;
    block_id = or_null b.block_id;
    name = name;
    code = code;
  }

  unfoldable pub insert_tower : TowerRow → Tables → Result TowerRow × Tables
  insert_tower t s =
      if any (same_code t.project_id t.code) s.towers || not (admits t)
      then (err (other "violates constraint"), s)
      else (ok t, record s { towers = s.towers ++ t ∷ [] })

  abbrev pub with_locations :
      TowerRow → Tables → Result String × List Location → Result TowerRow × Tables
  with_locations t s (ok _, locations) = (ok t, record s { locations = locations })
  with_locations t s (err e, locations) = (err e, record s { locations = locations })

  unfoldable pub add_tower :
      Body → Option String → Option String → Tables → Result TowerRow × Tables
  unfolding insert_tower
  add_tower b (some name) (some code) s =
      bind_result (insert_tower (new_tower b name code) s) (λ t s.
        with_locations t s
          (sync_location_for_tower location_id (tower_of ctx tenant_id t) s.locations))
  add_tower b _ _ s = (err (validation "name and code required"), s)

  -- POST
  unfoldable pub post_tower : Body → Tables → Result TowerRow × Tables
  unfolding add_tower
  post_tower b s =
      bind_result (assert_project_access ctx project_id, s)
        (λ _. add_tower b (or_null b.name) (or_null b.code))
