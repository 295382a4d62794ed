-- ===== src/Projects/Locations.antt =====
-- property-service.js, `syncLocationForTower`: the location that stands for a tower in the scopes of
-- roles. The table `locations` has the constraint UNIQUE (code), over all rows of the tenant
-- (packages/db/src/migrations/tenant/002_identity_rbac.sql), and an INSERT that breaks it throws.
pub mod Laws
use hippo_build_x.Prelude.{
  String, Bool, true, false, not, ◌&&◌, Option, none, some, List, [], ◌∷◌, ◌++◌, any, find, update,
  or_null, if◌then◌else◌, ◌==◌,
}
use hippo_build_x.Prelude.Effect.{Result, ok, err, other}

-- A row of `locations`.
pub record Location : Type 0 where
  pub id : String
  pub tenant_id : String
  pub project_id : String
  pub name : String
  pub code : String
  pub status : String
  pub created_by : Option String
  pub updated_by : Option String
  pub deleted : Bool

-- The arguments: the tower's name and code, and its project.
pub record Tower : Type 0 where
  pub tenant_id : String
  pub project_id : String
  pub name : String
  pub code : String
  pub user_id : Option String

-- `WHERE project_id = $1 AND code = $2 AND deleted_at IS NULL`
abbrev pub is_location_of : Tower → Location → Bool
is_location_of t l = l.project_id == t.project_id && (l.code == t.code && not l.deleted)

abbrev pub renamed : Tower → Location → Location
renamed t l = record l { name = t.name; updated_by = or_null t.user_id }

abbrev pub new_location : String → Tower → Location
new_location id t = record {
  id = id;
  tenant_id = t.tenant_id;
  project_id = t.project_id;
  name = t.name;
  code = t.code;
  status = "active";
  created_by = or_null t.user_id;
  updated_by = none;
  deleted = false;
}

unfoldable pub insert_location : String → Tower → List Location → Result String × List Location
insert_location id t rows =
    if any (λ l. l.code == t.code) rows
    then (err (other "duplicate key value violates unique constraint"), rows)
    else (ok id, rows ++ new_location id t ∷ [])

-- From the row that the SELECT finds.
unfoldable pub sync_found :
    Option Location → String → Tower → List Location → Result String × List Location
unfolding insert_location
sync_found none id t rows = insert_location id t rows
sync_found (some l) id t rows = (ok l.id, update (λ k. k.id == l.id) (renamed t) rows)

-- `id` is the `gen_random_uuid()` of an INSERT.
unfoldable pub sync_location_for_tower :
    String → Tower → List Location → Result String × List Location
sync_location_for_tower id t rows = sync_found (find (is_location_of t) rows) id t rows
