-- ===== src/Projects/UnitRoute.antt =====
-- apps/web/src/app/api/v1/units/[id]/route.js: one unit with its history, and the change of its status.
-- `project_of` is the column `project_id` of the unit with an id, which these requests only read;
-- `sorted` stands for the ORDER BY of the history. The codes of tower and floor, which the JOIN adds, are
-- left out.
pub mod Confined
use hippo_build_x.Prelude.{
  String, Bool, Option, none, some, List, filter, find, or_null, if◌then◌else◌, ◌==◌,
}
use hippo_build_x.Prelude.Effect.{Thrown, Result, ok, err, app, bind_result}
use hippo_build_x.Shared.Errors.{validation}
use hippo_build_x.Shared.Errors.ErrorCode
use hippo_build_x.Rbac.Context.{Ctx, present}
use hippo_build_x.Projects.Access.{assert_project_access}
use hippo_build_x.Projects.UnitStatus.{
  UnitRow, StatusChange, Store, Request, Statements, is_live, change_unit_status,
}

abbrev pub not_found : Thrown
not_found = app ErrorCode.not_found "Unit not found" 404

pub record Body : Type 0 where
  pub status : Option String
  pub reason : Option String

module _ (project_of : String → String) (ctx : Ctx) where
  abbrev pub show_found :
      (List StatusChange → List StatusChange)
      → String
      → Option UnitRow
      → Store
      → Result (UnitRow × List StatusChange) × Store
  show_found sorted id none s = (err not_found, s)
  show_found sorted id (some u) s =
      bind_result (assert_project_access ctx (project_of id), s)
        (λ _ s. (ok (u, sorted (filter (λ h. h.unit_id == id) s.history)), s))

  -- GET
  unfoldable pub get_unit :
      (List StatusChange → List StatusChange)
      → String
      → Store
      → Result (UnitRow × List StatusChange) × Store
  get_unit sorted id s = show_found sorted id (find (is_live id) s.units) s

  module _ (x : Statements) (tenant_id : String) (correlation_id : Option String) where
    -- The arguments of `changeUnitStatus`.
    abbrev pub request_of : String → Body → String → Request
    request_of id b status = record {
      tenant_id = tenant_id;
      unit_id = id;
      to_status = status;
      reason = b.reason;
      actor_id = present ctx.user_id;
      correlation_id = correlation_id;
    }

    abbrev pub set_status : String → Body → Option String → Store → Result (Option UnitRow) × Store
    set_status id b none s = (err (validation "status is required"), s)
    set_status id b (some status) s = change_unit_status x (request_of id b status) s

    abbrev pub patch_found :
        String → Body → Option UnitRow → Store → Result (Option UnitRow) × Store
    patch_found id b none s = (err not_found, s)
    patch_found id b (some _) s =
        bind_result (assert_project_access ctx (project_of id), s)
          (λ _. set_status id b (or_null b.status))

    -- PATCH
    unfoldable pub patch_unit : String → Body → Store → Result (Option UnitRow) × Store
    unfolding change_unit_status
    patch_unit id b s = patch_found id b (find (is_live id) s.units) s
