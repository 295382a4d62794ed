-- ===== src/Shared/Errors.antt =====
-- packages/shared/src/errors/index.js: the error codes, and the static constructors of `AppError`.
-- `details` is not modelled.
use hippo_build_x.Prelude.{ℕ, String}
use hippo_build_x.Prelude.Effect.{Thrown, app}
use Prim.Native.String.{◌++◌}
pub mod ErrorCode

abbrev pub not_found : String → String → Thrown
not_found resource id = app ErrorCode.not_found (resource ++ (" not found: " ++ id)) 404

abbrev pub unauthorized : String → Thrown
unauthorized message = app ErrorCode.unauthorized message 401

abbrev pub forbidden : String → Thrown
forbidden message = app ErrorCode.forbidden message 403

abbrev pub conflict : String → Thrown
conflict message = app ErrorCode.conflict message 409

abbrev pub validation : String → Thrown
validation message = app ErrorCode.validation_error message 400
