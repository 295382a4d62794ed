-- ===== src/Provisioning/ControlPlane.antt =====
-- The tables `tenants` and `provisioning_jobs` of the control plane, as the statements of
-- apps/worker/src/main.js, apps/web/src/lib/queues.js and packages/db/src/migrations/index.js see them.
-- A statement may fail, with no effect: `faults` says for each of the statements to come whether it
-- throws, and with which message; after its end all of them succeed.
use Prim.Native.String.{◌∷◌ as cons}
use hippo_build_x.Prelude.{
  ℕ, zero, suc, String, Bool, false, Option, none, some, List, [], ◌∷◌, update, ◌==◌,
}
use hippo_build_x.Prelude.Effect.{Result, ok, err, Thrown, app, other}

pub record Tenant : Type 0 where
  pub id : String
  pub name : String
  pub slug : String
  pub schema_name : String
  pub status : String
  pub data_location_status : String
  pub updated_at : ℕ
  pub deleted : Bool

pub record Job : Type 0 where
  pub id : String
  pub tenant_id : String
  pub idempotency_key : String
  pub requested_by : Option String
  pub status : String
  pub current_step : String
  pub bullmq_job_id : Option String
  pub error_code : Option String
  pub error_message : Option String
  pub started_at : Option ℕ
  pub finished_at : Option ℕ
  pub attempt_count : ℕ
  pub updated_at : ℕ

pub record ControlPlane : Type 0 where
  pub tenants : List Tenant
  pub jobs : List Job
  pub now : ℕ
  pub faults : List (Option String)

-- The same tables, where no statement to come fails.
abbrev pub reliable : ControlPlane → ControlPlane
reliable s = record s { faults = [] }

abbrev pub Action : Type 0 → Type 0
Action A = ControlPlane → Result A × ControlPlane

-- One statement.
abbrev pub exec_on : List (Option String) → (ControlPlane → ControlPlane) → Action (Unit {0})
exec_on [] f s = (ok tt, f s)
exec_on (none ∷ rest) f s = (ok tt, f (record s { faults = rest }))
exec_on (some message ∷ rest) f s = (err (other message), record s { faults = rest })

abbrev pub exec : (ControlPlane → ControlPlane) → Action (Unit {0})
exec f s = exec_on s.faults f s

abbrev pub update_tenant : (Tenant → Bool) → (Tenant → Tenant) → ControlPlane → ControlPlane
update_tenant p f s = record s { tenants = update p f s.tenants }

abbrev pub update_job : String → (Job → Job) → ControlPlane → ControlPlane
update_job id f s = record s { jobs = update (λ j. j.id == id) f s.jobs }

-- `COALESCE($n, column)` of a parameter that is never null.
abbrev pub coalesce : Option String → String → String
coalesce none old = old
coalesce (some v) old = v

-- The values that a caller of the job updates may give; what it leaves out is as in `no_values`.
pub record JobValues : Type 0 where
  pub status : Option String
  pub current_step : Option String
  pub bullmq_job_id : Option String
  pub error_code : Option String
  pub error_message : Option String
  pub started : Bool
  pub finished : Bool
  pub clear_finished : Bool
  pub increment_attempt : Bool

abbrev pub no_values : JobValues
no_values = record {
  status = none;
  current_step = none;
  bullmq_job_id = none;
  error_code = none;
  error_message = none;
  started = false;
  finished = false;
  clear_finished = false;
  increment_attempt = false;
}

-- `String(error?.message || error)`, of an error with a message.
abbrev pub message_of : Thrown → String
message_of (app _ message _) = message
message_of (other message) = message

-- `.slice(0, n)`, over characters.
unfoldable pub slice_to : ℕ → String → String
slice_to zero s = ""
slice_to (suc n) String.[] = ""
slice_to (suc n) (String.◌∷◌ c s) = cons c (slice_to n s)
