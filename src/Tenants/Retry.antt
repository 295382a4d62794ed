-- ===== src/Tenants/Retry.antt =====
-- apps/web/src/app/api/v1/platform/tenants/[id]/retry-provisioning/route.js. The id that the INSERT
-- draws, the random UUID of a request without a key and the platform user are arguments; the column
-- `payload` is left out, as in the registration. What the last query reads are the rows of the tenant
-- and of the job.
pub mod Once
use Prim.Native.String.{◌++◌}
use hippo_build_x.Prelude.{◌++◌ as append}
use hippo_build_x.Prelude.{
  ℕ, String, Bool, true, false, not, ◌&&◌, ◌||◌, Option, none, some, List, [], ◌∷◌, find,
  if◌then◌else◌, ◌==◌,
}
use hippo_build_x.Prelude.Effect.{Result, ok, err, app, Thrown, bind_result}
use hippo_build_x.Shared.Errors.ErrorCode
use hippo_build_x.Provisioning.ControlPlane.{Tenant, Job, ControlPlane, Action, exec, update_tenant}
use hippo_build_x.Provisioning.Schema.{Stage}
use hippo_build_x.Provisioning.Queue.{Payload, QueueAction, Switches, on_plane}
use hippo_build_x.Tenants.Registration.{is_live, registered_job, Mode, existing, enqueue_registered}

pub record Draw : Type 0 where
  pub job_id : String
  pub uuid : String
  pub requested_by : Option String

-- `request.headers.get('idempotency-key') || ...`
abbrev pub retry_key : Option String → String → String → String
retry_key none id uuid = "tenant-retry:" ++ id ++ ":" ++ uuid
retry_key (some key) id uuid = if key == "" then "tenant-retry:" ++ id ++ ":" ++ uuid else key

abbrev pub job_with : String → List Job → Option Job
job_with key js = find (λ j. j.idempotency_key == key) js

abbrev pub retry_job : Draw → Tenant → String → ℕ → Job
retry_job d t key now = registered_job d.job_id d.requested_by t.id key now

abbrev pub is_failed : String → Tenant → Bool
is_failed id t = t.id == id && t.status == "failed"

abbrev pub retrying : ℕ → Tenant → Tenant
retrying now t = record t {
  status = "provisioning";
  data_location_status = "retrying";
  updated_at = now;
}

-- The INSERT without a conflict, and the UPDATE of the tenant.
abbrev pub insert_retry : Draw → Tenant → String → ControlPlane → ControlPlane
insert_retry d t key s =
    update_tenant (is_failed t.id) (retrying s.now)
      (record s { jobs = append s.jobs (retry_job d t key s.now ∷ []) })

-- The transaction, from the job that conflicts.
unfoldable pub retry_unless : Option Job → Draw → Tenant → String → Action (Option Job × Bool)
retry_unless (some j) d t key s = (ok (some j, false), s)
retry_unless none d t key s =
    bind_result (exec (insert_retry d t key) s)
      (λ _ s'. (ok (some (retry_job d t key s.now), true), s'))

unfoldable pub retry_in_transaction : Draw → Tenant → String → Action (Option Job × Bool)
retry_in_transaction d t key s = retry_unless (job_with key s.jobs) d t key s

pub record RetryReply : Type 0 where
  pub tenant : Option Tenant
  pub job : Option Job
  pub mode : Mode
  pub idempotent_replay : Bool

-- The answer, with what `loadRetryState` reads after the dispatch.
abbrev pub reply_of : Tenant → Job → Bool → Mode → QueueAction RetryReply
reply_of t j again mode q = (
  ok (record {
    tenant = find (λ u. u.id == t.id) q.plane.tenants;
    job = find (λ x. x.id == j.id) q.plane.jobs;
    mode = mode;
    idempotent_replay = again;
  }),
  q,
)

abbrev pub key_of_other : Thrown
key_of_other =
    app ErrorCode.already_exists "Idempotency key is already associated with another tenant" 409

-- `canDispatchExisting`
abbrev pub can_dispatch : String → Bool
can_dispatch status = status == "failed" || status == "provisioning"

module _ (env : Switches) (add : String → Result (Unit {0}))
    (stage : Payload → Stage → Action (Unit {0})) where
  abbrev pub dispatch_existing : Tenant → Job → QueueAction Mode
  dispatch_existing t j q =
      if can_dispatch t.status then enqueue_registered env add stage t j q else (ok existing, q)

  -- From what the transaction returns.
  unfoldable pub dispatch_retry : Tenant → Option Job × Bool → QueueAction RetryReply
  dispatch_retry t (none, made) q =
      (err (app ErrorCode.internal_error "Unable to create or replay provisioning retry" 500), q)
  dispatch_retry t (some j, made) q =
      if not (j.tenant_id == t.id)
      then (err key_of_other, q)
      else bind_result (enqueue_registered env add stage t j q) (reply_of t j (not made))

  -- From the job that has the key.
  unfoldable pub retry_from : Option Job → Draw → Tenant → String → QueueAction RetryReply
  retry_from (some j) d t key q =
      if not (j.tenant_id == t.id)
      then (err key_of_other, q)
      else bind_result (dispatch_existing t j q) (reply_of t j true)
  retry_from none d t key q =
      if not (t.status == "failed")
      then (
        err (
            app ErrorCode.invalid_state_transition
              ("Provisioning can be retried only for failed tenants; current status is "
                ++ t.status)
              409),
        q,
      )
      else bind_result (on_plane (retry_in_transaction d t key) q) (dispatch_retry t)

  unfoldable pub retry_of : Option Tenant → Option String → Draw → QueueAction RetryReply
  retry_of none key d q = (err (app ErrorCode.tenant_not_found "Tenant not found" 404), q)
  retry_of (some t) key d q =
      let k = retry_key key t.id d.uuid in retry_from (job_with k q.plane.jobs) d t k q

  -- The handler, after `requirePlatformUser`, for the id of the path.
  unfoldable pub post_retry : String → Option String → Draw → QueueAction RetryReply
  post_retry id key d q = retry_of (find (is_live id) q.plane.tenants) key d q
