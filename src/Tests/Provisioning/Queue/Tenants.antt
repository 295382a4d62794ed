-- ===== src/Tests/Provisioning/Queue/Tenants.antt =====
-- Registrations and retries on a concrete control plane.
use mathlib.Core.Bool.{false≢true}
use hippo_build_x.Prelude.{
  String, ◌≡◌, ◌≢◌, refl, ◌⊎◌, true, false, none, some, [], ◌∷◌, All, filter, eq_iff,
}
use hippo_build_x.Prelude.Effect.{ok, err, app}
use hippo_build_x.Shared.Errors.{validation}
use hippo_build_x.Shared.Errors.ErrorCode
use hippo_build_x.Provisioning.ControlPlane.{ControlPlane}
use hippo_build_x.Provisioning.Queue.{Queues, queued}
use hippo_build_x.Provisioning.Queue.Refused.{never_sync, working, is_active}
use hippo_build_x.Tenants.Registration.{
  Creation, Valid, Fresh, slug_rest, validate_slug, at_later, dot_later, is_email, given, checked,
  validate_creation, find_replay, replay, created, new_tenant, new_job, insert_registration,
  create_locked, create_in_transaction, register_from, register, existing, enqueued, post_tenant,
}
use hippo_build_x.Tenants.Registration.Once.{register-once}
use hippo_build_x.Tenants.Registration.Resumed.{post_tenant-resumed}
use hippo_build_x.Tenants.Retry.Once.{post_retry-once}
use hippo_build_x.Tenants.Retry.{is_failed, RetryReply, Draw, retry_from, retry_of, post_retry}
use hippo_build_x.Tests.Provisioning.{tenant, plane}
use hippo_build_x.Tests.Provisioning.Queue.{accepts, refuses, lost, stages, lost-transient}

abbrev fresh : String → String → Fresh
fresh id job = record {
  tenant_id = id;
  schema_name = "tenant_2";
  job_id = job;
  requested_by = some "op";
}

abbrev body : Creation
body = record {
  name = some "Green Valley";
  slug = some "green-valley";
  admin_email = some "a@b.co";
  isolation_mode = none;
}

abbrev valid : Valid
valid = record { name = "Green Valley"; slug = "green-valley" }

validation_runs :
    (validate_creation body ≡ ok valid)
    × (validate_creation (record body { admin_email = some "a@b." })
        ≡ err (validation "A valid admin email is required"))
    × (validate_slug "green--valley" ≡ false)
    × (validate_slug "-green" ≡ false)
    × (validate_slug "green2-v" ≡ true)
unfolding validate_creation given checked validate_slug slug_rest is_email at_later dot_later
validation_runs = (refl, refl, refl, refl, refl)

abbrev key : String
key = "tenant-create:green-valley"

abbrev nothing_yet : ControlPlane
nothing_yet = record { tenants = []; jobs = []; now = 7; faults = [] }

abbrev queues : Queues
queues = record { plane = nothing_yet; unavailable = none; open_queue = false }

abbrev new_rows : ControlPlane
new_rows = record nothing_yet {
  tenants = new_tenant (fresh "t2" "j2") valid 7 ∷ [];
  jobs = new_job (fresh "t2" "j2") "t2" key 7 ∷ [];
}

registered : register (fresh "t2" "j2") valid key nothing_yet ≡ (
  ok (created (new_tenant (fresh "t2" "j2") valid 7) (new_job (fresh "t2" "j2") "t2" key 7)),
  new_rows,
)
unfolding register register_from create_in_transaction create_locked insert_registration find_replay
registered = refl

register-once_example :
    (register (fresh "t3" "j3") valid key new_rows ≡ (
      ok (replay (new_tenant (fresh "t2" "j2") valid 7) (new_job (fresh "t2" "j2") "t2" key 7)),
      new_rows,
    ))
    × (create_in_transaction (fresh "t3" "j3") valid key new_rows ≡ (
      ok (replay (new_tenant (fresh "t2" "j2") valid 7) (new_job (fresh "t2" "j2") "t2" key 7)),
      new_rows,
    ))
register-once_example =
    register-once (fresh "t2" "j2") (fresh "t3" "j3") valid valid key
      (new_tenant (fresh "t2" "j2") valid 7) (new_job (fresh "t2" "j2") "t2" key 7) nothing_yet
      new_rows refl registered

body_valid : validate_creation body ≡ ok valid
unfolding validate_creation given checked validate_slug slug_rest is_email at_later dot_later
body_valid = refl

job_named : ◌≢◌ {A = String} "j2" ""
job_named h = absurd (false≢true ((eq_iff "j2" "").1 h))

post_tenant-resumed_example :
    let (out, q') =
      post_tenant never_sync (refuses lost) stages body none (fresh "t2" "j2") (working queues) in
    let (out', q'') = post_tenant never_sync accepts stages body none (fresh "t3" "j3") q' in
    (out ≡ err lost)
    × (out'
        ≡ ok (record {
          status = 200;
          tenant = some (new_tenant (fresh "t2" "j2") valid 7);
          mode = enqueued (queued "tenant-provision-j2");
          idempotent_replay = true;
        }))
    × (q''.plane.tenants ≡ new_rows.tenants)
    × All
        (λ k.
          (k.id ≢ "j2")
          ⊎ ((k.status ≡ "queued")
              × (k.current_step ≡ "queued")
              × (k.bullmq_job_id ≡ some "tenant-provision-j2")))
        q''.plane.jobs
post_tenant-resumed_example =
    post_tenant-resumed (refuses lost) accepts stages body none (fresh "t2" "j2") (fresh "t3" "j3")
      valid (new_tenant (fresh "t2" "j2") valid 7) (new_job (fresh "t2" "j2") "t2" key 7) queues
      new_rows lost body_valid refl registered job_named refl lost-transient refl

abbrev draw : Draw
draw = record { job_id = "j9"; uuid = "u"; requested_by = none }

retry_runs :
    ((post_retry never_sync accepts stages "t1" none draw
        (working (record queues { plane = plane "active" }))).0
      ≡ err (
          app ErrorCode.invalid_state_transition
            "Provisioning can be retried only for failed tenants; current status is active" 409))
    × ((post_retry never_sync accepts stages "t7" none draw (working queues)).0
        ≡ err (app ErrorCode.tenant_not_found "Tenant not found" 404))
unfolding post_retry retry_of retry_from
retry_runs = (refl, refl)

abbrev failed_green : Queues
failed_green = record queues { plane = plane "failed" }

retry_named : ◌≢◌ {A = String} "j9" ""
retry_named h = absurd (false≢true ((eq_iff "j9" "").1 h))

key_named : ◌≢◌ {A = String} "again" ""
key_named h = absurd (false≢true ((eq_iff "again" "").1 h))

post_retry-once_example :
    let (out, q') =
      post_retry never_sync accepts stages "t1" (some "again") draw (working failed_green) in
    let (out', q'') = post_retry never_sync accepts stages "t1" (some "again") draw q' in
    ((r : RetryReply) × (out ≡ ok r)
      × (r.mode ≡ enqueued (queued "tenant-provision-j9"))
      × (r.idempotent_replay ≡ false))
    × All (λ u. is_failed "t1" u ≡ false) q'.plane.tenants
    × (filter is_active q'.plane.tenants ≡ filter is_active failed_green.plane.tenants)
    × ((r : RetryReply) × (out' ≡ ok r) × (r.mode ≡ existing) × (r.idempotent_replay ≡ true))
    × (q'' ≡ q')
post_retry-once_example =
    post_retry-once accepts stages "t1" "again" draw draw (tenant "failed") failed_green key_named
      refl refl refl retry_named refl
