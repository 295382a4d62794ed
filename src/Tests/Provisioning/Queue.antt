-- ===== src/Tests/Provisioning/Queue.antt =====
-- The client of the provisioning queue on concrete jobs.
mod Tenants
use mathlib.Core.Bool.{false≢true}
use hippo_build_x.Prelude.{String, ◌≡◌, ◌≢◌, refl, true, false, none, eq_iff}
use hippo_build_x.Prelude.Effect.{Result, ok, err, Thrown, other, pure}
use hippo_build_x.Db.Names.{is_safe_schema_name}
use hippo_build_x.Provisioning.ControlPlane.{Action}
use hippo_build_x.Provisioning.Schema.{Stage, provision_tenant_schema, assert_safe_schema_name}
use hippo_build_x.Provisioning.Schema.Ready.{IsReady}
use hippo_build_x.Provisioning.Queue.{
  Payload, Queues, Switches, sync, queued, unsupported_version, transient, fatal, contains,
  classify_queue_failure, update_queue_job, update_job_best_effort, sync_block,
  provision_synchronously, handle_failure_kind, handle_queue_add_failure, after_add,
  enqueue_tenant_provision,
}
use hippo_build_x.Provisioning.Queue.Outcome.{enqueue_tenant_provision-IsReady}
use hippo_build_x.Provisioning.Queue.Refused.{
  never_sync, payload, working, JobShows, Abandoned, enqueue_tenant_provision-transient,
  enqueue_tenant_provision-terminal,
}
use hippo_build_x.Tests.Provisioning.{plane}

abbrev queues : Queues
queues = record { plane = plane "provisioning"; unavailable = none; open_queue = false }

abbrev asked : Payload
asked = payload "t1" "tenant_1" "j1"

abbrev accepts : String → Result (Unit {0})
accepts id = ok tt

abbrev lost : Thrown
lost = other "connect econnrefused 127.0.0.1:6379"

abbrev old_redis : Thrown
old_redis = other "Redis version needs to be greater"

abbrev refuses : Thrown → String → Result (Unit {0})
refuses error id = err error

abbrev stages : Payload → Stage → Action (Unit {0})
stages p which = pure tt

abbrev may_sync : Switches
may_sync = record { provision_sync = false; has_migration_url = true }

classify_runs :
    (classify_queue_failure lost ≡ transient)
    × (classify_queue_failure old_redis ≡ unsupported_version)
    × (classify_queue_failure (other "WRONGTYPE") ≡ fatal)
unfolding classify_queue_failure contains
classify_runs = (refl, refl, refl)

enqueue_runs :
    ((enqueue_tenant_provision never_sync accepts stages asked queues).0
      ≡ ok (queued "tenant-provision-j1"))
    × ((enqueue_tenant_provision never_sync accepts stages
          (record asked { provisioning_job_id = none })
          queues).0
        ≡ err (other "provisioningJobId is required"))
unfolding enqueue_tenant_provision after_add update_job_best_effort
enqueue_runs = (refl, refl)

synchronous :
    (enqueue_tenant_provision may_sync (refuses lost) stages asked (working queues)).0 ≡ ok sync
unfolding enqueue_tenant_provision after_add handle_queue_add_failure handle_failure_kind
    classify_queue_failure contains provision_synchronously sync_block provision_tenant_schema
    assert_safe_schema_name is_safe_schema_name update_job_best_effort update_queue_job
synchronous = refl

abbrev after : Queues
after = (enqueue_tenant_provision may_sync (refuses lost) stages asked (working queues)).1

whole_run :
    enqueue_tenant_provision may_sync (refuses lost) stages asked (working queues)
    ≡ (ok sync, after)
unfolding enqueue_tenant_provision after_add handle_queue_add_failure handle_failure_kind
    classify_queue_failure contains provision_synchronously sync_block provision_tenant_schema
    assert_safe_schema_name is_safe_schema_name update_job_best_effort update_queue_job
whole_run = refl

job_named : ◌≢◌ {A = String} "j1" ""
job_named h = absurd (false≢true ((eq_iff "j1" "").1 h))

tenant_named : ◌≢◌ {A = String} "t1" ""
tenant_named h = absurd (false≢true ((eq_iff "t1" "").1 h))

lost-transient : classify_queue_failure lost ≡ transient
unfolding classify_queue_failure contains
lost-transient = refl

old_redis-terminal : classify_queue_failure old_redis ≢ transient
unfolding classify_queue_failure contains
old_redis-terminal h = cc

enqueue_tenant_provision-terminal_example :
    let (out, q') =
      enqueue_tenant_provision never_sync (refuses old_redis) stages asked (working queues) in
    (out ≡ err old_redis) × Abandoned "t1" "j1" queues.plane q'.plane
enqueue_tenant_provision-terminal_example =
    enqueue_tenant_provision-terminal (refuses old_redis) stages "t1" "tenant_1" "j1" old_redis
      queues tenant_named job_named refl old_redis-terminal
