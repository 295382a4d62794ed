-- ===== src/Tenants/Retry/Once.antt =====
-- A retry of a failed provisioning, and the same request again.
use hippo_build_x.Prelude.{
  ℕ, String, ◌≡◌, ◌≢◌, refl, ◌∙◌, inl, inr, true, false, none, some, List, [], ◌∷◌, ◌++◌, All, any,
  find, filter, update, find-none, find-append_new, find-update, update-None, filter-update,
  Bool-cases, ◌==◌, eq_iff, eq_refl, arith,
}
use mathlib.Core.Bool.{false≢true}
use hippo_build_x.Prelude.Effect.{Result, ok}
use hippo_build_x.Provisioning.ControlPlane.{
  Tenant, Job, ControlPlane, Action, reliable, update_job,
}
use hippo_build_x.Provisioning.Schema.{Stage}
use hippo_build_x.Provisioning.Queue.{Payload, queued, Queues, set_job_row}
use hippo_build_x.Provisioning.Queue.Refused.{never_sync, working, is_active}
use hippo_build_x.Tenants.Registration.{is_live, existing, enqueued, enqueue_registered}
use hippo_build_x.Tenants.Registration.Resumed.{queue_id, waiting, enqueue_registered-accepted}
use hippo_build_x.Tenants.Retry.{
  Draw, job_with, retry_key, retry_job, is_failed, retrying, insert_retry, retry_unless,
  retry_in_transaction, RetryReply, reply_of, dispatch_retry, retry_from, retry_of, post_retry,
}

key_given : (key id uuid : String) → key ≢ "" → retry_key (some key) id uuid ≡ key
key_given key id uuid ne = elim (Bool-cases (key == "")) [
  | inl blank ↦ absurd (ne ((eq_iff key "").0 blank))
  | inr given ↦ rw given refl
]

apart : ◌≢◌ {A = String} "failed" "active"
apart h = absurd (false≢true ((eq_iff "failed" "active").1 h))

inactive : (id : String) (u : Tenant) → is_failed id u ≡ true → is_active u ≡ false
inactive id u h = ground (arith, h, eq_iff u.status "failed", eq_iff u.status "active", apart)

module _ (add : String → Result (Unit {0})) (stage : Payload → Stage → Action (Unit {0})) where
  -- The queues after a retry that the queue takes.
  abbrev pub retried : Draw → Tenant → String → Queues → Queues
  retried d t key q =
      let j = retry_job d t key q.plane.now in
      record q {
        plane =
            update_job j.id (waiting (queue_id add stage j) q.plane.now)
              (insert_retry d t key (reliable q.plane));
        unavailable = none;
        open_queue = true;
      }

  retry_created :
      (d : Draw) (t : Tenant) (key : String) (s : ControlPlane)
      → any (λ j. j.idempotency_key == key) s.jobs ≡ false
      → retry_in_transaction d t key (reliable s)
        ≡ (ok (some (retry_job d t key s.now), true), insert_retry d t key (reliable s))
  unfolding retry_in_transaction retry_unless
  retry_created d t key s fresh = rw (find-none (λ j. j.idempotency_key == key) s.jobs fresh) refl

  retry_dispatched :
      (d : Draw) (t : Tenant) (key : String) (q : Queues)
      → d.job_id ≢ ""
      → add (queue_id add stage (retry_job d t key q.plane.now)) ≡ ok tt
      → dispatch_retry never_sync add stage t
          (some (retry_job d t key q.plane.now), true)
          (working (record q { plane = insert_retry d t key q.plane }))
        ≡ reply_of t
            (retry_job d t key q.plane.now)
            false
            (enqueued (queued (queue_id add stage (retry_job d t key q.plane.now))))
            (retried d t key q)
  unfolding dispatch_retry
  retry_dispatched d t key q named accepts = rw (eq_refl t.id) (
      rw
        (enqueue_registered-accepted add stage t (retry_job d t key q.plane.now)
          (record q { plane = insert_retry d t key q.plane }) refl refl named accepts)
        refl)

  post_retry-first :
      (id key : String) (d : Draw) (t : Tenant) (q : Queues)
      → key ≢ ""
      → find (is_live id) q.plane.tenants ≡ some t
      → t.status ≡ "failed"
      → any (λ j. j.idempotency_key == key) q.plane.jobs ≡ false
      → d.job_id ≢ ""
      → add (queue_id add stage (retry_job d t key q.plane.now)) ≡ ok tt
      → post_retry never_sync add stage id (some key) d (working q)
        ≡ reply_of t
            (retry_job d t key q.plane.now)
            false
            (enqueued (queued (queue_id add stage (retry_job d t key q.plane.now))))
            (retried d t key q)
  unfolding post_retry retry_of retry_from
  post_retry-first id key d t q given found failed fresh named accepts = rw found (
      rw (key_given key t.id d.uuid given) (
        rw (find-none (λ j. j.idempotency_key == key) q.plane.jobs fresh) (
          rw ((eq_iff t.status "failed").1 failed)
            (rw (retry_created d t key q.plane fresh) (retry_dispatched d t key q named accepts)))))

  -- The tenant and the job, found again.
  tenant_again :
      (id : String) (t : Tenant) (now : ℕ) (ts : List Tenant)
      → find (is_live id) ts ≡ some t
      → t.status ≡ "failed"
      → find (is_live id) (update (is_failed t.id) (retrying now) ts) ≡ some (retrying now t)
  tenant_again id t now ts found failed =
      find-update (is_live id) (is_failed t.id) (retrying now) ts t (λ u. refl) found
      ∙ rw (eq_refl t.id) (rw ((eq_iff t.status "failed").1 failed) refl)

  job_again :
      (key : String) (j : Job) (js : List Job)
      → any (λ k. k.idempotency_key == key) js ≡ false
      → j.idempotency_key ≡ key
      → job_with key
          (update (λ k. k.id == j.id) (waiting (queue_id add stage j) j.updated_at) (js ++ j ∷ []))
        ≡ some (waiting (queue_id add stage j) j.updated_at j)
  unfolding set_job_row
  job_again key j js fresh same =
      find-update (λ k. k.idempotency_key == key) (λ k. k.id == j.id)
        (waiting (queue_id add stage j) j.updated_at) (js ++ j ∷ []) j (λ k. refl)
        (find-append_new (λ k. k.idempotency_key == key) js j fresh
          ((eq_iff j.idempotency_key key).1 same))
      ∙ rw (eq_refl j.id) refl

  post_retry-second :
      (id key : String) (d d' : Draw) (t : Tenant) (q : Queues)
      → key ≢ ""
      → find (is_live id) q.plane.tenants ≡ some t
      → t.status ≡ "failed"
      → any (λ j. j.idempotency_key == key) q.plane.jobs ≡ false
      → let j = retry_job d t key q.plane.now in
        post_retry never_sync add stage id (some key) d' (retried d t key q)
        ≡ reply_of
            (retrying q.plane.now t)
            (waiting (queue_id add stage j) q.plane.now j)
            true
            existing
            (retried d t key q)
  unfolding post_retry retry_of retry_from enqueue_registered set_job_row
  post_retry-second id key d d' t q given found failed fresh =
      rw (tenant_again id t q.plane.now q.plane.tenants found failed) (
        rw (key_given key t.id d'.uuid given) (
          rw (job_again key (retry_job d t key q.plane.now) q.plane.jobs fresh refl)
            (rw (eq_refl t.id) refl)))

  -- A retry with a new key, of a tenant that is found and failed, when the queue takes the job, no
  -- statement of the database fails and the job's id is not empty: the answer says that the job is in
  -- the queue, no row of the tenant is failed any more, the active rows of all tenants are as before,
  -- and the same request again answers with a replay and changes nothing.
  pub post_retry-once :
      (id key : String) (d d' : Draw) (t : Tenant) (q : Queues)
      → key ≢ ""
      → find (is_live id) q.plane.tenants ≡ some t
      → t.status ≡ "failed"
      → any (λ j. j.idempotency_key == key) q.plane.jobs ≡ false
      → d.job_id ≢ ""
      → add (queue_id add stage (retry_job d t key q.plane.now)) ≡ ok tt
      → let (out, q') = post_retry never_sync add stage id (some key) d (working q) in
        let (out', q'') = post_retry never_sync add stage id (some key) d' q' in
        ((r : RetryReply) × (out ≡ ok r)
          × (r.mode ≡ enqueued (queued (queue_id add stage (retry_job d t key q.plane.now))))
          × (r.idempotent_replay ≡ false))
        × All (λ u. is_failed t.id u ≡ false) q'.plane.tenants
        × (filter is_active q'.plane.tenants ≡ filter is_active q.plane.tenants)
        × ((r : RetryReply) × (out' ≡ ok r) × (r.mode ≡ existing) × (r.idempotent_replay ≡ true))
        × (q'' ≡ q')
  post_retry-once id key d d' t q given found failed fresh named accepts =
      rw (post_retry-first id key d t q given found failed fresh named accepts) (
        rw (post_retry-second id key d d' t q given found failed fresh) (
          (_, refl, refl, refl),
          update-None (is_failed t.id) (retrying q.plane.now) q.plane.tenants (λ u. ground arith),
          filter-update is_active (is_failed t.id) (retrying q.plane.now) q.plane.tenants
              (λ u h. (inactive t.id u h, refl)),
          (_, refl, refl, refl),
          refl,
        ))
