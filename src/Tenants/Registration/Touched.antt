-- ===== src/Tenants/Registration/Touched.antt =====
-- The job and the tenant that have an idempotency key, after an update of one job.
use hippo_build_x.Prelude.{
  String, ◌≡◌, refl, ap, ◌∙◌, inl, inr, Option, none, some, List, [], ◌∷◌, find, update, Bool-cases,
  if◌then◌else◌, ◌==◌,
}
use hippo_build_x.Provisioning.ControlPlane.{Tenant, Job}
use hippo_build_x.Tenants.Registration.{is_live, with_tenant, find_replay}

-- What an update of the job `id` makes of an answer.
abbrev pub touched : String → (Job → Job) → Option (Tenant × Job) → Option (Tenant × Job)
touched id f none = none
touched id f (some (t, j)) = some (t, if j.id == id then f j else j)

found-touched :
    (id : String) (f : Job → Job) (k : Job) (found : Option Tenant)
    (rest rest' : Option (Tenant × Job))
    → rest' ≡ touched id f rest
    → with_tenant (if k.id == id then f k else k) found rest'
      ≡ touched id f (with_tenant k found rest)
found-touched id f k none rest rest' h = h
found-touched id f k (some t) rest rest' h = refl

abbrev changed : String → (Job → Job) → Job → Job
changed id f k = if k.id == id then f k else k

changed-kept :
    {A : Type 0} (get : Job → A) (id : String) (f : Job → Job) (k : Job)
    → get (f k) ≡ get k
    → get (changed id f k) ≡ get k
changed-kept get id f k same = elim (Bool-cases (k.id == id)) [
  | inl here ↦ rw here same
  | inr there ↦ rw there refl
]

abbrev or_next :
    String → List Tenant → Job → String → String → Option (Tenant × Job) → Option (Tenant × Job)
or_next key ts k job_key owner rest =
    if job_key == key then with_tenant k (find (is_live owner) ts) rest else rest

-- An update of one job that keeps keys and owners changes in the answer the job only.
pub find_replay-update :
    (key id : String) (f : Job → Job) (ts : List Tenant) (js : List Job)
    → ((k : Job) → (f k).idempotency_key ≡ k.idempotency_key)
    → ((k : Job) → (f k).tenant_id ≡ k.tenant_id)
    → find_replay key ts (update (λ k. k.id == id) f js) ≡ touched id f (find_replay key ts js)
unfolding find_replay
find_replay-update key id f ts [] same owner = refl
find_replay-update key id f ts (k ∷ ks) same owner =
    let rest = find_replay key ts (update (λ j. j.id == id) f ks) in
    let ih = find_replay-update key id f ts ks same owner in
    let k' = changed id f k in
    ap (λ x. or_next key ts k' x k'.tenant_id rest)
      (changed-kept (λ j. j.idempotency_key) id f k (same k))
    ∙ ap (λ x. or_next key ts k' k.idempotency_key x rest)
        (changed-kept (λ j. j.tenant_id) id f k (owner k))
    ∙ elim (Bool-cases (k.idempotency_key == key)) [
      | inl mine ↦
          rw mine
            (found-touched id f k (find (is_live k.tenant_id) ts) (find_replay key ts ks) rest ih)
      | inr other ↦ rw other ih
    ]
