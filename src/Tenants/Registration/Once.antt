-- ===== src/Tenants/Registration/Once.antt =====
-- A registration is made once for each idempotency key.
use hippo_build_x.Prelude.{◌++◌ as append}
use hippo_build_x.Prelude.{
  ℕ, String, ◌≡◌, refl, sym, ap, subst, ◌∙◌, inl, inr, false, not, ◌&&◌, Option, none, some, List,
  [], ◌∷◌, any, find, Bool-cases, or_false, ◌==◌, eq_iff, eq_refl,
}
use hippo_build_x.Prelude.Effect.{Result, ok, err, bind_result}
use hippo_build_x.Provisioning.ControlPlane.{Tenant, Job, ControlPlane, exec_on}
use hippo_build_x.Tenants.Registration.{
  Valid, Fresh, is_live, with_tenant, find_replay, Registered, replay, created, new_tenant, new_job,
  violates, insert_both, insert_registration, create_locked, create_in_transaction, register_from,
  register,
}

-- Where no job has the key, a job that is added is the one that is found.
find_replay-append :
    (key : String) (ts : List Tenant) (js : List Job) (j : Job)
    → any (λ k. k.idempotency_key == key) js ≡ false
    → j.idempotency_key ≡ key
    → find_replay key ts (append js (j ∷ [])) ≡ with_tenant j (find (is_live j.tenant_id) ts) none
unfolding find_replay
find_replay-append key ts [] j h e = rw ((eq_iff j.idempotency_key key).1 e)
find_replay-append key ts (k ∷ ks) j h e =
    let (other, rest) =
      or_false (k.idempotency_key == key) (any (λ x. x.idempotency_key == key) ks) h in
    rw other (find_replay-append key ts ks j rest e)

find_live-append :
    (ts : List Tenant) (t : Tenant)
    → any (λ u. u.id == t.id) ts ≡ false
    → t.deleted ≡ false
    → find (is_live t.id) (append ts (t ∷ [])) ≡ some t
find_live-append [] t h live = rw (eq_refl t.id) (rw live)
find_live-append (u ∷ us) t h live =
    let (other, rest) = or_false (u.id == t.id) (any (λ x. x.id == t.id) us) h in
    rw other (find_live-append us t rest live)

-- What a transaction that has created a registration ensures.
pub record Found (key : String) (t : Tenant) (j : Job) (faults : List (Option String))
    (s : ControlPlane) : Type 0 where
  pub found : find_replay key s.tenants s.jobs ≡ some (t, j)
  pub status : j.status ≡ "queued"
  pub current_step : j.current_step ≡ "registered"
  pub no_faults : faults ≡ [] → s.faults ≡ []

abbrev pub Made : String → List (Option String) → Result Registered × ControlPlane → Type 0
Made key faults (ok (created t j), s) = Found key t j faults s
Made key faults (ok (replay t j), s) = Unit
Made key faults (err _, s) = Unit

insert_both-found :
    (f : Fresh) (v : Valid) (key : String) (now : ℕ) (ts : List Tenant) (js : List Job)
    → any (λ t. t.id == f.tenant_id) ts ≡ false
    → any (λ j. j.idempotency_key == key) js ≡ false
    → find_replay key
        (append ts (new_tenant f v now ∷ []))
        (append js (new_job f f.tenant_id key now ∷ []))
      ≡ some (new_tenant f v now, new_job f f.tenant_id key now)
insert_both-found f v key now ts js fresh unused =
    find_replay-append key (append ts (new_tenant f v now ∷ [])) js (new_job f f.tenant_id key now)
      unused refl
    ∙ ap (λ o. with_tenant (new_job f f.tenant_id key now) o none)
        (find_live-append ts (new_tenant f v now) fresh refl)

insert-Made :
    (f : Fresh) (v : Valid) (key : String) (s : ControlPlane) (faults : List (Option String))
    → s.faults ≡ faults
    → any (λ t. t.id == f.tenant_id) s.tenants ≡ false
    → any (λ j. j.idempotency_key == key) s.jobs ≡ false
    → Made key s.faults (
        bind_result
          (exec_on faults (insert_both f v key) s)
          (λ _ s'. (ok (created (new_tenant f v s.now) (new_job f f.tenant_id key s.now)), s')))
insert-Made f v key s [] h fresh unused = record {
  found = insert_both-found f v key s.now s.tenants s.jobs fresh unused;
  status = refl;
  current_step = refl;
  no_faults = λ e. e;
}
insert-Made f v key s (none ∷ rest) h fresh unused = record {
  found = insert_both-found f v key s.now s.tenants s.jobs fresh unused;
  status = refl;
  current_step = refl;
  no_faults = λ e. absurd (cc (sym h ∙ e));
}
insert-Made f v key s (some _ ∷ _) h fresh unused = tt

create-Made :
    (found : Option (Tenant × Job)) (f : Fresh) (v : Valid) (key : String) (s : ControlPlane)
    → any (λ t. t.id == f.tenant_id) s.tenants ≡ false
    → Made key s.faults (create_locked found f v key s)
unfolding create_locked insert_registration
create-Made (some (t, j)) f v key s fresh = tt
create-Made none f v key s fresh =
    elim (Bool-cases (any (λ t. t.slug == v.slug && not t.deleted) s.tenants)) [
      | inl taken ↦ rw taken tt
      | inr free ↦ elim (Bool-cases (violates f v key s)) [
        | inl breaks ↦ rw free (rw breaks tt)
        | inr holds ↦
            rw free (rw holds (insert-Made f v key s s.faults refl fresh ((or_false _ _ holds).1)))
      ]
    ]

register_from-Made :
    (found : Option (Tenant × Job)) (f : Fresh) (v : Valid) (key : String) (s : ControlPlane)
    → any (λ t. t.id == f.tenant_id) s.tenants ≡ false
    → Made key s.faults (register_from found f v key s)
unfolding register_from create_in_transaction
register_from-Made (some (t, j)) f v key s fresh = tt
register_from-Made none f v key s fresh =
    create-Made (find_replay key s.tenants s.jobs) f v key s fresh

pub register-Made :
    (f : Fresh) (v : Valid) (key : String) (s : ControlPlane)
    → any (λ t. t.id == f.tenant_id) s.tenants ≡ false
    → Made key s.faults (register f v key s)
unfolding register
register-Made f v key s fresh =
    register_from-Made (find_replay key s.tenants s.jobs) f v key s fresh

-- When a registration has been made under an id that no tenant had, a further one with the same
-- idempotency key, whatever its body and its ids, finds the same tenant and job and changes nothing;
-- also in the transaction alone, after a query before it that missed the first registration.
pub register-once :
    (f f' : Fresh) (v v' : Valid) (key : String) (t : Tenant) (j : Job) (s s' : ControlPlane)
    → any (λ u. u.id == f.tenant_id) s.tenants ≡ false
    → register f v key s ≡ (ok (created t j), s')
    → (register f' v' key s' ≡ (ok (replay t j), s'))
      × (create_in_transaction f' v' key s' ≡ (ok (replay t j), s'))
unfolding register register_from create_in_transaction create_locked
register-once f f' v v' key t j s s' fresh h =
    let made = subst (Made key s.faults) h (register-Made f v key s fresh) in
    (rw made.found, rw made.found)
