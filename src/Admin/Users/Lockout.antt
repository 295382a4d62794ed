-- ===== src/Admin/Users/Lockout.antt =====
-- A user who is suspended, made inactive or deleted by an administrator.
use hippo_build_x.Prelude.{
  String, ◌≡◌, refl, sym, subst, ◌∙◌, ◌⊎◌, inl, inr, true, false, ◌||◌, Option, none, some, List,
  [], ◌∷◌, All, any, find, find-holds, find-All, update, or_null, Bool-cases, eq_iff, ◌==◌, arith,
}
use mathlib.Core.Bool.{false≢true}
use hippo_build_x.Prelude.Effect.{
  Result, ok, Result-cases, Ensures, Ensures-of_ok, Ensures->>, Ensures-then, gets, ◌>>◌,
}
use hippo_build_x.Rbac.Context.{JsString, undefined, null, str, strict_eq}
use hippo_build_x.Auth.Tables.{TenantRow, UserRow, Store}
use hippo_build_x.Auth.Sessions.{tenant_sql, is_user}
use hippo_build_x.Auth.Request.{Payload, RequestContext, resolve_auth_from_request}
use hippo_build_x.Auth.Request.Trust.{resolve_auth_from_request-Accepts}
use hippo_build_x.Auth.Reset.{is_open_of, revoke_all_user_sessions}
use hippo_build_x.Auth.Reset.Laws.{none_open}
use hippo_build_x.Admin.Users.{
  Caller, UserPatch, set_to, has_id, has_fields, breaks, is_role_id, insert_user_role, patched,
  update_user, revoke_if_ended, replace_role, check_patch, write_patch, patch_user, delete_user,
}

-- The user is not active in any row, and has no session that is not revoked.
pub record IsLocked (tenant_id id : String) (s : Store) : Type 0 where
  pub idle : All (λ u. (has_id tenant_id id u ≡ false) ⊎ ((u.status == "active") ≡ false)) s.users
  pub closed : any (is_open_of tenant_id id) s.sessions ≡ false

-- Requests do not speak for a user who is locked, whatever their token.
abbrev pub NoRequest : String → String → Store → Type 0
NoRequest tenant_id id s =
    (verify : String → Option Payload) (tenants : List TenantRow) (token : Option String)
    (ctx : RequestContext)
    → resolve_auth_from_request verify tenants token s ≡ ok ctx
    → ¬ ((ctx.tenant_id ≡ tenant_id) × (ctx.authz.user_id ≡ id))

pub IsLocked-NoRequest :
    (tenant_id id : String) (s : Store) → IsLocked tenant_id id s → NoRequest tenant_id id s
IsLocked-NoRequest tenant_id id s h verify tenants token ctx e (et, eu) =
    let (_, _, _, _, trusted) = resolve_auth_from_request-Accepts verify tenants token s ctx e in
    let found =
      subst (λ i. find (is_user tenant_id i) s.users ≡ some trusted.user) eu
        (subst (λ t. find (is_user t ctx.authz.user_id) s.users ≡ some trusted.user) et
          trusted.user_found) in
    elim (find-All _ (is_user tenant_id id) s.users trusted.user h.idle found) [
      | inl other_user ↦
          ground (arith, find-holds (is_user tenant_id id) s.users trusted.user found, other_user)
      | inr idle ↦
          absurd
            (false≢true (sym idle ∙ (eq_iff trusted.user.status "active").1 trusted.user_active))
    ]

module _ (tenant_id id : String) (f : UserRow → UserRow)
    (idle : (u : UserRow) → ((f u).status == "active") ≡ false) where
  update-idle :
      (users : List UserRow)
      → All
          (λ u. (has_id tenant_id id u ≡ false) ⊎ ((u.status == "active") ≡ false))
          (update (has_id tenant_id id) f users)
  update-idle [] = tt
  update-idle (u ∷ users) = elim (Bool-cases (has_id tenant_id id u)) [
    | inl hit ↦ rw hit (inr (idle u), update-idle users)
    | inr miss ↦ rw miss (inl miss, update-idle users)
  ]

-- The revocation of all sessions locks a user who is not active.
revoke_sessions-IsLocked :
    (c : Caller) (id : String) (s : Store)
    → All (λ u. (has_id c.tenant_id id u ≡ false) ⊎ ((u.status == "active") ≡ false)) s.users
    → Ensures (IsLocked c.tenant_id id) (revoke_all_user_sessions c.schema_name c.tenant_id id s)
unfolding revoke_all_user_sessions
revoke_sessions-IsLocked c id s h = elim (Result-cases (tenant_sql c.schema_name c.tenant_id)) [
  | inr (_, refused) ↦ rw refused tt
  | inl (_, fine) ↦
      rw fine (record { idle = h; closed = none_open c.tenant_id id s.now s.sessions })
]

-- A user whom a DELETE removes is in no request from then on, and has no session that is not
-- revoked, when the DELETE returns.
pub delete_user-locks :
    (c : Caller) (id : String) (s s' : Store)
    → delete_user c id s ≡ (ok tt, s')
    → NoRequest c.tenant_id id s' × (any (is_open_of c.tenant_id id) s'.sessions ≡ false)
unfolding delete_user
delete_user-locks c id s s' h =
    let locked =
      Ensures-of_ok (IsLocked c.tenant_id id) _ tt s'
        (revoke_sessions-IsLocked c id _ (
          update-idle c.tenant_id id (λ u. record u { deleted = true; status = "inactive" })
            (λ u. refl) s.users))
        h in
    (IsLocked-NoRequest c.tenant_id id s' locked, locked.closed)

set_to-idle :
    (status : JsString) (old : String)
    → (strict_eq status (str "suspended") || strict_eq status (str "inactive")) ≡ true
    → (set_to status old == "active") ≡ false
set_to-idle undefined old h = cc
set_to-idle null old h = cc
set_to-idle (str value) old h = elim (Bool-cases (value == "suspended")) [
  | inl suspended ↦ rw ((eq_iff value "suspended").0 suspended) refl
  | inr differs ↦ rw ((eq_iff value "inactive").0 (rw differs at h)) refl
]

given_status :
    (b : UserPatch)
    → (strict_eq b.status (str "suspended") || strict_eq b.status (str "inactive")) ≡ true
    → has_fields b ≡ true
given_status b h = go b.status h
  where
    go :
        (status : JsString)
        → (strict_eq status (str "suspended") || strict_eq status (str "inactive")) ≡ true
        → has_fields (record b { status = status }) ≡ true
    go undefined k = cc
    go null k = ground arith
    go (str value) k = ground arith

module _ (hash_password : String → String) (c : Caller) (id : String) (b : UserPatch)
    (ends : (strict_eq b.status (str "suspended") || strict_eq b.status (str "inactive"))
      ≡ true) where
  Idle : Store → Type 0
  Idle s = All (λ u. (has_id c.tenant_id id u ≡ false) ⊎ ((u.status == "active") ≡ false)) s.users

  update_user-Idle : (s : Store) → Ensures Idle (update_user hash_password c id b s)
  unfolding update_user patched Idle
  update_user-Idle s =
      rw (given_status b ends) (elim (Bool-cases (breaks c.tenant_id id b s.users)) [
        | inl broken ↦ rw broken tt
        | inr fine ↦ rw fine (
            update-idle c.tenant_id id (patched hash_password c id b)
              (λ u. set_to-idle b.status u.status ends) s.users)
      ])

  revoke_if_ended-IsLocked :
      (s : Store)
      → Idle s
      → Ensures (IsLocked c.tenant_id id) (revoke_if_ended hash_password c id b s)
  unfolding revoke_if_ended Idle
  revoke_if_ended-IsLocked s h = rw ends (revoke_sessions-IsLocked c id s h)

  replace_role-IsLocked :
      (role_id : Option String) (s : Store)
      → IsLocked c.tenant_id id s
      → Ensures (IsLocked c.tenant_id id) (replace_role hash_password c id b role_id s)
  unfolding replace_role insert_user_role
  replace_role-IsLocked none s h = h
  replace_role-IsLocked (some role_id) s h =
      elim (Bool-cases (any (is_role_id c role_id) s.roles)) [
        | inl known ↦ rw known (record { idle = h.idle; closed = h.closed })
        | inr unknown ↦ rw unknown tt
      ]

  update_patch : Store → Result (Unit {0}) × Store
  update_patch = update_user hash_password c id b

  revoke_patch : Store → Result (Unit {0}) × Store
  revoke_patch = revoke_if_ended hash_password c id b

  write_patch-IsLocked :
      (s : Store) → Ensures (IsLocked c.tenant_id id) (write_patch hash_password c id b s)
  unfolding write_patch update_patch revoke_patch
  write_patch-IsLocked s =
      Ensures-then (IsLocked c.tenant_id id) (IsLocked c.tenant_id id)
        (update_patch >> revoke_patch) (replace_role hash_password c id b (or_null b.role_id)) s
        (Ensures-then Idle (IsLocked c.tenant_id id) update_patch revoke_patch s
          (update_user-Idle s) revoke_if_ended-IsLocked)
        (replace_role-IsLocked (or_null b.role_id))

  patch_user-IsLocked :
      (s : Store) → Ensures (IsLocked c.tenant_id id) (patch_user hash_password c id b s)
  unfolding patch_user
  patch_user-IsLocked s =
      let check = check_patch hash_password c id b in
      let write = write_patch hash_password c id b in
      Ensures-then (IsLocked c.tenant_id id) (IsLocked c.tenant_id id) (check >> write)
        (gets (λ s. find (has_id c.tenant_id id) s.users)) s
        (Ensures->> (IsLocked c.tenant_id id) check write s (λ _ s1 e. write_patch-IsLocked s1))
        (λ s2 h. h)

  -- A user whose status a PATCH sets to `suspended` or `inactive` is in no request from then on, and
  -- has no session that is not revoked, when the PATCH returns.
  pub patch_user-locks :
      (s s' : Store) (out : Option UserRow)
      → patch_user hash_password c id b s ≡ (ok out, s')
      → NoRequest c.tenant_id id s' × (any (is_open_of c.tenant_id id) s'.sessions ≡ false)
  patch_user-locks s s' out h =
      let locked = Ensures-of_ok (IsLocked c.tenant_id id) _ out s' (patch_user-IsLocked s) h in
      (IsLocked-NoRequest c.tenant_id id s' locked, locked.closed)
