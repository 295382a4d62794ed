-- ===== src/Admin/Users/Create/Login.antt =====
-- A user whom an administrator has created can log in.
use hippo_build_x.Prelude.{
  suc, String, ◌≡◌, refl, sym, subst, ap, ◌∙◌, inl, inr, true, false, not, ◌&&◌, Option, none, some,
  List, [], ◌∷◌, ◌++◌, any, find, find-append_new, or_null, Bool-cases, eq_refl, ◌==◌,
}
use hippo_build_x.Prelude.Effect.{Result, ok, err}
use hippo_build_x.Auth.Tables.{TenantRow, UserRow, Store}
use hippo_build_x.Auth.Sessions.{
  External, Meta, Authz, Issued, tenant_sql, is_user, authorise, load_user_authz, issue_session,
  issue_for, is_login, login_user, login_tenant, login_with_password,
}
use hippo_build_x.Admin.Users.{Caller, is_role_id, insert_user_role}
use hippo_build_x.Admin.Users.Create.{
  NewUser, is_address, holds_email, new_user, insert_user, first_role, add_user, post_user,
}

module _ (x : External) (hash_password : String → String) (c : Caller) (b : NewUser) where
  -- What a POST that returns has done.
  record IsCreated (email password : String) (s : Store) (u : UserRow) (s' : Store) : Type 0 where
    pub free : any (is_address x hash_password c email) s.users ≡ false
    pub name : String
    pub row : u ≡ new_user x hash_password c name email password b.status s
    pub users : s'.users ≡ s.users ++ u ∷ []

  abbrev Gives : (UserRow → Store → Type 0) → Result UserRow × Store → Type 0
  Gives P (ok u, s') = P u s'
  Gives P (err e, s') = Unit

  first_role-Gives :
      (role : Option String) (u : UserRow) (s : Store)
      → Gives (λ u' s'. (u' ≡ u) × (s'.users ≡ s.users)) (first_role x hash_password c b role u s)
  unfolding first_role insert_user_role
  first_role-Gives none u s = (refl, refl)
  first_role-Gives (some role_id) u s = elim (Bool-cases (any (is_role_id c role_id) s.roles)) [
    | inl known ↦ rw known (refl, refl)
    | inr unknown ↦ rw unknown tt
  ]

  add_user-Gives :
      (found : Option String) (email password : String) (s : Store)
      → Gives
          (IsCreated email password s)
          (add_user x hash_password c b found (some email) (some password) s)
  unfolding add_user insert_user
  add_user-Gives none email password s = tt
  add_user-Gives (some name) email password s =
      elim (Bool-cases (any (is_address x hash_password c email) s.users)) [
        | inl taken ↦ rw taken tt
        | inr free ↦ elim (Bool-cases (any (holds_email x hash_password c email) s.users)) [
          | inl held ↦ rw (free, held) tt
          | inr fresh ↦ rw (free, fresh) (created free)
        ]
      ]
    where
      u : UserRow
      u = new_user x hash_password c name email password b.status s

      s1 : Store
      s1 = record s { users = s.users ++ u ∷ []; serial = suc s.serial }

      created :
          any (is_address x hash_password c email) s.users ≡ false
          → Gives
              (IsCreated email password s)
              (first_role x hash_password c b (or_null b.role_id) u s1)
      created free =
          weaken (first_role x hash_password c b (or_null b.role_id) u s1)
            (first_role-Gives (or_null b.role_id) u s1)
        where
          weaken :
              (r : Result UserRow × Store)
              → Gives (λ u' s'. (u' ≡ u) × (s'.users ≡ s1.users)) r
              → Gives (IsCreated email password s) r
          weaken (ok u', s') (e, same) = record {
            free = free;
            name = name;
            row = e;
            users = same ∙ ap (λ v. s.users ++ v ∷ []) (sym e);
          }
          weaken (err _, s') h = tt

  post_user-IsCreated :
      (email password : String) (s s' : Store) (u : UserRow)
      → or_null b.email ≡ some email
      → or_null b.password ≡ some password
      → post_user x hash_password c b s ≡ (ok u, s')
      → IsCreated email password s u s'
  unfolding post_user
  post_user-IsCreated email password s s' u e p h =
      subst (Gives (IsCreated email password s)) (rw (e, p) at h)
        (add_user-Gives (or_null b.name) email password s)

-- A login that goes through, for the user with this id.
abbrev pub IsLogin : String → Result (Authz × Issued) × Store → Type 0
IsLogin id (ok (a, issued), s) = a.user_id ≡ id
IsLogin id (err e, s) = ⊥

module _ (x : External) (hash_password : String → String) (t : TenantRow) (b : NewUser) where
  abbrev pub caller : Caller
  caller = record { tenant_id = t.id; schema_name = t.schema_name }

  -- The login of a user who is active, whose row is the first with its id and its address, and whose
  -- password hash accepts the password.
  login_user-passes :
      (u : UserRow) (password raw : String) (meta : Meta) (s : Store)
      → u.status ≡ "active"
      → x.verify_password u.password_hash password ≡ true
      → tenant_sql t.schema_name t.id ≡ ok tt
      → find (is_user t.id u.id) s.users ≡ some u
      → IsLogin u.id (login_user x t (some u) password raw meta s)
  unfolding login_user load_user_authz authorise issue_for issue_session
  login_user-passes u password raw meta s active good bound found =
      rw (active, good, bound, found) (rw active (rw bound refl))

  -- When a POST creates an active user, the new id being no other user's in the tenant, then a login
  -- with the slug of the active tenant, the address and the password of the request goes through, and
  -- is the new user's.
  pub post_user-IsLogin :
      (tenants : List TenantRow) (slug email password raw : String) (meta : Meta) (s s' : Store)
      (u : UserRow)
      → find (λ t. t.slug == slug && not t.deleted) tenants ≡ some t
      → t.status ≡ "active"
      → tenant_sql t.schema_name t.id ≡ ok tt
      → x.verify_password (hash_password password) password ≡ true
      → or_null b.email ≡ some email
      → or_null b.password ≡ some password
      → any (is_user t.id (x.uuid s.serial)) s.users ≡ false
      → post_user x hash_password caller b s ≡ (ok u, s')
      → u.status ≡ "active"
      → IsLogin u.id (login_with_password x tenants slug email password raw meta s')
  unfolding login_with_password login_tenant
  post_user-IsLogin tenants slug email password raw meta s s' u found active bound good e p new_id h
        idle =
      rw (found, ap (λ v. v == "active") active, bound, by_address)
        (login_user-passes u password raw meta s' idle verified bound by_id)
    where
      done : IsCreated x hash_password caller b email password s u s'
      done = post_user-IsCreated x hash_password caller b email password s s' u e p h

      by_address : find (is_login x t.id email) s'.users ≡ some u
      by_address =
          ap (find (is_login x t.id email)) done.users
          ∙ find-append_new (is_login x t.id email) s.users u done.free
              (rw done.row (rw (eq_refl t.id, eq_refl (x.lower email)) refl))

      by_id : find (is_user t.id u.id) s'.users ≡ some u
      by_id =
          ap (find (is_user t.id u.id)) done.users
          ∙ find-append_new (is_user t.id u.id) s.users u
              (ap (λ v. any (is_user t.id v.id) s.users) done.row ∙ new_id)
              (ap (λ v. is_user t.id v.id v) done.row
                ∙ rw (eq_refl t.id, eq_refl (x.uuid s.serial)) refl)

      verified : x.verify_password u.password_hash password ≡ true
      verified = ap (λ v. x.verify_password v.password_hash password) done.row ∙ good
