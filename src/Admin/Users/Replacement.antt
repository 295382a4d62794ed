-- ===== src/Admin/Users/Replacement.antt =====
-- The roles of a user after a PATCH that names one.
use hippo_build_x.Prelude.{
  String, ◌≡◌, refl, ap, ◌∙◌, inl, inr, Bool, true, false, not, ◌&&◌, ◌||◌, Option, none, some,
  List, [], ◌∷◌, ◌++◌, any, filter, find, update, or_null, truthy, Bool-cases, eq_refl, ◌==◌,
  if◌then◌else◌, arith,
}
use hippo_build_x.Prelude.Effect.{ok, err, other, then_result}
use hippo_build_x.Rbac.Context.{JsString, undefined, null, str, strict_eq}
use hippo_build_x.Auth.Tables.{UserRow, UserRole, Store}
use hippo_build_x.Auth.Sessions.{is_user, live_roles}
use hippo_build_x.Admin.Users.{
  Caller, UserPatch, is_given, has_id, has_fields, is_role_id, insert_user_role, update_user,
  ends_access, revoke_if_ended, remove_roles, replace_role, check_patch, write_patch, patch_user,
}

-- The assignment that a PATCH inserts.
abbrev pub assigned : Caller → String → UserPatch → String → UserRole
assigned c id b role_id = record {
  tenant_id = c.tenant_id;
  user_id = id;
  role_id = role_id;
  project_id = or_null b.project_id;
  location_id = or_null b.location_id;
  deleted = false;
}

module _ {A : Type 0} (p : A → Bool) where
  filter-update_none :
      (f : A → A) (xs : List A) → ((x : A) → p (f x) ≡ false) → filter p (update p f xs) ≡ []
  filter-update_none f [] h = refl
  filter-update_none f (x ∷ xs) h = elim (Bool-cases (p x)) [
    | inl hit ↦ rw hit (rw (h x) (filter-update_none f xs h))
    | inr miss ↦ rw miss (rw miss (filter-update_none f xs h))
  ]

  filter-append_one :
      (xs : List A) (x : A) → filter p xs ≡ [] → p x ≡ true → filter p (xs ++ x ∷ []) ≡ x ∷ []
  filter-append_one [] x e h = rw h refl
  filter-append_one (y ∷ xs) x e h = elim (Bool-cases (p y)) [
    | inl hit ↦ ground (arith, rw hit at e)
    | inr miss ↦ rw miss (filter-append_one xs x (rw miss at e) h)
  ]

module _ (hash_password : String → String) (c : Caller) (id : String) (b : UserPatch) where
  removed :
      (rows : List UserRole)
      → live_roles c.tenant_id id (remove_roles hash_password c id b rows) ≡ []
  unfolding remove_roles
  removed rows =
      filter-update_none (λ r. r.tenant_id == c.tenant_id && (r.user_id == id && not r.deleted))
        (λ r. record r { deleted = true }) rows (λ r. ground arith)

  ends_nothing : has_fields b ≡ false → ends_access hash_password c id b ≡ false
  ends_nothing h = go b.status (ground (arith, h))
    where
      go :
          (status : JsString)
          → is_given status ≡ false
          → (strict_eq status (str "suspended") || strict_eq status (str "inactive")) ≡ false
      go undefined k = refl
      go null k = cc
      go (str value) k = cc

  revoke_nothing :
      has_fields b ≡ false → (s : Store) → revoke_if_ended hash_password c id b s ≡ (ok tt, s)
  unfolding revoke_if_ended
  revoke_nothing h s = rw (ends_nothing h) refl

  update_nothing :
      has_fields b ≡ false → (s : Store) → update_user hash_password c id b s ≡ (ok tt, s)
  unfolding update_user
  update_nothing h s = rw h refl

  -- Without fields, a PATCH writes the role alone.
  write_patch-role :
      has_fields b ≡ false
      → (s : Store)
      → write_patch hash_password c id b s ≡ replace_role hash_password c id b (or_null b.role_id) s
  unfolding write_patch
  write_patch-role h s =
      let revoke = revoke_if_ended hash_password c id b in
      let replace = replace_role hash_password c id b (or_null b.role_id) in
      ap (λ r. then_result (then_result r revoke) replace) (update_nothing h s)
      ∙ ap (λ r. then_result r replace) (revoke_nothing h s)

  -- A PATCH of a user who exists that names nothing but a role: when the role exists, it answers the
  -- user, whose only role it then is; when it does not, it throws, and the user is left with no role.
  pub patch_user-roles :
      (u : UserRow) (role_id : String) (s : Store)
      → find (is_user c.tenant_id id) s.users ≡ some u
      → has_fields b ≡ false
      → or_null b.role_id ≡ some role_id
      → let known = any (is_role_id c role_id) s.roles in
        let (answer, s') = patch_user hash_password c id b s in
        (answer ≡ (
          if known
          then ok (find (has_id c.tenant_id id) s.users)
          else err (other "violates foreign key constraint")))
        × (live_roles c.tenant_id id s'.user_roles
            ≡ (if known then assigned c id b role_id ∷ [] else []))
  unfolding patch_user check_patch replace_role insert_user_role
  patch_user-roles u role_id s found none_given role =
      let named = names_role b.role_id role in
      elim (Bool-cases (any (is_role_id c role_id) s.roles)) [
        | inl known ↦
            rw (found, none_given, named, write_patch-role none_given s, role, known)
              (
                refl,
                filter-append_one _ (remove_roles hash_password c id b s.user_roles)
                    (assigned c id b role_id) (removed s.user_roles)
                    (rw (eq_refl c.tenant_id, eq_refl id) refl),
              )
        | inr unknown ↦
            rw (found, none_given, named, write_patch-role none_given s, role, unknown)
              (refl, removed s.user_roles)
      ]
    where
      names_role : (r : Option String) → or_null r ≡ some role_id → truthy r ≡ true
      names_role none e = cc
      names_role (some r) e = ground (arith, e)
