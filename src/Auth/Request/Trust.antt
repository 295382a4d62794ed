-- ===== src/Auth/Request/Trust.antt =====
-- Whom a request that passes speaks for.
use hippo_build_x.Prelude.{
  String, ◌≡◌, refl, sym, ap, subst, ◌∙◌, inl, inr, Bool, false, not, ◌&&◌, ◌||◌, Option, none,
  some, List, find, find-holds, truthy, Bool-cases, ◌==◌, eq_iff, arith,
}
use mathlib.Core.Bool.{false≢true}
use hippo_build_x.Prelude.Effect.{Result, ok, err, Result-cases}
use hippo_build_x.Auth.Tables.{TenantRow, UserRow, Store}
use hippo_build_x.Auth.Sessions.{
  and_then, tenant_sql, authz_of, is_user, authorise, load_user_authz,
}
use hippo_build_x.Auth.Request.{
  Payload, RequestContext, is_platform, resolve_tenant_record, resolved, resolve_user,
  resolve_claims, resolve_payload, resolve_auth_from_request,
}

-- The context is of the tenant and the user that a payload names, who are active, and the payload is
-- not of a platform token; its authorisation is what the tables give that user.
pub record IsTrusted (tenants : List TenantRow) (p : Payload) (s : Store) (ctx : RequestContext)
    : Type 0 where
  pub claimed_tenant : p.tenant_id ≡ some ctx.tenant_id
  pub claimed_user : p.sub ≡ some ctx.authz.user_id
  pub no_platform : is_platform p.scope ≡ false
  pub tenant : TenantRow
  pub tenant_found : resolve_tenant_record tenants ctx.tenant_id ≡ some tenant
  pub tenant_active : tenant.status ≡ "active"
  pub user : UserRow
  pub user_found : find (is_user ctx.tenant_id ctx.authz.user_id) s.users ≡ some user
  pub user_active : user.status ≡ "active"
  pub authz : ctx.authz ≡ authz_of s ctx.tenant_id user

Trusted : List TenantRow → Payload → Store → Result RequestContext → Type 0
Trusted tenants p s (ok ctx) = IsTrusted tenants p s ctx
Trusted tenants p s (err e) = Unit

-- The row that a query by key gives has that key.
user_key :
    (tenant_id id : String) (s : Store) (u : UserRow)
    → find (is_user tenant_id id) s.users ≡ some u
    → id ≡ u.id
user_key tenant_id id s u e = elim (Bool-cases (u.id == id)) [
  | inl same ↦ sym ((eq_iff u.id id).0 same)
  | inr differs ↦
      absurd (false≢true (sym (misses differs) ∙ find-holds (is_user tenant_id id) s.users u e))
]
  where
    misses : (u.id == id) ≡ false → is_user tenant_id id u ≡ false
    misses d = ground (arith, d)

tenant_key :
    (tenants : List TenantRow) (id : String) (t : TenantRow)
    → resolve_tenant_record tenants id ≡ some t
    → id ≡ t.id
unfolding resolve_tenant_record
tenant_key tenants id t e = elim (Bool-cases (t.id == id)) [
  | inl same ↦ sym ((eq_iff t.id id).0 same)
  | inr differs ↦ absurd (
      false≢true (sym (misses differs) ∙ find-holds (λ t. t.id == id && not t.deleted) tenants t e))
]
  where
    misses : (t.id == id) ≡ false → (t.id == id && not t.deleted) ≡ false
    misses d = ground (arith, d)

authorised-Trusted :
    (tenants : List TenantRow) (p : Payload) (t : TenantRow) (sub : String) (found : Option UserRow)
    (s : Store)
    → resolve_tenant_record tenants t.id ≡ some t
    → t.status ≡ "active"
    → p.tenant_id ≡ some t.id
    → p.sub ≡ some sub
    → is_platform p.scope ≡ false
    → find (is_user t.id sub) s.users ≡ found
    → Trusted tenants p s (and_then (authorise s t.id found) (resolved p t))
unfolding authorise resolved Trusted
authorised-Trusted tenants p t sub none s e active ct cs np f = tt
authorised-Trusted tenants p t sub (some u) s e active ct cs np f =
    elim (Bool-cases (u.status == "active")) [
      | inr idle ↦ rw idle tt
      | inl working ↦ rw working (record {
        claimed_tenant = ct;
        claimed_user = cs ∙ ap some (user_key t.id sub s u f);
        no_platform = np;
        tenant = t;
        tenant_found = e;
        tenant_active = active;
        user = u;
        user_found = ap (λ i. find (is_user t.id i) s.users) (sym (user_key t.id sub s u f)) ∙ f;
        user_active = (eq_iff u.status "active").0 working;
        authz = refl;
      })
    ]

loaded-Trusted :
    (tenants : List TenantRow) (p : Payload) (t : TenantRow) (sub : String) (s : Store)
    → resolve_tenant_record tenants t.id ≡ some t
    → t.status ≡ "active"
    → p.tenant_id ≡ some t.id
    → p.sub ≡ some sub
    → is_platform p.scope ≡ false
    → Trusted tenants p s (and_then (load_user_authz t.schema_name sub t.id s) (resolved p t))
unfolding load_user_authz Trusted
loaded-Trusted tenants p t sub s e active ct cs np =
    elim (Result-cases (tenant_sql t.schema_name t.id)) [
      | inr (_, refused) ↦ rw refused tt
      | inl (_, fine) ↦ rw fine (authorised-Trusted tenants p t sub _ s e active ct cs np refl)
    ]

user-Trusted :
    (tenants : List TenantRow) (p : Payload) (sub id : String) (found : Option TenantRow)
    (s : Store)
    → p.tenant_id ≡ some id
    → p.sub ≡ some sub
    → is_platform p.scope ≡ false
    → resolve_tenant_record tenants id ≡ found
    → Trusted tenants p s (resolve_user p sub found s)
unfolding resolve_user Trusted
user-Trusted tenants p sub id none s ct cs np e = tt
user-Trusted tenants p sub id (some t) s ct cs np e = elim (Bool-cases (t.status == "suspended")) [
  | inl suspended ↦ rw suspended tt
  | inr fresh ↦ elim (Bool-cases (t.status == "active")) [
    | inr idle ↦ rw (fresh, idle) tt
    | inl active ↦
        elim (Bool-cases
          (t.isolation_mode == "dedicated_database" && not (truthy t.database_secret_ref))) [
            | inl unready ↦ rw (fresh, active, unready) tt
            | inr ready ↦
                rw (fresh, active, ready)
                  (loaded-Trusted tenants p t sub s
                    (ap (resolve_tenant_record tenants) (sym (tenant_key tenants id t e)) ∙ e)
                    ((eq_iff t.status "active").0 active) (ct ∙ ap some (tenant_key tenants id t e))
                    cs np)
          ]
  ]
]

last_of : (a b c : Bool) → (a || (b || c)) ≡ false → c ≡ false
last_of a b c h = ground arith

claims-Trusted :
    (tenants : List TenantRow) (p : Payload) (sub id : Option String) (s : Store)
    → p.sub ≡ sub
    → p.tenant_id ≡ id
    → Trusted tenants p s (resolve_claims tenants p sub id s)
unfolding resolve_claims Trusted
claims-Trusted tenants p none id s cs ct = tt
claims-Trusted tenants p (some sub) none s cs ct = tt
claims-Trusted tenants p (some sub) (some id) s cs ct =
    elim (Bool-cases (sub == "" || (id == "" || is_platform p.scope))) [
      | inl bad ↦ rw bad tt
      | inr good ↦ rw good (user-Trusted tenants p sub id _ s ct cs (last_of _ _ _ good) refl)
    ]

-- The token is one that `verify` accepts, and its payload names the tenant and the user.
abbrev pub Accepts :
    (String → Option Payload) → List TenantRow → Option String → Store → RequestContext → Type 0
Accepts verify tenants token s ctx =
    (t : String) × (p : Payload) × (token ≡ some t)
    × (verify t ≡ some p)
    × IsTrusted tenants p s ctx

Accepted :
    (String → Option Payload)
    → List TenantRow
    → Option String
    → Store
    → Result RequestContext
    → Type 0
Accepted verify tenants token s (ok ctx) = Accepts verify tenants token s ctx
Accepted verify tenants token s (err e) = Unit

payload-Accepted :
    (verify : String → Option Payload) (tenants : List TenantRow) (t : String)
    (found : Option Payload) (s : Store)
    → verify t ≡ found
    → Accepted verify tenants (some t) s (resolve_payload tenants found s)
unfolding resolve_payload Accepted Trusted
payload-Accepted verify tenants t none s e = tt
payload-Accepted verify tenants t (some p) s e =
    pass (resolve_claims tenants p p.sub p.tenant_id s)
      (claims-Trusted tenants p p.sub p.tenant_id s refl refl)
  where
    pass :
        (r : Result RequestContext) → Trusted tenants p s r → Accepted verify tenants (some t) s r
    pass (ok ctx) h = (t, p, refl, e, h)
    pass (err _) h = tt

token-Accepted :
    (verify : String → Option Payload) (tenants : List TenantRow) (token : Option String)
    (s : Store)
    → Accepted verify tenants token s (resolve_auth_from_request verify tenants token s)
unfolding resolve_auth_from_request Accepted
token-Accepted verify tenants none s = tt
token-Accepted verify tenants (some token) s = elim (Bool-cases (token == "")) [
  | inl blank ↦ rw blank tt
  | inr given ↦ rw given (payload-Accepted verify tenants token _ s refl)
]

-- A request that passes has a token that verifies and is no platform token; it is in the context of
-- the tenant and the user that the token names, both of them active, the user one of that tenant, with
-- the roles, permissions and scopes that the tables give that user now.
pub resolve_auth_from_request-Accepts :
    (verify : String → Option Payload) (tenants : List TenantRow) (token : Option String)
    (s : Store) (ctx : RequestContext)
    → resolve_auth_from_request verify tenants token s ≡ ok ctx
    → Accepts verify tenants token s ctx
unfolding Accepted
resolve_auth_from_request-Accepts verify tenants token s ctx h =
    subst (Accepted verify tenants token s) h (token-Accepted verify tenants token s)
