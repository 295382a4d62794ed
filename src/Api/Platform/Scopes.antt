-- ===== src/Api/Platform/Scopes.antt =====
-- A token of a tenant is no token of the platform.
use hippo_build_x.Prelude.{
  String, ◌≡◌, refl, ap, ◌∙◌, inl, inr, false, Option, none, some, List, or_null, Bool-cases, ◌==◌,
}
use hippo_build_x.Prelude.Effect.{ok, err}
use hippo_build_x.Auth.Tables.{TenantRow, Store}
use hippo_build_x.Auth.Request.{Payload, RequestContext, is_platform, resolve_auth_from_request}
use hippo_build_x.Auth.Request.Trust.{resolve_auth_from_request-Accepts}
use hippo_build_x.Api.Platform.{
  PlatformRow, required, platform_claims, platform_payload, platform_token, key_matches,
  resolve_platform_auth,
}

claims_refused :
    (rows : List PlatformRow) (sub scope : Option String)
    → is_platform scope ≡ false
    → platform_claims rows sub scope ≡ err required
unfolding platform_claims
claims_refused rows none scope h = refl
claims_refused rows (some sub) scope h = elim (Bool-cases (sub == "")) [
  | inl blank ↦ rw blank
  | inr given ↦ rw (given, h)
]

token_refused :
    (verify : String → Option Payload) (rows : List PlatformRow) (t : String) (p : Payload)
    → verify t ≡ some p
    → is_platform p.scope ≡ false
    → platform_token verify rows (or_null (some t)) ≡ err required
unfolding platform_token platform_payload
token_refused verify rows t p e h = elim (Bool-cases (t == "")) [
  | inl blank ↦ rw blank
  | inr given ↦ rw given (rw e (claims_refused rows p.sub p.scope h))
]

-- A token with which a request passes as a tenant's user does not pass as a platform user: without
-- the API key, `resolvePlatformAuth` throws the error 401.
pub resolve_platform_auth-of_tenant_token :
    (verify : String → Option Payload) (tenants : List TenantRow) (token : Option String)
    (s : Store) (ctx : RequestContext) (expected key : Option String) (rows : List PlatformRow)
    → resolve_auth_from_request verify tenants token s ≡ ok ctx
    → key_matches expected key ≡ false
    → resolve_platform_auth expected verify rows key token ≡ err required
unfolding resolve_platform_auth
resolve_platform_auth-of_tenant_token verify tenants token s ctx expected key rows h k =
    let (t, p, same, verified, trusted) =
      resolve_auth_from_request-Accepts verify tenants token s ctx h in
    rw k (
      ap (λ x. platform_token verify rows (or_null x)) same
      ∙ token_refused verify rows t p verified trusted.no_platform)
