-- ===== src/Tests/Services.antt =====
-- The AI service, notifications and the middleware on concrete inputs.
use hippo_build_x.Prelude.{ℕ, String, ◌≡◌, refl, Bool, true, false, none, some, [], ◌∷◌, map, ◌+◌}
use hippo_build_x.Prelude.Effect.{ok, err, other}
use hippo_build_x.Ai.{
  Provider, AiService, blocked, check_usage_limits, generate, is_action_allowed,
  enforce_ai_guardrail, resolve_provider,
}
use hippo_build_x.Notifications.{Adapter, register_adapter, send, send_multi_channel}
use hippo_build_x.Api.Middleware.{is_public, starts_with, redirect, middleware}

abbrev provider : String → Bool → Provider
provider name up = record { name = name; is_available = up; answer = λ p. ok name }

abbrev service : AiService
service = record {
  providers = provider "down" false ∷ provider "first" true ∷ [];
  default_provider = some (provider "down" false);
  calls = [];
}

ai_runs :
    ((generate "p" (some "summarize") service).0 ≡ ok "first")
    × (check_usage_limits 7 5 ≡ record { within_limit = false; remaining = 0 })
unfolding generate enforce_ai_guardrail is_action_allowed resolve_provider check_usage_limits
ai_runs = (refl, refl)

abbrev mail : Adapter String ℕ
mail = record {
  channel = "email";
  send = λ p w.
      (ok (record { success = true; message_id = some p; error = none; channel = "email" }), w + 1);
}

abbrev broken : Adapter String ℕ
broken = record { channel = "sms"; send = λ p w. (err (other "no route"), w) }

services_refuse :
    (generate "p" (some "change_stock") service ≡ (err (blocked "change_stock"), service))
    × (map
          (λ d. d.success)
          (send_multi_channel (mail ∷ broken ∷ []) ("sms" ∷ "push" ∷ "email" ∷ []) "hello" 0).0
        ≡ false ∷ false ∷ true ∷ [])
unfolding generate enforce_ai_guardrail is_action_allowed send_multi_channel send
services_refuse = (refl, refl)

adapters_run :
    (map (λ a. a.channel) (register_adapter mail (broken ∷ [])) ≡ "sms" ∷ "email" ∷ [])
    × ((send (mail ∷ broken ∷ []) "sms" "hello" 0).0.error ≡ some "no route")
unfolding register_adapter send
adapters_run = (refl, refl)

private_page :
    middleware "/projects/p1" none (some "Basic x") (some "r1") "fresh" ≡ redirect "/login"
unfolding middleware is_public starts_with
private_page = refl
