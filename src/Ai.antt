-- ===== src/Ai.antt =====
-- packages/ai/src: guardrails/index.js and ai-service.js. A provider is a name, whether it is
-- available, and what it answers to a prompt; `calls` are the prompts that providers were given.
pub mod Guarded
use Prim.Native.String.{◌++◌ as join_text}
use hippo_build_x.Prelude.{
  ℕ, ◌-◌, String, Bool, true, false, not, ◌||◌, Option, none, some, List, [], ◌∷◌, ◌++◌, find,
  includes, ltb, or_null, if◌then◌else◌,
}
use hippo_build_x.Prelude.Effect.{Result, ok, err, other, Thrown, bind_result}

abbrev pub blocked_actions : List String
blocked_actions =
    "create_demand_letter" ∷ "record_receipt" ∷ "change_stock" ∷ "create_ledger_entry"
    ∷ "change_payment_plan" ∷ "approve_purchase" ∷ "modify_financial_record"
    ∷ "change_pipeline_stage" ∷ []

unfoldable pub is_action_allowed : String → Bool
is_action_allowed action = not (includes blocked_actions action)

abbrev pub blocked : String → Thrown
blocked action = other (
    join_text "AI action blocked by guardrail: "
      (join_text action ". AI cannot perform write operations."))

unfoldable pub enforce_ai_guardrail : String → Result (Unit {0})
enforce_ai_guardrail action = if is_action_allowed action then ok tt else err (blocked action)

pub record Usage : Type 0 where
  pub within_limit : Bool
  pub remaining : ℕ

-- `checkUsageLimits`, of natural numbers.
unfoldable pub check_usage_limits : ℕ → ℕ → Usage
check_usage_limits current limit = record {
  within_limit = ltb current limit;
  remaining = limit - current;
}

pub record Provider : Type 0 where
  pub name : String
  pub is_available : Bool
  pub answer : String → Result String

pub record AiService : Type 0 where
  pub providers : List Provider
  pub default_provider : Option Provider
  pub calls : List (String × String)

-- `isDefault || !this.defaultProvider`
abbrev pub default_after : Bool → Option Provider → Provider → Option Provider
default_after is_default none p = some p
default_after is_default (some d) p = if is_default then some p else some d

unfoldable pub register_provider : Provider → Bool → AiService → AiService
register_provider p is_default s = record s {
  providers = s.providers ++ p ∷ [];
  default_provider = default_after is_default s.default_provider p;
}

abbrev pub or_unavailable : Option Provider → Result Provider
or_unavailable none = err (other "No AI provider available")
or_unavailable (some p) = ok p

-- `resolveProvider`: the first provider that is available.
unfoldable pub resolve_provider : AiService → Result Provider
resolve_provider s = or_unavailable (find (λ p. p.is_available) s.providers)

abbrev pub ask : String → Provider → AiService → Result String × AiService
ask prompt p s = (p.answer prompt, record s { calls = s.calls ++ (p.name, prompt) ∷ [] })

abbrev pub guard : Option String → Result (Unit {0})
guard none = ok tt
guard (some action) = enforce_ai_guardrail action

unfoldable pub generate : String → Option String → AiService → Result String × AiService
generate prompt action s =
    bind_result (guard (or_null action), s)
      (λ _ s. bind_result (resolve_provider s, s) (ask prompt))
