-- ===== src/Ai/Guarded.antt =====
-- Which calls of the AI service reach a provider.
use hippo_build_x.Prelude.{
  String, ◌≡◌, ◌≢◌, refl, inl, inr, Bool, true, none, some, [], ◌∷◌, ◌++◌, find, find-append,
  includes, Bool-cases, ◌==◌, eq_iff,
}
use hippo_build_x.Prelude.Effect.{err}
use hippo_build_x.Ai.{
  Provider, AiService, blocked, blocked_actions, is_action_allowed, enforce_ai_guardrail,
  resolve_provider, register_provider, generate,
}

-- A blocked action throws and reaches no provider, whichever are registered.
pub generate-blocked :
    (prompt action : String) (s : AiService)
    → action ≢ ""
    → includes blocked_actions action ≡ true
    → generate prompt (some action) s ≡ (err (blocked action), s)
unfolding generate enforce_ai_guardrail is_action_allowed
generate-blocked prompt action s ne h = elim (Bool-cases (action == "")) [
  | inl blank ↦ absurd (ne ((eq_iff action "").0 blank))
  | inr given ↦ rw given (rw h refl)
]

-- A provider that is available answers whatever is registered after it, as the default or not: a later
-- default provider gets no call.
pub generate-default :
    (prompt : String) (first later : Provider) (is_default : Bool) (s : AiService)
    → find (λ p. p.is_available) s.providers ≡ some first
    → let (out, s') = generate prompt none (register_provider later is_default s) in
      (out ≡ first.answer prompt) × (s'.calls ≡ s.calls ++ (first.name, prompt) ∷ [])
unfolding generate register_provider resolve_provider
generate-default prompt first later is_default s h =
    rw (find-append (λ p. p.is_available) s.providers (later ∷ []) first h) (refl, refl)
