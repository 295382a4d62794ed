-- ===== src/Notifications/Sent.antt =====
-- What a message over several channels gives.
use mathlib.Core.Option.{some-injective}
use hippo_build_x.Prelude.{
  String, ◌≡◌, refl, subst, ◌∙◌, inl, inr, Option, none, some, List, [], ◌∷◌, All, map, find,
  find-holds, Bool-cases, ◌==◌, eq_iff,
}
use hippo_build_x.Prelude.Effect.{Result, ok, err}
use hippo_build_x.Notifications.{Delivery, Adapter, caught, through, send, send_multi_channel}

module _ {P W : Type 0} where
  -- An adapter that answers for its own channel.
  abbrev pub Answers : Adapter P W → Type 0
  Answers a = (p : P) (w w' : W) (d : Delivery) → a.send p w ≡ (ok d, w') → d.channel ≡ a.channel

  found-Answers :
      (c : String) (adapters : List (Adapter P W)) (a : Adapter P W)
      → All Answers adapters
      → find (λ b. b.channel == c) adapters ≡ some a
      → Answers a
  found-Answers c [] a h e = absurd (cc e)
  found-Answers c (b ∷ bs) a (h, hs) e = elim (Bool-cases (b.channel == c)) [
    | inl here ↦ subst Answers (some-injective b a (rw here at e)) h
    | inr there ↦ found-Answers c bs a hs (rw there at e)
  ]

  through-channel :
      (c : String) (payload : P) (found : Option (Adapter P W)) (w : W)
      → ((a : Adapter P W) → found ≡ some a → Answers a × (a.channel ≡ c))
      → (through c payload found w).0.channel ≡ c
  through-channel c payload none w h = refl
  through-channel c payload (some a) w h = sent (a.send payload w) refl
    where
      sent : (r : Result Delivery × W) → a.send payload w ≡ r → (caught c r).0.channel ≡ c
      sent (ok d, w') e = (h a refl).0 payload w w' d e ∙ (h a refl).1
      sent (err x, w') e = refl

  -- A message over several channels never throws: it gives one result for each channel, in their
  -- order, though adapters throw or are missing, when each adapter names its own channel in what it
  -- returns.
  pub send_multi_channel-channels :
      (adapters : List (Adapter P W)) (channels : List String) (payload : P) (w : W)
      → All Answers adapters
      → map (λ d. d.channel) (send_multi_channel adapters channels payload w).0 ≡ channels
  unfolding send_multi_channel send
  send_multi_channel-channels adapters [] payload w h = refl
  send_multi_channel-channels adapters (c ∷ cs) payload w h =
      let found = find (λ a. a.channel == c) adapters in
      rw
        (through-channel c payload found w (λ a e. (
          found-Answers c adapters a h e,
          (eq_iff a.channel c).0 (find-holds (λ b. b.channel == c) adapters a e),
        )))
        (rw (send_multi_channel-channels adapters cs payload (through c payload found w).1 h) refl)
