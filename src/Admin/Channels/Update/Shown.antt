-- ===== src/Admin/Channels/Update/Shown.antt =====
-- A PATCH that sends back what a GET has shown.
use hippo_build_x.Prelude.{
  ℕ, String, ◌≡◌, ◌≢◌, refl, sym, subst, ◌∙◌, inl, inr, Bool, true, false, Option, none, some, List,
  [], ◌∷◌, All, length, Bool-cases, eq_iff, ◌==◌, arith,
}
use hippo_build_x.Prelude.Effect.{ok, Ensures-of_ok}
use hippo_build_x.Admin.Channels.Json.{
  Value, text, flag, null, number, array, object, Fields, end, field, get, put, merge,
}
use hippo_build_x.Admin.Channels.Crypto.{
  Env, Primitives, is_secret_name, masked_value, mask_channel_config,
}
use hippo_build_x.Admin.Channels.Crypto.RoundTrip.{IsSound}
use hippo_build_x.Admin.Channels.Definitions.{
  ChannelType, email, sms, whatsapp, secret_fields, ChannelRow, Store, row_of, LegacyChannels,
  fallback_of,
}
use hippo_build_x.Admin.Channels.Current.{config_of_fallback, config_of_row, current_secrets}
use hippo_build_x.Admin.Channels.Show.{shown_channel}
use hippo_build_x.Admin.Channels.Update.{new_secret, next_secrets, write_channel}
use hippo_build_x.Admin.Channels.Update.Stored.{HoldsSecrets, write_channel-stored}

-- The fields with this name are nothing that a PATCH takes for a new secret.
abbrev pub Hides : String → Fields → Type 0
Hides k end = Unit
Hides k (field j v rest) = (j ≡ k → new_secret (some v) ≡ none) × Hides k rest

Hides-get : (k : String) (f : Fields) → Hides k f → new_secret (get k f) ≡ none
unfolding get
Hides-get k end h = refl
Hides-get k (field j v rest) (h, r) = elim (Bool-cases (j == k)) [
  | inl here ↦ rw here (h ((eq_iff j k).0 here))
  | inr there ↦ rw there (Hides-get k rest r)
]

Hides-put :
    (k name : String) (v : Value) (f : Fields)
    → (name ≡ k → new_secret (some v) ≡ none)
    → Hides k f
    → Hides k (put name v f)
unfolding put
Hides-put k name v end h r = (h, tt)
Hides-put k name v (field j w rest) h (hj, r) = elim (Bool-cases (j == name)) [
  | inl here ↦ rw here ((λ e. h (sym ((eq_iff j name).0 here) ∙ e)), r)
  | inr there ↦ rw there (hj, Hides-put k name v rest h r)
]

Hides-merge : (k : String) (a b : Fields) → Hides k a → Hides k b → Hides k (merge a b)
unfolding merge
Hides-merge k a end h r = h
Hides-merge k a (field j v rest) h (hj, r) =
    Hides-merge k (put j v a) rest (Hides-put k j v a hj h) r

masked_value-hidden : (v : Value) → new_secret (some (masked_value v)) ≡ none
unfolding masked_value
masked_value-hidden (text s) = elim (Bool-cases (s == "")) [
  | inl blank ↦ rw blank refl
  | inr given ↦ rw given refl
]
masked_value-hidden (flag b) = refl
masked_value-hidden null = refl
masked_value-hidden (number z s) = refl
masked_value-hidden (array s) = refl
masked_value-hidden (object f) = refl

Hides-mask : (k : String) (f : Fields) → is_secret_name k ≡ true → Hides k (mask_channel_config f)
unfolding mask_channel_config
Hides-mask k end h = tt
Hides-mask k (field j v rest) h = elim (Bool-cases (is_secret_name j)) [
  | inl secret ↦ rw secret ((λ e. masked_value-hidden v), Hides-mask k rest h)
  | inr open' ↦ rw open' ((λ e. open_secret (rw e at open')), Hides-mask k rest h)
]
  where
    open_secret : is_secret_name k ≡ false → new_secret (some v) ≡ none
    open_secret e = cc

-- The other fields that are shown have none of these names.
abbrev IsApart : String → Type 0
IsApart k =
    (("provider" == k) ≡ false)
    × (("enabled" == k) ≡ false)
    × (("verificationStatus" == k) ≡ false)
    × (("lastVerifiedAt" == k) ≡ false)
    × (("keyVersion" == k) ≡ false)
    × (("storage" == k) ≡ false)
    × (is_secret_name k ≡ true)

secrets-IsApart : (c : ChannelType) → All IsApart (secret_fields c)
unfolding is_secret_name
secrets-IsApart email =
    ((refl, refl, refl, refl, refl, refl, refl), ((refl, refl, refl, refl, refl, refl, refl), tt))
secrets-IsApart sms = (
  (refl, refl, refl, refl, refl, refl, refl),
  ((refl, refl, refl, refl, refl, refl, refl), ((refl, refl, refl, refl, refl, refl, refl), tt)),
)
secrets-IsApart whatsapp =
    ((refl, refl, refl, refl, refl, refl, refl), ((refl, refl, refl, refl, refl, refl, refl), tt))

next_secrets-none :
    (names : List String) (input secrets : Fields)
    → All (λ k. new_secret (get k input) ≡ none) names
    → next_secrets names input secrets ≡ secrets
unfolding next_secrets
next_secrets-none [] input secrets h = refl
next_secrets-none (k ∷ names) input secrets (h, r) = rw h (next_secrets-none names input secrets r)

other_name : {j k : String} → (j == k) ≡ false → j ≢ k
other_name {j} {k} differs e = ground (arith, eq_iff j k)

-- The parts of a configuration that are not encrypted hold no text under the name of a secret, other
-- than the mask.
abbrev pub IsPlain : ChannelType → Fields → Type 0
IsPlain c f = All (λ k. Hides k f) (secret_fields c)

module _ (p : Primitives) (env : Env) (tenant_id : String) (c : ChannelType)
    (legacy : Option LegacyChannels) (row : Option ChannelRow) (secrets : Fields) where
  shown-Hides :
      (k : String)
      → IsApart k
      → Hides k (config_of_fallback (fallback_of c legacy))
      → Hides k (config_of_row row)
      → Hides k (shown_channel p env tenant_id c legacy row secrets)
  unfolding shown_channel
  shown-Hides k (provider, enabled, status, verified, version, storage, secret) old new =
      Hides-merge k _ (mask_channel_config secrets)
        (Hides-merge k _ (config_of_row row)
          (Hides-merge k _ (config_of_fallback (fallback_of c legacy))
            (
              (λ e. absurd (other_name provider e)),
              (
                (λ e. absurd (other_name enabled e)),
                (
                  (λ e. absurd (other_name status e)),
                  (
                    (λ e. absurd (other_name verified e)),
                    (
                      (λ e. absurd (other_name version e)),
                      ((λ e. absurd (other_name storage e)), tt),
                    ),
                  ),
                ),
              ),
            )
            old)
          new)
        (Hides-mask k secrets secret)

  -- A PATCH of a channel with what a GET has shown of it leaves its secrets as they were, when it
  -- returns: they are then read from its row, without the old configuration. The configuration that
  -- is not encrypted is taken to hold no texts under the names of secrets.
  pub write_channel-shown :
      (as_text : Value → String) (as_flag : Value → Bool) (iv : ChannelType → List ℕ) (s s' : Store)
      → IsSound p secrets
      → length (iv c) ≡ 12
      → IsPlain c (config_of_fallback (fallback_of c legacy))
      → IsPlain c (config_of_row row)
      → current_secrets p env tenant_id c row (fallback_of c legacy) ≡ ok secrets
      → write_channel p env as_text as_flag iv tenant_id c
          (fallback_of c legacy)
          row
          (some (shown_channel p env tenant_id c legacy row secrets))
          s
        ≡ (ok tt, s')
      → current_secrets p env tenant_id c (row_of tenant_id c s') none ≡ ok secrets
  write_channel-shown as_text as_flag iv s s' sound drawn old new h e =
      subst (λ f. current_secrets p env tenant_id c (row_of tenant_id c s') none ≡ ok f) kept
        (Ensures-of_ok
          (HoldsSecrets p env as_text as_flag iv tenant_id c drawn
            (next_secrets (secret_fields c) shown secrets))
          _ tt s'
          (write_channel-stored p env as_text as_flag iv tenant_id c drawn (fallback_of c legacy)
            row shown secrets s (subst (IsSound p) (sym kept) sound) h)
          e)
    where
      shown : Fields
      shown = shown_channel p env tenant_id c legacy row secrets

      hidden :
          (names : List String)
          → All IsApart names
          → All (λ k. Hides k (config_of_fallback (fallback_of c legacy))) names
          → All (λ k. Hides k (config_of_row row)) names
          → All (λ k. new_secret (get k shown) ≡ none) names
      hidden [] a o n = tt
      hidden (k ∷ names) (a, as') (o, os) (n, ns) =
          (Hides-get k shown (shown-Hides k a o n), hidden names as' os ns)

      kept : next_secrets (secret_fields c) shown secrets ≡ secrets
      kept =
          next_secrets-none (secret_fields c) shown secrets
            (hidden (secret_fields c) (secrets-IsApart c) old new)
