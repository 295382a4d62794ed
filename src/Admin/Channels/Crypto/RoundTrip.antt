-- ===== src/Admin/Channels/Crypto/RoundTrip.antt =====
-- What is encrypted under a key that the environment has can be decrypted with it.
use hippo_build_x.Prelude.{
  ℕ, ◌+◌, String, ◌≡◌, ◌≢◌, refl, sym, subst, ap, ◌∙◌, inl, inr, false, some, List, ◌++◌, length,
  length-append, take, drop, take-append, drop-append, ltb, eq_iff, ◌==◌, ◌<◌, arith,
}
use mathlib.Core.List.{append_assoc}
use hippo_build_x.Prelude.Effect.{Thrown, Result, ok, err, Result-cases}
use hippo_build_x.Admin.Channels.Json.{Fields}
use hippo_build_x.Admin.Channels.Crypto.{
  Env, Sealed, Primitives, key_bytes, encrypt_channel_config, parsed, decrypt_channel_config,
}

-- What the documentation of AES-256-GCM, Buffer and JSON says: a tag has 16 bytes, what is encrypted
-- is as long as its plaintext, the JSON of this configuration is not empty, and each is read back as
-- it was.
pub record IsSound (p : Primitives) (config : Fields) : Type 0 where
  pub tag_length :
      (key iv plaintext : List ℕ) (aad : String) → length (p.seal key iv aad plaintext).tag ≡ 16
  pub body_length :
      (key iv plaintext : List ℕ) (aad : String)
      → length (p.seal key iv aad plaintext).body ≡ length plaintext
  pub unseals :
      (key iv plaintext : List ℕ) (aad : String)
      → p.unseal key iv aad (p.seal key iv aad plaintext) ≡ some plaintext
  pub from_to : (bytes : List ℕ) → p.from_base64 (p.to_base64 bytes) ≡ bytes
  pub not_blank : (bytes : List ℕ) → 0 < length bytes → p.to_base64 bytes ≢ ""
  pub parses : p.parse (p.print config) ≡ some config
  pub prints : 0 < length (p.print config)

module _ (p : Primitives) (env : Env) (iv : List ℕ) (config : Fields) (sound : IsSound p config)
    (aad version : String) where
  module _ (key : List ℕ) (drawn : length iv ≡ 12) where
    box : Sealed
    box = p.seal key iv aad (p.print config)

    buffer : List ℕ
    buffer = iv ++ (box.tag ++ box.body)

    long : length buffer ≡ 28 + length (p.print config)
    unfolding buffer box
    long = omega (
      arith,
      length-append iv (box.tag ++ box.body),
      length-append box.tag box.body,
      drawn,
      sound.tag_length key iv (p.print config) aad,
      sound.body_length key iv (p.print config) aad,
    )

    parts :
        (take 12 buffer ≡ iv) × (take 16 (drop 12 buffer) ≡ box.tag) × (drop 28 buffer ≡ box.body)
    unfolding buffer box
    parts = (
      take-append 12 iv _ drawn,
      ap (take 16) (drop-append 12 iv _ drawn)
          ∙ take-append 16 box.tag box.body (sound.tag_length key iv (p.print config) aad),
      ap (drop 28) (sym (append_assoc iv box.tag box.body))
          ∙ drop-append 28 (iv ++ box.tag) box.body (
              omega (
                arith,
                length-append iv box.tag,
                drawn,
                sound.tag_length key iv (p.print config) aad,
              )),
    )

    decrypt-buffer :
        key_bytes p env version ≡ ok key
        → decrypt_channel_config p env (p.to_base64 buffer) aad version ≡ ok config
    unfolding decrypt_channel_config parsed box
    decrypt-buffer k =
        rw
          (
            blank,
            sound.from_to buffer,
            short,
            k,
            parts.0,
            parts.1,
            parts.2,
            sound.unseals key iv (p.print config) aad,
            sound.parses,
          )
          refl
      where
        blank : (p.to_base64 buffer == "") ≡ false
        blank = ground (arith, eq_iff (p.to_base64 buffer) "", sound.not_blank buffer, long)

        short : ltb (length buffer) 29 ≡ false
        short = ground (arith, long, sound.prints)

  -- Under a key that the environment has, what `encryptChannelConfig` gives is read back by
  -- `decryptChannelConfig` with the same associated data and version.
  pub decrypt-encrypt :
      (encrypted : String)
      → length iv ≡ 12
      → encrypt_channel_config p env iv config aad version ≡ ok encrypted
      → decrypt_channel_config p env encrypted aad version ≡ ok config
  unfolding encrypt_channel_config buffer box
  decrypt-encrypt encrypted drawn h = elim (Result-cases (key_bytes p env version)) [
    | inl (key, k) ↦ subst (λ r. Decrypts r) (rw k at h) (decrypt-buffer key drawn k)
    | inr (e, k) ↦ absurd (failed (rw k at h))
  ]
    where
      Decrypts : Result String → Type 0
      Decrypts (ok e) = decrypt_channel_config p env e aad version ≡ ok config
      Decrypts (err e) = Unit

      failed : {e : Thrown} → ◌≢◌ {A = Result String} (err e) (ok encrypted)
      failed h = cc
