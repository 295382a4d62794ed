-- ===== src/Admin/Channels/Update/Stored.antt =====
-- The secrets of a channel after a PATCH.
use hippo_build_x.Prelude.{
  ℕ, String, ◌≡◌, ◌≢◌, refl, sym, subst, ap, ◌∙◌, inl, inr, Bool, true, false, Option, none, some,
  List, [], ◌∷◌, any, find, find-append_new, find-update_all, includes, length, or_null, Bool-cases,
  eq_iff, eq_refl, ◌==◌, if◌then◌else◌, arith,
}
use hippo_build_x.Prelude.Effect.{Result, ok, err, Result-cases, Ensures, Ensures-of_ok}
use hippo_build_x.Admin.Channels.Json.{
  Value, text, Fields, end, field, get, has_keys, get-put_same, get-put_other,
}
use hippo_build_x.Admin.Channels.Crypto.{
  Env, Primitives, channel_key_version, encrypt_channel_config, decrypt_channel_config,
}
use hippo_build_x.Admin.Channels.Crypto.RoundTrip.{IsSound, decrypt-encrypt}
use hippo_build_x.Admin.Channels.Definitions.{
  ChannelType, name_of, secret_fields, ChannelRow, Store, aad, is_row, row_of, Fallback,
}
use hippo_build_x.Admin.Channels.Current.{credentials_of, version_of, read_secrets, current_secrets}
use hippo_build_x.Admin.Channels.Update.{
  new_secret, put_text, next_secrets, overwrite, upsert, encrypt_secrets, new_row, write_channel,
}

-- The value of a secret after a PATCH.
abbrev pub updated : Option String → Option Value → Option Value
updated none old = old
updated (some s) old = some (text s)

get-put_text_same :
    (name : String) (v : Option String) (f : Fields)
    → get name (put_text name v f) ≡ updated v (get name f)
get-put_text_same name none f = refl
get-put_text_same name (some s) f = get-put_same name (text s) f

get-put_text_other :
    (k name : String) (v : Option String) (f : Fields)
    → name ≢ k
    → get k (put_text name v f) ≡ get k f
get-put_text_other k name none f ne = refl
get-put_text_other k name (some s) f ne = get-put_other k name (text s) f ne

updated-updated :
    (v : Option String) (old : Option Value) → updated v (updated v old) ≡ updated v old
updated-updated none old = refl
updated-updated (some s) old = refl

pub get-next_secrets :
    (names : List String) (input secrets : Fields) (k : String)
    → get k (next_secrets names input secrets) ≡ (
        if includes names k
        then updated (new_secret (get k input)) (get k secrets)
        else get k secrets)
unfolding next_secrets
get-next_secrets [] input secrets k = refl
get-next_secrets (name ∷ names) input secrets k =
    let v = new_secret (get name input) in
    get-next_secrets names input (put_text name v secrets) k ∙ elim (Bool-cases (name == k)) [
      | inr differs ↦
          rw (get-put_text_other k name v secrets (λ e. ground (arith, eq_iff name k)))
            (rw differs refl)
      | inl same ↦ rw ((eq_iff name k).0 same) (
          rw (get-put_text_same k (new_secret (get k input)) secrets)
            (rw (eq_refl k) (both (includes names k))))
    ]
  where
    both :
        (b : Bool)
        → (if b
            then updated
                (new_secret (get k input))
                (updated (new_secret (get k input)) (get k secrets))
            else updated (new_secret (get k input)) (get k secrets))
          ≡ updated (new_secret (get k input)) (get k secrets)
    both true = updated-updated (new_secret (get k input)) (get k secrets)
    both false = refl

no_keys : (f : Fields) → has_keys f ≡ false → f ≡ end
unfolding has_keys
no_keys end h = refl
no_keys (field j v rest) h = cc

-- The row that an upsert leaves.
pub upsert-found :
    (tenant_id : String) (c : ChannelType) (new : ChannelRow) (rows : List ChannelRow)
    → is_row tenant_id c new ≡ true
    → (last : Option String) × (find (is_row tenant_id c) (upsert tenant_id c new rows)
        ≡ some (record new { last_verified_at = last }))
unfolding upsert
upsert-found tenant_id c new rows h = elim (Bool-cases (any (is_row tenant_id c) rows)) [
  | inl old ↦
      let (row, found) = find-update_all (is_row tenant_id c) (overwrite new) rows (λ r. h) old in
      (row.last_verified_at, rw old found)
  | inr fresh ↦
      (new.last_verified_at, rw fresh (find-append_new (is_row tenant_id c) rows new fresh h))
]

module _ (p : Primitives) (env : Env) (as_text : Value → String) (as_flag : Value → Bool)
    (iv : ChannelType → List ℕ) (tenant_id : String) (c : ChannelType)
    (drawn : length (iv c) ≡ 12) where
  -- The credentials that are stored read as the secrets that they were made of.
  read-encrypted :
      (secrets : Fields) (encrypted : String)
      → decrypt_channel_config p env encrypted (aad tenant_id c) (channel_key_version env)
        ≡ ok secrets
      → read_secrets p env tenant_id c (or_null (some encrypted)) (channel_key_version env) none
        ≡ ok secrets
  unfolding read_secrets decrypt_channel_config
  read-encrypted secrets encrypted h = elim (Bool-cases (encrypted == "")) [
    | inl blank ↦ rw blank (rw blank at h)
    | inr given ↦ rw given h
  ]

  read-encrypt :
      (secrets : Fields) (credentials : Option String)
      → IsSound p secrets
      → encrypt_secrets p env as_text as_flag iv tenant_id c secrets ≡ ok credentials
      → read_secrets p env tenant_id c (or_null credentials) (channel_key_version env) none
        ≡ ok secrets
  unfolding encrypt_secrets read_secrets
  read-encrypt secrets credentials sound h = elim (Bool-cases (has_keys secrets)) [
    | inr none_there ↦ subst Reads (rw none_there at h) (empty (no_keys secrets none_there))
    | inl there ↦
        elim (Result-cases (
          encrypt_channel_config p env (iv c) secrets (aad tenant_id c)
            (channel_key_version env))) [
              | inr (e, bad) ↦ subst Reads (rw (there, bad) at h) tt
              | inl (encrypted, good) ↦ subst Reads (rw (there, good) at h) (
                  read-encrypted secrets encrypted (
                    decrypt-encrypt p env (iv c) secrets sound (aad tenant_id c)
                      (channel_key_version env) encrypted drawn good))
            ]
  ]
    where
      Reads : Result (Option String) → Type 0
      Reads (ok cr) =
          read_secrets p env tenant_id c (or_null cr) (channel_key_version env) none ≡ ok secrets
      Reads (err e) = Unit

      empty : secrets ≡ end → Reads (ok none)
      empty e = ap ok (sym e)

  -- The secrets of the channel that the tables hold without the old configuration.
  abbrev pub HoldsSecrets : Fields → Store → Type 0
  HoldsSecrets secrets s =
      current_secrets p env tenant_id c (row_of tenant_id c s) none ≡ ok secrets

  upsert-HoldsSecrets :
      (new : ChannelRow) (secrets : Fields) (s : Store)
      → is_row tenant_id c new ≡ true
      → read_secrets p env tenant_id c (credentials_of (some new)) (version_of (some new)) none
        ≡ ok secrets
      → HoldsSecrets secrets
          (record s { tenant_channels = upsert tenant_id c new s.tenant_channels })
  unfolding row_of current_secrets
  upsert-HoldsSecrets new secrets s own h =
      let (last, found) = upsert-found tenant_id c new s.tenant_channels own in rw found h

  pub write_channel-stored :
      (fallback : Option Fallback) (row : Option ChannelRow) (input secrets : Fields) (s : Store)
      → IsSound p (next_secrets (secret_fields c) input secrets)
      → current_secrets p env tenant_id c row fallback ≡ ok secrets
      → Ensures
          (HoldsSecrets (next_secrets (secret_fields c) input secrets))
          (write_channel p env as_text as_flag iv tenant_id c fallback row (some input) s)
  unfolding write_channel
  write_channel-stored fallback row input secrets s sound h =
      let next = next_secrets (secret_fields c) input secrets in
      elim (Result-cases (encrypt_secrets p env as_text as_flag iv tenant_id c next)) [
        | inr (_, bad) ↦ rw (h, bad) tt
        | inl (credentials, good) ↦
            rw (h, good)
              (upsert-HoldsSecrets
                (new_row p env as_text as_flag iv tenant_id c input fallback row credentials) next s
                (rw (eq_refl tenant_id, eq_refl (name_of c)) refl)
                (read-encrypt next credentials sound good))
      ]

  -- When the current secrets of a channel can be read, its part of a PATCH, if it returns, leaves a
  -- row from which, without the old configuration, secrets are read that have at each name the text
  -- that the request gives, when that is the name of one of the channel's secrets and the text is
  -- neither empty nor the mask, and what they had before at any other.
  pub write_channel-secrets :
      (fallback : Option Fallback) (row : Option ChannelRow) (input secrets : Fields) (s s' : Store)
      → IsSound p (next_secrets (secret_fields c) input secrets)
      → current_secrets p env tenant_id c row fallback ≡ ok secrets
      → write_channel p env as_text as_flag iv tenant_id c fallback row (some input) s ≡ (ok tt, s')
      → (after : Fields) × (current_secrets p env tenant_id c (row_of tenant_id c s') none
          ≡ ok after)
        × ((name : String)
            → get name after ≡ (
                if includes (secret_fields c) name
                then updated (new_secret (get name input)) (get name secrets)
                else get name secrets))
  write_channel-secrets fallback row input secrets s s' sound h e = (
    next_secrets (secret_fields c) input secrets,
    Ensures-of_ok (HoldsSecrets (next_secrets (secret_fields c) input secrets)) _ tt s'
        (write_channel-stored fallback row input secrets s sound h) e,
    get-next_secrets (secret_fields c) input secrets,
  )
