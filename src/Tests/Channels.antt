-- ===== src/Tests/Channels.antt =====
-- The channels of a tenant on concrete tables. The stand-in for AES keeps the plaintext and checks the
-- key, the vector and the associated data by its tag of 16 bytes, which holds nothing of them.
mod Update
use hippo_build_x.Prelude.{
  ℕ, zero, suc, ◌+◌, ◌<◌, String, ◌≡◌, ◌≢◌, refl, ap, ◌∙◌, ◌++◌, length, eqb, arith, Bool, true,
  false, Option, none, some, List, [], ◌∷◌, includes, if◌then◌else◌,
}
use hippo_build_x.Prelude.Effect.{ok}
use Prim.Native.Char.{code}
use hippo_build_x.Admin.Channels.Json.{
  Value, text, flag, Fields, end, field, get, put, merge, has_keys, is_truthy, put_if,
}
use hippo_build_x.Admin.Channels.Crypto.{
  Env, Primitives, Sealed, channel_key_version, is_secret_name, masked_value, mask_channel_config,
  encrypt_channel_config, decrypt_channel_config, key_bytes, configured_keyring, parsed_ring,
  with_single_key, with_dev_key, material_of, digest,
}
use hippo_build_x.Admin.Channels.Definitions.{
  ChannelType, email, sms, whatsapp, secret_fields, ChannelRow, SettingsRow, Store, row_of,
  LegacyChannels, Fallback, fallback_of,
}
use hippo_build_x.Admin.Channels.Legacy.{
  object_at, legacy_email, legacy_sms, legacy_whatsapp, make_channel, normalize_legacy,
}
use hippo_build_x.Admin.Channels.Show.{shown_channel, shown_version}
use hippo_build_x.Admin.Channels.Crypto.RoundTrip.{IsSound, decrypt-encrypt}
use hippo_build_x.Admin.Channels.Current.{read_secrets, current_secrets}
use hippo_build_x.Admin.Channels.Update.{next_secrets, encrypt_secrets, write_channel}

abbrev raw : Fields
raw = field "emailProvider" (text "smtp") (
    field "smtpApiKey" (text "k1")
      (field "whatsapp" (Value.object (field "token" (text "t1") end)) end))

legacy_runs :
    (get "apiKey" (normalize_legacy raw none).email.secrets ≡ some (text "k1"))
    × ((normalize_legacy raw none).email.verification_status ≡ "pending_verification")
    × ((normalize_legacy raw none).sms.enabled ≡ flag false)
    × (get "token" (normalize_legacy raw none).whatsapp.secrets ≡ some (text "t1"))
unfolding normalize_legacy legacy_email legacy_sms legacy_whatsapp make_channel object_at get put
    put_if has_keys is_truthy
legacy_runs = (refl, refl, refl, refl)

mask_runs :
    get "apiKey" (mask_channel_config (field "apiKey" (text "k") (field "from" (text "a") end)))
    ≡ some (text "••••••••")
unfolding mask_channel_config masked_value is_secret_name get
mask_runs = refl

-- A stand-in for Base64: each number as so many ones and a zero.
abbrev ones : ℕ → String → String
ones zero s = String.◌∷◌ "0" s
ones (suc n) s = String.◌∷◌ "1" (ones n s)

abbrev to_base64 : List ℕ → String
to_base64 [] = ""
to_base64 (n ∷ ns) = ones n (to_base64 ns)

abbrev from : ℕ → String → List ℕ
from n String.[] = []
from n (String.◌∷◌ c s) = if eqb (code c) 49 then from (suc n) s else n ∷ from 0 s

from-ones : (k n : ℕ) (s : String) → from k (ones n s) ≡ (k + n) ∷ from 0 s
from-ones k zero s = ap (λ m. m ∷ from 0 s) (same k)
  where
    same : (k : ℕ) → k ≡ k + 0
    same k = omega arith
from-ones k (suc n) s = from-ones (suc k) n s ∙ ap (λ m. m ∷ from 0 s) (omega arith)

from-to : (bytes : List ℕ) → from 0 (to_base64 bytes) ≡ bytes
from-to [] = refl
from-to (n ∷ ns) =
    rw (from-ones 0 n (to_base64 ns)) (rw (from-to ns) (ap (λ m. m ∷ ns) (omega arith)))

to-filled : (bytes : List ℕ) → 0 < length bytes → to_base64 bytes ≢ ""
to-filled [] h = absurd (omega (arith, h))
to-filled (zero ∷ ns) h = cc
to-filled (suc n ∷ ns) h = cc

abbrev no_tag : List ℕ
no_tag = 0 ∷ 0 ∷ 0 ∷ 0 ∷ 0 ∷ 0 ∷ 0 ∷ 0 ∷ 0 ∷ 0 ∷ 0 ∷ 0 ∷ 0 ∷ 0 ∷ 0 ∷ 0 ∷ []

abbrev stored : Fields
stored = field "token" (text "t1") (field "appSecret" (text "s2") end)

abbrev before : Fields
before = field "token" (text "t1") end

-- JSON of the two configurations above, by a mark for each.
abbrev print : Fields → List ℕ
print end = 123 ∷ 125 ∷ []
print (field _ _ end) = 1 ∷ []
print (field _ _ (field _ _ _)) = 2 ∷ []

abbrev parse : List ℕ → Option Fields
parse [] = none
parse (n ∷ _) = some (if eqb n 1 then before else if eqb n 2 then stored else end)

abbrev primitives : Primitives
primitives = record {
  parse_ring = λ _. none;
  sha256 = λ _. [];
  seal = λ key iv aad plaintext. record { tag = no_tag; body = plaintext };
  unseal = λ key iv aad box. some box.body;
  to_base64 = to_base64;
  from_base64 = from 0;
  print = print;
  parse = parse;
}

abbrev env : Env
env = record {
  channel_config_key_version = none;
  channel_config_keys = none;
  channel_config_key = none;
  node_env = some "test";
}

module _ (config : Fields) (parses : parse (print config) ≡ some config)
    (prints : 0 < length (print config)) where
  sound : IsSound primitives config
  sound = record {
    tag_length = λ key iv plaintext aad. refl;
    body_length = λ key iv plaintext aad. refl;
    unseals = λ key iv plaintext aad. refl;
    from_to = from-to;
    not_blank = to-filled;
    parses = parses;
    prints = prints;
  }

abbrev vector : List ℕ
vector = 7 ∷ 0 ∷ 0 ∷ 0 ∷ 0 ∷ 0 ∷ 0 ∷ 0 ∷ 0 ∷ 0 ∷ 0 ∷ 0 ∷ []

abbrev sealed : String
sealed = to_base64 (vector ++ (no_tag ++ 1 ∷ []))

seals : encrypt_channel_config primitives env vector before "t:whatsapp" "v1" ≡ ok sealed
unfolding encrypt_channel_config key_bytes configured_keyring parsed_ring with_single_key
    with_dev_key channel_key_version material_of digest
seals = refl

decrypt-encrypt_example : decrypt_channel_config primitives env sealed "t:whatsapp" "v1" ≡ ok before
decrypt-encrypt_example =
    decrypt-encrypt primitives env vector before (sound before refl (omega arith)) "t:whatsapp" "v1"
      sealed refl seals

abbrev row : ChannelRow
row = record {
  tenant_id = "t";
  channel_type = "whatsapp";
  provider = "meta";
  encrypted_credentials = some sealed;
  encryption_key_version = "v1";
  non_secret_config = end;
  enabled = true;
  verification_status = "verified";
  last_verified_at = none;
}

abbrev tables : Store
tables = record { tenant_channels = row ∷ []; tenant_settings = [] }

abbrev as_text : Value → String
as_text (text s) = s
as_text _ = ""

abbrev as_flag : Value → Bool
as_flag (flag b) = b
as_flag _ = false

reads : current_secrets primitives env "t" whatsapp (some row) none ≡ ok before
unfolding current_secrets read_secrets
reads = decrypt-encrypt_example
