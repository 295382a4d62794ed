-- ===== src/Admin/Channels/Crypto.antt =====
-- apps/web/src/modules/admin/channel-crypto.js: the keyring of the environment, and the encryption of
-- a channel's secrets. `Primitives` is what node:crypto, Buffer and JSON do; the bytes of `randomBytes`
-- are an argument. The JSON of a keyring holds strings, and what is encrypted is a JSON object.
pub mod RoundTrip
pub mod Masked
use Prim.Native.String.{◌++◌ as join_text}
use hippo_build_x.Prelude.{
  ℕ, ◌+◌, String, Bool, true, false, not, ◌&&◌, ◌||◌, Option, none, some, List, [], ◌∷◌, ◌++◌, map,
  any, codes, units, length, take, drop, ltb, eqb, truthy, or_null, if◌then◌else◌, ◌==◌,
}
use hippo_build_x.Prelude.Effect.{Result, ok, err, other}
use hippo_build_x.Rbac.Context.{lower_code}
use hippo_build_x.Auth.Sessions.{and_then, add_all}
use hippo_build_x.Admin.Channels.Json.{Value, text, Fields, end, field}

pub record Env : Type 0 where
  pub channel_config_key_version : Option String
  pub channel_config_keys : Option String
  pub channel_config_key : Option String
  pub node_env : Option String

pub record Sealed : Type 0 where
  pub tag : List ℕ
  pub body : List ℕ

pub record Primitives : Type 0 where
  pub parse_ring : String → Option (List (String × String))
  pub sha256 : String → List ℕ
  pub seal : List ℕ → List ℕ → String → List ℕ → Sealed
  pub unseal : List ℕ → List ℕ → String → Sealed → Option (List ℕ)
  pub to_base64 : List ℕ → String
  pub from_base64 : String → List ℕ
  pub print : Fields → List ℕ
  pub parse : List ℕ → Option Fields

abbrev pub Ring : Type 0
Ring = List (String × String)

unfoldable pub channel_key_version : Env → String
channel_key_version env = elim (or_null env.channel_config_key_version) [ none ↦ "v1" | some v ↦ v ]

-- `ring[version]`, and `Boolean(ring[version])`.
unfoldable pub material_of : Ring → String → Option String
material_of [] version = none
material_of ((v, m) ∷ ring) version = if v == version then some m else material_of ring version

-- `ring[version] = material`
unfoldable pub put_material : Ring → String → String → Ring
put_material [] version material = (version, material) ∷ []
put_material ((v, m) ∷ ring) version material =
    if v == version then (v, material) ∷ ring else (v, m) ∷ put_material ring version material

abbrev pub dev_key : String
dev_key = "dev-channel-config-key-change-me!!"

-- `if (process.env.CHANNEL_CONFIG_KEY && !ring[currentVersion])`
unfoldable pub with_single_key : Option String → String → Ring → Ring
unfolding material_of put_material
with_single_key none version ring = ring
with_single_key (some key) version ring =
    if truthy (material_of ring version) then ring else put_material ring version key

abbrev pub is_production : Option String → Bool
is_production none = false
is_production (some e) = e == "production"

unfoldable pub with_dev_key : Env → Ring → Ring
unfolding channel_key_version
with_dev_key env [] =
    if is_production env.node_env then [] else (channel_key_version env, dev_key) ∷ []
with_dev_key env (entry ∷ ring) = entry ∷ ring

abbrev pub or_error : {A : Type 0} → Option A → String → Result A
or_error none message = err (other message)
or_error (some a) message = ok a

module _ (p : Primitives) (env : Env) where
  unfoldable pub parsed_ring : Option String → Result Ring
  parsed_ring none = ok []
  parsed_ring (some keys) = or_error (p.parse_ring keys) "CHANNEL_CONFIG_KEYS must be a JSON object"

  unfoldable pub configured_keyring : Result Ring
  unfolding parsed_ring with_single_key with_dev_key channel_key_version
  configured_keyring = and_then (parsed_ring (or_null env.channel_config_keys)) (λ ring. ok (
      with_dev_key env
        (with_single_key (or_null env.channel_config_key) (channel_key_version env) ring)))

  -- From the entry of the ring on.
  unfoldable pub digest : String → Option String → Result (List ℕ)
  digest version none =
      err (other (join_text "Channel encryption key is unavailable for version " version))
  digest version (some material) =
      if ltb (units (codes material)) 24
      then err (
          other (
            join_text "Channel encryption key "
              (join_text version " must be at least 24 characters")))
      else ok (p.sha256 material)

  unfoldable pub key_bytes : String → Result (List ℕ)
  unfolding configured_keyring digest material_of
  key_bytes version =
      and_then configured_keyring (λ ring. digest version (or_null (material_of ring version)))

  -- `iv` is the bytes that `randomBytes(12)` gives.
  unfoldable pub encrypt_channel_config : List ℕ → Fields → String → String → Result String
  unfolding key_bytes
  encrypt_channel_config iv config associated_data key_version =
      and_then (key_bytes key_version) (λ key.
        let box = p.seal key iv associated_data (p.print config) in
        ok (p.to_base64 (iv ++ (box.tag ++ box.body))))

  unfoldable pub parsed : Option (List ℕ) → Result Fields
  parsed none = err (other "Unsupported state or unable to authenticate data")
  parsed (some plaintext) = or_error (p.parse plaintext) "Unexpected token"

  unfoldable pub decrypt_channel_config : String → String → String → Result Fields
  unfolding key_bytes parsed
  decrypt_channel_config encrypted associated_data key_version =
      if encrypted == ""
      then ok end
      else let buffer = p.from_base64 encrypted in
        if ltb (length buffer) 29
        then err (other "Invalid encrypted channel configuration")
        else and_then (key_bytes key_version) (λ key. parsed (
            p.unseal key (take 12 buffer) associated_data
              (record { tag = take 16 (drop 12 buffer); body = drop 28 buffer })))

  pub record Legacy : Type 0 where
    pub config : Fields
    pub key_version : Option String

  -- The loop over the versions.
  unfoldable pub try_versions : String → List String → Result Legacy
  unfolding decrypt_channel_config
  try_versions encrypted [] =
      err (other "Legacy channel configuration cannot be decrypted with the configured keyring")
  try_versions encrypted (version ∷ versions) =
      let later = try_versions encrypted versions in
      elim (decrypt_channel_config encrypted "" version) [
        | ok config ↦ ok (record { config = config; key_version = some version })
        | err _ ↦ later
      ]

  unfoldable pub decrypt_legacy_channel_config : String → Result Legacy
  unfolding configured_keyring try_versions channel_key_version
  decrypt_legacy_channel_config encrypted =
      if encrypted == ""
      then ok (record { config = end; key_version = none })
      else and_then configured_keyring (λ ring.
        try_versions encrypted (add_all [] (channel_key_version env ∷ map (λ entry. entry.0) ring)))

-- A word of ASCII letters at the start of a name, whatever the case of the name.
abbrev pub starts_with : List ℕ → List ℕ → Bool
starts_with [] cs = true
starts_with (w ∷ ws) [] = false
starts_with (w ∷ ws) (c ∷ cs) = eqb (lower_code c) w && starts_with ws cs

-- `/word/i.test(name)`
abbrev pub contains : List ℕ → List ℕ → Bool
contains ws [] = starts_with ws []
contains ws (c ∷ cs) = starts_with ws (c ∷ cs) || contains ws cs

-- `/secret|token|password|key|sid/i.test(name)`
unfoldable pub is_secret_name : String → Bool
is_secret_name name =
    any (λ word. contains (codes word) (codes name))
      ("secret" ∷ "token" ∷ "password" ∷ "key" ∷ "sid" ∷ [])

abbrev pub mask : String
mask = "••••••••"

unfoldable pub masked_value : Value → Value
masked_value (text s) = if s == "" then text "" else text mask
masked_value v = v

unfoldable pub mask_channel_config : Fields → Fields
unfolding is_secret_name masked_value
mask_channel_config end = end
mask_channel_config (field name v rest) =
    let others = mask_channel_config rest in
    if is_secret_name name then field name (masked_value v) others else field name v others
