-- ===== src/Admin/Channels/Update.antt =====
-- apps/web/src/app/api/v1/admin/channel-config/route.js, PATCH: an administrator changes channels, and
-- what was in the old configuration moves to the rows. The bytes of `randomBytes` for each channel are
-- an argument; `as_text` and `as_flag` are what the database client writes for a JSON value into a
-- column of text and into a Boolean one. The column `non_secret_config` gives back the object whose JSON
-- was written: its fields are looked up by name, so the order that jsonb gives them does not matter.
pub mod Stored
pub mod Shown
pub mod Lost
use hippo_build_x.Prelude.{
  ℕ, String, Bool, true, false, not, ◌&&◌, ◌||◌, Option, none, some, List, [], ◌∷◌, ◌++◌, any, find,
  filter, length, update, eqb, if◌then◌else◌, ◌==◌,
}
use hippo_build_x.Prelude.Effect.{Result, ok, err, bind_result}
use hippo_build_x.Auth.Sessions.{and_then}
use hippo_build_x.Admin.Channels.Json.{
  Value, text, array, object, Fields, end, is_truthy, get, put, has_keys,
}
use hippo_build_x.Admin.Channels.Crypto.{
  Env, Primitives, channel_key_version, encrypt_channel_config, mask,
}
use hippo_build_x.Admin.Channels.Definitions.{
  ChannelType, name_of, channel_types, secret_fields, config_fields, ChannelRow, SettingsRow, Store,
  aad, is_row, row_of, Fallback, LegacyChannels, fallback_of,
}
use hippo_build_x.Admin.Channels.Legacy.{load_legacy_channels}
use hippo_build_x.Admin.Channels.Current.{
  provider_of, enabled_of, status_of, current_config, current_secrets,
}
use hippo_build_x.Admin.Channels.Show.{read_channels}

-- `requested && typeof requested === 'object'`, with the fields that are then read.
abbrev pub requested_fields : Option Value → Option Fields
requested_fields (some (object fields)) = some fields
requested_fields (some (array _)) = some end
requested_fields _ = none

-- The new value of a secret: a text that is neither empty nor the mask.
abbrev pub new_secret : Option Value → Option String
new_secret (some (text s)) = if s == "" || s == mask then none else some s
new_secret _ = none

abbrev pub put_text : String → Option String → Fields → Fields
put_text name none f = f
put_text name (some s) f = put name (text s) f

abbrev pub put_given : String → Option Value → Fields → Fields
put_given name none f = f
put_given name (some v) f = put name v f

-- The loop over `secretFields`.
unfoldable pub next_secrets : List String → Fields → Fields → Fields
unfolding get put
next_secrets [] input secrets = secrets
next_secrets (name ∷ names) input secrets =
    next_secrets names input (put_text name (new_secret (get name input)) secrets)

-- The loop over `configFields`.
unfoldable pub next_config : List String → Fields → Fields → Fields
unfolding get put
next_config [] input config = config
next_config (name ∷ names) input config =
    next_config names input (put_given name (get name input) config)

-- `hasOwn(input, 'enabled') ? Boolean(input.enabled) : currentEnabled`
abbrev pub next_enabled : Option Value → Value → Value
next_enabled none current = current
next_enabled (some v) current = Value.flag (is_truthy v)

unfoldable pub next_status : Option Value → Value → String → String
unfolding is_truthy
next_status none current status = status
next_status (some v) current status =
    if is_truthy v
    then if is_truthy current then status else "pending_verification"
    else "not_configured"

-- `input.provider || currentRow?.provider || ...`
abbrev pub next_provider : Option Value → Value → Value
next_provider none current = current
next_provider (some v) current = if is_truthy v then v else current

-- What `ON CONFLICT` sets.
abbrev pub overwrite : ChannelRow → ChannelRow → ChannelRow
overwrite new old = record new { last_verified_at = old.last_verified_at }

-- `INSERT ... ON CONFLICT (tenant_id, channel_type) DO UPDATE`
unfoldable pub upsert : String → ChannelType → ChannelRow → List ChannelRow → List ChannelRow
upsert tenant_id c new rows =
    if any (is_row tenant_id c) rows
    then update (is_row tenant_id c) (overwrite new) rows
    else rows ++ new ∷ []

-- `if ((!requested || typeof requested !== 'object') && (!fallback || currentRow)) continue`
abbrev pub input_of : Option Fields → Option Fallback → Option ChannelRow → Option Fields
input_of (some fields) fallback row = some fields
input_of none none row = none
input_of none (some f) (some r) = none
input_of none (some f) none = some end

-- `SELECT count(*)` of the channels of a tenant.
abbrev pub is_any_channel : String → ChannelRow → Bool
is_any_channel tenant_id r =
    r.tenant_id == tenant_id
    && (r.channel_type == "email" || (r.channel_type == "sms" || r.channel_type == "whatsapp"))

abbrev pub count_channels : String → Store → ℕ
count_channels tenant_id s = length (filter (is_any_channel tenant_id) s.tenant_channels)

abbrev pub clear_settings : List SettingsRow → List SettingsRow
clear_settings rows =
    update (λ r. not r.deleted) (λ r. record r { channel_config_encrypted = none }) rows

-- After the loop: `if (legacy)`.
unfoldable pub clear_legacy : String → Option LegacyChannels → Store → Store
clear_legacy tenant_id none s = s
clear_legacy tenant_id (some l) s =
    if eqb (count_channels tenant_id s) 3
    then record s { tenant_settings = clear_settings s.tenant_settings }
    else s

module _ (p : Primitives) (env : Env) (as_text : Value → String) (as_flag : Value → Bool)
    (iv : ChannelType → List ℕ) (tenant_id : String) where
  -- `Object.keys(nextSecrets).length ? encryptChannelConfig(...) : null`
  unfoldable pub encrypt_secrets : ChannelType → Fields → Result (Option String)
  unfolding has_keys encrypt_channel_config channel_key_version
  encrypt_secrets c secrets =
      if has_keys secrets
      then and_then
          (encrypt_channel_config p env (iv c) secrets (aad tenant_id c) (channel_key_version env))
          (λ e. ok (some e))
      else ok none

  abbrev pub new_row :
      ChannelType → Fields → Option Fallback → Option ChannelRow → Option String → ChannelRow
  new_row c input fallback row credentials = record {
    tenant_id = tenant_id;
    channel_type = name_of c;
    provider = as_text (next_provider (get "provider" input) (provider_of c row fallback));
    encrypted_credentials = credentials;
    encryption_key_version = channel_key_version env;
    non_secret_config = next_config (config_fields c) input (current_config row fallback);
    enabled = as_flag (next_enabled (get "enabled" input) (enabled_of row fallback));
    verification_status =
        next_status (get "enabled" input) (enabled_of row fallback) (status_of row fallback);
    last_verified_at = none;
  }

  -- The body of the loop, from the input on; `row` is what the query before the loop gave.
  unfoldable pub write_channel :
      ChannelType
      → Option Fallback
      → Option ChannelRow
      → Option Fields
      → Store
      → Result (Unit {0}) × Store
  unfolding next_secrets encrypt_secrets upsert current_secrets next_config next_status get
      current_config channel_key_version is_truthy
  write_channel c fallback row none s = (ok tt, s)
  write_channel c fallback row (some input) s =
      bind_result (current_secrets p env tenant_id c row fallback, s)
        (λ secrets s.
          bind_result (encrypt_secrets c (next_secrets (secret_fields c) input secrets), s)
            (λ credentials s. (
              ok tt,
              record s {
                tenant_channels =
                    upsert tenant_id c (new_row c input fallback row credentials) s.tenant_channels;
              },
            )))

  -- The loop; `before` is the rows that the query before it gave.
  unfoldable pub write_channels :
      List ChannelType → Fields → Option LegacyChannels → Store → Store → Result (Unit {0}) × Store
  unfolding write_channel get row_of
  write_channels [] body legacy before s = (ok tt, s)
  write_channels (c ∷ cs) body legacy before s =
      let fallback = fallback_of c legacy in
      let row = row_of tenant_id c before in
      bind_result
        (write_channel c fallback row
          (input_of (requested_fields (get (name_of c) body)) fallback row) s)
        (λ _. write_channels cs body legacy before)

  -- PATCH, from the old configuration on.
  unfoldable pub update_channels : Fields → Option LegacyChannels → Store → Result Fields × Store
  unfolding write_channels clear_legacy read_channels
  update_channels body legacy s = bind_result (write_channels channel_types body legacy s s) (λ _ s.
      let s' = clear_legacy tenant_id legacy s in (read_channels p env tenant_id none s', s'))

  unfoldable pub patch_channel_config : Fields → Store → Result Fields × Store
  unfolding load_legacy_channels update_channels
  patch_channel_config body s =
      bind_result (load_legacy_channels p env s, s) (λ legacy. update_channels body legacy)
