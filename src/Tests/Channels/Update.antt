-- ===== src/Tests/Channels/Update.antt =====
-- PATCH of the channels on concrete tables.
use hippo_build_x.Prelude.{
  String, ◌≡◌, refl, true, false, none, some, [], ◌∷◌, includes, if◌then◌else◌, arith,
}
use hippo_build_x.Prelude.Effect.{ok}
use hippo_build_x.Admin.Channels.Json.{
  Value, text, flag, Fields, end, field, get, put, merge, has_keys,
}
use hippo_build_x.Admin.Channels.Crypto.{
  channel_key_version, decrypt_channel_config, key_bytes, configured_keyring, parsed_ring,
  with_single_key, with_dev_key, material_of, digest, parsed, encrypt_channel_config,
  is_secret_name, masked_value, mask_channel_config,
}
use hippo_build_x.Admin.Channels.Crypto.RoundTrip.{IsSound}
use hippo_build_x.Admin.Channels.Definitions.{
  email, sms, whatsapp, secret_fields, ChannelRow, Store, row_of, Fallback, LegacyChannels,
  fallback_of,
}
use hippo_build_x.Admin.Channels.Legacy.{load_legacy_channels}
use hippo_build_x.Admin.Channels.Current.{read_secrets, current_secrets}
use hippo_build_x.Admin.Channels.Show.{shown_channel}
use hippo_build_x.Admin.Channels.Update.{
  new_secret, next_secrets, upsert, count_channels, requested_fields, encrypt_secrets,
  write_channel, write_channels, update_channels,
}
use hippo_build_x.Admin.Channels.Update.Stored.{updated, write_channel-secrets}
use hippo_build_x.Admin.Channels.Update.Shown.{write_channel-shown}
use hippo_build_x.Admin.Channels.Update.Lost.{update_channels-loses}
use hippo_build_x.Tests.Channels.{
  before, stored, primitives, env, sound, vector, row, tables, as_text, as_flag, reads,
}

abbrev input : Fields
input = field "token" (text "••••••••") (field "appSecret" (text "s2") end)

abbrev written : Store
written =
    (write_channel primitives env as_text as_flag (λ _. vector) "t" whatsapp none (some row)
      (some input) tables).1

writes :
    write_channel primitives env as_text as_flag
      (λ _. vector)
      "t"
      whatsapp
      none
      (some row)
      (some input)
      tables
    ≡ (ok tt, written)
unfolding write_channel encrypt_secrets next_secrets get put has_keys current_secrets read_secrets
    decrypt_channel_config key_bytes configured_keyring parsed_ring with_single_key with_dev_key
    channel_key_version material_of digest parsed encrypt_channel_config
writes = refl

stored-IsSound : IsSound primitives (next_secrets (secret_fields whatsapp) input before)
unfolding next_secrets get put
stored-IsSound = sound stored refl (omega arith)

write_channel-secrets_example :
    (after : Fields) × (current_secrets primitives env "t" whatsapp
        (row_of "t" whatsapp written)
        none
      ≡ ok after)
    × ((name : String)
        → get name after ≡ (
            if includes (secret_fields whatsapp) name
            then updated (new_secret (get name input)) (get name before)
            else get name before))
write_channel-secrets_example =
    write_channel-secrets primitives env as_text as_flag (λ _. vector) "t" whatsapp refl none
      (some row) input before tables written stored-IsSound reads writes

abbrev shown : Fields
shown = shown_channel primitives env "t" whatsapp none (some row) before

abbrev resaved : Store
resaved =
    (write_channel primitives env as_text as_flag (λ _. vector) "t" whatsapp none (some row)
      (some shown) tables).1

resaves :
    write_channel primitives env as_text as_flag
      (λ _. vector)
      "t"
      whatsapp
      none
      (some row)
      (some shown)
      tables
    ≡ (ok tt, resaved)
unfolding write_channel encrypt_secrets next_secrets get put has_keys shown_channel merge
    mask_channel_config masked_value is_secret_name current_secrets read_secrets
    decrypt_channel_config key_bytes configured_keyring parsed_ring with_single_key with_dev_key
    channel_key_version material_of digest parsed encrypt_channel_config
resaves = refl

write_channel-shown_example :
    current_secrets primitives env "t" whatsapp (row_of "t" whatsapp resaved) none ≡ ok before
write_channel-shown_example =
    write_channel-shown primitives env "t" whatsapp none (some row) before as_text as_flag
      (λ _. vector) tables resaved (sound before refl (omega arith)) refl (tt, (tt, tt))
      (tt, (tt, tt)) reads resaves

abbrev bare : String → ChannelRow
bare channel_type = record row {
  channel_type = channel_type;
  provider = "unconfigured";
  encrypted_credentials = none;
  enabled = false;
  verification_status = "not_configured";
}

abbrev migrated : Store
migrated = record tables { tenant_channels = bare "email" ∷ bare "sms" ∷ bare "whatsapp" ∷ [] }

abbrev unset : Fallback
unset = record {
  provider = text "meta";
  config = end;
  secrets = end;
  enabled = flag false;
  verification_status = "not_configured";
}

abbrev legacy : LegacyChannels
legacy = record {
  email = unset;
  sms = unset;
  whatsapp = record unset { secrets = before; enabled = flag true };
  key_version = some "v1";
}

-- A request for the e-mails alone.
abbrev email_only : Fields
email_only = field "email" (Value.object (field "enabled" (flag false) end)) end

abbrev saved : Store
saved =
    (write_channels primitives env as_text as_flag (λ _. vector) "t" (email ∷ sms ∷ whatsapp ∷ [])
      email_only (some legacy) migrated migrated).1

saves :
    write_channels primitives env as_text as_flag
      (λ _. vector)
      "t"
      (email ∷ sms ∷ whatsapp ∷ [])
      email_only
      (some legacy)
      migrated
      migrated
    ≡ (ok tt, saved)
unfolding write_channels write_channel encrypt_secrets next_secrets get put has_keys row_of
    current_secrets read_secrets
saves = refl

three : count_channels "t" saved ≡ 3
unfolding write_channels write_channel encrypt_secrets next_secrets get put has_keys row_of
    current_secrets read_secrets upsert
three = refl

asked : requested_fields (get "whatsapp" email_only) ≡ none
unfolding get
asked = refl

there : row_of "t" whatsapp migrated ≡ some (bare "whatsapp")
unfolding row_of
there = refl

update_channels-loses_example :
    (current_secrets primitives env "t" whatsapp
        (row_of "t" whatsapp migrated)
        (fallback_of whatsapp (some legacy))
      ≡ ok before)
    × (load_legacy_channels primitives env
          (update_channels primitives env as_text as_flag
            (λ _. vector)
            "t"
            email_only
            (some legacy)
            migrated).1
        ≡ ok none)
    × (current_secrets primitives env "t" whatsapp
          (row_of "t" whatsapp
            (update_channels primitives env as_text as_flag
              (λ _. vector)
              "t"
              email_only
              (some legacy)
              migrated).1)
          none
        ≡ ok end)
update_channels-loses_example =
    update_channels-loses primitives env as_text as_flag (λ _. vector) "t" whatsapp email_only
      legacy migrated saved (bare "whatsapp") asked there refl saves three
