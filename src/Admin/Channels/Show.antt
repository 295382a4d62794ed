-- ===== src/Admin/Channels/Show.antt =====
-- apps/web/src/app/api/v1/admin/channel-config/route.js, `readChannels` and GET: what an administrator
-- sees of the channels.
use hippo_build_x.Prelude.{String, Option, none, some, List, [], ◌∷◌, or_null, if◌then◌else◌, ◌==◌}
use hippo_build_x.Prelude.Effect.{Result, ok}
use hippo_build_x.Auth.Sessions.{and_then}
use hippo_build_x.Admin.Channels.Json.{Value, text, null, object, Fields, end, field, merge}
use hippo_build_x.Admin.Channels.Crypto.{Env, Primitives, channel_key_version, mask_channel_config}
use hippo_build_x.Admin.Channels.Definitions.{
  ChannelType, name_of, channel_types, ChannelRow, Store, row_of, Fallback, LegacyChannels,
  fallback_of,
}
use hippo_build_x.Admin.Channels.Legacy.{load_legacy_channels}
use hippo_build_x.Admin.Channels.Current.{
  string_or, provider_of, enabled_of, status_of, config_of_fallback, config_of_row, current_secrets,
}

abbrev pub text_or_null : Option String → Value
text_or_null none = null
text_or_null (some s) = if s == "" then null else text s

abbrev pub verified_of : Option ChannelRow → Option String
verified_of none = none
verified_of (some r) = r.last_verified_at

abbrev pub legacy_version : Option LegacyChannels → Option String
legacy_version none = none
legacy_version (some l) = or_null l.key_version

-- `row ? 'control_plane' : fallback ? 'legacy_pending_migration' : 'control_plane'`
abbrev pub storage_of : Option ChannelRow → Option Fallback → String
storage_of none (some _) = "legacy_pending_migration"
storage_of _ _ = "control_plane"

module _ (p : Primitives) (env : Env) (tenant_id : String) where
  -- `row?.encryption_key_version || legacy?.keyVersion || channelKeyVersion()`
  unfoldable pub shown_version : Option ChannelRow → Option String → String
  unfolding channel_key_version
  shown_version none none = channel_key_version env
  shown_version none (some v) = v
  shown_version (some r) none = string_or r.encryption_key_version (channel_key_version env)
  shown_version (some r) (some v) = string_or r.encryption_key_version v

  -- The object of one channel, from its secrets on.
  unfoldable pub shown_channel :
      ChannelType → Option LegacyChannels → Option ChannelRow → Fields → Fields
  unfolding shown_version merge mask_channel_config
  shown_channel c legacy row secrets =
      let fallback = fallback_of c legacy in
      let base = field "provider" (provider_of c row fallback) (
        field "enabled" (enabled_of row fallback) (
          field "verificationStatus" (text (status_of row fallback)) (
            field "lastVerifiedAt" (text_or_null (verified_of row)) (
              field "keyVersion" (text (shown_version row (legacy_version legacy)))
                (field "storage" (text (storage_of row fallback)) end))))) in
      merge (merge (merge base (config_of_fallback fallback)) (config_of_row row))
        (mask_channel_config secrets)

  unfoldable pub read_channel : Option LegacyChannels → Store → ChannelType → Result Fields
  unfolding row_of current_secrets shown_channel
  read_channel legacy s c =
      let row = row_of tenant_id c s in
      and_then (current_secrets p env tenant_id c row (fallback_of c legacy))
        (λ secrets. ok (shown_channel c legacy row secrets))

  unfoldable pub read_each : Option LegacyChannels → Store → List ChannelType → Result Fields
  unfolding read_channel
  read_each legacy s [] = ok end
  read_each legacy s (c ∷ cs) =
      let rest = read_each legacy s cs in
      and_then (read_channel legacy s c)
        (λ shown. and_then rest (λ others. ok (field (name_of c) (object shown) others)))

  unfoldable pub read_channels : Option LegacyChannels → Store → Result Fields
  unfolding read_each
  read_channels legacy s = read_each legacy s channel_types

  -- GET
  unfoldable pub get_channel_config : Store → Result Fields
  unfolding read_channels load_legacy_channels
  get_channel_config s = and_then (load_legacy_channels p env s) (λ legacy. read_channels legacy s)
