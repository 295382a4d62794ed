-- ===== src/Admin/Channels/Current.antt =====
-- apps/web/src/app/api/v1/admin/channel-config/route.js: what GET and PATCH take for the current
-- values of a channel, from its row and from the old configuration.
use hippo_build_x.Prelude.{String, false, Option, none, some, or_null, if◌then◌else◌, ◌==◌}
use hippo_build_x.Prelude.Effect.{Result, ok}
use hippo_build_x.Admin.Channels.Json.{Value, text, flag, null, Fields, end, is_truthy, merge}
use hippo_build_x.Admin.Channels.Crypto.{Env, Primitives, decrypt_channel_config}
use hippo_build_x.Admin.Channels.Definitions.{
  ChannelType, default_provider, ChannelRow, aad, Fallback,
}

-- `value || other`
abbrev pub truthy_or : Value → Value → Value
truthy_or v other = if is_truthy v then v else other

abbrev pub text_or : String → Value → Value
text_or s other = if s == "" then other else text s

abbrev pub string_or : String → String → String
string_or s other = if s == "" then other else s

abbrev pub fallback_provider : ChannelType → Option Fallback → Value
fallback_provider c none = text (default_provider c)
fallback_provider c (some f) = truthy_or f.provider (text (default_provider c))

-- `row?.provider || fallback?.provider || definition.defaultProvider`
abbrev pub provider_of : ChannelType → Option ChannelRow → Option Fallback → Value
provider_of c none fallback = fallback_provider c fallback
provider_of c (some r) fallback = text_or r.provider (fallback_provider c fallback)

abbrev pub or_false_flag : Value → Value
or_false_flag null = flag false
or_false_flag v = v

-- `row?.enabled ?? fallback?.enabled ?? false`
abbrev pub enabled_of : Option ChannelRow → Option Fallback → Value
enabled_of (some r) fallback = flag r.enabled
enabled_of none none = flag false
enabled_of none (some f) = or_false_flag f.enabled

abbrev pub fallback_status : Option Fallback → String
fallback_status none = "not_configured"
fallback_status (some f) = string_or f.verification_status "not_configured"

-- `row?.verification_status || fallback?.verificationStatus || 'not_configured'`
abbrev pub status_of : Option ChannelRow → Option Fallback → String
status_of none fallback = fallback_status fallback
status_of (some r) fallback = string_or r.verification_status (fallback_status fallback)

abbrev pub config_of_fallback : Option Fallback → Fields
config_of_fallback none = end
config_of_fallback (some f) = f.config

abbrev pub config_of_row : Option ChannelRow → Fields
config_of_row none = end
config_of_row (some r) = r.non_secret_config

-- `{ ...(fallback?.config || {}), ...(row?.non_secret_config || {}) }`
unfoldable pub current_config : Option ChannelRow → Option Fallback → Fields
unfolding merge
current_config row fallback = merge (config_of_fallback fallback) (config_of_row row)

-- `fallback?.secrets || {}`
abbrev pub fallback_secrets : Option Fallback → Fields
fallback_secrets none = end
fallback_secrets (some f) = f.secrets

abbrev pub credentials_of : Option ChannelRow → Option String
credentials_of none = none
credentials_of (some r) = or_null r.encrypted_credentials

abbrev pub version_of : Option ChannelRow → String
version_of none = ""
version_of (some r) = r.encryption_key_version

module _ (p : Primitives) (env : Env) (tenant_id : String) (c : ChannelType) where
  -- From the credentials of the row on.
  unfoldable pub read_secrets : Option String → String → Option Fallback → Result Fields
  read_secrets none version fallback = ok (fallback_secrets fallback)
  read_secrets (some encrypted) version fallback =
      decrypt_channel_config p env encrypted (aad tenant_id c) version

  unfoldable pub current_secrets : Option ChannelRow → Option Fallback → Result Fields
  unfolding read_secrets
  current_secrets row fallback = read_secrets (credentials_of row) (version_of row) fallback
