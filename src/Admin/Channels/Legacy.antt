-- ===== src/Admin/Channels/Legacy.antt =====
-- apps/web/src/app/api/v1/admin/channel-config/route.js, `normalizeLegacy` and `loadLegacyChannels`:
-- the configuration that was kept in a column of the tenant's settings.
use hippo_build_x.Prelude.{
  String, Bool, not, Option, none, some, List, [], ◌∷◌, find, or_null, if◌then◌else◌,
}
use hippo_build_x.Prelude.Effect.{Result, ok}
use hippo_build_x.Auth.Sessions.{and_then}
use hippo_build_x.Admin.Channels.Json.{
  Value, text, flag, null, object, Fields, end, is_truthy, get, has_keys, put_if, or_undefined,
}
use hippo_build_x.Admin.Channels.Crypto.{Env, Primitives, decrypt_legacy_channel_config}
use hippo_build_x.Admin.Channels.Definitions.{SettingsRow, Store, Fallback, LegacyChannels}

abbrev pub fields_of : Option Value → Fields
fields_of (some (object fields)) = fields
fields_of _ = end

-- `raw[name] || {}`; a value that is no object has none of the fields that are read.
unfoldable pub object_at : String → Fields → Fields
unfolding get
object_at name raw = fields_of (get name raw)

-- `a || b`
abbrev pub or_else : Option Value → Option Value → Option Value
or_else a b = elim (or_undefined a) [ none ↦ b | some v ↦ some v ]

-- `a || b || 'text'`
abbrev pub or_text : Option Value → String → Value
or_text v default = elim (or_undefined v) [ none ↦ text default | some w ↦ w ]

-- `explicitEnabled ?? Object.keys(secrets).length > 0`
abbrev pub enabled_or : Option Value → Bool → Value
enabled_or none b = flag b
enabled_or (some null) b = flag b
enabled_or (some v) b = v

-- `make`
unfoldable pub make_channel : Value → Fields → Fields → Option Value → Fallback
unfolding has_keys is_truthy
make_channel provider config secrets explicit_enabled =
    let enabled = enabled_or explicit_enabled (has_keys secrets) in
    record {
      provider = provider;
      config = config;
      secrets = secrets;
      enabled = enabled;
      verification_status = if is_truthy enabled then "pending_verification" else "not_configured";
    }

-- The fields with these names that are truthy, in front of others.
abbrev pub pick : List String → Fields → Fields → Fields
pick [] from into = into
pick (name ∷ names) from into = pick names from (put_if name (get name from) into)

unfoldable pub legacy_email : Fields → Fallback
unfolding object_at get put_if make_channel is_truthy
legacy_email raw =
    let email = object_at "email" raw in
    make_channel (or_text (or_else (get "provider" email) (get "emailProvider" raw)) "brevo")
      (pick ("host" ∷ "port" ∷ "username" ∷ []) email
        (put_if "from" (or_else (get "from" email) (get "emailFrom" raw)) end))
      (put_if "apiKey" (get "smtpApiKey" raw) (pick ("apiKey" ∷ "password" ∷ []) email end))
      (get "enabled" email)

unfoldable pub legacy_sms : Fields → Fallback
unfolding object_at get put_if make_channel is_truthy
legacy_sms raw =
    let sms = object_at "sms" raw in
    make_channel (or_text (or_else (get "provider" sms) (get "smsProvider" raw)) "twilio")
      (put_if "senderId" (or_else (get "senderId" sms) (get "smsSenderId" raw)) end)
      (put_if "apiKey" (get "smsApiKey" raw)
        (pick ("apiKey" ∷ "authToken" ∷ "accountSid" ∷ []) sms end))
      (get "enabled" sms)

unfoldable pub legacy_whatsapp : Fields → Fallback
unfolding object_at get put_if make_channel is_truthy
legacy_whatsapp raw =
    let whatsapp = object_at "whatsapp" raw in
    make_channel (or_text (or_else (get "provider" whatsapp) (get "whatsappProvider" raw)) "meta")
      (pick ("phoneNumberId" ∷ "businessAccountId" ∷ []) whatsapp end)
      (put_if "token" (get "whatsappToken" raw) (pick ("token" ∷ "appSecret" ∷ []) whatsapp end))
      (get "enabled" whatsapp)

unfoldable pub normalize_legacy : Fields → Option String → LegacyChannels
unfolding legacy_email legacy_sms legacy_whatsapp
normalize_legacy raw key_version = record {
  email = legacy_email raw;
  sms = legacy_sms raw;
  whatsapp = legacy_whatsapp raw;
  key_version = key_version;
}

abbrev pub encrypted_of : Option SettingsRow → Option String
encrypted_of none = none
encrypted_of (some r) = or_null r.channel_config_encrypted

module _ (p : Primitives) (env : Env) where
  unfoldable pub read_legacy : Option String → Result (Option LegacyChannels)
  unfolding decrypt_legacy_channel_config normalize_legacy
  read_legacy none = ok none
  read_legacy (some encrypted) =
      and_then (decrypt_legacy_channel_config p env encrypted)
        (λ l. ok (some (normalize_legacy l.config l.key_version)))

  unfoldable pub load_legacy_channels : Store → Result (Option LegacyChannels)
  unfolding read_legacy
  load_legacy_channels s = read_legacy (encrypted_of (find (λ r. not r.deleted) s.tenant_settings))
