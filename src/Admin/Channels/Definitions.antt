-- ===== src/Admin/Channels/Definitions.antt =====
-- apps/web/src/app/api/v1/admin/channel-config/route.js: the channels and their tables. A row of
-- `tenant_channels` belongs to a tenant and a channel, which are UNIQUE together; the settings are
-- those of one tenant's schema.
use Prim.Native.String.{◌++◌}
use hippo_build_x.Prelude.{String, Bool, ◌&&◌, Option, none, some, List, [], ◌∷◌, find, ◌==◌}
use hippo_build_x.Admin.Channels.Json.{Value, Fields}

pub data ChannelType : Type 0 where
  email sms whatsapp : ChannelType

abbrev pub name_of : ChannelType → String
name_of email = "email"
name_of sms = "sms"
name_of whatsapp = "whatsapp"

-- `CHANNEL_DEFINITIONS`
abbrev pub channel_types : List ChannelType
channel_types = email ∷ sms ∷ whatsapp ∷ []

abbrev pub secret_fields : ChannelType → List String
secret_fields email = "apiKey" ∷ "password" ∷ []
secret_fields sms = "apiKey" ∷ "authToken" ∷ "accountSid" ∷ []
secret_fields whatsapp = "token" ∷ "appSecret" ∷ []

abbrev pub config_fields : ChannelType → List String
config_fields email = "from" ∷ "host" ∷ "port" ∷ "username" ∷ []
config_fields sms = "senderId" ∷ []
config_fields whatsapp = "phoneNumberId" ∷ "businessAccountId" ∷ []

abbrev pub default_provider : ChannelType → String
default_provider email = "brevo"
default_provider sms = "twilio"
default_provider whatsapp = "meta"

pub record ChannelRow : Type 0 where
  pub tenant_id : String
  pub channel_type : String
  pub provider : String
  pub encrypted_credentials : Option String
  pub encryption_key_version : String
  pub non_secret_config : Fields
  pub enabled : Bool
  pub verification_status : String
  pub last_verified_at : Option String

pub record SettingsRow : Type 0 where
  pub channel_config_encrypted : Option String
  pub deleted : Bool

pub record Store : Type 0 where
  pub tenant_channels : List ChannelRow
  pub tenant_settings : List SettingsRow

-- `aad(tenantId, channelType)`
abbrev pub aad : String → ChannelType → String
aad tenant_id c = tenant_id ++ (":" ++ name_of c)

abbrev pub is_row : String → ChannelType → ChannelRow → Bool
is_row tenant_id c r = r.tenant_id == tenant_id && r.channel_type == name_of c

-- What `readRows` and the `Map` of its rows give for a channel.
unfoldable pub row_of : String → ChannelType → Store → Option ChannelRow
row_of tenant_id c s = find (is_row tenant_id c) s.tenant_channels

-- What the column of the old configuration says of a channel.
pub record Fallback : Type 0 where
  pub provider : Value
  pub config : Fields
  pub secrets : Fields
  pub enabled : Value
  pub verification_status : String

pub record LegacyChannels : Type 0 where
  pub email : Fallback
  pub sms : Fallback
  pub whatsapp : Fallback
  pub key_version : Option String

-- `legacy?.channels?.[channelType]`
abbrev pub fallback_of : ChannelType → Option LegacyChannels → Option Fallback
fallback_of c none = none
fallback_of email (some l) = some l.email
fallback_of sms (some l) = some l.sms
fallback_of whatsapp (some l) = some l.whatsapp
