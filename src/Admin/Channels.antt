-- ===== src/Admin/Channels.antt =====
-- apps/web/src/app/api/v1/admin/channel-config/route.js and apps/web/src/modules/admin/channel-crypto.js:
-- the providers of a tenant's e-mails, text messages and WhatsApp messages, and their credentials.
pub mod Json
pub mod Crypto
pub mod Definitions
pub mod Legacy
pub mod Current
pub mod Show
pub mod Update
