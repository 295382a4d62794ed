-- ===== src/Admin.antt =====
-- apps/web/src/app/api/v1/admin: the routes by which a tenant administers itself.
pub mod Users
pub mod Roles
pub mod Channels
