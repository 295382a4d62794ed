-- ===== src/Tenants.antt =====
-- apps/web/src/app/api/v1/platform/tenants: the registration of tenants, and retries of their
-- provisioning.
pub mod Registration
pub mod Retry
pub mod Presenter
