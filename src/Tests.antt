-- ===== src/Tests.antt =====
-- Runs of the modelled functions on concrete inputs, and the theorems at such inputs.
mod Rbac
mod Projects
mod Provisioning
mod Auth
mod Services
mod Db
mod Channels
mod Crm
