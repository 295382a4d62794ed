-- ===== src/Provisioning.antt =====
-- Tenant provisioning: the control plane's tables, the worker and the queue client.
pub mod ControlPlane
pub mod Attempt
pub mod Schema
pub mod Migrations
pub mod Worker
pub mod Queue
