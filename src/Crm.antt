-- ===== src/Crm.antt =====
-- apps/web/src/app/api/v1/crm: leads.
pub mod Leads
