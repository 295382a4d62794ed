-- ===== src/Db.antt =====
-- packages/db/src: schema names and the binding of a tenant.
pub mod Names
