-- ===== src/Shared.antt =====
-- packages/shared/src: what every package uses.
pub mod Errors
