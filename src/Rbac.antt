-- ===== src/Rbac.antt =====
-- packages/rbac/src: permissions, guards and the data scope.
pub mod Permission
pub mod Matrix
pub mod Context
pub mod Guards
pub mod Scope
