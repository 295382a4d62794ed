-- ===== src/Api.antt =====
-- The request pipeline of apps/web: cookies, the context of a request, and the handler's wrapper.
pub mod Cookies
pub mod Middleware
pub mod Context
pub mod Platform
pub mod Pipeline
