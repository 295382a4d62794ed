-- ===== src/Auth.antt =====
-- apps/web/src/modules/auth and the context of a request: the rate limiter, sessions with their
-- refresh tokens, and resets of passwords.
pub mod RateLimit
pub mod RefreshToken
pub mod Tables
pub mod Sessions
pub mod Reset
pub mod Request
pub mod Routes
