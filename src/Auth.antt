-- ===== src/Auth.antt =====
-- crates/pier-core/src/auth: the middleware in front of every protected route, API tokens and sessions.
pub mod Headers
pub mod Tables
pub mod Require
pub mod Credential
pub mod Sound
pub mod Collection
pub mod Tokens
pub mod Kept
mod Tests
