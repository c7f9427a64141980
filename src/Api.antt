-- ===== src/Api.antt =====
-- crates/pier-core/src/api: the handlers of project membership and of user management.
pub mod Handler
pub mod Members
pub mod Users
pub mod History
mod Tests
