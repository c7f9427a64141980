-- ===== src/Rbac.antt =====
-- crates/pier-core/src/auth/rbac: roles, policy, membership and guards.
pub mod GlobalRole
pub mod ProjectRole
pub mod Membership
pub mod Policy
pub mod Guards
pub mod Agreement
