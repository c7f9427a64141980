-- ===== src/NetHelper.antt =====
-- crates/pier-net-helper/src: the privileged WireGuard helper.
pub mod Protocol
pub mod Helper
mod Tests
