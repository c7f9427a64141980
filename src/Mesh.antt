-- ===== src/Mesh.antt =====
-- The WireGuard mesh: crates/pier-core/src/network/wireguard.rs, network/address.rs, the handlers of
-- api/network.rs, and `propose` of api/peer_mesh.rs.
pub mod Ipv4
pub mod Subnet
pub mod Address
pub mod Render
pub mod Rows
pub mod Plan
pub mod Configure
pub mod Pairing
pub mod Invariant
mod Tests
