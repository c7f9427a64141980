-- ===== src/Mesh/Render.antt =====
-- The rows of the mesh and `render_wg_conf` (crates/pier-core/src/network/wireguard.rs).
pub mod Accepted
pub mod ReadBack
use pier.Base.{
  ℕ, Text, Bool, true, false, ◌||◌, Option, none, some, List, [], ◌∷◌, ◌++◌, codes, if◌then◌else◌,
  ltb, text_eq, show, map,
}
use pier.Mesh.Ipv4.{to_string}

pub record MeshConfig : Type 0 where
  pub enabled : Bool
  pub subnet : Text
  pub listen_port : ℕ
  pub persistent_keepalive : ℕ
  pub updated_at : ℕ

pub record Peer : Type 0 where
  pub server_id : Text
  pub server_name : Text
  pub is_local : Bool
  pub assigned_ip : ℕ
  pub public_key : Option Text
  pub endpoint : Text
  pub status : Text
  pub error_message : Option Text
  pub last_handshake : Option ℕ

pub record ExternalPeer : Type 0 where
  pub node_uid : Text
  pub name : Text
  pub public_key : Option Text
  pub endpoint : Text
  pub assigned_ip : ℕ

unfoldable pub as_render_peer : ExternalPeer → Peer
as_render_peer e = record {
  server_id = e.node_uid;
  server_name = e.name;
  is_local = false;
  assigned_ip = e.assigned_ip;
  public_key = e.public_key;
  endpoint = e.endpoint;
  status = codes "external";
  error_message = none;
  last_handshake = none;
}

-- `out.push_str(line + "\n")`, with what is pushed behind it
abbrev pub push_line : Text → Text → Text
push_line line rest = line ++ 10 ∷ rest

abbrev pub cidr : ℕ → Text
cidr ip = to_string ip ++ codes "/32"

abbrev pub push_keepalive : ℕ → Text → Text
push_keepalive n rest =
    if ltb 0 n then push_line (codes "PersistentKeepalive =" ++ 32 ∷ show n) rest else rest

abbrev pub push_peer : MeshConfig → Peer → Text → Text → Text
push_peer config peer pk rest = push_line [] (
    push_line (codes "[Peer]") (
      push_line (codes "# " ++ peer.server_name) (
        push_line (codes "PublicKey =" ++ 32 ∷ pk) (
          push_line (codes "Endpoint =" ++ 32 ∷ peer.endpoint) (
            push_line (codes "AllowedIPs =" ++ 32 ∷ cidr peer.assigned_ip)
              (push_keepalive config.persistent_keepalive rest))))))

-- a peer without a key is skipped
abbrev pub push_keyed : MeshConfig → Peer → Option Text → Text → Text
push_keyed config peer none rest = rest
push_keyed config peer (some pk) rest = push_peer config peer pk rest

-- the loop over the peers
unfoldable pub push_peers : Peer → MeshConfig → List Peer → Text
unfolding to_string show
push_peers local config [] = []
push_peers local config (peer ∷ peers) =
    let rest = push_peers local config peers in
    if text_eq peer.server_id local.server_id
    then rest
    else push_keyed config peer peer.public_key rest

unfoldable pub render_wg_conf : Peer → List Peer → MeshConfig → Text
unfolding push_peers to_string show
render_wg_conf local peers config = push_line (codes "[Interface]") (
    push_line (codes "Address =" ++ 32 ∷ cidr local.assigned_ip) (
      push_line (codes "ListenPort =" ++ 32 ∷ show config.listen_port)
        (push_peers local config peers)))
