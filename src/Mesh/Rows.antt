-- ===== src/Mesh/Rows.antt =====
-- The tables of the mesh (crates/pier-core/src/db/schema.rs, migrations 41 and 67), and the queries
-- that load them (crates/pier-core/src/network/wireguard.rs).
use pier.Base.{
  ℕ, ◌%◌, ◌^◌, Text, Bool, true, false, Option, none, some, List, [], ◌∷◌, first, if◌then◌else◌,
  text_eq, Result, ok, err, ◌>>=◌, AppError, internal, ltb, ◌==◌, ◌||◌, ◌&&◌,
}
use pier.Mesh.Ipv4.{SubnetError, parse_ipv4}
use pier.Mesh.Render.{MeshConfig, Peer, ExternalPeer}

pub record ConfigRow : Type 0 where
  pub enabled : Bool
  pub subnet : Text
  pub listen_port : ℕ
  pub persistent_keepalive : ℕ
  pub updated_at : ℕ

pub record PeerRow : Type 0 where
  pub server_id : Text
  pub assigned_ip : Text
  pub public_key : Option Text
  pub endpoint : Text
  pub last_handshake : Option ℕ
  pub status : Text
  pub error_message : Option Text
  pub deployed_at : Option ℕ
  pub created_at : ℕ

pub record ServerRow : Type 0 where
  pub id : Text
  pub name : Text
  pub host : Text
  pub is_local : Bool
  pub is_peer : Bool
  pub created_at : ℕ

pub record ExternalRow : Type 0 where
  pub node_uid : Text
  pub name : Text
  pub public_key : Option Text
  pub endpoint : Text
  pub assigned_ip : Text

pub record MeshDb : Type 0 where
  pub config : ConfigRow
  pub peers : List PeerRow
  pub servers : List ServerRow
  pub externals : List ExternalRow

-- `MeshConfig::load`: the two casts `as u16`; migration 41 inserts the singleton.
unfoldable pub load : MeshDb → MeshConfig
load db = record {
  enabled = db.config.enabled;
  subnet = db.config.subnet;
  listen_port = db.config.listen_port % 2 ^ 16;
  persistent_keepalive = db.config.persistent_keepalive % 2 ^ 16;
  updated_at = db.config.updated_at;
}

-- The order of SQLite and of Rust on texts: by their bytes, which is by their code points.
abbrev pub text_leb : Text → Text → Bool
text_leb [] t = true
text_leb (a ∷ s) [] = false
text_leb (a ∷ s) (b ∷ t) = ltb a b || (a == b && text_leb s t)

module _ {A : Type 0} where
  abbrev pub insert_by : (A → A → Bool) → A → List A → List A
  insert_by before x [] = x ∷ []
  insert_by before x (y ∷ ys) = if before x y then x ∷ y ∷ ys else y ∷ insert_by before x ys

  abbrev pub sort_by : (A → A → Bool) → List A → List A
  sort_by before [] = []
  sort_by before (x ∷ xs) = insert_by before x (sort_by before xs)

abbrev pub in_text_order : PeerRow → PeerRow → Bool
in_text_order a b = text_leb a.assigned_ip b.assigned_ip

abbrev pub server_of : MeshDb → Text → Option ServerRow
server_of db id = first (λ s. text_eq s.id id) db.servers

abbrev pub peer_of : PeerRow → ServerRow → ℕ → Peer
peer_of row s ip = record {
  server_id = row.server_id;
  server_name = s.name;
  is_local = s.is_local;
  assigned_ip = ip;
  public_key = row.public_key;
  endpoint = row.endpoint;
  status = row.status;
  error_message = row.error_message;
  last_handshake = row.last_handshake;
}

abbrev pub ip_of : PeerRow → ServerRow → Result SubnetError ℕ → Result AppError Peer
ip_of row s (ok ip) = ok (peer_of row s ip)
ip_of row s (err e) = err internal

-- the join drops a row without a server
abbrev pub join :
    PeerRow → Option ServerRow → Result AppError (List Peer) → Result AppError (List Peer)
join row none rest = rest
join row (some s) rest = do
  peer ← ip_of row s (parse_ipv4 row.assigned_ip)
  peers ← rest
  ok (peer ∷ peers)

unfoldable pub join_all : MeshDb → List PeerRow → Result AppError (List Peer)
join_all db [] = ok []
join_all db (row ∷ rows) = join row (server_of db row.server_id) (join_all db rows)

-- `Peer::load_all`
unfoldable pub load_all : MeshDb → Result AppError (List Peer)
unfolding join_all
load_all db = join_all db (sort_by in_text_order db.peers)

abbrev external_of : ExternalRow → Result SubnetError ℕ → Result AppError ExternalPeer
external_of row (ok ip) = ok (record {
  node_uid = row.node_uid;
  name = row.name;
  public_key = row.public_key;
  endpoint = row.endpoint;
  assigned_ip = ip;
})
external_of row (err e) = err internal

unfoldable pub read_externals : List ExternalRow → Result AppError (List ExternalPeer)
read_externals [] = ok []
read_externals (row ∷ rows) = do
  external ← external_of row (parse_ipv4 row.assigned_ip)
  externals ← read_externals rows
  ok (external ∷ externals)

-- `ExternalPeer::load_all`
unfoldable pub load_externals : MeshDb → Result AppError (List ExternalPeer)
unfolding read_externals
load_externals db =
    read_externals (sort_by (λ a b. text_leb a.assigned_ip b.assigned_ip) db.externals)
