-- ===== src/Mesh/Invariant.antt =====
-- The steps that write the mesh tables (the handlers of crates/pier-core/src/api/network.rs and `propose`
-- of api/peer_mesh.rs), and what is to hold of the tables.
pub mod Shape
pub mod Planned
pub mod Adopted
pub mod Preserved
pub mod Reenabled
use pier.Base.{
  ℕ, ◌+◌, ◌≤◌, ◌<◌, ◌^◌, Text, Bool, true, false, not, ◌&&◌, ◌||◌, Option, some, List, [], ◌∷◌,
  ◌++◌, map, keep, text_eq, ok, ◌≡◌, All, any,
}
use pier.Mesh.Ipv4.{to_string}
use pier.Mesh.Subnet.{Subnet, parse, first_host, last_host}
use pier.Mesh.Rows.{ExternalRow, PeerRow, ServerRow, MeshDb}
use pier.Mesh.Plan.{UpdateMeshRequest, put_mesh, enable_mesh}
use pier.Mesh.Plan.Addresses.{AreDistinct}
use pier.Mesh.Configure.{Dispatch, configure_mesh, disable_mesh}
use pier.Mesh.Pairing.{ProposeRequest, propose}

abbrev pub key_of : PeerRow → Text × Text
key_of r = (r.server_id, r.assigned_ip)

abbrev pub keys : List PeerRow → List (Text × Text)
keys rows = map key_of rows

-- A host of the subnet, printed.
abbrev pub IsHost : Subnet → Text × Text → Type 0
IsHost s (id, ip) = (j : ℕ) × (first_host s ≤ j) × (j ≤ last_host s) × (ip ≡ to_string j)

abbrev pub Differ : Text × Text → Text × Text → Type 0
Differ (id, ip) (id', ip') = (text_eq id id' ≡ false) × (text_eq ip ip' ≡ false)

-- No two rows share a node or an address.
abbrev pub AreUnique : List (Text × Text) → Type 0
AreUnique [] = Unit
AreUnique (k ∷ ks) = All (Differ k) ks × AreUnique ks

pub record IsMesh (db : MeshDb) : Type 0 where
  pub subnet : Subnet
  pub parses : parse db.config.subnet ≡ ok subnet
  pub unprivileged : 1024 ≤ db.config.listen_port
  pub port : db.config.listen_port < 2 ^ 16
  pub idle : db.config.enabled ≡ false → db.peers ≡ []
  pub hosts : All (IsHost subnet) (keys db.peers)
  pub unique : AreUnique (keys db.peers)
  pub servers : AreDistinct db.servers

abbrev pub is_other : Text → ServerRow → Bool
is_other id s = not (text_eq s.id id)

-- A server is deleted; its row of the mesh goes with it (`ON DELETE CASCADE`).
abbrev pub without : Text → MeshDb → MeshDb
without id db = record db {
  servers = keep (is_other id) db.servers;
  peers = keep (λ r. not (text_eq r.server_id id)) db.peers;
}

-- A proposal that a core with a valid mesh makes. `propose` does not check it; its port is a `u16`.
pub record IsSound (body : ProposeRequest) : Type 0 where
  pub subnet : Subnet
  pub parses : parse body.subnet ≡ ok subnet
  pub unprivileged : 1024 ≤ body.listen_port
  pub port : body.listen_port < 2 ^ 16
  pub hosts : All (IsHost subnet) body.assignments

-- A step of the system: one of the handlers, with any answers of the nodes, a sound proposal of another
-- core, a change of the nodes that other cores report, or a change of the table of servers. The port of
-- a request is a `u16`.
pub data MeshStep (db : MeshDb) : MeshDb → Type 0 where
  put :
      (body : UpdateMeshRequest) (now : ℕ)
      → ((p : ℕ) → body.listen_port ≡ some p → p < 2 ^ 16)
      → MeshStep db (put_mesh body now db).1
  enable : (now : ℕ) → MeshStep db (enable_mesh now db).1
  configure : (dispatch : Dispatch) (now : ℕ) → MeshStep db (configure_mesh dispatch now db).1
  disable :
      (dispatch : Dispatch) (uninstall_helper : Bool) (now : ℕ)
      → MeshStep db (disable_mesh dispatch uninstall_helper now db).1
  adopt :
      (dispatch : Dispatch) (body : ProposeRequest) (owner : Option Text)
      (externals : List ExternalRow) (now later : ℕ)
      → IsSound body
      → MeshStep db (propose dispatch body owner externals now later db).1
  report : (externals : List ExternalRow) → MeshStep db (record db { externals = externals })
  edit :
      (f : ServerRow → ServerRow)
      → ((s : ServerRow) → (f s).id ≡ s.id)
      → MeshStep db (record db { servers = map f db.servers })
  joins :
      (s : ServerRow)
      → All (λ t. text_eq s.id t.id ≡ false) db.servers
      → MeshStep db (record db { servers = s ∷ db.servers })
  leaves : (id : Text) → MeshStep db (without id db)

pub data MeshHistory : MeshDb → MeshDb → Type 0 where
  start : (db : MeshDb) → MeshHistory db db
  step : {a b c : MeshDb} → MeshHistory a b → MeshStep b c → MeshHistory a c
