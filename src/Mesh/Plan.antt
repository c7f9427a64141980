-- ===== src/Mesh/Plan.antt =====
-- The handlers `put_mesh`, `enable_mesh` and `disable_mesh` of crates/pier-core/src/api/network.rs.
pub mod Addresses
pub mod Order
pub mod Enable
use pier.Base.{
  ℕ, ◌+◌, Text, Bool, true, false, not, ◌&&◌, ◌||◌, Option, none, some, List, [], ◌∷◌, ◌++◌, codes,
  if◌then◌else◌, any, length, keep, text_eq, Result, ok, err, ◌>>=◌, ok_or, AppError, bad_request,
  internal, database, ltb, unwrap_or, is_ok,
}
use pier.Mesh.Ipv4.{SubnetError, parse_ipv4, to_string}
use pier.Mesh.Subnet.{Subnet, parse, allocate_ip}
use pier.Mesh.Address.{authority}
use pier.Mesh.Render.{MeshConfig, Peer}
use pier.Mesh.Rows.{ConfigRow, PeerRow, ServerRow, MeshDb, load, load_all, text_leb, sort_by}

-- What a handler answers, and the tables behind it.
abbrev pub commit :
    {A : Type 0} → Result AppError (A × MeshDb) → MeshDb → Result AppError A × MeshDb
commit (ok (a, new)) old = (ok a, new)
commit (err e) old = (err e, old)

pub record UpdateMeshRequest : Type 0 where
  pub subnet : Option Text
  pub listen_port : Option ℕ
  pub persistent_keepalive : Option ℕ

abbrev pub accept : Result SubnetError Subnet → Result AppError (Unit {0})
accept (ok s) = ok tt
accept (err e) = err (bad_request "errors.network.invalid_subnet")

abbrev pub check_subnet : Option Text → Result AppError (Unit {0})
check_subnet none = ok tt
check_subnet (some s) = accept (parse s)

abbrev pub check_port : Option ℕ → Result AppError (Unit {0})
check_port none = ok tt
check_port (some p) =
    if ltb p 1024 then err (bad_request "errors.network.listen_port_privileged") else ok tt

abbrev pub is_none : {A : Type 0} → List A → Bool
is_none [] = true
is_none (x ∷ xs) = false

abbrev pub check_unlocked : Bool → List PeerRow → Result AppError (Unit {0})
check_unlocked enabled peers =
    if enabled || not (is_none peers)
    then err (bad_request "errors.network.mesh_config_locked")
    else ok tt

abbrev pub store : UpdateMeshRequest → ℕ → ConfigRow → ConfigRow
store body now c = record c {
  subnet = unwrap_or body.subnet c.subnet;
  listen_port = unwrap_or body.listen_port c.listen_port;
  persistent_keepalive = unwrap_or body.persistent_keepalive c.persistent_keepalive;
  updated_at = now;
}

abbrev pub checked_update : UpdateMeshRequest → ℕ → MeshDb → Result AppError (Unit {0} × MeshDb)
checked_update body now db = do
  _ ← check_subnet body.subnet
  _ ← check_port body.listen_port
  _ ← check_unlocked db.config.enabled db.peers
  ok (tt, record db { config = store body now db.config })

unfoldable pub put_mesh : UpdateMeshRequest → ℕ → MeshDb → Result AppError (Unit {0}) × MeshDb
put_mesh body now db = commit (checked_update body now db) db

-- the addresses that can be read
abbrev pub push_read : Result SubnetError ℕ → List ℕ → List ℕ
push_read (ok ip) rest = ip ∷ rest
push_read (err e) rest = rest

abbrev pub used_addresses : List PeerRow → List ℕ
used_addresses [] = []
used_addresses (row ∷ rows) = push_read (parse_ipv4 row.assigned_ip) (used_addresses rows)

-- local first, then by the id
abbrev pub in_plan_order : ServerRow → ServerRow → Bool
in_plan_order a b =
    if a.is_local && not b.is_local
    then true
    else if b.is_local && not a.is_local
    then false
    else text_leb a.id b.id

-- The servers that are not other cores. The ids are the table's key, so this order leaves nothing to
-- the query's own.
abbrev pub planned_servers : MeshDb → List ServerRow
planned_servers db = sort_by in_plan_order (keep (λ s. not s.is_peer) db.servers)

abbrev pub new_peer : ℕ → ℕ → ServerRow → ℕ → PeerRow
new_peer port now s ip = record {
  server_id = s.id;
  assigned_ip = to_string ip;
  public_key = none;
  endpoint = authority s.host port;
  last_handshake = none;
  status = codes "pending";
  error_message = none;
  deployed_at = none;
  created_at = now;
}

abbrev pub conflicts : PeerRow → PeerRow → Bool
conflicts new row = text_eq row.server_id new.server_id || text_eq row.assigned_ip new.assigned_ip

-- `INSERT INTO wireguard_peers`, with the key and the unique address
abbrev pub insert_peer : PeerRow → List PeerRow → Result AppError (List PeerRow)
insert_peer new rows = if any (conflicts new) rows then err database else ok (rows ++ new ∷ [])

-- The loop over the servers.
unfoldable pub allocate_all :
    Subnet → ℕ → ℕ → List ℕ → List PeerRow → List ServerRow → Result AppError (List PeerRow)
allocate_all subnet port now used rows [] = ok rows
allocate_all subnet port now used rows (s ∷ servers) = do
  ip ← ok_or (allocate_ip subnet used) internal
  rows ← insert_peer (new_peer port now s ip) rows
  allocate_all subnet port now (used ++ ip ∷ []) rows servers

abbrev pub stored_subnet : Result SubnetError Subnet → Result AppError Subnet
stored_subnet (ok s) = ok s
stored_subnet (err e) = err internal

abbrev pub check_disabled : Bool → Result AppError (Unit {0})
check_disabled true = err (bad_request "errors.network.mesh_already_enabled")
check_disabled false = ok tt

abbrev pub allocated : ℕ → MeshDb → Result AppError (ℕ × MeshDb)
allocated now db = do
  _ ← check_disabled db.config.enabled
  subnet ← stored_subnet (parse db.config.subnet)
  rows ←
      allocate_all subnet (load db).listen_port now (used_addresses db.peers) db.peers
        (planned_servers db)
  ok (
    length (planned_servers db),
    record db { config = record (db.config) { enabled = true; updated_at = now }; peers = rows },
  )

-- `POST /network/mesh/enable`, with the number of rows allocated. An error before the commit leaves the transaction's writes behind.
unfoldable pub enable_mesh : ℕ → MeshDb → Result AppError ℕ × MeshDb
unfolding load
enable_mesh now db = commit (allocated now db) db
