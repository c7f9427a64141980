-- ===== src/Mesh/Pairing.antt =====
-- `propose` of crates/pier-core/src/api/peer_mesh.rs: the plan of another core is adopted. The columns
-- `core_uid` and `peer_core_uid`, which identify the cores to each other, are left out.
use pier.Base.{
  ℕ, Text, Bool, true, false, not, ◌&&◌, Option, none, some, List, [], ◌∷◌, ◌++◌, codes,
  if◌then◌else◌, keep, text_eq, leb, Result, ok, err, ◌>>=◌, ok_or, AppError, bad_request, conflict,
}
use pier.Mesh.Address.{authority}
use pier.Mesh.Rows.{ExternalRow, ConfigRow, PeerRow, ServerRow, MeshDb, sort_by}
use pier.Mesh.Plan.{commit, conflicts}
use pier.Mesh.Configure.{Dispatch, configure_mesh}

-- An assignment is a server's id and its address.
pub record ProposeRequest : Type 0 where
  pub subnet : Text
  pub listen_port : ℕ
  pub keepalive : ℕ
  pub assignments : List (Text × Text)

abbrev pub or_earlier : Option Text → Option Text → Option Text
or_earlier (some ip) earlier = some ip
or_earlier none earlier = earlier

-- The map of the assignments: of two with one id the last one counts.
abbrev pub assigned_ip_of : List (Text × Text) → Text → Option Text
assigned_ip_of [] id = none
assigned_ip_of ((server_id, ip) ∷ rest) id =
    or_earlier (assigned_ip_of rest id) (if text_eq server_id id then some ip else none)

abbrev in_creation_order : ServerRow → ServerRow → Bool
in_creation_order a b =
    if a.is_local && not b.is_local
    then true
    else if b.is_local && not a.is_local
    then false
    else leb a.created_at b.created_at

abbrev pub our_nodes : MeshDb → List ServerRow
our_nodes db = sort_by in_creation_order (keep (λ s. not s.is_peer) db.servers)

abbrev pub adopted_peer : ProposeRequest → ℕ → ServerRow → Text → PeerRow
adopted_peer body now s ip = record {
  server_id = s.id;
  assigned_ip = ip;
  public_key = none;
  endpoint = authority s.host body.listen_port;
  last_handshake = none;
  status = codes "pending";
  error_message = none;
  deployed_at = none;
  created_at = now;
}

-- `INSERT OR REPLACE INTO wireguard_peers`: a row with the node or the address goes.
abbrev pub replace_peer : PeerRow → List PeerRow → List PeerRow
replace_peer new rows = keep (λ r. not (conflicts new r)) rows ++ new ∷ []

unfoldable pub adopt_all :
    ProposeRequest → ℕ → List PeerRow → List ServerRow → Result AppError (List PeerRow)
adopt_all body now rows [] = ok rows
adopt_all body now rows (s ∷ nodes) = do
  ip ←
      ok_or (assigned_ip_of body.assignments s.id)
        (bad_request "owner sent no IP assignment for our node")
  adopt_all body now (replace_peer (adopted_peer body now s ip) rows) nodes

abbrev pub check_unpaired : Bool → Result AppError (Unit {0})
check_unpaired true = err (conflict "disable this core's mesh before pairing")
check_unpaired false = ok tt

abbrev pub adopted_config : ProposeRequest → ℕ → ConfigRow → ConfigRow
adopted_config body now c = record c {
  subnet = body.subnet;
  listen_port = body.listen_port;
  persistent_keepalive = body.keepalive;
  enabled = true;
  updated_at = now;
}

-- `owner` is the row that `find_peer_by_base_url` finds, and `externals` are the nodes of other cores as
-- the request leaves them. An error rolls the transaction back.
abbrev pub adopted :
    ProposeRequest
    → Option Text
    → List ExternalRow
    → ℕ
    → MeshDb
    → Result AppError (Unit {0} × MeshDb)
adopted body owner externals now db = do
  _ ← check_unpaired db.config.enabled
  _ ← ok_or owner (bad_request "the initiating core is not registered as a peer here")
  rows ← adopt_all body now db.peers (our_nodes db)
  ok (
    tt,
    record db { config = adopted_config body now db.config; peers = rows; externals = externals },
  )

abbrev pub forget : Result AppError Bool × MeshDb → Result AppError (Unit {0}) × MeshDb
forget (ok all_active, db) = (ok tt, db)
forget (err e, db) = (err e, db)

-- Phase B, where phase A has committed.
abbrev pub then_configure :
    Dispatch → ℕ → Result AppError (Unit {0}) × MeshDb → Result AppError (Unit {0}) × MeshDb
then_configure dispatch later (ok u, db) = forget (configure_mesh dispatch later db)
then_configure dispatch later (err e, db) = (err e, db)

unfoldable pub propose :
    Dispatch
    → ProposeRequest
    → Option Text
    → List ExternalRow
    → ℕ
    → ℕ
    → MeshDb
    → Result AppError (Unit {0}) × MeshDb
unfolding configure_mesh adopt_all
propose dispatch body owner externals now later db =
    then_configure dispatch later (commit (adopted body owner externals now db) db)
