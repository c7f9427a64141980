-- ===== src/Mesh/Configure.antt =====
-- The handlers `configure_mesh` and `disable_mesh` of crates/pier-core/src/api/network.rs. The helpers of
-- the nodes answer through `mesh_call::dispatch`, which is a parameter here.
pub mod Active
use pier.Base.{
  ℕ, Text, Bool, true, false, not, ◌&&◌, ◌||◌, Option, none, some, List, [], ◌∷◌, ◌++◌, codes,
  if◌then◌else◌, text_eq, Result, ok, err, map, update_where, unwrap_or, AppError, bad_request,
  internal,
}
use pier.Mesh.Render.{MeshConfig, Peer, ExternalPeer, as_render_peer, render_wg_conf}
use pier.Mesh.Rows.{PeerRow, MeshDb, load, load_all, load_externals}
use pier.Mesh.Plan.{is_none}

pub data MeshOp : Type 0 where
  install_wireguard generate_keypair up down uninstall : MeshOp
  write_config : Text → MeshOp

-- `MeshOpResult`; of `result` only the text field `public_key` is read.
pub record MeshOpResult : Type 0 where
  pub is_ok : Bool
  pub result : Option (Option Text)
  pub error : Option Text

-- The answer of a node to an operation, or a transport error. No run of a handler sends one operation
-- to one node twice.
abbrev pub Dispatch : Type 0
Dispatch = Text → MeshOp → Result Text MeshOpResult

-- Why a handler ends early: with the reply "aborted", or with an error.
pub data Stop : Type 0 where
  aborted : Stop
  failed : AppError → Stop

abbrev pub set_peers : (PeerRow → PeerRow) → Text → MeshDb → MeshDb
set_peers f id db = record db { peers = update_where (λ r. text_eq r.server_id id) f db.peers }

abbrev pub with_error : Text → PeerRow → PeerRow
with_error msg r = record r { status = codes "error"; error_message = some msg }

unfoldable pub mark_error : Text → Text → MeshDb → MeshDb
mark_error id msg db = set_peers (with_error msg) id db

abbrev pub with_key : Text → PeerRow → PeerRow
with_key k r = record r { public_key = some k; status = codes "keyed"; error_message = none }

abbrev pub with_active : ℕ → PeerRow → PeerRow
with_active now r = record r {
  status = codes "active";
  error_message = none;
  deployed_at = some now;
}

abbrev pub Step : Type 0 → Type 0
Step A = Result Stop A × MeshDb

abbrev pub then_do : {A B : Type 0} → Step A → (A → MeshDb → Step B) → Step B
then_do (ok a, db) f = f a db
then_do (err e, db) f = (err e, db)

abbrev pub store_key : Peer → Option Text → MeshDb → Step Peer
store_key p none db = (err (failed internal), db)
store_key p (some k) db =
    (ok (record p { public_key = some k }), set_peers (with_key k) p.server_id db)

abbrev pub keypair_of : Peer → MeshDb → Option Text → Option (Option Text) → Step Peer
keypair_of p db error none = (
  err aborted,
  mark_error p.server_id
      (codes "generate_keypair: " ++ unwrap_or error (codes "no keypair returned")) db,
)
keypair_of p db error (some v) = store_key p v db

abbrev pub after_keypair : Peer → MeshDb → Result Text MeshOpResult → Step Peer
after_keypair p db (ok r) = keypair_of p db r.error (if r.is_ok then r.result else none)
after_keypair p db (err e) =
    (err aborted, mark_error p.server_id (codes "generate_keypair transport: " ++ e) db)

abbrev pub after_install : Dispatch → Peer → MeshDb → Result Text MeshOpResult → Step Peer
after_install dispatch p db (ok r) =
    if r.is_ok then after_keypair p db (dispatch p.server_id generate_keypair) else (
      err aborted,
      mark_error p.server_id
          (codes "install_wireguard: " ++ unwrap_or r.error (codes "install rejected")) db,
    )
after_install dispatch p db (err e) =
    (err aborted, mark_error p.server_id (codes "install_wireguard transport: " ++ e) db)

-- One round of phase 1: a peer with a key is skipped.
abbrev pub key_peer : Dispatch → Peer → Option Text → MeshDb → Step Peer
key_peer dispatch p (some k) db = (ok p, db)
key_peer dispatch p none db = after_install dispatch p db (dispatch p.server_id install_wireguard)

unfoldable pub key_all : Dispatch → List Peer → MeshDb → Step (List Peer)
unfolding mark_error
key_all dispatch [] db = (ok [], db)
key_all dispatch (p ∷ ps) db =
    then_do (key_peer dispatch p p.public_key db)
      λ q db. then_do (key_all dispatch ps db) λ qs db. (ok (q ∷ qs), db)

abbrev pub after_up : ℕ → Peer → MeshDb → Result Text MeshOpResult → Step (Unit {0})
after_up now p db (ok r) =
    if r.is_ok then (ok tt, set_peers (with_active now) p.server_id db) else (
      err aborted,
      mark_error p.server_id (codes "up: " ++ unwrap_or r.error (codes "up rejected")) db,
    )
after_up now p db (err e) = (err aborted, mark_error p.server_id (codes "up transport: " ++ e) db)

abbrev pub after_write : Dispatch → ℕ → Peer → MeshDb → Result Text MeshOpResult → Step (Unit {0})
after_write dispatch now p db (ok r) =
    if r.is_ok then after_up now p db (dispatch p.server_id up) else (
      err aborted,
      mark_error p.server_id
          (codes "write_config: " ++ unwrap_or r.error (codes "write_config rejected")) db,
    )
after_write dispatch now p db (err e) =
    (err aborted, mark_error p.server_id (codes "write_config transport: " ++ e) db)

-- Phase 2, over the peers, for the configurations that list all of `render_peers`.
unfoldable pub activate_all :
    Dispatch → ℕ → MeshConfig → List Peer → List Peer → MeshDb → Step (Unit {0})
unfolding mark_error render_wg_conf
activate_all dispatch now cfg render_peers [] db = (ok tt, db)
activate_all dispatch now cfg render_peers (p ∷ ps) db =
    then_do
      (after_write dispatch now p db
        (dispatch p.server_id (write_config (render_wg_conf p render_peers cfg))))
      λ _ db. activate_all dispatch now cfg render_peers ps db

-- The reply: whether the overall result is "ok", or an error.
abbrev pub reply : Step (Unit {0}) → Result AppError Bool × MeshDb
reply (ok _, db) = (ok true, db)
reply (err aborted, db) = (ok false, db)
reply (err (failed e), db) = (err e, db)

abbrev pub with_externals : List ExternalPeer → List Peer → List Peer
with_externals externals peers = peers ++ map as_render_peer externals

unfoldable pub provision :
    Dispatch → ℕ → MeshConfig → List ExternalPeer → List Peer → MeshDb → Step (Unit {0})
unfolding key_all activate_all as_render_peer
provision dispatch now cfg externals peers db =
    then_do (key_all dispatch peers db)
      λ keyed db'. activate_all dispatch now cfg (with_externals externals keyed) keyed db'

abbrev pub provision_external :
    Dispatch
    → ℕ
    → MeshDb
    → List Peer
    → Result AppError (List ExternalPeer)
    → Result AppError Bool × MeshDb
provision_external dispatch now db peers (err e) = (err e, db)
provision_external dispatch now db peers (ok externals) =
    reply (provision dispatch now (load db) externals peers db)

abbrev pub provision_loaded :
    Dispatch → ℕ → MeshDb → Result AppError (List Peer) → Result AppError Bool × MeshDb
provision_loaded dispatch now db (err e) = (err e, db)
provision_loaded dispatch now db (ok peers) =
    if is_none peers
    then (err (bad_request "errors.network.no_peers_allocated"), db)
    else provision_external dispatch now db peers (load_externals db)

-- `POST /network/mesh/configure`; the rows come from one snapshot.
unfoldable pub configure_mesh : Dispatch → ℕ → MeshDb → Result AppError Bool × MeshDb
unfolding load load_all load_externals provision
configure_mesh dispatch now db =
    if db.config.enabled
    then provision_loaded dispatch now db (load_all db)
    else (err (bad_request "errors.network.enable_before_configure"), db)

abbrev pub is_answered_ok : Result Text MeshOpResult → Bool
is_answered_ok (ok r) = r.is_ok
is_answered_ok (err e) = false

abbrev all_of : (Peer → Bool) → List Peer → Bool
all_of p [] = true
all_of p (x ∷ xs) = p x && all_of p xs

-- Whether a node has been torn down; the package goes only when it was asked for.
abbrev pub torn_down : Dispatch → Bool → Peer → Bool
torn_down dispatch uninstall_helper p =
    is_answered_ok (dispatch p.server_id down)
    && (not uninstall_helper || is_answered_ok (dispatch p.server_id uninstall))

abbrev pub cleaned : ℕ → MeshDb → MeshDb
cleaned now db = record db {
  config = record (db.config) { enabled = false; updated_at = now };
  peers = [];
}

abbrev pub disable_loaded :
    Dispatch → Bool → ℕ → MeshDb → Result AppError (List Peer) → Result AppError Bool × MeshDb
disable_loaded dispatch uninstall_helper now db (err e) = (err e, db)
disable_loaded dispatch uninstall_helper now db (ok peers) =
    (ok (all_of (torn_down dispatch uninstall_helper) peers), cleaned now db)

-- `POST /network/mesh/disable`: whether the overall result is "ok", or else "partial".
unfoldable pub disable_mesh : Dispatch → Bool → ℕ → MeshDb → Result AppError Bool × MeshDb
unfolding load_all
disable_mesh dispatch uninstall_helper now db =
    disable_loaded dispatch uninstall_helper now db (load_all db)
