-- ===== src/Mesh/Invariant/Shape.antt =====
-- `configure_mesh` (crates/pier-core/src/api/network.rs) changes no address and no node.
use pier.Base.{
  ℕ, Text, Bool, Option, none, some, List, [], ◌∷◌, text_eq, Result, ok, err, update_where,
  AppError, ◌≡◌, refl, ◌∙◌, Bool-cases, inl, inr, both_branches,
}
use pier.Mesh.Render.{ExternalPeer, MeshConfig, Peer, render_wg_conf}
use pier.Mesh.Rows.{load_externals, PeerRow, MeshDb, load, load_all}
use pier.Mesh.Plan.{is_none}
use pier.Mesh.Configure.{
  MeshOpResult, Dispatch, Step, set_peers, mark_error, with_error, with_key, with_active, then_do,
  store_key, keypair_of, after_keypair, after_install, key_peer, key_all, after_up, after_write,
  activate_all, reply, provision, provision_loaded, provision_external, configure_mesh,
  install_wireguard, generate_keypair, up, write_config, aborted, failed, with_externals,
}
use pier.Mesh.Invariant.{key_of, keys}

-- The same configuration, servers and rows up to their keys and states.
pub record HasShape (old new : MeshDb) : Type 0 where
  pub config : new.config ≡ old.config
  pub servers : new.servers ≡ old.servers
  pub rows : keys new.peers ≡ keys old.peers

same : (db : MeshDb) → HasShape db db
same db = record { config = refl; servers = refl; rows = refl }

keys-update :
    (p : PeerRow → Bool) (f : PeerRow → PeerRow) (rows : List PeerRow)
    → ((r : PeerRow) → key_of (f r) ≡ key_of r)
    → keys (update_where p f rows) ≡ keys rows
keys-update p f [] h = refl
keys-update p f (r ∷ rows) h = elim (Bool-cases (p r)) [
  | inl e ↦ rw (e, h r, keys-update p f rows h) refl
  | inr e ↦ rw (e, keys-update p f rows h) refl
]

module _ (old : MeshDb) where
  set :
      (f : PeerRow → PeerRow) (id : Text) (db : MeshDb)
      → ((r : PeerRow) → key_of (f r) ≡ key_of r)
      → HasShape old db
      → HasShape old (set_peers f id db)
  set f id db h s = record {
    config = s.config;
    servers = s.servers;
    rows = keys-update (λ r. text_eq r.server_id id) f db.peers h ∙ s.rows;
  }

  marked : (id msg : Text) (db : MeshDb) → HasShape old db → HasShape old (mark_error id msg db)
  unfolding mark_error
  marked id msg db s = set (with_error msg) id db (λ r. refl) s

  then_do-HasShape :
      {A B : Type 0} (m : Step A) (f : A → MeshDb → Step B)
      → HasShape old m.1
      → ((a : A) (db : MeshDb) → HasShape old db → HasShape old (f a db).1)
      → HasShape old (then_do m f).1
  then_do-HasShape (ok a, db) f h k = k a db h
  then_do-HasShape (err e, db) f h k = h

  store_key-HasShape :
      (p : Peer) (k : Option Text) (db : MeshDb)
      → HasShape old db
      → HasShape old (store_key p k db).1
  store_key-HasShape p none db s = s
  store_key-HasShape p (some k) db s = set (with_key k) p.server_id db (λ r. refl) s

  keypair_of-HasShape :
      (p : Peer) (db : MeshDb) (e : Option Text) (v : Option (Option Text))
      → HasShape old db
      → HasShape old (keypair_of p db e v).1
  keypair_of-HasShape p db e none s = marked p.server_id _ db s
  keypair_of-HasShape p db e (some v) s = store_key-HasShape p v db s

  after_keypair-HasShape :
      (p : Peer) (db : MeshDb) (a : Result Text MeshOpResult)
      → HasShape old db
      → HasShape old (after_keypair p db a).1
  after_keypair-HasShape p db (ok r) s = keypair_of-HasShape p db r.error _ s
  after_keypair-HasShape p db (err e) s = marked p.server_id _ db s

  after_install-HasShape :
      (d : Dispatch) (p : Peer) (db : MeshDb) (a : Result Text MeshOpResult)
      → HasShape old db
      → HasShape old (after_install d p db a).1
  after_install-HasShape d p db (ok r) s = elim (Bool-cases r.is_ok) [
    | inl e ↦ rw e (after_keypair-HasShape p db (d p.server_id generate_keypair) s)
    | inr e ↦ rw e (marked p.server_id _ db s)
  ]
  after_install-HasShape d p db (err e) s = marked p.server_id _ db s

  key_peer-HasShape :
      (d : Dispatch) (p : Peer) (k : Option Text) (db : MeshDb)
      → HasShape old db
      → HasShape old (key_peer d p k db).1
  key_peer-HasShape d p none db s =
      after_install-HasShape d p db (d p.server_id install_wireguard) s
  key_peer-HasShape d p (some k) db s = s

  key_all-HasShape :
      (d : Dispatch) (ps : List Peer) (db : MeshDb)
      → HasShape old db
      → HasShape old (key_all d ps db).1
  unfolding key_all
  key_all-HasShape d [] db s = s
  key_all-HasShape d (p ∷ ps) db s =
      then_do-HasShape (key_peer d p p.public_key db) _ (key_peer-HasShape d p p.public_key db s)
        λ q db' s'.
          then_do-HasShape (key_all d ps db') _ (key_all-HasShape d ps db' s') λ qs db'' s''. s''

  after_up-HasShape :
      (now : ℕ) (p : Peer) (db : MeshDb) (a : Result Text MeshOpResult)
      → HasShape old db
      → HasShape old (after_up now p db a).1
  after_up-HasShape now p db (ok r) s = elim (Bool-cases r.is_ok) [
    | inl e ↦ rw e (set (with_active now) p.server_id db (λ r. refl) s)
    | inr e ↦ rw e (marked p.server_id _ db s)
  ]
  after_up-HasShape now p db (err e) s = marked p.server_id _ db s

  after_write-HasShape :
      (d : Dispatch) (now : ℕ) (p : Peer) (db : MeshDb) (a : Result Text MeshOpResult)
      → HasShape old db
      → HasShape old (after_write d now p db a).1
  after_write-HasShape d now p db (ok r) s = elim (Bool-cases r.is_ok) [
    | inl e ↦ rw e (after_up-HasShape now p db (d p.server_id up) s)
    | inr e ↦ rw e (marked p.server_id _ db s)
  ]
  after_write-HasShape d now p db (err e) s = marked p.server_id _ db s

  activate_all-HasShape :
      (d : Dispatch) (now : ℕ) (cfg : MeshConfig) (all ps : List Peer) (db : MeshDb)
      → HasShape old db
      → HasShape old (activate_all d now cfg all ps db).1
  unfolding activate_all
  activate_all-HasShape d now cfg all [] db s = s
  activate_all-HasShape d now cfg all (p ∷ ps) db s =
      then_do-HasShape _ _
        (after_write-HasShape d now p db (d p.server_id (write_config (render_wg_conf p all cfg)))
          s)
        λ _ db' s'. activate_all-HasShape d now cfg all ps db' s'

  reply-HasShape : (m : Step (Unit {0})) → HasShape old m.1 → HasShape old (reply m).1
  reply-HasShape (ok a, db) s = s
  reply-HasShape (err aborted, db) s = s
  reply-HasShape (err (failed e), db) s = s

provision-HasShape :
    (d : Dispatch) (now : ℕ) (cfg : MeshConfig) (es : List ExternalPeer) (ps : List Peer)
    (db : MeshDb)
    → HasShape db (provision d now cfg es ps db).1
unfolding provision
provision-HasShape d now cfg es ps db =
    then_do-HasShape db (key_all d ps db) _ (key_all-HasShape db d ps db (same db))
      λ keyed db' s. activate_all-HasShape db d now cfg (with_externals es keyed) keyed db' s

provision_external-HasShape :
    (d : Dispatch) (now : ℕ) (db : MeshDb) (ps : List Peer)
    (es : Result AppError (List ExternalPeer))
    → HasShape db (provision_external d now db ps es).1
provision_external-HasShape d now db ps (err e) = same db
provision_external-HasShape d now db ps (ok es) =
    reply-HasShape db (provision d now (load db) es ps db)
      (provision-HasShape d now (load db) es ps db)

provision_loaded-HasShape :
    (d : Dispatch) (now : ℕ) (db : MeshDb) (ps : Result AppError (List Peer))
    → HasShape db (provision_loaded d now db ps).1
provision_loaded-HasShape d now db (err e) = same db
provision_loaded-HasShape d now db (ok ps) = elim (Bool-cases (is_none ps)) [
  | inl e ↦ rw e (same db)
  | inr e ↦ rw e (provision_external-HasShape d now db ps (load_externals db))
]

pub configure_mesh-HasShape :
    (d : Dispatch) (now : ℕ) (db : MeshDb) → HasShape db (configure_mesh d now db).1
unfolding configure_mesh
configure_mesh-HasShape d now db =
    both_branches (λ (m : Result AppError Bool × MeshDb). HasShape db m.1) db.config.enabled _ _
      (λ _. provision_loaded-HasShape d now db (load_all db)) (λ _. same db)
