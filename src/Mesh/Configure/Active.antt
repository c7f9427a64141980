-- ===== src/Mesh/Configure/Active.antt =====
-- What a `configure_mesh` (crates/pier-core/src/api/network.rs) that ends well has done.
use pier.Base.{
  ℕ, Text, Bool, true, false, Option, none, some, List, [], ◌∷◌, codes, if◌then◌else◌, text_eq,
  Result, ok, err, update_where, AppError, ◌≡◌, refl, sym, ap, subst, arith, All, Bool-cases, inl,
  inr, is_some, bad_request,
}
use pier.Mesh.Render.{ExternalPeer, MeshConfig, Peer, render_wg_conf}
use pier.Mesh.Rows.{load_externals, PeerRow, MeshDb, load, load_all}
use pier.Mesh.Configure.{
  MeshOpResult, Dispatch, Step, set_peers, with_active, then_do, store_key, keypair_of,
  after_keypair, after_install, key_peer, key_all, after_up, after_write, activate_all, reply,
  provision, provision_loaded, provision_external, configure_mesh, install_wireguard,
  generate_keypair, up, write_config, aborted, failed, with_externals,
}

-- Every row of the node is active.
abbrev pub IsActive : MeshDb → Text → Type 0
IsActive db id = All (λ r. text_eq r.server_id id ≡ true → r.status ≡ codes "active") db.peers

set-IsActive : (now : ℕ) (id : Text) (db : MeshDb) → IsActive (set_peers (with_active now) id db) id
set-IsActive now id db = go db.peers
  where
    go :
        (rows : List PeerRow)
        → All
            (λ r. text_eq r.server_id id ≡ true → r.status ≡ codes "active")
            (update_where (λ r. text_eq r.server_id id) (with_active now) rows)
    go [] = tt
    go (r ∷ rows) = elim (Bool-cases (text_eq r.server_id id)) [
      | inl e ↦ rw e (λ h. refl, go rows)
      | inr e ↦ rw e (λ h. ground (arith, e, h), go rows)
    ]

set-keeps_IsActive :
    (now : ℕ) (id other : Text) (db : MeshDb)
    → IsActive db other
    → IsActive (set_peers (with_active now) id db) other
set-keeps_IsActive now id other db a = go db.peers a
  where
    go :
        (rows : List PeerRow)
        → All (λ r. text_eq r.server_id other ≡ true → r.status ≡ codes "active") rows
        → All
            (λ r. text_eq r.server_id other ≡ true → r.status ≡ codes "active")
            (update_where (λ r. text_eq r.server_id id) (with_active now) rows)
    go [] a = tt
    go (r ∷ rows) (h, a) = elim (Bool-cases (text_eq r.server_id id)) [
      | inl e ↦ rw e (λ k. refl, go rows a)
      | inr e ↦ rw e (h, go rows a)
    ]

-- A chain that ends well has passed through its first step.
then_do-ok :
    {A B : Type 0} (m : Step A) (f : A → MeshDb → Step B) (b : B)
    → (then_do m f).0 ≡ ok b
    → (a : A) × (m.0 ≡ ok a) × (then_do m f ≡ f a m.1) × ((f a m.1).0 ≡ ok b)
then_do-ok (ok a, db) f b h = (a, refl, refl, h)
then_do-ok (err e, db) f b h = cc

after_up-ok :
    (now : ℕ) (p : Peer) (db : MeshDb) (a : Result Text MeshOpResult)
    → (after_up now p db a).0 ≡ ok tt
    → (after_up now p db a).1 ≡ set_peers (with_active now) p.server_id db
after_up-ok now p db (ok r) h = ground arith
after_up-ok now p db (err e) h = cc

after_write-ok :
    (d : Dispatch) (now : ℕ) (p : Peer) (db : MeshDb) (a : Result Text MeshOpResult)
    → (after_write d now p db a).0 ≡ ok tt
    → (after_write d now p db a).1 ≡ set_peers (with_active now) p.server_id db
after_write-ok d now p db (ok r) h = ground (arith, after_up-ok now p db (d p.server_id up))
after_write-ok d now p db (err e) h = cc

module _ (d : Dispatch) (now : ℕ) (cfg : MeshConfig) (all : List Peer) where
  activate_all-keeps :
      (ps : List Peer) (db : MeshDb) (id : Text)
      → (activate_all d now cfg all ps db).0 ≡ ok tt
      → IsActive db id
      → IsActive (activate_all d now cfg all ps db).1 id
  unfolding activate_all
  activate_all-keeps [] db id h a = a
  activate_all-keeps (p ∷ ps) db id h a =
      let write =
        after_write d now p db (d p.server_id (write_config (render_wg_conf p all cfg))) in
      let (_, first, same, rest) =
        then_do-ok write (λ _ db. activate_all d now cfg all ps db) tt h in
      let wrote =
        after_write-ok d now p db (d p.server_id (write_config (render_wg_conf p all cfg))) first in
      subst (λ (m : Step (Unit {0})). IsActive m.1 id) (sym same)
        (activate_all-keeps ps write.1 id rest
          (subst (λ x. IsActive x id) (sym wrote) (set-keeps_IsActive now p.server_id id db a)))

  activate_all-IsActive :
      (ps : List Peer) (db : MeshDb)
      → (activate_all d now cfg all ps db).0 ≡ ok tt
      → All (λ (p : Peer). IsActive (activate_all d now cfg all ps db).1 p.server_id) ps
  unfolding activate_all
  activate_all-IsActive [] db h = tt
  activate_all-IsActive (p ∷ ps) db h =
      let write =
        after_write d now p db (d p.server_id (write_config (render_wg_conf p all cfg))) in
      let (_, first, same, rest) =
        then_do-ok write (λ _ db. activate_all d now cfg all ps db) tt h in
      let wrote =
        after_write-ok d now p db (d p.server_id (write_config (render_wg_conf p all cfg))) first in
      subst (λ (m : Step (Unit {0})). All (λ (p : Peer). IsActive m.1 p.server_id) (p ∷ ps))
        (sym same)
        (
          activate_all-keeps ps write.1 p.server_id rest
              (subst (λ x. IsActive x p.server_id) (sym wrote) (set-IsActive now p.server_id db)),
          activate_all-IsActive ps write.1 rest,
        )

-- The peer that phase 1 gives back: the same node, with a key.
abbrev pub IsKeyed : Peer → Peer → Type 0
IsKeyed p q = (q.server_id ≡ p.server_id) × (is_some q.public_key ≡ true)

store_key-IsKeyed :
    (p q : Peer) (k : Option Text) (db : MeshDb) → (store_key p k db).0 ≡ ok q → IsKeyed p q
store_key-IsKeyed p q none db h = cc
store_key-IsKeyed p q (some k) db h =
    let e : record p { public_key = some k } ≡ q = cc in
    (ap (λ x. x.server_id) (sym e), ap (λ (x : Peer). is_some x.public_key) (sym e))

keypair_of-IsKeyed :
    (p q : Peer) (db : MeshDb) (e : Option Text) (v : Option (Option Text))
    → (keypair_of p db e v).0 ≡ ok q
    → IsKeyed p q
keypair_of-IsKeyed p q db e none h = cc
keypair_of-IsKeyed p q db e (some v) h = store_key-IsKeyed p q v db h

after_keypair-IsKeyed :
    (p q : Peer) (db : MeshDb) (a : Result Text MeshOpResult)
    → (after_keypair p db a).0 ≡ ok q
    → IsKeyed p q
after_keypair-IsKeyed p q db (ok r) h = keypair_of-IsKeyed p q db r.error _ h
after_keypair-IsKeyed p q db (err e) h = cc

after_install-IsKeyed :
    (d : Dispatch) (p q : Peer) (db : MeshDb) (a : Result Text MeshOpResult)
    → (after_install d p db a).0 ≡ ok q
    → IsKeyed p q
after_install-IsKeyed d p q db (ok r) h =
    ground (arith, after_keypair-IsKeyed p q db (d p.server_id generate_keypair))
after_install-IsKeyed d p q db (err e) h = cc

key_peer-IsKeyed :
    (d : Dispatch) (p q : Peer) (k : Option Text) (db : MeshDb)
    → k ≡ p.public_key
    → (key_peer d p k db).0 ≡ ok q
    → IsKeyed p q
key_peer-IsKeyed d p q none db e h =
    after_install-IsKeyed d p q db (d p.server_id install_wireguard) h
key_peer-IsKeyed d p q (some k) db e h =
    let same : p ≡ q = cc in subst (λ x. IsKeyed p x) same (refl, ap is_some (sym e))

-- Two lists, side by side.
abbrev pub AllPairs : (Peer → Peer → Type 0) → List Peer → List Peer → Type 0
AllPairs R [] [] = Unit
AllPairs R [] (q ∷ qs) = ⊥
AllPairs R (p ∷ ps) [] = ⊥
AllPairs R (p ∷ ps) (q ∷ qs) = R p q × AllPairs R ps qs

key_all-IsKeyed :
    (d : Dispatch) (ps qs : List Peer) (db : MeshDb)
    → (key_all d ps db).0 ≡ ok qs
    → AllPairs IsKeyed ps qs
unfolding key_all
key_all-IsKeyed d [] qs db h = let e : [] ≡ qs = cc in subst (λ qs. AllPairs IsKeyed [] qs) e tt
key_all-IsKeyed d (p ∷ ps) qs db h =
    let (q, first, _, rest) = then_do-ok (key_peer d p p.public_key db) _ qs h in
    let (qs', more, _, last) =
      then_do-ok (key_all d ps (key_peer d p p.public_key db).1) _ qs rest in
    let e : q ∷ qs' ≡ qs = cc in
    subst (λ qs. AllPairs IsKeyed (p ∷ ps) qs) e
      (
        key_peer-IsKeyed d p q p.public_key db refl first,
        key_all-IsKeyed d ps qs' (key_peer d p p.public_key db).1 more,
      )

IsActive-pairs :
    (db : MeshDb) (ps qs : List Peer)
    → AllPairs IsKeyed ps qs
    → All (λ (q : Peer). IsActive db q.server_id) qs
    → All (λ (p : Peer). IsActive db p.server_id) ps
IsActive-pairs db [] qs a b = tt
IsActive-pairs db (p ∷ ps) [] a b = absurd a
IsActive-pairs db (p ∷ ps) (q ∷ qs) ((e, _), a) (h, b) =
    (subst (λ id. IsActive db id) e h, IsActive-pairs db ps qs a b)

provision-IsActive :
    (d : Dispatch) (now : ℕ) (cfg : MeshConfig) (es : List ExternalPeer) (ps : List Peer)
    (db : MeshDb)
    → (provision d now cfg es ps db).0 ≡ ok tt
    → All (λ (p : Peer). IsActive (provision d now cfg es ps db).1 p.server_id) ps
unfolding provision
provision-IsActive d now cfg es ps db h =
    let (qs, first, same, rest) = then_do-ok (key_all d ps db) _ tt h in
    subst (λ (m : Step (Unit {0})). All (λ (p : Peer). IsActive m.1 p.server_id) ps) (sym same)
      (IsActive-pairs (activate_all d now cfg (with_externals es qs) qs (key_all d ps db).1).1 ps qs
        (key_all-IsKeyed d ps qs db first)
        (activate_all-IsActive d now cfg (with_externals es qs) qs (key_all d ps db).1 rest))

reply-ok : (m : Step (Unit {0})) → (reply m).0 ≡ ok true → (m.0 ≡ ok tt) × ((reply m).1 ≡ m.1)
reply-ok (ok _, db) h = (refl, refl)
reply-ok (err aborted, db) h = cc
reply-ok (err (failed e), db) h = cc

provision_external-IsActive :
    (d : Dispatch) (now : ℕ) (db : MeshDb) (ps : List Peer)
    (loaded : Result AppError (List ExternalPeer))
    → (provision_external d now db ps loaded).0 ≡ ok true
    → All (λ (p : Peer). IsActive (provision_external d now db ps loaded).1 p.server_id) ps
provision_external-IsActive d now db ps (err e) h = cc
provision_external-IsActive d now db ps (ok es) h =
    let (done, same) = reply-ok (provision d now (load db) es ps db) h in
    subst (λ x. All (λ (q : Peer). IsActive x q.server_id) ps) (sym same)
      (provision-IsActive d now (load db) es ps db done)

provision_loaded-IsActive :
    (d : Dispatch) (now : ℕ) (db : MeshDb) (loaded : Result AppError (List Peer))
    → (provision_loaded d now db loaded).0 ≡ ok true
    → (ps : List Peer) × (loaded ≡ ok ps)
      × All (λ (p : Peer). IsActive (provision_loaded d now db loaded).1 p.server_id) ps
provision_loaded-IsActive d now db (err e) h = cc
provision_loaded-IsActive d now db (ok []) h = cc
provision_loaded-IsActive d now db (ok (p ∷ ps)) h =
    (p ∷ ps, refl, provision_external-IsActive d now db (p ∷ ps) (load_externals db) h)

-- Whatever the nodes answer: if the configuration ends with the overall result "ok", the mesh was
-- enabled, and every row of every node that was loaded is active.
pub configure_mesh-IsActive :
    (d : Dispatch) (now : ℕ) (db : MeshDb)
    → (configure_mesh d now db).0 ≡ ok true
    → (db.config.enabled ≡ true)
      × ((ps : List Peer) × (load_all db ≡ ok ps)
          × All (λ (p : Peer). IsActive (configure_mesh d now db).1 p.server_id) ps)
unfolding configure_mesh
configure_mesh-IsActive d now db h = go db.config.enabled h
  where
    branch : Bool → Result AppError Bool × MeshDb
    branch b =
        if b
        then provision_loaded d now db (load_all db)
        else (err (bad_request "errors.network.enable_before_configure"), db)

    go :
        (b : Bool)
        → (branch b).0 ≡ ok true
        → (b ≡ true)
          × ((ps : List Peer) × (load_all db ≡ ok ps)
              × All (λ (p : Peer). IsActive (branch b).1 p.server_id) ps)
    go true h = (refl, provision_loaded-IsActive d now db (load_all db) h)
    go false h = cc
