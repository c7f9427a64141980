-- ===== src/Mesh/Invariant/Preserved.antt =====
-- The handlers of crates/pier-core/src/api/network.rs keep the invariant of the mesh tables.
use pier.Base.{
  ℕ, ◌+◌, ◌≤◌, ◌<◌, ◌^◌, Text, Bool, true, false, not, Option, none, some, List, [], ◌∷◌, length,
  keep, ok, err, Result, AppError, ◌≡◌, refl, sym, ap, ◌∙◌, subst, arith, All, leb, Bool-cases, inl,
  inr, text_eq, both_branches, unwrap_or, >>=-eq-ok, ◌>>=◌,
}
use pier.Mesh.Ipv4.{SubnetError}
use pier.Mesh.Subnet.{Subnet, parse, block}
use pier.Mesh.Render.{Peer}
use pier.Mesh.Rows.{ExternalRow, PeerRow, MeshDb, load_all}
use pier.Mesh.Plan.{
  UpdateMeshRequest, commit, check_subnet, check_port, check_unlocked, checked_update, store,
  put_mesh, planned_servers, enable_mesh, check_disabled, accept, allocated,
}
use pier.Mesh.Plan.Addresses.{AreDistinct}
use pier.Mesh.Plan.Order.{AreDistinct-keep}
use pier.Mesh.Plan.Enable.{enable_mesh-plan}
use pier.Mesh.Configure.{Dispatch, configure_mesh, disable_mesh, disable_loaded, cleaned}
use pier.Mesh.Invariant.{
  key_of, keys, IsHost, Differ, AreUnique, IsMesh, is_other, without, MeshStep, put, enable,
  configure, disable, adopt, report, edit, IsSound, joins, leaves, MeshHistory, start, step,
}
use pier.Mesh.Pairing.{ProposeRequest, adopted, forget, then_configure, propose}
use pier.Mesh.Invariant.Adopted.{adopted-IsMesh, AreDistinct-map}
use pier.Mesh.Invariant.Planned.{planned-IsMesh}
use pier.Mesh.Invariant.Shape.{HasShape, configure_mesh-HasShape}

-- A change that keeps the shape, where an idle mesh has no rows.
HasShape-IsMesh : (old new : MeshDb) → HasShape old new → IsMesh old → IsMesh new
HasShape-IsMesh old new s v = record {
  subnet = v.subnet;
  parses = ap (λ c. parse c.subnet) s.config ∙ v.parses;
  unprivileged = subst (λ c. 1024 ≤ c.listen_port) (sym s.config) v.unprivileged;
  port = subst (λ c. c.listen_port < 2 ^ 16) (sym s.config) v.port;
  idle =
      λ e. no_rows new.peers (s.rows ∙ ap keys (v.idle (ap (λ c. c.enabled) (sym s.config) ∙ e)));
  hosts = subst (λ k. All (IsHost v.subnet) k) (sym s.rows) v.hosts;
  unique = subst (λ k. AreUnique k) (sym s.rows) v.unique;
  servers = subst (λ x. AreDistinct x) (sym s.servers) v.servers;
}
  where
    no_rows : (rows : List PeerRow) → keys rows ≡ [] → rows ≡ []
    no_rows [] e = refl
    no_rows (r ∷ rows) e = cc

cleaned-IsMesh : (now : ℕ) (db : MeshDb) → IsMesh db → IsMesh (cleaned now db)
cleaned-IsMesh now db v = record {
  subnet = v.subnet;
  parses = v.parses;
  unprivileged = v.unprivileged;
  port = v.port;
  idle = λ e. refl;
  hosts = tt;
  unique = tt;
  servers = v.servers;
}

commit-IsMesh :
    {A : Type 0} (r : Result AppError (A × MeshDb)) (db : MeshDb)
    → IsMesh db
    → ((a : A) (new : MeshDb) → r ≡ ok (a, new) → IsMesh new)
    → IsMesh (commit r db).1
commit-IsMesh (ok (a, new)) db v h = h a new refl
commit-IsMesh (err e) db v h = v

stop :
    {A : Type 0} (b : Bool) (f : Unit {0} → Result AppError A) (x : A)
    → b ≡ true
    → (check_disabled b >>= f) ≡ ok x
    → ⊥
stop true f x on e = cc
stop false f x on e = cc

enable_mesh-on :
    (now : ℕ) (db : MeshDb) → db.config.enabled ≡ true → IsMesh db → IsMesh (enable_mesh now db).1
unfolding enable_mesh
enable_mesh-on now db on v =
    commit-IsMesh (allocated now db) db v λ a new e. absurd (stop db.config.enabled _ (a, new) on e)

enable_mesh-IsMesh : (now : ℕ) (db : MeshDb) → IsMesh db → IsMesh (enable_mesh now db).1
enable_mesh-IsMesh now db v = elim (Bool-cases db.config.enabled) [
  | inl on ↦ enable_mesh-on now db on v
  | inr off ↦
      subst (λ (m : Result AppError ℕ × MeshDb). IsMesh m.1)
        (sym (enable_mesh-plan db now v.subnet v.parses (v.idle off) v.servers))
        (both_branches (λ (m : Result AppError ℕ × MeshDb). IsMesh m.1) db.config.enabled _ _
          (λ _. v)
          λ _.
            both_branches (λ (m : Result AppError ℕ × MeshDb). IsMesh m.1)
              (leb (length (planned_servers db) + 2) (block v.subnet.prefix)) _ _
              (λ fits. planned-IsMesh now db v (ground (arith, fits))) (λ _. v))
]

-- Every stored subnet and port has passed the checks.
accept-ok : (r : Result SubnetError Subnet) → accept r ≡ ok tt → (t : Subnet) × (r ≡ ok t)
accept-ok (ok t) c = (t, refl)
accept-ok (err e) c = cc

store-subnet :
    (body : Option Text) (old : Text) (s : Subnet)
    → check_subnet body ≡ ok tt
    → parse old ≡ ok s
    → (t : Subnet) × (parse (unwrap_or body old) ≡ ok t)
store-subnet none old s c e = (s, e)
store-subnet (some t) old s c e = accept-ok (parse t) c

store-port :
    (body : Option ℕ) (old : ℕ) → check_port body ≡ ok tt → 1024 ≤ old → 1024 ≤ unwrap_or body old
store-port none old c h = h
store-port (some p) old c h = ground arith

store-port_bound :
    (body : Option ℕ) (old : ℕ)
    → ((p : ℕ) → body ≡ some p → p < 2 ^ 16)
    → old < 2 ^ 16
    → unwrap_or body old < 2 ^ 16
store-port_bound none old b h = h
store-port_bound (some p) old b h = b p refl

unlocked-peers :
    (enabled : Bool) (peers : List PeerRow) → check_unlocked enabled peers ≡ ok tt → peers ≡ []
unlocked-peers true peers h = cc
unlocked-peers false [] h = refl
unlocked-peers false (r ∷ peers) h = cc

put_mesh-IsMesh :
    (body : UpdateMeshRequest) (now : ℕ) (db : MeshDb)
    → ((p : ℕ) → body.listen_port ≡ some p → p < 2 ^ 16)
    → IsMesh db
    → IsMesh (put_mesh body now db).1
unfolding put_mesh
put_mesh-IsMesh body now db u16 v = commit-IsMesh (checked_update body now db) db v λ a new e.
    let (_, subnet_ok, e1) = >>=-eq-ok (check_subnet body.subnet) _ e in
    let (_, port_ok, e2) = >>=-eq-ok (check_port body.listen_port) _ e1 in
    let (_, unlocked, e3) = >>=-eq-ok (check_unlocked db.config.enabled db.peers) _ e2 in
    let none_left = unlocked-peers db.config.enabled db.peers unlocked in
    let (t, parsed) = store-subnet body.subnet db.config.subnet v.subnet subnet_ok v.parses in
    subst (λ new. IsMesh new) (stored new e3)
      (record {
        subnet = t;
        parses = parsed;
        unprivileged = store-port body.listen_port db.config.listen_port port_ok v.unprivileged;
        port = store-port_bound body.listen_port db.config.listen_port u16 v.port;
        idle = λ _. none_left;
        hosts = subst (λ rows. All (IsHost t) (keys rows)) (sym none_left) tt;
        unique = v.unique;
        servers = v.servers;
      })
  where
    stored :
        (new : MeshDb)
        → Path
            (Result AppError (Unit {0} × MeshDb))
            (ok (tt, record db { config = store body now db.config }))
            (ok (tt, new))
        → record db { config = store body now db.config } ≡ new
    stored new e = cc

disable_mesh-IsMesh :
    (dispatch : Dispatch) (uninstall_helper : Bool) (now : ℕ) (db : MeshDb)
    → IsMesh db
    → IsMesh (disable_mesh dispatch uninstall_helper now db).1
unfolding disable_mesh
disable_mesh-IsMesh dispatch uninstall_helper now db v = go (load_all db)
  where
    go :
        (r : Result AppError (List Peer))
        → IsMesh (disable_loaded dispatch uninstall_helper now db r).1
    go (ok peers) = cleaned-IsMesh now db v
    go (err e) = v

module _ (p : PeerRow → Bool) where
  All-keep_keys :
      (P : Text × Text → Type 0) (rows : List PeerRow)
      → All P (keys rows)
      → All P (keys (keep p rows))
  All-keep_keys P [] a = tt
  All-keep_keys P (r ∷ rows) (h, a) = elim (Bool-cases (p r)) [
    | inl e ↦ rw e (h, All-keep_keys P rows a)
    | inr e ↦ rw e (All-keep_keys P rows a)
  ]

  AreUnique-keep : (rows : List PeerRow) → AreUnique (keys rows) → AreUnique (keys (keep p rows))
  AreUnique-keep [] u = tt
  AreUnique-keep (r ∷ rows) (a, u) = elim (Bool-cases (p r)) [
    | inl e ↦ rw e (All-keep_keys (Differ (key_of r)) rows a, AreUnique-keep rows u)
    | inr e ↦ rw e (AreUnique-keep rows u)
  ]

without-IsMesh : (id : Text) (db : MeshDb) → IsMesh db → IsMesh (without id db)
without-IsMesh id db v = record {
  subnet = v.subnet;
  parses = v.parses;
  unprivileged = v.unprivileged;
  port = v.port;
  idle = λ e. ap (keep λ r. not (text_eq r.server_id id)) (v.idle e);
  hosts = All-keep_keys (λ r. not (text_eq r.server_id id)) (IsHost v.subnet) db.peers v.hosts;
  unique = AreUnique-keep (λ r. not (text_eq r.server_id id)) db.peers v.unique;
  servers = AreDistinct-keep (is_other id) db.servers v.servers;
}

forget-state : (m : Result AppError Bool × MeshDb) → IsMesh m.1 → IsMesh (forget m).1
forget-state (ok all_active, db) v = v
forget-state (err e, db) v = v

propose-IsMesh :
    (dispatch : Dispatch) (body : ProposeRequest) (owner : Option Text)
    (externals : List ExternalRow) (now later : ℕ) (db : MeshDb)
    → IsSound body
    → IsMesh db
    → IsMesh (propose dispatch body owner externals now later db).1
unfolding propose
propose-IsMesh dispatch body owner externals now later db sound v =
    go (adopted body owner externals now db)
      λ new e. adopted-IsMesh body owner externals now db new sound v e
  where
    go :
        (r : Result AppError (Unit {0} × MeshDb))
        → ((new : MeshDb) → r ≡ ok (tt, new) → IsMesh new)
        → IsMesh (then_configure dispatch later (commit r db)).1
    go (ok (tt, new)) h = forget-state (configure_mesh dispatch later new) (
        HasShape-IsMesh new (configure_mesh dispatch later new).1
          (configure_mesh-HasShape dispatch later new) (h new refl))
    go (err e) h = v

-- Every step keeps the invariant: the stored subnet parses, the port is unprivileged and a `u16`, a
-- mesh that is not enabled has no rows, every row's address is a host of the stored subnet, and no two
-- rows share a node or an address.
pub MeshStep-IsMesh : (db new : MeshDb) → MeshStep db new → IsMesh db → IsMesh new
MeshStep-IsMesh db new (put body now u16) v = put_mesh-IsMesh body now db u16 v
MeshStep-IsMesh db new (enable now) v = enable_mesh-IsMesh now db v
MeshStep-IsMesh db new (configure dispatch now) v =
    HasShape-IsMesh db (configure_mesh dispatch now db).1 (configure_mesh-HasShape dispatch now db)
      v
MeshStep-IsMesh db new (disable dispatch uninstall_helper now) v =
    disable_mesh-IsMesh dispatch uninstall_helper now db v
MeshStep-IsMesh db new (adopt dispatch body owner externals now later sound) v =
    propose-IsMesh dispatch body owner externals now later db sound v
MeshStep-IsMesh db new (report externals) v = record {
  subnet = v.subnet;
  parses = v.parses;
  unprivileged = v.unprivileged;
  port = v.port;
  idle = v.idle;
  hosts = v.hosts;
  unique = v.unique;
  servers = v.servers;
}
MeshStep-IsMesh db new (edit f same) v = record {
  subnet = v.subnet;
  parses = v.parses;
  unprivileged = v.unprivileged;
  port = v.port;
  idle = v.idle;
  hosts = v.hosts;
  unique = v.unique;
  servers = AreDistinct-map f db.servers same v.servers;
}
MeshStep-IsMesh db new (joins s fresh) v = record {
  subnet = v.subnet;
  parses = v.parses;
  unprivileged = v.unprivileged;
  port = v.port;
  idle = v.idle;
  hosts = v.hosts;
  unique = v.unique;
  servers = (fresh, v.servers);
}
MeshStep-IsMesh db new (leaves id) v = without-IsMesh id db v

pub MeshHistory-IsMesh : (db new : MeshDb) → MeshHistory db new → IsMesh db → IsMesh new
MeshHistory-IsMesh db new (start _) v = v
MeshHistory-IsMesh db new (step {b = b} h s) v =
    MeshStep-IsMesh b new s (MeshHistory-IsMesh db b h v)
