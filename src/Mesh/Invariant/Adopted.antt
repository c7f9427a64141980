-- ===== src/Mesh/Invariant/Adopted.antt =====
-- The rows that `propose` (crates/pier-core/src/api/peer_mesh.rs) adopts have the invariant.
use pier.Base.{
  ℕ, Text, Bool, true, false, not, Option, none, some, List, [], ◌∷◌, ◌++◌, map, keep, ok, Result,
  AppError, bad_request, ok_or, >>=-eq-ok, ◌≡◌, refl, sym, ◌∙◌, subst, arith, All, Bool-cases,
  Option-cases, inl, inr, text_eq, if◌then◌else◌,
}
use pier.Mesh.Subnet.{Subnet}
use pier.Mesh.Rows.{ExternalRow, PeerRow, ServerRow, MeshDb}
use pier.Mesh.Plan.{conflicts}
use pier.Mesh.Plan.Addresses.{AreDistinct}
use pier.Mesh.Pairing.{
  adopted, adopted_config, check_unpaired, ProposeRequest, assigned_ip_of, our_nodes, adopted_peer,
  replace_peer, adopt_all, or_earlier,
}
use pier.Mesh.Invariant.{key_of, keys, IsHost, Differ, AreUnique, IsMesh, IsSound}

-- What `INSERT OR REPLACE` keeps.
All-replace :
    (P : Text × Text → Type 0) (p : PeerRow → Bool) (new : PeerRow) (rows : List PeerRow)
    → P (key_of new)
    → All P (keys rows)
    → All P (keys (keep p rows ++ new ∷ []))
All-replace P p new [] h a = (h, tt)
All-replace P p new (r ∷ rows) h (k, a) = elim (Bool-cases (p r)) [
  | inl e ↦ rw e (k, All-replace P p new rows h a)
  | inr e ↦ rw e (All-replace P p new rows h a)
]

AreUnique-replace_peer :
    (new : PeerRow) (rows : List PeerRow)
    → AreUnique (keys rows)
    → AreUnique (keys (replace_peer new rows))
AreUnique-replace_peer new [] u = (tt, tt)
AreUnique-replace_peer new (r ∷ rows) (a, u) = elim (Bool-cases (conflicts new r)) [
  | inl e ↦ rw e (AreUnique-replace_peer new rows u)
  | inr e ↦ rw e (
    All-replace (Differ (key_of r)) (λ x. not (conflicts new x)) new rows
        (ground (arith, e), ground (arith, e)) a,
    AreUnique-replace_peer new rows u,
  )
]

-- The address of the first assignment, where no later one counts.
first_assigned :
    (s : Subnet) (b : Bool) (other id x ip : Text)
    → IsHost s (other, x)
    → (if b then some x else none) ≡ some ip
    → IsHost s (id, ip)
first_assigned s true other id x ip h e =
    let same : x ≡ ip = cc in subst (λ z. IsHost s (id, z)) same h
first_assigned s false other id x ip h e = cc

assigned_ip_of-IsHost :
    (s : Subnet) (assignments : List (Text × Text)) (id ip : Text)
    → All (IsHost s) assignments
    → assigned_ip_of assignments id ≡ some ip
    → IsHost s (id, ip)
assigned_ip_of-IsHost s [] id ip a e = cc
assigned_ip_of-IsHost s ((other, x) ∷ rest) id ip (h, a) e =
    elim (Option-cases (assigned_ip_of rest id)) [
      | inr (y, found) ↦ assigned_ip_of-IsHost s rest id ip a (
          found
          ∙ subst (λ o. or_earlier o (if text_eq other id then some x else none) ≡ some ip) found e)
      | inl missing ↦ first_assigned s (text_eq other id) other id x ip h (
          subst (λ o. or_earlier o (if text_eq other id then some x else none) ≡ some ip) missing e)
    ]

ok_or-some : (x : AppError) (a : Text) (o : Option Text) → ok_or o x ≡ ok a → o ≡ some a
ok_or-some x a none e = cc
ok_or-some x a (some b) e = cc

module _ (s : Subnet) (body : ProposeRequest) (now : ℕ)
    (sound : All (IsHost s) body.assignments) where
  adopt_all-keys :
      (nodes : List ServerRow) (rows new : List PeerRow)
      → adopt_all body now rows nodes ≡ ok new
      → All (IsHost s) (keys rows)
      → AreUnique (keys rows)
      → All (IsHost s) (keys new) × AreUnique (keys new)
  unfolding adopt_all
  adopt_all-keys [] rows new e h u =
      let same : rows ≡ new = cc in
      (subst (λ z. All (IsHost s) (keys z)) same h, subst (λ z. AreUnique (keys z)) same u)
  adopt_all-keys (x ∷ nodes) rows new e h u =
      let assigned = assigned_ip_of body.assignments x.id in
      let (ip, found, rest) =
        >>=-eq-ok (ok_or assigned (bad_request "owner sent no IP assignment for our node")) _ e in
      let row = adopted_peer body now x ip in
      adopt_all-keys nodes (replace_peer row rows) new rest
        (All-replace (IsHost s) (λ r. not (conflicts row r)) row rows
          (assigned_ip_of-IsHost s body.assignments x.id ip sound
            (ok_or-some (bad_request "owner sent no IP assignment for our node") ip assigned found))
          h)
        (AreUnique-replace_peer row rows u)

pub adopted-IsMesh :
    (body : ProposeRequest) (owner : Option Text) (externals : List ExternalRow) (now : ℕ)
    (db new : MeshDb)
    → IsSound body
    → IsMesh db
    → adopted body owner externals now db ≡ ok (tt, new)
    → IsMesh new
adopted-IsMesh body owner externals now db new sound v e =
    let (_, off, e1) = >>=-eq-ok (check_unpaired db.config.enabled) _ e in
    let (_, _, e2) =
      >>=-eq-ok (ok_or owner (bad_request "the initiating core is not registered as a peer here")) _
        e1 in
    let (rows, planned, e3) = >>=-eq-ok (adopt_all body now db.peers (our_nodes db)) _ e2 in
    let none_before = v.idle (unpaired db.config.enabled off) in
    let (hosts, unique) =
      adopt_all-keys sound.subnet body now sound.hosts (our_nodes db) db.peers rows planned
        (subst (λ z. All (IsHost sound.subnet) (keys z)) (sym none_before) tt) v.unique in
    subst (λ z. IsMesh z)
      (same
        (record db {
          config = adopted_config body now db.config;
          peers = rows;
          externals = externals;
        })
        e3)
      (record {
        subnet = sound.subnet;
        parses = sound.parses;
        unprivileged = sound.unprivileged;
        port = sound.port;
        idle = λ f. cc;
        hosts = hosts;
        unique = unique;
        servers = v.servers;
      })
  where
    unpaired : (b : Bool) → check_unpaired b ≡ ok tt → b ≡ false
    unpaired true h = cc
    unpaired false h = refl

    same :
        (a : MeshDb)
        → Path (Result AppError (Unit {0} × MeshDb)) (ok (tt, a)) (ok (tt, new))
        → a ≡ new
    same a h = cc

pub AreDistinct-map :
    (f : ServerRow → ServerRow) (xs : List ServerRow)
    → ((s : ServerRow) → (f s).id ≡ s.id)
    → AreDistinct xs
    → AreDistinct (map f xs)
AreDistinct-map f [] same d = tt
AreDistinct-map f (x ∷ xs) same (a, d) = (others xs a, AreDistinct-map f xs same d)
  where
    others :
        (ys : List ServerRow)
        → All (λ t. text_eq x.id t.id ≡ false) ys
        → All (λ t. text_eq (f x).id t.id ≡ false) (map f ys)
    others [] b = tt
    others (y ∷ ys) (h, b) = (rw (same x, same y) h, others ys b)
