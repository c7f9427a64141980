-- ===== src/Mesh/Invariant/Reenabled.antt =====
-- An operator can always take the mesh down and plan it again
-- (crates/pier-core/src/api/network.rs, `disable_mesh` and `enable_mesh`).
use pier.Base.{
  ℕ, ◌+◌, ◌≤◌, Bool, true, false, Option, none, some, List, [], ◌∷◌, length, if◌then◌else◌, ok, err,
  Result, AppError, internal, ◌>>=◌, is_ok, ◌≡◌, refl, ap, ◌∙◌, arith, All, leb, Bool-cases, inl,
  inr, codes, Result-cases, split_once, trim, trim_start, trim_end, is_whitespace, parse_u8,
  read_digits,
}
use pier.Mesh.Ipv4.{parse_octet, parse_ipv4, parse_ipv4-to_string}
use pier.Mesh.Subnet.{Subnet, parse, block}
use pier.Mesh.Subnet.Bounds.{IsSubnet, parse-IsSubnet, last_host_lem}
use pier.Mesh.Render.{Peer}
use pier.Mesh.Rows.{
  PeerRow, ServerRow, MeshDb, load_all, join_all, join, server_of, peer_of, insert_by, sort_by,
  in_text_order,
}
use pier.Mesh.Plan.{planned_servers, enable_mesh}
use pier.Mesh.Plan.Enable.{planned, enable_mesh-plan}
use pier.Mesh.Configure.{Dispatch, disable_mesh, disable_loaded, cleaned}
use pier.Mesh.Invariant.{keys, IsHost, IsMesh, MeshHistory}
use pier.Mesh.Invariant.Preserved.{MeshHistory-IsMesh}

-- The tables as the migration leaves them.
abbrev pub migrated : ℕ → MeshDb
migrated now = record {
  config = record {
    enabled = false;
    subnet = codes "10.42.0.0/24";
    listen_port = 51820;
    persistent_keepalive = 25;
    updated_at = now;
  };
  peers = [];
  servers = [];
  externals = [];
}

migrated-IsMesh : (now : ℕ) → IsMesh (migrated now)
migrated-IsMesh now = record {
  subnet = record { network = 0x0a2a0000; prefix = 24 };
  parses =
      unfold parse parse_ipv4 parse_octet split_once trim trim_start trim_end is_whitespace parse_u8
        read_digits in
      refl;
  unprivileged = omega arith;
  port = omega arith;
  idle = λ e. refl;
  hosts = tt;
  unique = tt;
  servers = tt;
}

-- After any history of put_mesh, enable_mesh, configure_mesh, disable_mesh, of `propose` with proposals
-- that are sound, and of changes to the tables of servers and of external nodes, from the migrated tables:
-- the stored subnet parses, the port is unprivileged and a `u16`, a mesh that is not enabled has no rows,
-- every row's address is a host of the stored subnet, and no two rows share a node or an address. A
-- proposal is sound if its subnet parses, its port is unprivileged and a `u16`, and each address that it
-- assigns is a host of its subnet; `propose` itself does not check this.
pub MeshHistory-migrated : (now : ℕ) (db : MeshDb) → MeshHistory (migrated now) db → IsMesh db
MeshHistory-migrated now db h = MeshHistory-IsMesh (migrated now) db h (migrated-IsMesh now)

abbrev IsRead : PeerRow → Type 0
IsRead r = is_ok (parse_ipv4 r.assigned_ip) ≡ true

IsRead-insert_by :
    (r : PeerRow) (rows : List PeerRow)
    → IsRead r
    → All IsRead rows
    → All IsRead (insert_by in_text_order r rows)
IsRead-insert_by r [] h a = (h, tt)
IsRead-insert_by r (q ∷ rows) h (e, a) = elim (Bool-cases (in_text_order r q)) [
  | inl c ↦ rw c (h, (e, a))
  | inr c ↦ rw c (e, IsRead-insert_by r rows h a)
]

IsRead-sort_by : (rows : List PeerRow) → All IsRead rows → All IsRead (sort_by in_text_order rows)
IsRead-sort_by [] a = tt
IsRead-sort_by (r ∷ rows) (h, a) =
    IsRead-insert_by r (sort_by in_text_order rows) h (IsRead-sort_by rows a)

join-ok :
    (r : PeerRow) (s : Option ServerRow) (rest : Result AppError (List Peer))
    → IsRead r
    → is_ok rest ≡ true
    → is_ok (join r s rest) ≡ true
join-ok r none rest h k = k
join-ok r (some s) rest h k = elim (Result-cases (parse_ipv4 r.assigned_ip)) [
  | inl (ip, e) ↦ rw e (kept (peer_of r s ip) rest k)
  | inr (x, e) ↦ ground (arith, e, h)
]
  where
    kept :
        (p : Peer) (rest : Result AppError (List Peer))
        → is_ok rest ≡ true
        → is_ok (rest >>= λ ps. ok (p ∷ ps)) ≡ true
    kept p (ok ps) k = refl
    kept p (err e) k = cc

join_all-ok :
    (db : MeshDb) (rows : List PeerRow) → All IsRead rows → is_ok (join_all db rows) ≡ true
unfolding join_all
join_all-ok db [] a = refl
join_all-ok db (r ∷ rows) (h, a) =
    join-ok r (server_of db r.server_id) (join_all db rows) h (join_all-ok db rows a)

IsHost-IsRead :
    (s : Subnet) (rows : List PeerRow) → IsSubnet s → All (IsHost s) (keys rows) → All IsRead rows
IsHost-IsRead s [] v a = tt
IsHost-IsRead s (r ∷ rows) v ((j, lo, hi, e), a) = (
  rw (e, parse_ipv4-to_string j (omega (arith, hi, last_host_lem s v, v.inside))) refl,
  IsHost-IsRead s rows v a,
)

load_all-ok : (db : MeshDb) → IsMesh db → is_ok (load_all db) ≡ true
unfolding load_all
load_all-ok db v = join_all-ok db (sort_by in_text_order db.peers) (
    IsRead-sort_by db.peers
      (IsHost-IsRead v.subnet db.peers (parse-IsSubnet db.config.subnet v.subnet v.parses) v.hosts))

disable_mesh-ok :
    (dispatch : Dispatch) (uninstall_helper : Bool) (now : ℕ) (db : MeshDb)
    → IsMesh db
    → (is_ok (disable_mesh dispatch uninstall_helper now db).0 ≡ true)
      × ((disable_mesh dispatch uninstall_helper now db).1 ≡ cleaned now db)
unfolding disable_mesh
disable_mesh-ok dispatch uninstall_helper now db v = go (load_all db) (load_all-ok db v)
  where
    go :
        (r : Result AppError (List Peer))
        → is_ok r ≡ true
        → (is_ok (disable_loaded dispatch uninstall_helper now db r).0 ≡ true)
          × ((disable_loaded dispatch uninstall_helper now db r).1 ≡ cleaned now db)
    go (ok peers) h = (refl, refl)
    go (err e) h = cc

-- Whatever the nodes answer, where the tables have the invariant of the mesh (the stored subnet parses, the
-- port is unprivileged and a `u16`, no rows unless enabled, every address a host of the subnet, no node
-- and no address twice), which an unsound proposal of another core can break: taking the mesh down
-- answers without an error, leaves no rows and the mesh not enabled, and planning it then succeeds,
-- provided that the nodes to serve are at most as many as the subnet has hosts.
pub disable_mesh-enable_mesh :
    (dispatch : Dispatch) (uninstall_helper : Bool) (now later : ℕ) (db : MeshDb) (s : Subnet)
    → IsMesh db
    → parse db.config.subnet ≡ ok s
    → length (planned_servers db) + 2 ≤ block s.prefix
    → (is_ok (disable_mesh dispatch uninstall_helper now db).0 ≡ true)
      × (enable_mesh later (disable_mesh dispatch uninstall_helper now db).1
          ≡ (ok (length (planned_servers db)), planned s later (cleaned now db)))
disable_mesh-enable_mesh dispatch uninstall_helper now later db s v e fits =
    let (answered, clean) = disable_mesh-ok dispatch uninstall_helper now db v in
    (
      answered,
      ap (enable_mesh later) clean
          ∙ enable_mesh-plan (cleaned now db) later s e refl v.servers
          ∙ fitting,
    )
  where
    fitting :
        Path
          (Result AppError ℕ × MeshDb)
          (if leb (length (planned_servers db) + 2) (block s.prefix)
            then (ok (length (planned_servers db)), planned s later (cleaned now db))
            else (err internal, cleaned now db))
          (ok (length (planned_servers db)), planned s later (cleaned now db))
    fitting =
        let fine : leb (length (planned_servers db) + 2) (block s.prefix) ≡ true =
          ground (arith, fits) in
        rw fine refl
