-- ===== src/Mesh/Plan/Enable.antt =====
-- What `enable_mesh` of crates/pier-core/src/api/network.rs does to the tables.
use pier.Base.{
  ℕ, ◌+◌, true, not, List, [], ◌∷◌, length, if◌then◌else◌, any, ◌&&◌, keep, ok, err, internal, ◌≡◌,
  refl, ap, ◌∙◌, arith, leb, Bool-cases, inl, inr, bad_request,
}
use pier.Mesh.Subnet.{Subnet, parse, first_host, block}
use pier.Mesh.Subnet.Bounds.{parse-IsSubnet, first_host_lem, last_host_lem}
use pier.Mesh.Rows.{PeerRow, ServerRow, MeshDb, load}
use pier.Mesh.Plan.{new_peer, allocate_all, planned_servers, enable_mesh}
use pier.Mesh.Plan.Addresses.{plan, AreDistinct, AreNew, allocate_all-plan}
use pier.Mesh.Plan.Order.{AreDistinct-planned, IsLocalFirst-sort_by, IsLocalFirst, any-sort_by}

-- The tables after the mesh has been planned in a subnet.
abbrev pub planned : Subnet → ℕ → MeshDb → MeshDb
planned s now db = record db {
  config = record (db.config) { enabled = true; updated_at = now };
  peers = plan (load db).listen_port now (first_host s) (planned_servers db);
}

AreNew-empty : (servers : List ServerRow) → AreNew [] servers
AreNew-empty [] = tt
AreNew-empty (x ∷ xs) = (refl, AreNew-empty xs)

module _ (db : MeshDb) (now : ℕ) (s : Subnet) (e : parse db.config.subnet ≡ ok s)
    (none_yet : db.peers ≡ []) (d : AreDistinct db.servers) where
  allocate_all-empty : allocate_all s (load db).listen_port now [] [] (planned_servers db) ≡ (
      if leb (length (planned_servers db) + 2) (block s.prefix)
      then ok (plan (load db).listen_port now (first_host s) (planned_servers db))
      else err internal)
  allocate_all-empty =
      let v = parse-IsSubnet db.config.subnet s e in
      let all =
        allocate_all-plan s v (load db).listen_port now (planned_servers db) [] [] (first_host s)
          (omega arith) (omega (arith, first_host_lem s v, last_host_lem s v, v.roomy))
          (λ x lo hi. absurd (omega arith), λ x lo. refl) tt (AreNew-empty (planned_servers db))
          (AreDistinct-planned db d) in
      all
      ∙ ap
          (λ b.
            if b
            then ok (plan (load db).listen_port now (first_host s) (planned_servers db))
            else err internal)
          (ground (arith, first_host_lem s v, last_host_lem s v, v.roomy))

  -- When no address is handed out yet, the stored subnet parses and no two servers have one id: an
  -- enabled mesh is refused; otherwise it succeeds exactly when the nodes to serve are at most as many as
  -- the subnet has hosts. The nodes to serve are the servers that do not stand for another core (kind
  -- `peer`); those get no address. On success each node to serve has one row, with consecutive addresses
  -- from the first host in the order of the plan; on an error the tables are as before.
  pub enable_mesh-plan : enable_mesh now db ≡ (
      if db.config.enabled
      then (err (bad_request "errors.network.mesh_already_enabled"), db)
      else if leb (length (planned_servers db) + 2) (block s.prefix)
      then (ok (length (planned_servers db)), planned s now db)
      else (err internal, db))
  unfolding enable_mesh
  enable_mesh-plan = elim (Bool-cases db.config.enabled) [
    | inl on ↦ rw on refl
    | inr off ↦
        rw (off, e, none_yet, allocate_all-empty)
          (elim (Bool-cases (leb (length (planned_servers db) + 2) (block s.prefix))) [
            | inl fits ↦ rw fits refl
            | inr full ↦ rw full refl
          ])
  ]

any-keep_local :
    (xs : List ServerRow)
    → any (λ s. s.is_local) (keep (λ s. not s.is_peer) xs)
      ≡ any (λ s. s.is_local && not s.is_peer) xs
any-keep_local [] = refl
any-keep_local (x ∷ xs) = ground (arith, any-keep_local xs)

head_local :
    (port now ip : ℕ) (xs : List ServerRow)
    → IsLocalFirst xs
    → any (λ s. s.is_local) xs ≡ true
    → (x : ServerRow) × (rest : List PeerRow) × (x.is_local ≡ true)
      × (plan port now ip xs ≡ new_peer port now x ip ∷ rest)
head_local port now ip [] f h = cc
head_local port now ip (x ∷ xs) f h = (x, plan port now (ip + 1) xs, ground (arith, f, h), refl)

-- Wherever the mesh is planned and this core's own node is among the servers to serve, the first row is
-- the own node's, with the first host of the subnet.
pub planned-local :
    (s : Subnet) (now : ℕ) (db : MeshDb)
    → any (λ x. x.is_local && not x.is_peer) db.servers ≡ true
    → (x : ServerRow) × (rest : List PeerRow) × (x.is_local ≡ true)
      × ((planned s now db).peers ≡ new_peer (load db).listen_port now x (first_host s) ∷ rest)
planned-local s now db h =
    head_local (load db).listen_port now (first_host s) (planned_servers db)
      (IsLocalFirst-sort_by (keep (λ x. not x.is_peer) db.servers))
      (any-sort_by (keep (λ x. not x.is_peer) db.servers) ∙ any-keep_local db.servers ∙ h)
