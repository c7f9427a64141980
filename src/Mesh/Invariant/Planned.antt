-- ===== src/Mesh/Invariant/Planned.antt =====
-- The rows that `enable_mesh` (crates/pier-core/src/api/network.rs) plans have the invariant.
use pier.Base.{
  ℕ, ◌+◌, ◌≤◌, ◌<◌, ◌^◌, Text, false, List, [], ◌∷◌, length, ◌≡◌, refl, arith, All, Bool-cases, inl,
  inr, text_eq, text_eq_iff,
}
use pier.Mesh.Ipv4.{to_string}
use pier.Mesh.Subnet.{Subnet, first_host, last_host, block}
use pier.Mesh.Subnet.Bounds.{parse-IsSubnet, first_host_lem, last_host_lem}
use pier.Mesh.Rows.{ServerRow, MeshDb, load}
use pier.Mesh.Plan.{planned_servers}
use pier.Mesh.Plan.Addresses.{plan, AreDistinct, to_string-injective}
use pier.Mesh.Plan.Order.{AreDistinct-planned}
use pier.Mesh.Plan.Enable.{planned}
use pier.Mesh.Invariant.{keys, IsHost, Differ, AreUnique, IsMesh}

-- The rows of a plan: consecutive addresses.
plan-hosts :
    (s : Subnet) (port now ip : ℕ) (servers : List ServerRow)
    → first_host s ≤ ip
    → ip + length servers ≤ last_host s + 1
    → All (IsHost s) (keys (plan port now ip servers))
plan-hosts s port now ip [] lo hi = tt
plan-hosts s port now ip (x ∷ servers) lo hi = (
  (ip, lo, omega (arith, hi), refl),
  plan-hosts s port now (ip + 1) servers (omega (arith, lo)) (omega (arith, hi)),
)

plan-Differ :
    (id : Text) (low port now ip : ℕ) (servers : List ServerRow)
    → low < ip
    → ip + length servers ≤ 2 ^ 32
    → All (λ t. text_eq id t.id ≡ false) servers
    → All (Differ (id, to_string low)) (keys (plan port now ip servers))
plan-Differ id low port now ip [] lo hi a = tt
plan-Differ id low port now ip (x ∷ servers) lo hi (e, a) = (
  (e, distinct),
  plan-Differ id low port now (ip + 1) servers (omega (arith, lo)) (omega (arith, hi)) a,
)
  where
    distinct : text_eq (to_string low) (to_string ip) ≡ false
    distinct = elim (Bool-cases (text_eq (to_string low) (to_string ip))) [
      | inr e ↦ e
      | inl e ↦
          let same =
            to_string-injective low ip (omega (arith, lo, hi)) (omega (arith, hi))
              ((text_eq_iff (to_string low) (to_string ip)).0 e) in
          absurd (omega (arith, lo, same))
    ]

plan-AreUnique :
    (port now ip : ℕ) (servers : List ServerRow)
    → ip + length servers ≤ 2 ^ 32
    → AreDistinct servers
    → AreUnique (keys (plan port now ip servers))
plan-AreUnique port now ip [] hi d = tt
plan-AreUnique port now ip (x ∷ servers) hi (a, d) = (
  plan-Differ x.id ip port now (ip + 1) servers (omega arith) (omega (arith, hi)) a,
  plan-AreUnique port now (ip + 1) servers (omega (arith, hi)) d,
)

pub planned-IsMesh :
    (now : ℕ) (db : MeshDb) (v : IsMesh db)
    → length (planned_servers db) + 2 ≤ block v.subnet.prefix
    → IsMesh (planned v.subnet now db)
planned-IsMesh now db v fits =
    let s = v.subnet in
    let w = parse-IsSubnet db.config.subnet s v.parses in
    record {
      subnet = s;
      parses = v.parses;
      unprivileged = v.unprivileged;
      port = v.port;
      idle = λ e. cc;
      hosts =
          plan-hosts s (load db).listen_port now (first_host s) (planned_servers db) (omega arith)
            (omega (arith, fits, first_host_lem s w, last_host_lem s w, w.roomy));
      unique =
          plan-AreUnique (load db).listen_port now (first_host s) (planned_servers db)
            (omega (arith, fits, first_host_lem s w, w.inside, w.roomy))
            (AreDistinct-planned db v.servers);
      servers = v.servers;
    }
