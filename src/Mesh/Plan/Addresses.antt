-- ===== src/Mesh/Plan/Addresses.antt =====
-- Which addresses `enable_mesh` (crates/pier-core/src/api/network.rs) hands out.
use pier.Base.{
  ℕ, ◌+◌, ◌^◌, ◌≤◌, ◌<◌, Text, Bool, true, false, none, some, List, [], ◌∷◌, ◌++◌, length,
  if◌then◌else◌, any, contains, text_eq, text_eq_iff, ok, err, internal, ◌≡◌, refl, sym, ap, ◌∙◌,
  arith, All, leb, Bool-cases, inl, inr, contains-append,
}
use pier.Mesh.Ipv4.{to_string, parse_ipv4-to_string, parse_ipv4}
use pier.Mesh.Subnet.{Subnet, allocate_ip, first_host, last_host}
use pier.Mesh.Subnet.Bounds.{IsSubnet, last_host_lem}
use pier.Mesh.Subnet.Allocation.{allocate_ip-IsLowest}
use pier.Mesh.Rows.{PeerRow, ServerRow}
use pier.Mesh.Plan.{new_peer, conflicts, allocate_all}

-- An independent description of the plan: consecutive addresses, in the order of the servers.
abbrev pub plan : ℕ → ℕ → ℕ → List ServerRow → List PeerRow
plan port now ip [] = []
plan port now ip (s ∷ servers) = new_peer port now s ip ∷ plan port now (ip + 1) servers

-- Two addresses are printed differently.
pub to_string-injective : (a b : ℕ) → a < 2 ^ 32 → b < 2 ^ 32 → to_string a ≡ to_string b → a ≡ b
to_string-injective a b ha hb e =
    let h : ok a ≡ ok b =
      sym (parse_ipv4-to_string a ha) ∙ ap parse_ipv4 e ∙ parse_ipv4-to_string b hb in
    ground (arith, h)

to_string-differs : (a b : ℕ) → a < b → b < 2 ^ 32 → text_eq (to_string a) (to_string b) ≡ false
to_string-differs a b l h = elim (Bool-cases (text_eq (to_string a) (to_string b))) [
  | inr e ↦ e
  | inl e ↦
      let same =
        to_string-injective a b (omega arith) h ((text_eq_iff (to_string a) (to_string b)).0 e) in
      absurd (omega (arith, same))
]

-- The rows have addresses below `ip`, and no server of the list has a row.
abbrev pub AreBelow : ℕ → List PeerRow → Type 0
AreBelow ip rows = All (λ r. (j : ℕ) × (j < ip) × (r.assigned_ip ≡ to_string j)) rows

abbrev pub has_id : Text → PeerRow → Bool
has_id id row = text_eq row.server_id id

abbrev pub AreNew : List PeerRow → List ServerRow → Type 0
AreNew rows servers = All (λ s. any (has_id s.id) rows ≡ false) servers

-- No two servers have one id: it is the table's key.
abbrev pub AreDistinct : List ServerRow → Type 0
AreDistinct [] = Unit
AreDistinct (s ∷ servers) = All (λ t. text_eq s.id t.id ≡ false) servers × AreDistinct servers

no_conflict :
    (port now ip : ℕ) (s : ServerRow) (rows : List PeerRow)
    → ip < 2 ^ 32
    → AreBelow ip rows
    → any (has_id s.id) rows ≡ false
    → any (conflicts (new_peer port now s ip)) rows ≡ false
no_conflict port now ip s [] b h n = refl
no_conflict port now ip s (r ∷ rows) b ((j, l, e), h) n =
    let d : text_eq r.assigned_ip (to_string ip) ≡ false = rw e (to_string-differs j ip l b) in
    ground (arith, d, n, no_conflict port now ip s rows b h)

AreBelow-next :
    (ip : ℕ) (rows : List PeerRow) (r : PeerRow)
    → AreBelow ip rows
    → r.assigned_ip ≡ to_string ip
    → AreBelow (ip + 1) (rows ++ r ∷ [])
AreBelow-next ip [] r h e = ((ip, omega arith, e), tt)
AreBelow-next ip (x ∷ rows) r ((j, l, q), h) e =
    ((j, omega (arith, l), q), AreBelow-next ip rows r h e)

any-snoc :
    (p : PeerRow → Bool) (rows : List PeerRow) (r : PeerRow)
    → any p rows ≡ false
    → p r ≡ false
    → any p (rows ++ r ∷ []) ≡ false
any-snoc p [] r h e = ground (arith, e)
any-snoc p (x ∷ rows) r h e = ground (arith, h, e, any-snoc p rows r)

AreNew-next :
    (rows : List PeerRow) (r : PeerRow) (servers : List ServerRow)
    → AreNew rows servers
    → All (λ t. text_eq r.server_id t.id ≡ false) servers
    → AreNew (rows ++ r ∷ []) servers
AreNew-next rows r [] a b = tt
AreNew-next rows r (s ∷ servers) (h, a) (e, b) =
    (any-snoc (has_id s.id) rows r h e, AreNew-next rows r servers a b)

++-assoc :
    (rows : List PeerRow) (r : PeerRow) (more : List PeerRow)
    → (rows ++ r ∷ []) ++ more ≡ rows ++ r ∷ more
++-assoc [] r more = refl
++-assoc (x ∷ rows) r more = ap (λ t. x ∷ t) (++-assoc rows r more)

module _ (s : Subnet) (v : IsSubnet s) (port now : ℕ) where
  -- The hosts below `ip` are used, and no other address.
  abbrev pub AreTaken : List ℕ → ℕ → Type 0
  AreTaken used ip =
      ((x : ℕ) → first_host s ≤ x → x < ip → contains used x ≡ true)
      × ((x : ℕ) → ip ≤ x → contains used x ≡ false)

  AreTaken-next : (used : List ℕ) (ip : ℕ) → AreTaken used ip → AreTaken (used ++ ip ∷ []) (ip + 1)
  AreTaken-next used ip (below, above) = (
    λ x lo hi. elim (Bool-cases (leb ip x)) [
      | inl top ↦ ground (arith, contains-append used (ip ∷ []) x, top)
      | inr less ↦ ground (arith, contains-append used (ip ∷ []) x, below x lo, less)
    ],
    λ x lo. ground (arith, contains-append used (ip ∷ []) x, above x),
  )

  next_free :
      (used : List ℕ) (ip : ℕ)
      → first_host s ≤ ip
      → ip ≤ last_host s
      → AreTaken used ip
      → allocate_ip s used ≡ some ip
  next_free used ip lo hi (below, above) =
      ((allocate_ip-IsLowest s v used).0 ip).1 (lo, hi, above ip (omega arith), below)

  none_free :
      (used : List ℕ) (ip : ℕ) → last_host s < ip → AreTaken used ip → allocate_ip s used ≡ none
  none_free used ip hi (below, above) =
      (allocate_ip-IsLowest s v used).1.1 λ x a b. below x a (omega arith)

  pub allocate_all-plan :
      (servers : List ServerRow) (used : List ℕ) (rows : List PeerRow) (ip : ℕ)
      → first_host s ≤ ip
      → ip ≤ last_host s + 1
      → AreTaken used ip
      → AreBelow ip rows
      → AreNew rows servers
      → AreDistinct servers
      → allocate_all s port now used rows servers ≡ (
          if leb (ip + length servers) (last_host s + 1)
          then ok (rows ++ plan port now ip servers)
          else err internal)
  unfolding allocate_all
  allocate_all-plan [] used rows ip lo hi t b n d = ground (arith, append_nil rows)
    where
      append_nil : (rows : List PeerRow) → rows ++ [] ≡ rows
      append_nil [] = refl
      append_nil (x ∷ rows) = ap (λ t. x ∷ t) (append_nil rows)
  allocate_all-plan (x ∷ servers) used rows ip lo hi t b (nx, n) (dx, d) =
      elim (Bool-cases (leb ip (last_host s))) [
        | inr full ↦ rw (none_free used ip (ground (arith, full)) t) (ground (arith, full))
        | inl room ↦
            let fits : ip ≤ last_host s = ground (arith, room) in
            let small : ip < 2 ^ 32 = omega (arith, last_host_lem s v, v.inside, v.roomy) in
            let rest =
              allocate_all-plan servers (used ++ ip ∷ []) (rows ++ new_peer port now x ip ∷ [])
                (ip + 1) (omega arith) (omega arith) (AreTaken-next used ip t)
                (AreBelow-next ip rows _ b refl)
                (AreNew-next rows (new_peer port now x ip) servers n dx) d in
            rw
              (
                next_free used ip lo fits t,
                no_conflict port now ip x rows small b nx,
                rest,
                ++-assoc rows (new_peer port now x ip) (plan port now (ip + 1) servers),
              )
              (ground arith)
      ]
