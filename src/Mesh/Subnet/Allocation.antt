-- ===== src/Mesh/Subnet/Allocation.antt =====
-- What crates/pier-core/src/network/wireguard.rs hands out.
use pier.Base.{
  ℕ, zero, suc, ◌+◌, ◌-◌, ◌^◌, ◌≤◌, ◌<◌, Bool, true, false, not, List, [], ◌∷◌, ◌≡◌, ◌↔◌, ◌⊎◌, inl,
  inr, arith, some, none, ltb, ◌==◌, contains, length, keep, Bool-cases, Option-cases, sym, ap, ◌∙◌,
}
use pier.Mesh.Subnet.Bounds.{IsSubnet, first_host_lem, last_host_lem}
use pier.Mesh.Subnet.{Subnet, block, first_host, last_host, hosts, next, lowest_free, allocate_ip}

eq_or_above : (p x : ℕ) → p ≤ x → (p ≡ x) ⊎ (p + 1 ≤ x)
eq_or_above p x lo = ground arith

module _ (used : List ℕ) where
  -- The lowest address of `[cur, end]` that is not used.
  abbrev pub IsLowest : ℕ → ℕ → ℕ → Type 0
  IsLowest cur end r =
      (cur ≤ r)
      × (r ≤ end)
      × (contains used r ≡ false)
      × ((x : ℕ) → cur ≤ x → x < r → contains used x ≡ true)

  abbrev pub AreUsed : ℕ → ℕ → Type 0
  AreUsed cur end = (x : ℕ) → cur ≤ x → x ≤ end → contains used x ≡ true

  stop :
      (fuel cur end : ℕ)
      → end < cur
      → lowest_free (suc fuel) (record { cur = cur; end = end }) used ≡ none
  unfolding lowest_free next
  stop fuel cur end h = ground arith

  take :
      (fuel cur end : ℕ)
      → cur ≤ end
      → contains used cur ≡ false
      → lowest_free (suc fuel) (record { cur = cur; end = end }) used ≡ some cur
  unfolding lowest_free next
  take fuel cur end h f = ground arith

  skip :
      (fuel cur end : ℕ)
      → cur ≤ end
      → end < 2 ^ 32 - 1
      → contains used cur ≡ true
      → lowest_free (suc fuel) (record { cur = cur; end = end }) used
        ≡ lowest_free fuel (record { cur = cur + 1; end = end }) used
  unfolding lowest_free next
  skip fuel cur end h b f = ground arith

  lowest_free-some :
      (fuel cur end r : ℕ)
      → end < 2 ^ 32 - 1
      → lowest_free fuel (record { cur = cur; end = end }) used ≡ some r
      → IsLowest cur end r
  lowest_free-some zero cur end r b e = unfold lowest_free in cc
  lowest_free-some (suc fuel) cur end r b e = elim (Bool-cases (ltb end cur)) [
    | inl over ↦ ground (arith, over, e, stop fuel cur end)
    | inr inside ↦ elim (Bool-cases (contains used cur)) [
      | inr free ↦
          let here : cur ≡ r = ground (arith, inside, free, e, take fuel cur end) in
          (
            omega (arith, here),
            ground (arith, here, inside),
            rw⁻¹ here free,
            λ x lo hi. absurd (omega (arith, here)),
          )
      | inl taken ↦
          let (lo, hi, free, below) =
            lowest_free-some fuel (cur + 1) end r b
              (sym (skip fuel cur end (ground (arith, inside)) b taken) ∙ e) in
          (
            omega (arith, lo),
            hi,
            free,
            λ x from to. elim (eq_or_above cur x from) [
              | inl same ↦ rw⁻¹ same taken
              | inr above ↦ below x above to
            ],
          )
    ]
  ]

  lowest_free-none :
      (fuel cur end : ℕ)
      → end < 2 ^ 32 - 1
      → end < cur + fuel
      → lowest_free fuel (record { cur = cur; end = end }) used ≡ none
      → AreUsed cur end
  lowest_free-none zero cur end b enough e = λ x lo hi. absurd (omega arith)
  lowest_free-none (suc fuel) cur end b enough e = elim (Bool-cases (ltb end cur)) [
    | inl over ↦ λ x lo hi. absurd (ground (arith, over))
    | inr inside ↦ elim (Bool-cases (contains used cur)) [
      | inr free ↦ ground (arith, inside, free, e, take fuel cur end)
      | inl taken ↦
          let above =
            lowest_free-none fuel (cur + 1) end b (omega arith)
              (sym (skip fuel cur end (ground (arith, inside)) b taken) ∙ e) in
          λ x lo hi. elim (eq_or_above cur x lo) [
            | inl same ↦ rw⁻¹ same taken
            | inr more ↦ above x more hi
          ]
    ]
  ]

differs : ℕ → ℕ → Bool
differs v x = not (x == v)

keep-length : (v : ℕ) (xs : List ℕ) → length (keep (differs v) xs) ≤ length xs
unfolding differs
keep-length v [] = omega arith
keep-length v (x ∷ xs) = ground (arith, keep-length v xs)

keep-shorter :
    (v : ℕ) (xs : List ℕ) → contains xs v ≡ true → length (keep (differs v) xs) < length xs
unfolding differs
keep-shorter v [] h = cc
keep-shorter v (x ∷ xs) h = ground (arith, keep-length v xs, keep-shorter v xs)

keep-contains :
    (v y : ℕ) (xs : List ℕ) → y < v → contains xs y ≡ true → contains (keep (differs v) xs) y ≡ true
unfolding differs
keep-contains v y [] l h = cc
keep-contains v y (x ∷ xs) l h = ground (arith, keep-contains v y xs)

-- So many used addresses as there are in the range.
pigeonhole :
    (n cur : ℕ) (used : List ℕ)
    → ((x : ℕ) → cur ≤ x → x < cur + n → contains used x ≡ true)
    → n ≤ length used
pigeonhole zero cur used h = omega arith
pigeonhole (suc n) cur used h =
    let top = h (cur + n) (omega arith) (omega arith) in
    let rest =
      pigeonhole n cur (keep (differs (cur + n)) used)
        λ x lo hi. keep-contains (cur + n) x used hi (h x lo (omega arith)) in
    omega (arith, keep-shorter (cur + n) used top, rest)

module _ (s : Subnet) (v : IsSubnet s) (used : List ℕ) where
  last_below : last_host s < 2 ^ 32 - 1
  last_below = omega (arith, last_host_lem s v, v.inside, v.roomy)

  allocate_ip-some :
      (r : ℕ) → allocate_ip s used ≡ some r → IsLowest used (first_host s) (last_host s) r
  unfolding allocate_ip hosts
  allocate_ip-some r e = lowest_free-some used (2 ^ 32) (first_host s) (last_host s) r last_below e

  allocate_ip-none : allocate_ip s used ≡ none → AreUsed used (first_host s) (last_host s)
  unfolding allocate_ip hosts
  allocate_ip-none e =
      lowest_free-none used (2 ^ 32) (first_host s) (last_host s) last_below
        (omega (arith, last_below)) e

  -- Of a subnet that the parser accepts, `allocate_ip` gives exactly the lowest host between the first
  -- and the last that is not used, and it fails exactly when all of them are used.
  pub allocate_ip-IsLowest :
      ((r : ℕ) → (allocate_ip s used ≡ some r) ↔ IsLowest used (first_host s) (last_host s) r)
      × ((allocate_ip s used ≡ none) ↔ AreUsed used (first_host s) (last_host s))
  allocate_ip-IsLowest = (
    λ r. (
      allocate_ip-some r,
      λ low. elim (Option-cases (allocate_ip s used)) [
        | inl e ↦ ground (arith, allocate_ip-none e r low.0 low.1, low.2)
        | inr (q, e) ↦ e ∙ ap some (lowest_unique q r (allocate_ip-some q e) low)
      ],
    ),
    (
      allocate_ip-none,
      λ all. elim (Option-cases (allocate_ip s used)) [
        | inl e ↦ e
        | inr (q, e) ↦ let low = allocate_ip-some q e in ground (arith, all q low.0 low.1, low.2)
      ],
    ),
  )
    where
      lowest_unique :
          (q r : ℕ)
          → IsLowest used (first_host s) (last_host s) q
          → IsLowest used (first_host s) (last_host s) r
          → q ≡ r
      lowest_unique q r (a, b, c, d) (a', b', c', d') = elim (Bool-cases (ltb q r)) [
        | inl less ↦ ground (arith, d' q a (ground (arith, less)), c)
        | inr more ↦ elim (Bool-cases (ltb r q)) [
          | inl less ↦ ground (arith, d r a' (ground (arith, less)), c')
          | inr same ↦ ground (arith, more, same)
        ]
      ]

  -- In a subnet that the parser accepts there is a free host as long as less addresses are used than it
  -- has hosts: its block less the network and the broadcast address.
  pub allocate_ip-free : length used + 2 < block s.prefix → (r : ℕ) × (allocate_ip s used ≡ some r)
  allocate_ip-free room = elim (Option-cases (allocate_ip s used)) [
    | inr found ↦ found
    | inl e ↦
        let many = pigeonhole (block s.prefix - 2) (first_host s) used λ x lo hi.
          allocate_ip-none e x lo
            (omega (arith, hi, last_host_lem s v, first_host_lem s v, v.roomy)) in
        absurd (omega (arith, many, room, v.roomy))
  ]
