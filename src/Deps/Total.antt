-- ===== src/Deps/Total.antt =====
-- The loop of crates/pier-core/src/deploy/deps.rs ends, and what the result is then.
use pier.Base.{
  ℕ, zero, suc, ◌+◌, ◌≤◌, String, true, false, not, Option, some, List, [], ◌∷◌, ◌++◌, map, ◌≡◌,
  ◌↔◌, inl, inr, refl, str_eq, eq_iff, eq_refl, contains_str, contains_str-append, length,
  length-append, arith, Bool-cases, count_if,
}
use pier.Deps.{Dependency, dependents, newly_seen, over, visit, expand_with_dependents}
use mathlib.Core.List.{append-nil, append_assoc}
use pier.Deps.Closure.{IsAffected, seed, dependent, IsAnswer, expand-IsAnswer, AreAffected}
use pier.Deps.Sets.{IsDistinctIds, IsSubset, length-IsSubset}

module _ (edges : List Dependency) (max : Option ℕ) where
  -- the edges whose service is not in the set
  abbrev left : List Dependency → List String → ℕ
  left es visited = count_if (λ e. not (contains_str visited e.service_id)) es

  left-snoc :
      (es : List Dependency) (visited : List String) (d : String)
      → left es (visited ++ d ∷ []) ≤ left es visited
  left-snoc [] visited d = ground arith
  left-snoc (e ∷ es) visited d =
      ground (arith, left-snoc es visited d, contains_str-append visited (d ∷ []) e.service_id)

  left-snoc_member :
      (es : List Dependency) (visited : List String) (d : String)
      → contains_str (map (λ e. e.service_id) es) d ≡ true
      → contains_str visited d ≡ false
      → left es (visited ++ d ∷ []) + 1 ≤ left es visited
  left-snoc_member [] visited d h n = cc
  left-snoc_member (e ∷ es) visited d h n = elim (Bool-cases (str_eq e.service_id d)) [
    | inl same ↦ ground (
      arith,
      same,
      n,
      left-snoc es visited d,
      contains_str-append visited (d ∷ []) e.service_id,
      eq_iff e.service_id d,
    )
    | inr other ↦ ground (
      arith,
      other,
      left-snoc_member es visited d (ground (arith, h, other)) n,
      contains_str-append visited (d ∷ []) e.service_id,
    )
  ]

  abbrev services_of : List String
  services_of = map (λ e. e.service_id) edges

  left-newly_seen :
      (visited ds : List String)
      → IsSubset ds services_of
      → left edges (visited ++ newly_seen visited ds) + length (newly_seen visited ds)
        ≤ left edges visited
  unfolding newly_seen
  left-newly_seen visited [] s = ground (arith, append-nil visited)
  left-newly_seen visited (d ∷ ds) s = elim (Bool-cases (contains_str visited d)) [
    | inl e ↦ rw e (left-newly_seen visited ds (λ x h. s x (ground (arith, h))))
    | inr e ↦ rw e (
        ground (
          arith,
          append_assoc visited (d ∷ []) (newly_seen (visited ++ d ∷ []) ds),
          left-snoc_member edges visited d (s d (ground (arith, eq_refl d))) e,
          left-newly_seen (visited ++ d ∷ []) ds (λ x h. s x (ground (arith, h))),
        ))
  ]

  dependents-IsSubset :
      (es : List Dependency) (current : String)
      → IsSubset (dependents es current) (map (λ e. e.service_id) es)
  dependents-IsSubset [] current x h = cc
  dependents-IsSubset (e ∷ es) current x h = ground (arith, h, dependents-IsSubset es current x)

  visit-total :
      (fuel : ℕ) (queue visited : List String)
      → length queue + left edges visited ≤ fuel
      → (r : List String) × (visit edges max fuel queue visited ≡ some r)
  unfolding visit
  visit-total fuel [] visited f = (visited, refl)
  visit-total zero (c ∷ queue) visited f = ground arith
  visit-total (suc fuel) (c ∷ queue) visited f =
      let seen = newly_seen visited (dependents edges c) in
      let fewer = left-newly_seen visited (dependents edges c) (dependents-IsSubset edges c) in
      let (r, e) =
        visit-total fuel (queue ++ seen) (visited ++ seen)
          (ground (arith, f, fewer, length-append queue seen)) in
      elim (Bool-cases (over edges max visited)) [
        | inl o ↦ (visited, ground (arith, o))
        | inr o ↦ (r, ground (arith, o, e))
      ]

  left-length : (es : List Dependency) (visited : List String) → left es visited ≤ length es
  left-length [] visited = ground arith
  left-length (e ∷ es) visited = ground (arith, left-length es visited)

  expand-total :
      (seeds : List String) → (r : List String) × (expand_with_dependents edges max seeds ≡ some r)
  unfolding expand_with_dependents
  expand-total seeds =
      visit-total (length seeds + length edges) seeds (newly_seen [] seeds)
        (ground (arith, left-length edges (newly_seen [] seeds)))

-- The loop ends on every graph, cyclic or not, and with any cap; the fuel of one turn for each seed and
-- each edge is enough. The result has no id twice, holds all the seeds, and holds only services that are
-- affected: the seeds and what depends on them, directly or not.
pub expand_total :
    (edges : List Dependency) (max : Option ℕ) (seeds : List String)
    → (r : List String) × (expand_with_dependents edges max seeds ≡ some r)
      × IsDistinctIds r
      × IsSubset seeds r
      × ((x : String) → contains_str r x ≡ true → IsAffected edges seeds x)
expand_total edges max seeds =
    let (r, e) = expand-total edges max seeds in
    let a = expand-IsAnswer edges max seeds r e in (r, e, a.distinct, a.seeded, a.sound)

-- If the seeds and the services of the edges are rows of `services`, as the foreign keys demand, then the
-- cap, which is the number of these rows, cuts nothing off: the result holds a service exactly when it is
-- affected.
pub expand_exact :
    (services : List String) (edges : List Dependency) (seeds r : List String)
    → IsSubset seeds services
    → IsSubset (map (λ e. e.service_id) edges) services
    → expand_with_dependents edges (some (length services)) seeds ≡ some r
    → (x : String) → (contains_str r x ≡ true) ↔ IsAffected edges seeds x
expand_exact services edges seeds r known_seeds known e x = (a.sound x, complete x)
  where
    a : IsAnswer edges (some (length services)) seeds r
    a = expand-IsAnswer edges (some (length services)) seeds r e

    in_services : (y : String) → IsAffected edges seeds y → contains_str services y ≡ true
    in_services y (seed _ h) = known_seeds y h
    in_services y (dependent z _ _ h) = known y (dependents-IsSubset edges (some 0) edges z y h)

    below :
        (v : List String)
        → IsDistinctIds v
        → AreAffected edges (some (length services)) seeds v
        → over edges (some (length services)) v ≡ false
    below v d s = ground (arith, length-IsSubset v services d (λ y h. in_services y (s y h)))

    complete : (y : String) → IsAffected edges seeds y → contains_str r y ≡ true
    complete y (seed _ h) = a.seeded y h
    complete y (dependent z _ s h) = a.closed below z (complete z s) y h
