-- ===== src/Deps/Closure.antt =====
-- `expand_with_dependents` of crates/pier-core/src/deploy/deps.rs computes the closure of the seeds under
-- the reverse edges, on cyclic graphs too.
use pier.Base.{
  ℕ, zero, suc, ◌+◌, String, true, false, Option, some, List, [], ◌∷◌, ◌++◌, ◌≡◌, ◌⊎◌, inl, inr,
  subst, str_eq, eq_iff, eq_refl, contains_str, contains_str-append, length, arith, Bool-cases,
}
use pier.Deps.{Dependency, dependents, newly_seen, over, visit, expand_with_dependents}
use pier.Deps.Sets.{
  IsDistinctIds, IsSubset, newly_seen-all, newly_seen-new, in_append, in_left, in_right,
  IsDistinctIds-newly_seen,
}

-- A seed, or a service that depends on an affected one.
pub data IsAffected (edges : List Dependency) (seeds : List String) : String → Type 0 where
  seed : (x : String) → contains_str seeds x ≡ true → IsAffected edges seeds x
  dependent :
      (x y : String)
      → IsAffected edges seeds x
      → contains_str (dependents edges x) y ≡ true
      → IsAffected edges seeds y

module _ (edges : List Dependency) (max : Option ℕ) (seeds : List String) where
  abbrev pub AreAffected : List String → Type 0
  AreAffected visited = (x : String) → contains_str visited x ≡ true → IsAffected edges seeds x

  -- What holds before each turn: every id whose dependents are not all in the set is in the queue.
  record Inv (queue visited : List String) : Type 0 where
    pub in_set : IsSubset queue visited
    pub distinct : IsDistinctIds visited
    pub sound : AreAffected visited
    pub seeded : IsSubset seeds visited
    pub closed :
        (x : String)
        → contains_str visited x ≡ true
        → (contains_str queue x ≡ true) ⊎ IsSubset (dependents edges x) visited

  abbrev seen : String → List String → List String
  seen current visited = newly_seen visited (dependents edges current)

  Inv-turn :
      (current : String) (queue visited : List String)
      → Inv (current ∷ queue) visited
      → Inv
          (queue ++ newly_seen visited (dependents edges current))
          (visited ++ newly_seen visited (dependents edges current))
  Inv-turn current queue visited inv = record {
    in_set = λ x h. elim (in_append queue (seen current visited) x h) [
      | inl q ↦ in_left visited (seen current visited) x (inv.in_set x (ground (arith, q)))
      | inr s ↦ in_right visited (seen current visited) x s
    ];
    distinct = IsDistinctIds-newly_seen visited (dependents edges current) inv.distinct;
    sound = λ x h. elim (in_append visited (seen current visited) x h) [
      | inl v ↦ inv.sound x v
      | inr s ↦
          let (i, _) = newly_seen-new visited (dependents edges current) x s in
          let here = inv.in_set current (ground (arith, eq_refl current)) in
          dependent current x (inv.sound current here) i
    ];
    seeded = λ x h. ground (
      arith,
      contains_str-append visited (newly_seen visited (dependents edges current)) x,
      inv.seeded x h,
    );
    closed = λ x h. elim (in_append visited (seen current visited) x h) [
      | inl v ↦ elim (inv.closed x v) [
        | inl q ↦ elim (Bool-cases (str_eq current x)) [
          | inl same ↦ inr (
              subst (λ y. IsSubset (dependents edges y) (visited ++ seen current visited))
                ((eq_iff current x).0 same) (newly_seen-all visited (dependents edges current)))
          | inr other ↦ inl (in_left queue (seen current visited) x (ground (arith, q, other)))
        ]
        | inr sub ↦ inr (λ y m. in_left visited (seen current visited) y (sub y m))
      ]
      | inr s ↦ inl (in_right queue (seen current visited) x s)
    ];
  }

  -- The set that is answered.
  pub record IsAnswer (r : List String) : Type 0 where
    pub distinct : IsDistinctIds r
    pub sound : AreAffected r
    pub seeded : IsSubset seeds r
    pub closed :
        ((v : List String) → IsDistinctIds v → AreAffected v → over edges max v ≡ false)
        → (x : String) → contains_str r x ≡ true
        → IsSubset (dependents edges x) r

  visit-IsAnswer :
      (fuel : ℕ) (queue visited r : List String)
      → Inv queue visited
      → visit edges max fuel queue visited ≡ some r
      → IsAnswer r
  unfolding visit
  visit-IsAnswer fuel [] visited r inv e =
      let same : visited ≡ r = ground arith in
      subst IsAnswer same (record {
        distinct = inv.distinct;
        sound = inv.sound;
        seeded = inv.seeded;
        closed = λ _ x h. elim (inv.closed x h) [ inl f ↦ cc | inr s ↦ s ];
      })
  visit-IsAnswer zero (c ∷ queue) visited r inv e = cc
  visit-IsAnswer (suc fuel) (c ∷ queue) visited r inv e =
      elim (Bool-cases (over edges max visited)) [
        | inl o ↦
            let same : visited ≡ r = ground (arith, e, o) in
            subst IsAnswer same (record {
              distinct = inv.distinct;
              sound = inv.sound;
              seeded = inv.seeded;
              closed = λ below x h y m. ground (arith, o, below visited inv.distinct inv.sound);
            })
        | inr o ↦
            visit-IsAnswer fuel (queue ++ seen c visited) (visited ++ seen c visited) r
              (Inv-turn c queue visited inv) (ground (arith, e, o))
      ]

  Inv-start : Inv seeds (newly_seen [] seeds)
  Inv-start = record {
    in_set = newly_seen-all [] seeds;
    distinct = IsDistinctIds-newly_seen [] seeds tt;
    sound = λ x h. seed x (newly_seen-new [] seeds x h).0;
    seeded = newly_seen-all [] seeds;
    closed = λ x h. inl (newly_seen-new [] seeds x h).0;
  }

  pub expand-IsAnswer :
      (r : List String) → expand_with_dependents edges max seeds ≡ some r → IsAnswer r
  unfolding expand_with_dependents
  expand-IsAnswer r e =
      visit-IsAnswer (length seeds + length edges) seeds (newly_seen [] seeds) r Inv-start e
