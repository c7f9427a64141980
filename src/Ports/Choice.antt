-- ===== src/Ports/Choice.antt =====
-- Which ports crates/pier-core/src/db/ports.rs chooses: an independent description, and that the loop
-- over the pool and the loop over the specs implement it.
use pier.Base.{
  ℕ, zero, suc, ◌+◌, ◌-◌, ◌≤◌, ◌<◌, Bool, true, false, not, ◌&&◌, Option, none, some, List, [], ◌∷◌,
  ◌++◌, ◌≡◌, ◌↔◌, ◌⊎◌, inl, inr, refl, sym, subst, leb, ok, >>=-eq-ok, arith, Bool-cases,
}
use pier.Ports.{
  Request, Spec, is_free, scan, choose_auto, choose_requested, choose, choose_all, override_of,
  overrides_after,
}

eq_or_less : (p x : ℕ) → p ≤ x → (p ≡ x) ⊎ (p + 1 ≤ x)
eq_or_less p x lo = ground arith

module _ (q : Request) (all_used : List ℕ) where
  -- The least free port of `[p, end)`.
  abbrev pub IsLeast : List ℕ → ℕ → ℕ → Type 0
  IsLeast newly p r =
      (p ≤ r)
      × (r < q.end)
      × (is_free q all_used newly r ≡ true)
      × ((x : ℕ) → p ≤ x → x < r → is_free q all_used newly x ≡ false)

  scan_ok :
      (fuel : ℕ) (newly : List ℕ) (p r : ℕ)
      → scan q all_used fuel newly p ≡ ok r
      → IsLeast newly p r
  unfolding scan
  scan_ok zero newly p r e = cc
  scan_ok (suc fuel) newly p r e = elim (Bool-cases (leb q.end p)) [
    | inl h ↦ ground (arith, h)
    | inr h ↦ elim (Bool-cases (is_free q all_used newly p)) [
      | inl f ↦
          let pr : p ≡ r = ground (arith, h, f) in
          (
            ground (arith, pr),
            ground (arith, pr, h),
            rw⁻¹ pr f,
            λ x lo hi. ground (arith, pr, lo, hi),
          )
      | inr f ↦
          let (a, b, c, d) = scan_ok fuel newly (p + 1) r (ground (arith, h, f)) in
          (
            ground (arith, a),
            b,
            c,
            λ x lo hi. elim (eq_or_less p x lo) [ inl same ↦ rw⁻¹ same f | inr less ↦ d x less hi ],
          )
    ]
  ]

  scan_least :
      (fuel : ℕ) (newly : List ℕ) (p r : ℕ)
      → q.end ≤ p + fuel
      → IsLeast newly p r
      → scan q all_used fuel newly p ≡ ok r
  unfolding scan
  scan_least zero newly p r f (a, b, c, d) = ground arith
  scan_least (suc fuel) newly p r f (a, b, c, d) = elim (eq_or_less p r a) [
    | inl same ↦ ground (arith, same, b, c)
    | inr less ↦ ground (
      arith,
      d p (ground arith) (ground arith),
      scan_least fuel newly (p + 1) r (ground arith)
          (less, b, c, λ x lo hi. d x (ground (arith, lo)) hi),
    )
  ]

  -- The standard port may be taken.
  abbrev pub standard_ok : List ℕ → ℕ → Bool
  standard_ok newly standard =
      not q.pool_only && leb 1024 standard && is_free q all_used newly standard

  -- What `r` is for a spec with the given override and container port: the override itself; or else
  -- the container port, if it may be taken; or else the least free port of the pool.
  pub data IsChoice (newly : List ℕ) : Option ℕ → ℕ → ℕ → Type 0 where
    requested :
        (standard r : ℕ) → is_free q all_used newly r ≡ true → IsChoice newly (some r) standard r
    standard : (r : ℕ) → standard_ok newly r ≡ true → IsChoice newly none r r
    pool :
        (standard r : ℕ)
        → standard_ok newly standard ≡ false
        → IsLeast newly q.start r
        → IsChoice newly none standard r

  -- One choice for each spec, each with regard to those before it.
  pub data Choices : List ℕ → List Spec → List (Option ℕ) → List ℕ → Type 0 where
    done : (newly : List ℕ) (overrides : List (Option ℕ)) → Choices newly [] overrides []
    next :
        (newly : List ℕ) (s : Spec) (specs : List Spec) (overrides : List (Option ℕ)) (r : ℕ)
        (rs : List ℕ)
        → IsChoice newly (override_of q all_used overrides) s.container_port r
        → Choices (newly ++ r ∷ []) specs (overrides_after q all_used overrides) rs
        → Choices newly (s ∷ specs) overrides (r ∷ rs)

  choose-IsChoice :
      (newly : List ℕ) (o : Option ℕ) (std r : ℕ)
      → choose q all_used newly o std ≡ ok r
      → IsChoice newly o std r
  unfolding choose_requested choose_auto
  choose-IsChoice newly (some p) std r e =
      let f : (r ≡ p) × (is_free q all_used newly p ≡ true) = ground arith in
      subst (λ x. IsChoice newly (some p) std x) (sym f.0) (requested std p f.1)
  choose-IsChoice newly none std r e = elim (Bool-cases (standard_ok newly std)) [
    | inl h ↦
        let same : std ≡ r = ground (arith, h) in
        subst (λ x. IsChoice newly none std x) same (standard std h)
    | inr h ↦ pool std r h (scan_ok (q.end - q.start) newly q.start r (ground (arith, h)))
  ]

  IsChoice-choose :
      (newly : List ℕ) (o : Option ℕ) (std r : ℕ)
      → IsChoice newly o std r
      → choose q all_used newly o std ≡ ok r
  unfolding choose_requested choose_auto
  IsChoice-choose newly o std r (requested _ _ f) = ground arith
  IsChoice-choose newly o std r (standard _ h) = ground arith
  IsChoice-choose newly o std r (pool _ _ h l) =
      rw h (scan_least (q.end - q.start) newly q.start r (ground arith) l)

  choose_all-Choices :
      (newly : List ℕ) (specs : List Spec) (overrides : List (Option ℕ)) (rs : List ℕ)
      → choose_all q all_used newly specs overrides ≡ ok rs
      → Choices newly specs overrides rs
  unfolding choose_all
  choose_all-Choices newly [] overrides [] e = done newly overrides
  choose_all-Choices newly [] overrides (r ∷ rs) e = cc
  choose_all-Choices newly (s ∷ specs) overrides rs e =
      let o = override_of q all_used overrides in
      let os = overrides_after q all_used overrides in
      let (c, chosen, e') = >>=-eq-ok (choose q all_used newly o s.container_port) _ e in
      let (rest, chosen_rest, e'') =
        >>=-eq-ok (choose_all q all_used (newly ++ c ∷ []) specs os) _ e' in
      let same : c ∷ rest ≡ rs = ground arith in
      subst (Choices newly (s ∷ specs) overrides) same (
        next newly s specs overrides c rest (choose-IsChoice newly o s.container_port c chosen)
          (choose_all-Choices (newly ++ c ∷ []) specs os rest chosen_rest))

  Choices-choose_all :
      (newly : List ℕ) (specs : List Spec) (overrides : List (Option ℕ)) (rs : List ℕ)
      → Choices newly specs overrides rs
      → choose_all q all_used newly specs overrides ≡ ok rs
  unfolding choose_all
  Choices-choose_all newly specs overrides rs (done _ _) = refl
  Choices-choose_all newly specs overrides rs (next _ s ss _ r rest c cs) =
      rw
        (
          IsChoice-choose newly (override_of q all_used overrides) s.container_port r c,
          Choices-choose_all (newly ++ r ∷ []) ss (overrides_after q all_used overrides) rest cs,
        )
        refl

  -- The ports that the loop over the specs answers are exactly those of the description: for each spec
  -- in turn the override, which must be free; or without one the container port, if the call is not
  -- restricted to the pool and the port is at least 1024 and free; or else the least free port of the
  -- pool. A port is free if no allocation of Pier has it, the host does not hold it, unless it is
  -- exempt, and no spec before this one got it.
  pub choose_all_lem :
      (newly : List ℕ) (specs : List Spec) (overrides : List (Option ℕ)) (rs : List ℕ)
      → (choose_all q all_used newly specs overrides ≡ ok rs) ↔ Choices newly specs overrides rs
  choose_all_lem newly specs overrides rs =
      (choose_all-Choices newly specs overrides rs, Choices-choose_all newly specs overrides rs)
