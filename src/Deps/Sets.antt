-- ===== src/Deps/Sets.antt =====
-- Lists of ids as sets, for crates/pier-core/src/deploy/deps.rs.
use pier.Base.{
  ◌+◌, ◌≤◌, String, true, false, not, List, [], ◌∷◌, ◌++◌, ◌≡◌, refl, sym, subst, ◌⊎◌, inl, inr,
  str_eq, eq_iff, eq_refl, keep, contains_str, contains_str-append, length, arith, Bool-cases,
}
use mathlib.Core.List.{append-nil, append_assoc}
use pier.Deps.{newly_seen}

-- No id stands twice.
abbrev pub IsDistinctIds : List String → Type 0
IsDistinctIds [] = Unit
IsDistinctIds (x ∷ xs) = (contains_str xs x ≡ false) × IsDistinctIds xs

abbrev pub IsSubset : List String → List String → Type 0
IsSubset xs ys = (x : String) → contains_str xs x ≡ true → contains_str ys x ≡ true

pub in_append :
    (xs ys : List String) (x : String)
    → contains_str (xs ++ ys) x ≡ true
    → (contains_str xs x ≡ true) ⊎ (contains_str ys x ≡ true)
in_append xs ys x h = ground (arith, contains_str-append xs ys x, h)

pub in_left : (xs ys : List String) → IsSubset xs (xs ++ ys)
in_left xs ys x h = ground (arith, contains_str-append xs ys x, h)

pub in_right : (xs ys : List String) → IsSubset ys (xs ++ ys)
in_right xs ys x h = ground (arith, contains_str-append xs ys x, h)

pub newly_seen-all :
    (visited deps : List String) → IsSubset deps (visited ++ newly_seen visited deps)
unfolding newly_seen
newly_seen-all visited [] x h = cc
newly_seen-all visited (d ∷ ds) x h = elim (Bool-cases (contains_str visited d)) [
  | inl e ↦ rw e (elim (Bool-cases (str_eq d x)) [
    | inl same ↦
        ground (arith, contains_str-append visited (newly_seen visited ds) x, e, same, eq_iff d x)
    | inr other ↦ newly_seen-all visited ds x (ground (arith, h, other))
  ])
  | inr e ↦ rw e (
      ground (
        arith,
        contains_str-append visited (d ∷ newly_seen (visited ++ d ∷ []) ds) x,
        contains_str-append (visited ++ d ∷ []) (newly_seen (visited ++ d ∷ []) ds) x,
        contains_str-append visited (d ∷ []) x,
        h,
        newly_seen-all (visited ++ d ∷ []) ds x,
      ))
]

-- What is newly seen is among the ids given and was not seen before.
pub newly_seen-new :
    (visited deps : List String) (x : String)
    → contains_str (newly_seen visited deps) x ≡ true
    → (contains_str deps x ≡ true) × (contains_str visited x ≡ false)
unfolding newly_seen
newly_seen-new visited [] x h = cc
newly_seen-new visited (d ∷ ds) x h = elim (Bool-cases (contains_str visited d)) [
  | inl e ↦
      let (i, n) = newly_seen-new visited ds x (ground (arith, h, e)) in (ground (arith, i), n)
  | inr e ↦ elim (Bool-cases (str_eq d x)) [
    | inl same ↦ (ground (arith, same), ground (arith, e, same, eq_iff d x))
    | inr other ↦
        let (i, n) = newly_seen-new (visited ++ d ∷ []) ds x (ground (arith, h, e, other)) in
        (ground (arith, i), ground (arith, n, contains_str-append visited (d ∷ []) x))
  ]
]

pub IsDistinctIds-snoc :
    (xs : List String) (d : String)
    → IsDistinctIds xs
    → contains_str xs d ≡ false
    → IsDistinctIds (xs ++ d ∷ [])
IsDistinctIds-snoc [] d a n = (refl, tt)
IsDistinctIds-snoc (x ∷ xs) d (h, a) n = (
  ground (arith, contains_str-append xs (d ∷ []) x, h, n, eq_iff x d, eq_iff d x),
  IsDistinctIds-snoc xs d a (ground (arith, n)),
)

pub IsDistinctIds-newly_seen :
    (visited deps : List String)
    → IsDistinctIds visited
    → IsDistinctIds (visited ++ newly_seen visited deps)
unfolding newly_seen
IsDistinctIds-newly_seen visited [] a = subst IsDistinctIds (sym (append-nil visited)) a
IsDistinctIds-newly_seen visited (d ∷ ds) a = elim (Bool-cases (contains_str visited d)) [
  | inl e ↦ rw e (IsDistinctIds-newly_seen visited ds a)
  | inr e ↦ rw e (
      subst IsDistinctIds (append_assoc visited (d ∷ []) (newly_seen (visited ++ d ∷ []) ds))
        (IsDistinctIds-newly_seen (visited ++ d ∷ []) ds (IsDistinctIds-snoc visited d a e)))
]

abbrev without : String → List String → List String
without x = keep (λ y. not (str_eq y x))

length-without : (x : String) (ys : List String) → length (without x ys) ≤ length ys
length-without x [] = ground arith
length-without x (y ∷ ys) = ground (arith, length-without x ys)

length-without_member :
    (x : String) (ys : List String)
    → contains_str ys x ≡ true
    → length (without x ys) + 1 ≤ length ys
length-without_member x [] h = cc
length-without_member x (y ∷ ys) h = elim (Bool-cases (str_eq y x)) [
  | inl e ↦ ground (arith, e, length-without x ys)
  | inr e ↦ ground (arith, e, length-without_member x ys (ground (arith, h, e)))
]

contains_str-without :
    (x y : String) (ys : List String)
    → str_eq x y ≡ false
    → contains_str ys y ≡ true
    → contains_str (without x ys) y ≡ true
contains_str-without x y [] n h = h
contains_str-without x y (z ∷ ys) n h = elim (Bool-cases (str_eq z y)) [
  | inl e ↦ ground (arith, e, n, eq_iff z y, eq_iff z x, eq_iff x y, eq_refl y)
  | inr e ↦ ground (arith, e, contains_str-without x y ys n (ground (arith, h, e)))
]

-- A set is not longer than a list that holds all of it.
pub length-IsSubset :
    (xs ys : List String) → IsDistinctIds xs → IsSubset xs ys → length xs ≤ length ys
length-IsSubset [] ys a s = ground arith
length-IsSubset (x ∷ xs) ys (n, a) s =
    let rest = length-IsSubset xs (without x ys) a λ y h.
      contains_str-without x y ys (ground (arith, n, h, eq_iff x y)) (s y (ground (arith, h))) in
    ground (arith, rest, length-without_member x ys (s x (ground (arith, eq_refl x))))
