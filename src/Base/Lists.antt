-- ===== src/Base/Lists.antt =====
-- Lists measured by native numbers, and predicates on lists by recursion.
use Prim.Native.Nat.{ℕ, suc, ◌+◌}
use Prim.Native.String.{String}
use mathlib.Core.Path.{◌≡◌, refl, sym, ap, subst}
use mathlib.Core.Logic.{◌⊎◌, inl, inr}
use mathlib.Core.Bool.{Bool, true, false, ◌||◌}
use mathlib.Core.Option.{Option, none, some}
use mathlib.Core.List.{List, [], ◌∷◌, ◌++◌}
use text.Mathlib.Text.{◌==◌ as str_eq}
use native.Mathlib.Omega.{arith}
use pier.Base.Tests.{Bool-cases, both_branches, if◌then◌else◌, ◌==◌}

module _ {ℓ} {A : Type ℓ} where
  abbrev pub length : List A → ℕ
  length [] = 0
  length (x ∷ xs) = suc (length xs)

  abbrev pub any : (A → Bool) → List A → Bool
  any p [] = false
  any p (x ∷ xs) = p x || any p xs

  -- The rows that pass a test, in order.
  abbrev pub keep : (A → Bool) → List A → List A
  keep p [] = []
  keep p (x ∷ xs) = if p x then x ∷ keep p xs else keep p xs

  -- The first row that passes a test.
  abbrev pub first : (A → Bool) → List A → Option A
  first p [] = none
  first p (x ∷ xs) = if p x then some x else first p xs

  abbrev pub count_if : (A → Bool) → List A → ℕ
  count_if p [] = 0
  count_if p (x ∷ xs) = (if p x then 1 else 0) + count_if p xs

  -- Every row that passes a test is replaced.
  abbrev pub update_where : (A → Bool) → (A → A) → List A → List A
  update_where p f [] = []
  update_where p f (x ∷ xs) = (if p x then f x else x) ∷ update_where p f xs

  pub length-append : (xs ys : List A) → length (xs ++ ys) ≡ length xs + length ys
  length-append [] ys = omega arith
  length-append (x ∷ xs) ys = omega (arith, length-append xs ys)

-- An element of a list: a row of a table.
module _ {A : Type 0} where
  abbrev pub IsRow : A → List A → Type 0
  IsRow x [] = ⊥
  IsRow x (y ∷ ys) = (x ≡ y) ⊎ IsRow x ys

  pub first-IsRow :
      (p : A → Bool) (xs : List A) (x : A) → first p xs ≡ some x → IsRow x xs × (p x ≡ true)
  first-IsRow p [] x h = cc
  first-IsRow p (y ∷ ys) x h = elim (Bool-cases (p y)) [
    | inl e ↦
        let same : y ≡ x = ground (arith, e, h) in (inl (sym same), subst (λ z. p z ≡ true) same e)
    | inr e ↦ let (row, q) = first-IsRow p ys x (ground (arith, e, h)) in (inr row, q)
  ]

  pub first_found :
      (p : A → Bool) (x : A) (xs : List A)
      → IsRow x xs
      → p x ≡ true
      → (y : A) × (first p xs ≡ some y)
  first_found p x [] r h = absurd r
  first_found p x (y ∷ ys) r h = elim (Bool-cases (p y)) [
    | inl e ↦ (y, rw e refl)
    | inr e ↦ elim r [
      | inl same ↦ absurd (ground (arith, e, h, ap p same))
      | inr later ↦ let (z, q) = first_found p x ys later h in (z, rw e q)
    ]
  ]

  pub keep-IsRow :
      (p : A → Bool) (x : A) (xs : List A) → IsRow x xs → p x ≡ true → IsRow x (keep p xs)
  keep-IsRow p x [] r h = absurd r
  keep-IsRow p x (y ∷ ys) (inl same) h = let e : p y ≡ true = rw⁻¹ same h in rw e (inl same)
  keep-IsRow p x (y ∷ ys) (inr later) h =
      both_branches (λ zs. IsRow x zs) (p y) (y ∷ keep p ys) (keep p ys)
        (λ e. inr (keep-IsRow p x ys later h)) (λ e. keep-IsRow p x ys later h)

  pub kept-IsRow :
      (p : A → Bool) (x : A) (xs : List A) → IsRow x (keep p xs) → IsRow x xs × (p x ≡ true)
  kept-IsRow p x [] = λ r. absurd r
  kept-IsRow p x (y ∷ ys) =
      both_branches (λ zs. IsRow x zs → IsRow x (y ∷ ys) × (p x ≡ true)) (p y) (y ∷ keep p ys)
        (keep p ys)
        (λ e r. elim r [
          | inl same ↦ (inl same, rw same e)
          | inr later ↦ let (row, q) = kept-IsRow p x ys later in (inr row, q)
        ])
        (λ e r. let (row, q) = kept-IsRow p x ys r in (inr row, q))

  pub append-IsRow-left : (x : A) (xs ys : List A) → IsRow x xs → IsRow x (xs ++ ys)
  append-IsRow-left x [] ys r = absurd r
  append-IsRow-left x (y ∷ xs) ys (inl same) = inl same
  append-IsRow-left x (y ∷ xs) ys (inr later) = inr (append-IsRow-left x xs ys later)

  pub append-IsRow-right : (x : A) (xs ys : List A) → IsRow x ys → IsRow x (xs ++ ys)
  append-IsRow-right x [] ys r = r
  append-IsRow-right x (y ∷ xs) ys r = inr (append-IsRow-right x xs ys r)

  pub append-IsRow : (x : A) (xs ys : List A) → IsRow x (xs ++ ys) → IsRow x xs ⊎ IsRow x ys
  append-IsRow x [] ys r = inr r
  append-IsRow x (y ∷ xs) ys (inl same) = inl (inl same)
  append-IsRow x (y ∷ xs) ys (inr later) = elim (append-IsRow x xs ys later) [
    | inl here ↦ inl (inr here)
    | inr there ↦ inr there
  ]

  pub any-IsRow : (p : A → Bool) (x : A) (xs : List A) → IsRow x xs → p x ≡ true → any p xs ≡ true
  any-IsRow p x [] r e = absurd r
  any-IsRow p x (y ∷ ys) (inl same) e = rw⁻¹ same (ground (arith, e))
  any-IsRow p x (y ∷ ys) (inr later) e = ground (arith, any-IsRow p x ys later e)

  pub any-append : (p : A → Bool) (xs ys : List A) → any p (xs ++ ys) ≡ (any p xs || any p ys)
  any-append p [] ys = refl
  any-append p (x ∷ xs) ys = ground (arith, any-append p xs ys)

module _ {ℓ κ} {A : Type ℓ} where
  abbrev pub All : (A → Type κ) → List A → Type κ
  All P [] = Unit
  All P (x ∷ xs) = P x × All P xs

-- `contains` on numbers and on texts.
abbrev pub contains : List ℕ → ℕ → Bool
contains [] a = false
contains (x ∷ xs) a = x == a || contains xs a

abbrev pub contains_str : List String → String → Bool
contains_str [] a = false
contains_str (x ∷ xs) a = str_eq x a || contains_str xs a

pub contains-append :
    (xs ys : List ℕ) (a : ℕ) → contains (xs ++ ys) a ≡ (contains xs a || contains ys a)
contains-append [] ys a = refl
contains-append (x ∷ xs) ys a = ground (arith, contains-append xs ys a)

pub contains_str-append :
    (xs ys : List String) (a : String)
    → contains_str (xs ++ ys) a ≡ (contains_str xs a || contains_str ys a)
contains_str-append [] ys a = refl
contains_str-append (x ∷ xs) ys a = ground (arith, contains_str-append xs ys a)

-- No number stands twice.
abbrev pub IsDistinct : List ℕ → Type 0
IsDistinct [] = Unit
IsDistinct (x ∷ xs) = (contains xs x ≡ false) × IsDistinct xs
