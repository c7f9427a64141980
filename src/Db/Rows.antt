-- ===== src/Db/Rows.antt =====
-- `SELECT`, `UPDATE … WHERE` and `DELETE … WHERE` on a table without a matching row.
use pier.Base.{
  ◌+◌, ◌≡◌, refl, Bool, false, ◌||◌, not, List, [], ◌∷◌, ◌++◌, any, keep, count_if, update_where,
  arith, none, first,
}

module _ {ℓ} {A : Type ℓ} where
  pub update_where_none :
      (p : A → Bool) (f : A → A) (xs : List A) → any p xs ≡ false → update_where p f xs ≡ xs
  update_where_none p f [] h = refl
  update_where_none p f (x ∷ xs) h = ground (arith, update_where_none p f xs)

  pub keep_none : (p : A → Bool) (xs : List A) → any p xs ≡ false → keep (λ x. not (p x)) xs ≡ xs
  keep_none p [] h = refl
  keep_none p (x ∷ xs) h = ground (arith, keep_none p xs)

  pub first-none_of_any : (p : A → Bool) (xs : List A) → first p xs ≡ none → any p xs ≡ false
  first-none_of_any p [] h = refl
  first-none_of_any p (x ∷ xs) h = ground (arith, first-none_of_any p xs)

  pub count_if-append :
      (p : A → Bool) (xs ys : List A) → count_if p (xs ++ ys) ≡ count_if p xs + count_if p ys
  count_if-append p [] ys = ground arith
  count_if-append p (x ∷ xs) ys = ground (arith, count_if-append p xs ys)

  pub any-append : (p : A → Bool) (xs ys : List A) → any p (xs ++ ys) ≡ (any p xs || any p ys)
  any-append p [] ys = refl
  any-append p (x ∷ xs) ys = ground (arith, any-append p xs ys)

  pub any-keep-not : (p : A → Bool) (xs : List A) → any p (keep (λ x. not (p x)) xs) ≡ false
  any-keep-not p [] = refl
  any-keep-not p (x ∷ xs) = ground (arith, any-keep-not p xs)
