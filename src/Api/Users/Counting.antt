-- ===== src/Api/Users/Counting.antt =====
-- How the statements on `users` change the number of active owners.
use pier.Base.{
  ℕ, ◌+◌, ◌≤◌, String, ◌≡◌, refl, Bool, true, false, not, some, List, [], ◌∷◌, if◌then◌else◌,
  str_eq, eq_iff, first, any, keep, count_if, update_where, arith, Bool-cases, inl, inr,
}
use pier.Db.{User}
use pier.Db.Rows.{update_where_none, keep_none}
use pier.Api.Users.{has_id, is_active_owner}

-- the primary key
abbrev pub IsUniqueUsers : List User → Type 0
IsUniqueUsers [] = Unit
IsUniqueUsers (x ∷ xs) = (any (has_id x.id) xs ≡ false) × IsUniqueUsers xs

abbrev pub one_if : Bool → ℕ
one_if b = if b then 1 else 0

rest_has_none :
    (x : User) (xs : List User) (t : String)
    → any (has_id x.id) xs ≡ false
    → has_id t x ≡ true
    → any (has_id t) xs ≡ false
rest_has_none x xs t h e = ground (arith, eq_iff x.id t)

module _ (t : String) (g : User → User) where
  pub count-update :
      (rows : List User) (r : User)
      → IsUniqueUsers rows
      → first (has_id t) rows ≡ some r
      → count_if is_active_owner (update_where (has_id t) g rows) + one_if (is_active_owner r)
        ≡ count_if is_active_owner rows + one_if (is_active_owner (g r))
  count-update [] r u f = ground arith
  count-update (x ∷ xs) r (u, us) f = elim (Bool-cases (has_id t x)) [
    | inl e ↦ ground (arith, update_where_none (has_id t) g xs (rest_has_none x xs t u e))
    | inr e ↦ ground (arith, count-update xs r us)
  ]

  module _ (same_id : (u : User) → (g u).id ≡ u.id) where
    any-update :
        (rows : List User) (a : String)
        → any (has_id a) (update_where (has_id t) g rows) ≡ any (has_id a) rows
    any-update [] a = refl
    any-update (x ∷ xs) a = ground (arith, any-update xs a, same_id x)

    pub IsUniqueUsers-update :
        (rows : List User) → IsUniqueUsers rows → IsUniqueUsers (update_where (has_id t) g rows)
    IsUniqueUsers-update [] u = tt
    IsUniqueUsers-update (x ∷ xs) (u, us) =
        (ground (arith, any-update xs x.id, same_id x), IsUniqueUsers-update xs us)

    pub first-update_self :
        (rows : List User) (r : User)
        → first (has_id t) rows ≡ some r
        → first (has_id t) (update_where (has_id t) g rows) ≡ some (g r)
    first-update_self [] r f = ground arith
    first-update_self (x ∷ xs) r f = ground (arith, first-update_self xs r, same_id x)

    pub first-update_ne :
        (rows : List User) (a : String)
        → str_eq t a ≡ false
        → first (has_id a) (update_where (has_id t) g rows) ≡ first (has_id a) rows
    first-update_ne [] a ne = refl
    first-update_ne (x ∷ xs) a ne =
        ground (arith, first-update_ne xs a ne, same_id x, eq_iff x.id t, eq_iff x.id a, eq_iff t a)

pub count-delete :
    (rows : List User) (t : String) (r : User)
    → IsUniqueUsers rows
    → first (has_id t) rows ≡ some r
    → count_if is_active_owner (keep (λ u. not (has_id t u)) rows) + one_if (is_active_owner r)
      ≡ count_if is_active_owner rows
count-delete [] t r u f = ground arith
count-delete (x ∷ xs) t r (u, us) f = elim (Bool-cases (has_id t x)) [
  | inl e ↦ ground (arith, keep_none (has_id t) xs (rest_has_none x xs t u e))
  | inr e ↦ ground (arith, count-delete xs t r us)
]

any-keep :
    (rows : List User) (f : User → Bool) (a : String)
    → any (has_id a) rows ≡ false
    → any (has_id a) (keep f rows) ≡ false
any-keep [] f a h = refl
any-keep (x ∷ xs) f a h = ground (arith, any-keep xs f a)

pub IsUniqueUsers-keep :
    (rows : List User) (f : User → Bool) → IsUniqueUsers rows → IsUniqueUsers (keep f rows)
IsUniqueUsers-keep [] f u = tt
IsUniqueUsers-keep (x ∷ xs) f (u, us) =
    ground (arith, IsUniqueUsers-keep xs f us, any-keep xs f x.id u)

pub count-pos_of_first :
    (rows : List User) (a : String) (r : User)
    → first (has_id a) rows ≡ some r
    → is_active_owner r ≡ true
    → 1 ≤ count_if is_active_owner rows
count-pos_of_first [] a r f h = ground arith
count-pos_of_first (x ∷ xs) a r f h = ground (arith, count-pos_of_first xs a r)
