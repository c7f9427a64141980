-- ===== src/Mesh/Plan/Order.antt =====
-- The order in which `enable_mesh` (crates/pier-core/src/api/network.rs) serves the nodes.
use pier.Base.{
  suc, Bool, true, false, not, ◌||◌, List, [], ◌∷◌, length, any, keep, text_eq, text_eq_comm, ◌≡◌,
  refl, ap, ◌∙◌, arith, All, Bool-cases, inl, inr,
}
use pier.Mesh.Rows.{ServerRow, MeshDb, insert_by, sort_by}
use pier.Mesh.Plan.{in_plan_order, planned_servers}
use pier.Mesh.Plan.Addresses.{AreDistinct}

abbrev Differs : ServerRow → ServerRow → Type 0
Differs s t = text_eq s.id t.id ≡ false

All-insert_by :
    (P : ServerRow → Type 0) (x : ServerRow) (xs : List ServerRow)
    → P x
    → All P xs
    → All P (insert_by in_plan_order x xs)
All-insert_by P x [] h a = (h, tt)
All-insert_by P x (y ∷ ys) h (e, a) = elim (Bool-cases (in_plan_order x y)) [
  | inl c ↦ rw c (h, (e, a))
  | inr c ↦ rw c (e, All-insert_by P x ys h a)
]

All-sort_by :
    (P : ServerRow → Type 0) (xs : List ServerRow) → All P xs → All P (sort_by in_plan_order xs)
All-sort_by P [] a = tt
All-sort_by P (x ∷ xs) (h, a) = All-insert_by P x (sort_by in_plan_order xs) h (All-sort_by P xs a)

AreDistinct-insert_by :
    (x : ServerRow) (xs : List ServerRow)
    → All (Differs x) xs
    → AreDistinct xs
    → AreDistinct (insert_by in_plan_order x xs)
AreDistinct-insert_by x [] a d = (tt, tt)
AreDistinct-insert_by x (y ∷ ys) (e, a) (h, d) = elim (Bool-cases (in_plan_order x y)) [
  | inl c ↦ rw c ((e, a), (h, d))
  | inr c ↦ rw c (
    All-insert_by (Differs y) x ys (text_eq_comm y.id x.id ∙ e) h,
    AreDistinct-insert_by x ys a d,
  )
]

AreDistinct-sort_by :
    (xs : List ServerRow) → AreDistinct xs → AreDistinct (sort_by in_plan_order xs)
AreDistinct-sort_by [] d = tt
AreDistinct-sort_by (x ∷ xs) (h, d) =
    AreDistinct-insert_by x (sort_by in_plan_order xs) (All-sort_by (Differs x) xs h)
      (AreDistinct-sort_by xs d)

pub All-keep :
    (P : ServerRow → Type 0) (p : ServerRow → Bool) (xs : List ServerRow)
    → All P xs
    → All P (keep p xs)
All-keep P p [] a = tt
All-keep P p (x ∷ xs) (h, a) = elim (Bool-cases (p x)) [
  | inl c ↦ rw c (h, All-keep P p xs a)
  | inr c ↦ rw c (All-keep P p xs a)
]

pub AreDistinct-keep :
    (p : ServerRow → Bool) (xs : List ServerRow) → AreDistinct xs → AreDistinct (keep p xs)
AreDistinct-keep p [] d = tt
AreDistinct-keep p (x ∷ xs) (h, d) = elim (Bool-cases (p x)) [
  | inl c ↦ rw c (All-keep (Differs x) p xs h, AreDistinct-keep p xs d)
  | inr c ↦ rw c (AreDistinct-keep p xs d)
]

pub AreDistinct-planned : (db : MeshDb) → AreDistinct db.servers → AreDistinct (planned_servers db)
AreDistinct-planned db d =
    AreDistinct-sort_by (keep (λ s. not s.is_peer) db.servers)
      (AreDistinct-keep (λ s. not s.is_peer) db.servers d)

length-insert_by :
    (x : ServerRow) (xs : List ServerRow) → length (insert_by in_plan_order x xs) ≡ suc (length xs)
length-insert_by x [] = refl
length-insert_by x (y ∷ ys) = elim (Bool-cases (in_plan_order x y)) [
  | inl c ↦ rw c refl
  | inr c ↦ rw c (ap suc (length-insert_by x ys))
]

pub length-sort_by : (xs : List ServerRow) → length (sort_by in_plan_order xs) ≡ length xs
length-sort_by [] = refl
length-sort_by (x ∷ xs) = length-insert_by x (sort_by in_plan_order xs) ∙ ap suc (length-sort_by xs)

-- A local node at the head, if there is one.
abbrev pub IsLocalFirst : List ServerRow → Type 0
IsLocalFirst [] = Unit
IsLocalFirst (x ∷ xs) = any (λ s. s.is_local) xs ≡ true → x.is_local ≡ true

any-insert_by :
    (x : ServerRow) (xs : List ServerRow)
    → any (λ s. s.is_local) (insert_by in_plan_order x xs)
      ≡ (x.is_local || any (λ s. s.is_local) xs)
any-insert_by x [] = refl
any-insert_by x (y ∷ ys) = elim (Bool-cases (in_plan_order x y)) [
  | inl c ↦ rw c refl
  | inr c ↦ rw c (ground (arith, any-insert_by x ys))
]

IsLocalFirst-insert_by :
    (x : ServerRow) (xs : List ServerRow)
    → IsLocalFirst xs
    → IsLocalFirst (insert_by in_plan_order x xs)
IsLocalFirst-insert_by x [] h = ground arith
IsLocalFirst-insert_by x (y ∷ ys) h = ground (arith, any-insert_by x ys)

pub IsLocalFirst-sort_by : (xs : List ServerRow) → IsLocalFirst (sort_by in_plan_order xs)
IsLocalFirst-sort_by [] = tt
IsLocalFirst-sort_by (x ∷ xs) =
    IsLocalFirst-insert_by x (sort_by in_plan_order xs) (IsLocalFirst-sort_by xs)

pub any-sort_by :
    (xs : List ServerRow)
    → any (λ s. s.is_local) (sort_by in_plan_order xs) ≡ any (λ s. s.is_local) xs
any-sort_by [] = refl
any-sort_by (x ∷ xs) =
    any-insert_by x (sort_by in_plan_order xs) ∙ ap (λ b. x.is_local || b) (any-sort_by xs)
