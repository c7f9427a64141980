-- ===== src/Api/Members/Counting.antt =====
-- How the statements of the membership handlers change the number of Project Admins.
use pier.Base.{
  ℕ, ◌+◌, String, ◌≡◌, refl, Bool, true, false, not, ◌&&◌, some, List, [], ◌∷◌, ◌++◌, if◌then◌else◌,
  str_eq, eq_iff, first, any, keep, count_if, update_where, arith, Bool-cases, inl, inr,
}
use pier.Db.{ProjectMemberRow}
use pier.Db.Rows.{update_where_none, keep_none}
use pier.Rbac.ProjectRole
use pier.Rbac.ProjectRole.{ProjectRole}
use pier.Rbac.Membership.{is_member_row, is_admin_row}
use pier.Api.Members.{set_role}

-- `UNIQUE(project_id, user_id)`
abbrev pub IsUniqueMembers : List ProjectMemberRow → Type 0
IsUniqueMembers [] = Unit
IsUniqueMembers (x ∷ xs) =
    (any (is_member_row x.user_id x.project_id) xs ≡ false) × IsUniqueMembers xs

abbrev pub one_if : Bool → ℕ
one_if b = if b then 1 else 0

-- The first row that is the member's is the only one.
rest_has_none :
    (x : ProjectMemberRow) (xs : List ProjectMemberRow) (t p : String)
    → any (is_member_row x.user_id x.project_id) xs ≡ false
    → is_member_row t p x ≡ true
    → any (is_member_row t p) xs ≡ false
rest_has_none x xs t p h e = ground (arith, eq_iff x.user_id t, eq_iff x.project_id p)

pub count-set_role :
    (rows : List ProjectMemberRow) (t p q : String) (new : ProjectRole) (r : ProjectMemberRow)
    → IsUniqueMembers rows
    → first (is_member_row t p) rows ≡ some r
    → count_if (is_admin_row q) (update_where (is_member_row t p) (set_role new) rows)
        + one_if (is_admin_row q r)
      ≡ count_if (is_admin_row q) rows
        + one_if (str_eq p q && str_eq (ProjectRole.as_str new) "admin")
count-set_role [] t p q new r u f = ground arith
count-set_role (x ∷ xs) t p q new r (u, us) f = elim (Bool-cases (is_member_row t p x)) [
  | inl e ↦ ground (
    arith,
    eq_iff x.project_id p,
    update_where_none (is_member_row t p) (set_role new) xs (rest_has_none x xs t p u e),
  )
  | inr e ↦ ground (arith, count-set_role xs t p q new r us)
]

pub count-remove :
    (rows : List ProjectMemberRow) (t p q : String) (r : ProjectMemberRow)
    → IsUniqueMembers rows
    → first (is_member_row t p) rows ≡ some r
    → count_if (is_admin_row q) (keep (λ row. not (is_member_row t p row)) rows)
        + one_if (is_admin_row q r)
      ≡ count_if (is_admin_row q) rows
count-remove [] t p q r u f = ground arith
count-remove (x ∷ xs) t p q r (u, us) f = elim (Bool-cases (is_member_row t p x)) [
  | inl e ↦ ground (arith, keep_none (is_member_row t p) xs (rest_has_none x xs t p u e))
  | inr e ↦ ground (arith, count-remove xs t p q r us)
]

-- The row that a search finds is in the project.
pub first-in_project :
    (rows : List ProjectMemberRow) (t p : String) (r : ProjectMemberRow)
    → first (is_member_row t p) rows ≡ some r
    → (r.user_id ≡ t) × (r.project_id ≡ p)
first-in_project [] t p r f = ground arith
first-in_project (x ∷ xs) t p r f =
    ground (arith, first-in_project xs t p r, eq_iff x.user_id t, eq_iff x.project_id p)

any-set_role :
    (rows : List ProjectMemberRow) (t p a b : String) (new : ProjectRole)
    → any (is_member_row a b) (update_where (is_member_row t p) (set_role new) rows)
      ≡ any (is_member_row a b) rows
any-set_role [] t p a b new = refl
any-set_role (x ∷ xs) t p a b new = ground (arith, any-set_role xs t p a b new)

pub IsUniqueMembers-set_role :
    (rows : List ProjectMemberRow) (t p : String) (new : ProjectRole)
    → IsUniqueMembers rows
    → IsUniqueMembers (update_where (is_member_row t p) (set_role new) rows)
IsUniqueMembers-set_role [] t p new u = tt
IsUniqueMembers-set_role (x ∷ xs) t p new (u, us) = (
  ground (arith, any-set_role xs t p x.user_id x.project_id new),
  IsUniqueMembers-set_role xs t p new us,
)

any-keep :
    (rows : List ProjectMemberRow) (f : ProjectMemberRow → Bool) (a b : String)
    → any (is_member_row a b) rows ≡ false
    → any (is_member_row a b) (keep f rows) ≡ false
any-keep [] f a b h = refl
any-keep (x ∷ xs) f a b h = ground (arith, any-keep xs f a b)

pub IsUniqueMembers-keep :
    (rows : List ProjectMemberRow) (f : ProjectMemberRow → Bool)
    → IsUniqueMembers rows
    → IsUniqueMembers (keep f rows)
IsUniqueMembers-keep [] f u = tt
IsUniqueMembers-keep (x ∷ xs) f (u, us) =
    ground (arith, IsUniqueMembers-keep xs f us, any-keep xs f x.user_id x.project_id u)

any-snoc :
    (rows : List ProjectMemberRow) (new : ProjectMemberRow) (a b : String)
    → any (is_member_row a b) rows ≡ false
    → is_member_row a b new ≡ false
    → any (is_member_row a b) (rows ++ new ∷ []) ≡ false
any-snoc [] new a b h e = ground arith
any-snoc (x ∷ xs) new a b h e = ground (arith, any-snoc xs new a b)

pub IsUniqueMembers-snoc :
    (rows : List ProjectMemberRow) (new : ProjectMemberRow)
    → IsUniqueMembers rows
    → any (is_member_row new.user_id new.project_id) rows ≡ false
    → IsUniqueMembers (rows ++ new ∷ [])
IsUniqueMembers-snoc [] new u h = (refl, tt)
IsUniqueMembers-snoc (x ∷ xs) new (u, us) h = (
  any-snoc xs new x.user_id x.project_id u (
      ground (
        arith,
        eq_iff x.user_id new.user_id,
        eq_iff x.project_id new.project_id,
        eq_iff new.user_id x.user_id,
        eq_iff new.project_id x.project_id,
      )),
  IsUniqueMembers-snoc xs new us (ground arith),
)
