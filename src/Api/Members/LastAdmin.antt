-- ===== src/Api/Members/LastAdmin.antt =====
-- No change of membership leaves a project without a Project Admin.
use pier.Base.{
  ◌≤◌, String, ◌≡◌, refl, true, false, not, some, List, str_eq, eq_iff, first, keep, count_if,
  update_where, arith, Option-cases, inl, inr, ok, leb,
}
use pier.Db.{Db, ProjectMemberRow}
use pier.Rbac.ProjectRole
use pier.Rbac.ProjectRole.{ProjectRole}
use pier.Rbac.Membership.{is_member_row, is_admin_row, count_admins}
use pier.Rbac.Policy.{AuthUser}
use pier.Api.Handler.Post.{lift-post, query-post, modify-post, log-post}
use pier.Api.Members.{set_role, role_or_viewer, update_role, remove, current_role}
use pier.Api.Members.Counting.{
  IsUniqueMembers, count-set_role, count-remove, first-in_project, IsUniqueMembers-set_role,
  IsUniqueMembers-keep,
}

role_or_viewer-admin :
    (s : String) → ProjectRole.role_eq (role_or_viewer s) ProjectRole.admin ≡ str_eq s "admin"
unfolding ProjectRole.parse
role_or_viewer-admin s = ground (arith, eq_iff s "admin", eq_iff s "editor", eq_iff s "viewer")

as_str-admin :
    (r : ProjectRole)
    → str_eq (ProjectRole.as_str r) "admin" ≡ ProjectRole.role_eq r ProjectRole.admin
unfolding ProjectRole.as_str
as_str-admin ProjectRole.admin = refl
as_str-admin ProjectRole.editor = refl
as_str-admin ProjectRole.viewer = refl

-- The two properties of the membership table.
pub record IsManaged (q : String) (rows : List ProjectMemberRow) : Type 0 where
  pub unique : IsUniqueMembers rows
  pub has_admin : 1 ≤ count_if (is_admin_row q) rows

module _ (db : Db) (project_id target q : String) where
  abbrev rows : List ProjectMemberRow
  rows = db.project_members

  set_role-IsManaged :
      (new : ProjectRole) (r : ProjectMemberRow)
      → first (is_member_row target project_id) rows ≡ some r
      → (ProjectRole.role_eq (role_or_viewer r.project_role) ProjectRole.admin ≡ true
          → ProjectRole.role_eq new ProjectRole.admin ≡ false
          → leb (count_admins db project_id) 1 ≡ false)
      → IsManaged q rows
      → IsManaged q (update_where (is_member_row target project_id) (set_role new) rows)
  unfolding count_admins
  set_role-IsManaged new r found guarded h = record {
    unique = IsUniqueMembers-set_role rows target project_id new h.unique;
    has_admin = ground (
      arith,
      h.has_admin,
      count-set_role rows target project_id q new r h.unique found,
      role_or_viewer-admin r.project_role,
      as_str-admin new,
      guarded,
      first-in_project rows target project_id r found,
      eq_iff r.project_id q,
      eq_iff project_id q,
    );
  }

  remove-IsManaged-rows :
      (r : ProjectMemberRow)
      → first (is_member_row target project_id) rows ≡ some r
      → (ProjectRole.role_eq (role_or_viewer r.project_role) ProjectRole.admin ≡ true
          → leb (count_admins db project_id) 1 ≡ false)
      → IsManaged q rows
      → IsManaged q (keep (λ row. not (is_member_row target project_id row)) rows)
  unfolding count_admins
  remove-IsManaged-rows r found guarded h = record {
    unique = IsUniqueMembers-keep rows (λ row. not (is_member_row target project_id row)) h.unique;
    has_admin = ground (
      arith,
      h.has_admin,
      count-remove rows target project_id q r h.unique found,
      role_or_viewer-admin r.project_role,
      guarded,
      first-in_project rows target project_id r found,
      eq_iff r.project_id q,
    );
  }

pub current_role-eq-ok :
    (project_id target s : String) (db : Db)
    → current_role project_id target db ≡ ok s
    → (r : ProjectMemberRow) × (first (is_member_row target project_id) db.project_members ≡ some r)
      × (s ≡ r.project_role)
unfolding current_role
current_role-eq-ok project_id target s db h =
    elim (Option-cases (first (is_member_row target project_id) db.project_members)) [
      | inl e ↦ ground arith
      | inr (r, e) ↦ (r, e, ground arith)
    ]

abbrev pub IsManagedIn : String → Db → Type 0
IsManagedIn q db = IsManaged q db.project_members

-- If no member has two rows in a project and project q has a Project Admin, both still hold after
-- `update_role`, whatever the actor, the member, the project and the outcome.
pub update_role-IsManaged :
    (actor : AuthUser) (project_id target body q : String) (db : Db)
    → IsManaged q db.project_members
    → IsManaged q (update_role actor project_id target body db).1.project_members
unfolding update_role
update_role-IsManaged actor project_id target body q db h =
    lift-post (IsManagedIn q) db _ _ h λ new e. query-post (IsManagedIn q) db _ _ h λ m _.
      query-post (IsManagedIn q) db _ _ h λ current found.
        query-post (IsManagedIn q) db _ _ h λ _ passed.
          let (r, first_row, same) = current_role-eq-ok project_id target current db found in
          modify-post (IsManagedIn q) db _ _ (
            log-post (IsManagedIn q) _ _ _ _ _ (
              set_role-IsManaged db project_id target q new r first_row
                (λ is_admin demoted. ground arith) h))

-- If no member has two rows in a project and project q has a Project Admin, both still hold after
-- `remove`, whatever the actor, the member, the project and the outcome.
pub remove-IsManaged :
    (actor : AuthUser) (project_id target q : String) (db : Db)
    → IsManaged q db.project_members
    → IsManaged q (remove actor project_id target db).1.project_members
unfolding remove
remove-IsManaged actor project_id target q db h = query-post (IsManagedIn q) db _ _ h λ m _.
    query-post (IsManagedIn q) db _ _ h λ current found.
      query-post (IsManagedIn q) db _ _ h λ _ passed.
        let (r, first_row, same) = current_role-eq-ok project_id target current db found in
        modify-post (IsManagedIn q) db _ _ (
          log-post (IsManagedIn q) _ _ _ _ _
            (remove-IsManaged-rows db project_id target q r first_row (λ is_admin. ground arith) h))
