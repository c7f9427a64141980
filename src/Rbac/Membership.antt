-- ===== src/Rbac/Membership.antt =====
-- crates/pier-core/src/auth/rbac/membership.rs. A query is a function of the table's rows; the rows
-- of `list_for_project` come in the table's order within one role, which is the order of `added_at`.
use pier.Base.{
  ℕ, String, Bool, Option, some, none, List, [], ◌∷◌, ◌++◌, ◌&&◌, str_eq, first, keep, count_if,
}
use pier.Db.{Db, ProjectMemberRow, Service}
use pier.Rbac.ProjectRole
use pier.Rbac.ProjectRole.{ProjectRole}

pub record ProjectMember : Type 0 where
  pub project_id : String
  pub user_id : String
  pub role : ProjectRole

-- `WHERE user_id = ?1 AND project_id = ?2`
abbrev pub is_member_row : String → String → ProjectMemberRow → Bool
is_member_row user_id project_id row =
    str_eq row.user_id user_id && str_eq row.project_id project_id

abbrev role_of_row : Option ProjectMemberRow → Option ProjectRole
role_of_row none = none
role_of_row (some row) = ProjectRole.parse row.project_role

unfoldable pub role_for : Db → String → String → Option ProjectRole
role_for db user_id project_id =
    role_of_row (first (is_member_row user_id project_id) db.project_members)

-- `filter_map` of a parsed role into a member
abbrev add_member : ProjectMemberRow → Option ProjectRole → List ProjectMember → List ProjectMember
add_member row none rest = rest
add_member row (some role) rest =
    record { project_id = row.project_id; user_id = row.user_id; role = role } ∷ rest

abbrev to_members : List ProjectMemberRow → List ProjectMember
to_members [] = []
to_members (row ∷ rows) = add_member row (ProjectRole.parse row.project_role) (to_members rows)

unfoldable pub list_for_user : Db → String → List ProjectMember
list_for_user db user_id = to_members (keep (λ row. str_eq row.user_id user_id) db.project_members)

-- `CASE project_role WHEN 'admin' THEN 0 …` selects the rows of one role after another.
abbrev in_project_as : String → String → ProjectMemberRow → Bool
in_project_as project_id role row = str_eq row.project_id project_id && str_eq row.project_role role

unfoldable pub list_for_project : Db → String → List ProjectMember
list_for_project db project_id = to_members (
    keep (in_project_as project_id "admin") db.project_members
    ++ (keep (in_project_as project_id "editor") db.project_members
        ++ keep (in_project_as project_id "viewer") db.project_members))

abbrev pub is_admin_row : String → ProjectMemberRow → Bool
is_admin_row project_id row = str_eq row.project_id project_id && str_eq row.project_role "admin"

unfoldable pub count_admins : Db → String → ℕ
count_admins db project_id = count_if (is_admin_row project_id) db.project_members

abbrev project_of_row : Option Service → Option String
project_of_row none = none
project_of_row (some row) = row.project_id

unfoldable pub project_for_resource : Db → String → Option String
project_for_resource db resource_id =
    project_of_row (first (λ row. str_eq row.id resource_id) db.services)
