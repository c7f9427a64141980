-- ===== src/Rbac/Agreement.antt =====
-- The policy and the guards decide the same questions, and both grow with the role.
use pier.Base.{
  ◌↔◌, String, true, false, some, ◌≡◌, refl, ◌⊎◌, Result, ok, err, is_ok, AppError, forbidden,
  arith,
}
use pier.Db.{Db}
use pier.Rbac.GlobalRole
use pier.Rbac.GlobalRole.{GlobalRole}
use pier.Rbac.ProjectRole
use pier.Rbac.ProjectRole.{ProjectRole}
use pier.Rbac.Membership.{role_for, project_for_resource}
use pier.Rbac.Policy.{
  AuthUser, Permission, manage_users, view_project, edit_project, admin_project, can,
}
use pier.Rbac.Guards.{
  ProjectMembership, peer_user, require_global_admin, require_global_owner, enforce_project_role,
  enforce_resource_role,
}

-- For every user, project and database, `can` grants viewing, editing and administering a project
-- exactly when the guard `enforce_project_role` lets the user through at the least role of viewer,
-- editor and admin.
pub can-enforce_project_role :
    (user : AuthUser) (pid : String) (db : Db)
    → (can user (view_project pid) db ≡ is_ok (enforce_project_role user pid ProjectRole.viewer db))
      × (can user (edit_project pid) db
          ≡ is_ok (enforce_project_role user pid ProjectRole.editor db))
      × (can user (admin_project pid) db
          ≡ is_ok (enforce_project_role user pid ProjectRole.admin db))
unfolding can enforce_project_role
can-enforce_project_role user pid db = (ground arith, ground arith, ground arith)

-- A user whose global role is raised, with nothing else changed, keeps every permission; whoever may
-- administer a project may edit it, and whoever may edit it may view it.
pub can_order :
    (user : AuthUser) (g : GlobalRole) (perm : Permission) (pid : String) (db : Db)
    → GlobalRole.at_least g user.global_role ≡ true
    → (can user perm db ≡ true → can (record user { global_role = g }) perm db ≡ true)
      × (can user (admin_project pid) db ≡ true → can user (edit_project pid) db ≡ true)
      × (can user (edit_project pid) db ≡ true → can user (view_project pid) db ≡ true)
unfolding can GlobalRole.at_least ProjectRole.at_least
can_order user g perm pid db up = (λ h. ground arith, λ h. ground arith, λ h. ground arith)

-- What a pass of `enforce_resource_role` means: the user is a peer or a global admin, or the resource
-- is bound to a project in which the user's role is at least the one demanded, and then the returned
-- membership names that project and that role.
pub enforce_resource_role_sound :
    (user : AuthUser) (resource : String) (min : ProjectRole) (db : Db) (m : ProjectMembership)
    → enforce_resource_role user resource min db ≡ ok m
    → (m.via_global_admin ≡ true)
        × ((user.is_peer ≡ true) ⊎ (GlobalRole.at_least user.global_role GlobalRole.admin ≡ true))
      ⊎ (m.via_global_admin ≡ false)
        × (project_for_resource db resource ≡ some m.project_id)
        × (role_for db user.id m.project_id ≡ some m.role)
        × (ProjectRole.at_least m.role min ≡ true)
unfolding enforce_resource_role
enforce_resource_role_sound user resource min db m h = ground arith

-- A request of a live peer grant passes the guard of the routes `/users`, `/users/invite` and
-- `/users/{id}` and reaches the handler, although the policy denies it `manage_users`; the
-- owner-only guard does refuse it.
pub peer-require_global_admin {ℓ} :
    {Response : Type ℓ} (grant_id grant_name : String) (db : Db)
    (next : AuthUser → Result AppError Response)
    → (require_global_admin (some (peer_user grant_id grant_name)) next
        ≡ next (peer_user grant_id grant_name))
      × (can (peer_user grant_id grant_name) manage_users db ≡ false)
      × (require_global_owner (some (peer_user grant_id grant_name)) next
          ≡ err (forbidden "errors.rbac.owner_only_peer_token"))
unfolding require_global_admin require_global_owner can peer_user GlobalRole.at_least
peer-require_global_admin grant_id grant_name db next = (refl, refl, refl)

-- A string parses to a global role exactly when it is the string of that role, and the same holds for
-- project roles.
pub parse_roundtrip :
    (s : String) (g : GlobalRole) (p : ProjectRole)
    → ((GlobalRole.parse s ≡ some g) ↔ (s ≡ GlobalRole.as_str g))
      × ((ProjectRole.parse s ≡ some p) ↔ (s ≡ ProjectRole.as_str p))
parse_roundtrip s g p = (GlobalRole.parse-as_str s g, ProjectRole.parse-as_str s p)
