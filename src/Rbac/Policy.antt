-- ===== src/Rbac/Policy.antt =====
-- crates/pier-core/src/auth/rbac/policy.rs, and `AuthUser` of auth/middleware.rs.
use pier.Base.{String, Bool, true, false, Option, some, none, if◌then◌else◌}
use pier.Db.{Db}
use pier.Rbac.GlobalRole
use pier.Rbac.GlobalRole.{GlobalRole}
use pier.Rbac.ProjectRole
use pier.Rbac.ProjectRole.{ProjectRole}
use pier.Rbac.Membership.{role_for}

pub record AuthUser : Type 0 where
  pub id : String
  pub username : String
  pub role : String
  pub global_role : GlobalRole
  pub session_id : String
  pub is_peer : Bool

pub data Permission : Type 0 where
  manage_users change_global_roles manage_servers view_system create_projects : Permission
  view_project edit_project admin_project : String → Permission
  manage_federation : Permission

-- `.map(|r| r.at_least(min)).unwrap_or(false)`
abbrev pub role_reaches : Option ProjectRole → ProjectRole → Bool
role_reaches none min = false
role_reaches (some r) min = ProjectRole.at_least r min

-- the arms of the three project permissions
abbrev can_in_project : AuthUser → String → ProjectRole → Db → Bool
can_in_project user pid min db =
    if GlobalRole.at_least user.global_role GlobalRole.admin
    then true
    else role_reaches (role_for db user.id pid) min

abbrev peer_can : Permission → Bool
peer_can view_system = true
peer_can (view_project _) = true
peer_can (edit_project _) = true
peer_can (admin_project _) = true
peer_can create_projects = true
peer_can manage_servers = true
peer_can _ = false

abbrev user_can : AuthUser → Permission → Db → Bool
user_can user change_global_roles db = GlobalRole.role_eq user.global_role GlobalRole.owner
user_can user manage_federation db = GlobalRole.role_eq user.global_role GlobalRole.owner
user_can user manage_users db = GlobalRole.at_least user.global_role GlobalRole.admin
user_can user manage_servers db = GlobalRole.at_least user.global_role GlobalRole.admin
user_can user view_system db = GlobalRole.at_least user.global_role GlobalRole.admin
user_can user create_projects db = GlobalRole.at_least user.global_role GlobalRole.admin
user_can user (view_project pid) db = can_in_project user pid ProjectRole.viewer db
user_can user (edit_project pid) db = can_in_project user pid ProjectRole.editor db
user_can user (admin_project pid) db = can_in_project user pid ProjectRole.admin db

unfoldable pub can : AuthUser → Permission → Db → Bool
can user perm db = if user.is_peer then peer_can perm else user_can user perm db
