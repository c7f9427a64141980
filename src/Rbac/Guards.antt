-- ===== src/Rbac/Guards.antt =====
-- crates/pier-core/src/auth/rbac/guards.rs, and the peer branch of `require_auth` in
-- auth/middleware.rs. The request is its `AuthUser` extension, and `next` the handler behind the guard.
use pier.Base.{
  String, Bool, true, false, ◌&&◌, ◌||◌, not, Option, if◌then◌else◌, Result, ok, err, ok_or, ◌>>=◌,
  AppError, unauthorized, forbidden,
}
use Prim.Native.String
use pier.Db.{Db}
use pier.Rbac.GlobalRole
use pier.Rbac.GlobalRole.{GlobalRole}
use pier.Rbac.ProjectRole
use pier.Rbac.ProjectRole.{ProjectRole}
use pier.Rbac.Membership.{role_for, project_for_resource}
use pier.Rbac.Policy.{AuthUser}

pub record ProjectMembership : Type 0 where
  pub project_id : String
  pub user_id : String
  pub role : ProjectRole
  pub via_global_admin : Bool

-- the `AuthUser` that a live peer grant puts into the request
unfoldable pub peer_user : String → String → AuthUser
peer_user grant_id grant_name = record {
  id = String.◌++◌ "peer:" grant_id;
  username = String.◌++◌ "peer:" grant_name;
  role = "peer_admin";
  global_role = GlobalRole.admin;
  session_id = "";
  is_peer = true;
}

module _ {ℓ} {Response : Type ℓ} where
  unfoldable pub require_global_role :
      GlobalRole
      → Option AuthUser
      → (AuthUser → Result AppError Response)
      → Result AppError Response
  require_global_role min ext next = do
    user ← ok_or ext unauthorized
    if user.is_peer && GlobalRole.role_eq min GlobalRole.owner
        then err (forbidden "errors.rbac.owner_only_peer_token")
        else if not (GlobalRole.at_least user.global_role min)
        then err (forbidden "errors.rbac.requires_global_role")
        else next user

  unfoldable pub require_global_admin :
      Option AuthUser → (AuthUser → Result AppError Response) → Result AppError Response
  unfolding require_global_role
  require_global_admin = require_global_role GlobalRole.admin

  unfoldable pub require_global_owner :
      Option AuthUser → (AuthUser → Result AppError Response) → Result AppError Response
  unfolding require_global_role
  require_global_owner = require_global_role GlobalRole.owner

  unfoldable pub require_global_user :
      Option AuthUser → (AuthUser → Result AppError Response) → Result AppError Response
  unfolding require_global_role
  require_global_user = require_global_role GlobalRole.user

abbrev bypasses : AuthUser → Bool
bypasses user = user.is_peer || GlobalRole.at_least user.global_role GlobalRole.admin

unfoldable pub enforce_project_role :
    AuthUser → String → ProjectRole → Db → Result AppError ProjectMembership
enforce_project_role user project_id min db =
    if bypasses user
    then ok (record {
      project_id = project_id;
      user_id = user.id;
      role = ProjectRole.admin;
      via_global_admin = true;
    })
    else do
      role ← ok_or (role_for db user.id project_id) (forbidden "errors.rbac.not_project_member")
      if not (ProjectRole.at_least role min)
          then err (forbidden "errors.rbac.requires_project_role")
          else ok (record {
            project_id = project_id;
            user_id = user.id;
            role = role;
            via_global_admin = false;
          })

unfoldable pub enforce_resource_role :
    AuthUser → String → ProjectRole → Db → Result AppError ProjectMembership
unfolding enforce_project_role
enforce_resource_role user resource_id min db =
    if bypasses user
    then ok (record {
      project_id = "";
      user_id = user.id;
      role = ProjectRole.admin;
      via_global_admin = true;
    })
    else do
      project_id ←
          ok_or (project_for_resource db resource_id) (forbidden "errors.rbac.resource_not_bound")
      enforce_project_role user project_id min db
