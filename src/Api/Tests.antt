-- ===== src/Api/Tests.antt =====
-- A database with two administrators and a member, on which the handlers run.
use pier.Base.{
  ◌⊎◌, arith, to_ascii_lowercase, trim, true, false, none, some, [], ◌∷◌, ◌++◌, ◌≡◌, refl, codes,
  is_ok, pos, any,
}
use pier.Db.{Db, User, ProjectMemberRow, UserInvitation}
use pier.Rbac.GlobalRole
use pier.Rbac.GlobalRole.{GlobalRole}
use pier.Rbac.ProjectRole
use pier.Rbac.ProjectRole.{ProjectRole}
use pier.Rbac.Membership.{role_for, count_admins, project_for_resource}
use pier.Rbac.Policy.{AuthUser, view_project, edit_project, admin_project, can}
use pier.Rbac.Guards.{ProjectMembership, enforce_project_role, enforce_resource_role}
use pier.Rbac.Agreement.{can-enforce_project_role, enforce_resource_role_sound}
use pier.Api.Handler.{◌>>=◌}
use pier.Api.Handler.Post.{IsAtomic}
use pier.Api.Members
use pier.Api.Members.{AddMemberRequest, add, update_role}
use pier.Api.Members.LastAdmin.{IsManaged}
use pier.Api.Members.Contract.{members-IsAtomic, members_authorised}
use pier.Api.Users
use pier.Api.Users.{
  InviteRequest, UpdateUserRequest, invite, update, change_role, is_open, is_owner, is_active_owner,
}
use pier.Api.Users.Owners.{IsOwned}
use pier.Api.History.{
  MembersHistory-IsManaged, UsersHistory-IsOwned, start, then, start_users, then_users,
  updates_role, removes, changes_role, updates,
}
use pier.Api.Users.Access.{
  HasNoAccess, IsProper, update_revokes, remove_strands_project, invite-IsProper,
}

abbrev owner_row : User
owner_row = record {
  id = "o";
  username = "olga";
  email = codes "olga@example.com";
  global_role = "owner";
  is_active = true;
  updated_at = 0;
}

abbrev user_row : User
user_row = record {
  id = "u";
  username = "uwe";
  email = codes "uwe@example.com";
  global_role = "user";
  is_active = true;
  updated_at = 0;
}

abbrev u_admin : ProjectMemberRow
u_admin = record {
  id = "m1";
  project_id = "p";
  user_id = "u";
  project_role = "admin";
  added_by = none;
}

abbrev o_viewer : ProjectMemberRow
o_viewer = record {
  id = "m2";
  project_id = "p";
  user_id = "o";
  project_role = "viewer";
  added_by = some "u";
}

abbrev db : Db
db = record {
  users = owner_row ∷ user_row ∷ [];
  projects = "p" ∷ [];
  project_members = u_admin ∷ o_viewer ∷ [];
  services = record { id = "s"; project_id = some "p" } ∷ [];
  sessions = record { id = "cookie"; user_id = "u" } ∷ [];
  api_tokens = record { id = "t"; user_id = "u"; revoked_at = none } ∷ [];
  user_invitations = [];
  auth_events = [];
}

abbrev olga : AuthUser
olga = record {
  id = "o";
  username = "olga";
  role = "admin";
  global_role = GlobalRole.owner;
  session_id = "x";
  is_peer = false;
}

abbrev uwe : AuthUser
uwe = record {
  id = "u";
  username = "uwe";
  role = "user";
  global_role = GlobalRole.user;
  session_id = "y";
  is_peer = false;
}

can-enforce_project_role_example :
    (can uwe (view_project "p") db ≡ is_ok (enforce_project_role uwe "p" ProjectRole.viewer db))
    × (can uwe (edit_project "p") db ≡ is_ok (enforce_project_role uwe "p" ProjectRole.editor db))
    × (can uwe (admin_project "p") db ≡ is_ok (enforce_project_role uwe "p" ProjectRole.admin db))
can-enforce_project_role_example = can-enforce_project_role uwe "p" db

abbrev uwe_membership : ProjectMembership
uwe_membership = record {
  project_id = "p";
  user_id = "u";
  role = ProjectRole.admin;
  via_global_admin = false;
}

enforce_resource_role_sound_example :
    (uwe_membership.via_global_admin ≡ true)
      × ((uwe.is_peer ≡ true) ⊎ (GlobalRole.at_least uwe.global_role GlobalRole.admin ≡ true))
    ⊎ (uwe_membership.via_global_admin ≡ false)
      × (project_for_resource db "s" ≡ some uwe_membership.project_id)
      × (role_for db uwe.id uwe_membership.project_id ≡ some uwe_membership.role)
      × (ProjectRole.at_least uwe_membership.role ProjectRole.editor ≡ true)
unfolding enforce_resource_role role_for ProjectRole.at_least ProjectRole.parse GlobalRole.at_least
    project_for_resource
enforce_resource_role_sound_example =
    enforce_resource_role_sound uwe "s" ProjectRole.editor db uwe_membership refl

db-IsManaged : IsManaged "p" db.project_members
db-IsManaged = record { unique = (refl, (refl, tt)); has_admin = ground arith }

abbrev new_member : AddMemberRequest
new_member = record { user_id = some "o"; email = none; project_role = "editor" }

members-IsAtomic_example :
    IsAtomic (add uwe "p" new_member "m3")
    × IsAtomic (update_role uwe "p" "o" "editor")
    × IsAtomic (Members.remove uwe "p" "o")
members-IsAtomic_example = members-IsAtomic uwe "p" "o" "editor" "m3" new_member

members_authorised_example :
    (is_ok (add uwe "p" new_member "m3" db).0 ≡ true → can uwe (admin_project "p") db ≡ true)
    × (is_ok (update_role uwe "p" "o" "editor" db).0 ≡ true → can uwe (admin_project "p") db ≡ true)
    × (is_ok (Members.remove uwe "p" "o" db).0 ≡ true → can uwe (admin_project "p") db ≡ true)
members_authorised_example = members_authorised uwe "p" "o" "editor" "m3" new_member db

abbrev db_without_o : Db
db_without_o = record db { project_members = u_admin ∷ [] }

db-IsOwned : IsOwned db.users
db-IsOwned = record { unique = (refl, (refl, tt)); has_owner = ground arith }

MembersHistory-IsManaged_example :
    IsManaged "p"
      (Members.remove olga "p" "o" (update_role olga "p" "u" "viewer" db).1).1.project_members
MembersHistory-IsManaged_example =
    MembersHistory-IsManaged "p" db
      (Members.remove olga "p" "o" (update_role olga "p" "u" "viewer" db).1).1
      (then (then (start db) (updates_role olga "p" "u" "viewer")) (removes olga "p" "o"))
      db-IsManaged

abbrev deactivate : UpdateUserRequest
deactivate = record { username = none; email = none; is_active = some false }

UsersHistory-IsOwned_example :
    IsOwned (update 6 olga "u" deactivate (change_role 5 olga "o" "user" db).1).1.users
unfolding change_role ◌>>=◌ GlobalRole.parse Users.reassign Users.count_owners
UsersHistory-IsOwned_example =
    UsersHistory-IsOwned db (update 6 olga "u" deactivate (change_role 5 olga "o" "user" db).1).1
      (then_users (then_users (start_users db) (changes_role 5 olga "o" "user"))
        (updates 6 olga "u" deactivate λ _. (owner_row, refl, refl)))
      db-IsOwned

update_revokes_example : HasNoAccess "u" (update 5 olga "u" deactivate db).1
unfolding update ◌>>=◌ Users.self_guard Users.target_role Users.edit_guard Users.writes
    GlobalRole.parse Users.set_username Users.set_email
update_revokes_example = update_revokes 5 olga "u" deactivate db tt refl refl

remove_strands_project_example : count_admins (Users.remove olga "u" db).1 "p" ≡ 0
unfolding Users.remove ◌>>=◌ Users.self_guard Users.target_role Users.may_delete GlobalRole.parse
remove_strands_project_example =
    remove_strands_project olga "u" "p" db tt (λ _. refl, (λ h. cc, tt)) refl

abbrev invitation : InviteRequest
invitation = record {
  email = codes " New@Example.com";
  global_role = some "admin";
  ttl_hours = some (pos 500);
}

invite-IsProper_example :
    (i : UserInvitation) × ((invite 5 olga invitation "hash" "i" db).1.user_invitations
      ≡ [] ++ i ∷ [])
    × IsProper 5 olga i
    × (any (is_open i.email 5) [] ≡ false)
unfolding invite ◌>>=◌ Users.email_guard Users.default_global_role Users.admin_guard
    Users.open_guard Users.insert_invitation Users.ttl_hours to_ascii_lowercase trim
invite-IsProper_example = invite-IsProper 5 olga invitation "hash" "i" db 168 refl
