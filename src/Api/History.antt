-- ===== src/Api/History.antt =====
-- Sequences of the handlers of crates/pier-core/src/api/project_members.rs and api/users.rs, by any
-- actors and whatever their outcomes.
use pier.Base.{ℕ, String, true, some, ◌≡◌, first}
use pier.Db.{Db, User}
use pier.Rbac.Policy.{AuthUser}
use pier.Api.Members
use pier.Api.Members.{AddMemberRequest, add, update_role}
use pier.Api.Members.LastAdmin.{IsManaged, update_role-IsManaged, remove-IsManaged}
use pier.Api.Members.Contract.{add-IsManaged}
use pier.Api.Users
use pier.Api.Users.{
  InviteRequest, UpdateUserRequest, invite, update, change_role, is_owner, is_active_owner, has_id,
}
use pier.Api.Users.Owners.{IsOwned, change_role-IsOwned, remove-IsOwned}
use pier.Api.Users.Offboarding.{update-IsOwned}

pub data MembersStep (db : Db) : Db → Type 0 where
  adds :
      (actor : AuthUser) (project_id : String) (request : AddMemberRequest) (member_id : String)
      → MembersStep db (add actor project_id request member_id db).1
  updates_role :
      (actor : AuthUser) (project_id target body : String)
      → MembersStep db (update_role actor project_id target body db).1
  removes :
      (actor : AuthUser) (project_id target : String)
      → MembersStep db (Members.remove actor project_id target db).1

pub data MembersHistory : Db → Db → Type 0 where
  start : (db : Db) → MembersHistory db db
  then : {a b c : Db} → MembersHistory a b → MembersStep b c → MembersHistory a c

MembersStep-IsManaged :
    (q : String) (db new : Db)
    → MembersStep db new
    → IsManaged q db.project_members
    → IsManaged q new.project_members
MembersStep-IsManaged q db new (adds actor project_id request member_id) h =
    add-IsManaged actor project_id member_id q request db h
MembersStep-IsManaged q db new (updates_role actor project_id target body) h =
    update_role-IsManaged actor project_id target body q db h
MembersStep-IsManaged q db new (removes actor project_id target) h =
    remove-IsManaged actor project_id target q db h

-- If no member has two rows in a project and project q has a Project Admin, both hold after every
-- sequence of calls of `add`, `update_role` and `remove`, whatever the actors, the projects, the members
-- and the outcomes.
pub MembersHistory-IsManaged :
    (q : String) (db new : Db)
    → MembersHistory db new
    → IsManaged q db.project_members
    → IsManaged q new.project_members
MembersHistory-IsManaged q db new (start _) h = h
MembersHistory-IsManaged q db new (then {b = b} past s) h =
    MembersStep-IsManaged q b new s (MembersHistory-IsManaged q db b past h)

-- An actor who acts as an owner is an active owner in the database.
abbrev pub IsGenuine : Db → AuthUser → Type 0
IsGenuine db actor =
    is_owner actor.global_role ≡ true
    → (a : User) × (first (has_id actor.id) db.users ≡ some a) × (is_active_owner a ≡ true)

pub data UsersStep (db : Db) : Db → Type 0 where
  changes_role :
      (now : ℕ) (actor : AuthUser) (target body : String)
      → UsersStep db (change_role now actor target body db).1
  removes_user :
      (actor : AuthUser) (target : String) → UsersStep db (Users.remove actor target db).1
  updates :
      (now : ℕ) (actor : AuthUser) (target : String) (body : UpdateUserRequest)
      → IsGenuine db actor
      → UsersStep db (update now actor target body db).1

pub data UsersHistory : Db → Db → Type 0 where
  start_users : (db : Db) → UsersHistory db db
  then_users : {a b c : Db} → UsersHistory a b → UsersStep b c → UsersHistory a c

UsersStep-IsOwned : (db new : Db) → UsersStep db new → IsOwned db.users → IsOwned new.users
UsersStep-IsOwned db new (changes_role now actor target body) h =
    change_role-IsOwned now actor target body db h
UsersStep-IsOwned db new (removes_user actor target) h = remove-IsOwned actor target db h
UsersStep-IsOwned db new (updates now actor target body genuine) h =
    update-IsOwned now actor target body db genuine h

-- If ids are unique and there is an active owner, both hold after every sequence of calls of
-- `change_role`, `remove` and `update`, whatever the actors, the targets and the outcomes, provided that
-- an actor who acts as an owner in an `update` is an active owner in the database at that time.
pub UsersHistory-IsOwned :
    (db new : Db) → UsersHistory db new → IsOwned db.users → IsOwned new.users
UsersHistory-IsOwned db new (start_users _) h = h
UsersHistory-IsOwned db new (then_users {b = b} past s) h =
    UsersStep-IsOwned b new s (UsersHistory-IsOwned db b past h)
