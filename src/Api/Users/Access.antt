-- ===== src/Api/Users/Access.antt =====
-- What a deactivated or deleted user leaves behind, and what an invitation can give.
use pier.Base.{
  ℕ, ◌+◌, ◌*◌, ◌≤◌, String, ◌≡◌, refl, true, false, not, ◌⊎◌, Option, none, some, List, [], ◌∷◌,
  ◌++◌, str_eq, eq_iff, any, keep, count_if, update_where, arith, ok, map, All, contains_char,
}
use pier.Base.{to_ascii_lowercase, trim, ℤ, pos, negsuc}
use pier.Db.{Db, ApiToken, ProjectMemberRow, UserInvitation}
use pier.Db.Rows.{any-keep-not}
use pier.Rbac.Policy.{AuthUser}
use pier.Rbac.Membership.{is_admin_row, count_admins}
use pier.Api.Handler.Post.{
  lift-Ensures, query-Ensures, bind-Ensures, modify-Ensures, log-Ensures, modify-log-Ensures,
}
use pier.Api.Users.{
  InviteRequest, UpdateUserRequest, is_owner, is_live_token, set_active, update, delete_user,
  remove, forget, role_or_user, may_delete, is_open, insert_invitation, default_global_role,
  ttl_hours, invite, email_guard, admin_guard, open_guard, new_invitation,
}

any-live-revoke :
    (now : ℕ) (target : String) (ts : List ApiToken)
    → any
        (is_live_token target)
        (update_where (is_live_token target) (λ t. record t { revoked_at = some now }) ts)
      ≡ false
any-live-revoke now target [] = refl
any-live-revoke now target (t ∷ ts) = ground (arith, any-live-revoke now target ts)

-- The target has no session and no live API token.
abbrev pub HasNoAccess : String → Db → Type 0
HasNoAccess target db =
    (any (λ s. str_eq s.user_id target) db.sessions ≡ false)
    × (any (is_live_token target) db.api_tokens ≡ false)

set_active-HasNoAccess :
    (now : ℕ) (target : String) (db : Db)
    → HasNoAccess target (set_active now target (some false) db)
unfolding set_active
set_active-HasNoAccess now target db = (
  any-keep-not (λ s. str_eq s.user_id target) db.sessions,
  any-live-revoke now target db.api_tokens,
)

-- After a successful `update` that deactivates a user, the user has no session and no API token that
-- is not revoked.
pub update_revokes :
    (now : ℕ) (actor : AuthUser) (target : String) (body : UpdateUserRequest) (db : Db)
    (u : Unit {0})
    → body.is_active ≡ some false
    → (update now actor target body db).0 ≡ ok u
    → HasNoAccess target (update now actor target body db).1
unfolding update
update_revokes now actor target body db u off h =
    (lift-Ensures {A = Unit {0}} (HasNoAccess target) db _ _ λ _ _.
        query-Ensures {A = String} (HasNoAccess target) db _ _ λ role _.
          lift-Ensures {A = Unit {0}} (HasNoAccess target) db _ _ λ _ _.
            bind-Ensures (HasNoAccess target) db _ _ λ _ _.
              bind-Ensures (HasNoAccess target) _ _ _ λ _ _.
                modify-Ensures (HasNoAccess target) _ _ _
                  (rw off (set_active-HasNoAccess now target _))).at
      u h

-- Every Project Admin of the project is the target.
abbrev pub IsOnlyAdmin : String → String → List ProjectMemberRow → Type 0
IsOnlyAdmin target project_id =
    All (λ m. is_admin_row project_id m ≡ true → str_eq m.user_id target ≡ true)

count-delete_only_admin :
    (target project_id : String) (rows : List ProjectMemberRow)
    → IsOnlyAdmin target project_id rows
    → count_if (is_admin_row project_id) (
        map
          (λ (m : ProjectMemberRow). record m { added_by = forget target m.added_by })
          (keep (λ m. not (str_eq m.user_id target)) rows))
      ≡ 0
count-delete_only_admin target project_id [] only = refl
count-delete_only_admin target project_id (x ∷ xs) (here, only) =
    ground (arith, count-delete_only_admin target project_id xs only)

-- A successful `remove` of a user who is the only Project Admin of a project leaves the project
-- without a Project Admin.
pub remove_strands_project :
    (actor : AuthUser) (target project_id : String) (db : Db) (u : Unit {0})
    → IsOnlyAdmin target project_id db.project_members
    → (remove actor target db).0 ≡ ok u
    → count_admins (remove actor target db).1 project_id ≡ 0
unfolding remove delete_user count_admins
remove_strands_project actor target project_id db u only h =
    (lift-Ensures {A = Unit {0}} (λ d. count_if (is_admin_row project_id) d.project_members ≡ 0) db
        _ _
        λ _ _. query-Ensures {A = String} _ db _ _ λ role _.
          query-Ensures {A = Unit {0}} _ db (may_delete actor (role_or_user role)) _ λ _ _.
            modify-log-Ensures _ db (delete_user target) _ _ _ _
              (count-delete_only_admin target project_id db.project_members only)).at
      u h

-- What an invitation may be, in the eyes of the inviter.
pub record IsProper (now : ℕ) (actor : AuthUser) (i : UserInvitation) : Type 0 where
  pub role :
      (i.default_global_role ≡ "user")
      ⊎ (i.default_global_role ≡ "admin") × (is_owner actor.global_role ≡ true)
  pub not_early : now + 3600 ≤ i.expires_at
  pub not_late : i.expires_at ≤ now + 168 * 3600
  pub address : contains_char b'@' i.email ≡ true
  pub inviter : i.invited_by ≡ some actor.id

-- The table has grown by one proper invitation.
abbrev IsExtended : ℕ → AuthUser → Db → Db → Type 0
IsExtended now actor db s =
    (i : UserInvitation) × (s.user_invitations ≡ db.user_invitations ++ i ∷ [])
    × IsProper now actor i
    × (any (is_open i.email now) db.user_invitations ≡ false)

insert_invitation-ok :
    (i : UserInvitation) (db : Db) (u : Unit {0})
    → (insert_invitation i db).0 ≡ ok u
    → (insert_invitation i db).1.user_invitations ≡ db.user_invitations ++ i ∷ []
unfolding insert_invitation
insert_invitation-ok i db u h = ground arith

ttl_hours_bounds : (o : Option ℤ) → (1 ≤ ttl_hours o) × (ttl_hours o ≤ 168)
unfolding ttl_hours
ttl_hours_bounds none = omega arith
ttl_hours_bounds (some (pos n)) = ground arith
ttl_hours_bounds (some (negsuc n)) = omega arith

default_global_role-cases :
    (o : Option String) (role : String)
    → default_global_role o ≡ ok role
    → (role ≡ "user") ⊎ (role ≡ "admin")
unfolding default_global_role
default_global_role-cases none role h = ground arith
default_global_role-cases (some s) role h = ground arith

guards-IsProper :
    (now : ℕ) (actor : AuthUser) (body : InviteRequest) (hash id role : String) (db : Db)
    (u v w : Unit {0})
    → email_guard (to_ascii_lowercase (trim body.email)) ≡ ok u
    → default_global_role body.global_role ≡ ok role
    → admin_guard actor role ≡ ok v
    → open_guard (to_ascii_lowercase (trim body.email)) now db ≡ ok w
    → IsProper now actor (new_invitation now actor body hash id role)
      × (any (is_open (to_ascii_lowercase (trim body.email)) now) db.user_invitations ≡ false)
unfolding email_guard admin_guard open_guard
guards-IsProper now actor body hash id role db u v w addressed given admin unopened = (
  record {
    role = ground (
      arith,
      default_global_role-cases body.global_role role given,
      eq_iff role "admin",
      eq_iff role "user",
    );
    not_early = omega (arith, ttl_hours_bounds body.ttl_hours);
    not_late = omega (arith, ttl_hours_bounds body.ttl_hours);
    address = ground arith;
    inviter = refl;
  },
  ground arith,
)

-- A successful `invite` adds exactly one invitation. Its role is user, or admin if the inviter is an
-- owner; it expires between one hour and 168 hours from now; its address holds an `@`; it names the
-- inviter; and there was no open invitation of that address.
pub invite-IsProper :
    (now : ℕ) (actor : AuthUser) (body : InviteRequest) (hash id : String) (db : Db) (hours : ℕ)
    → (invite now actor body hash id db).0 ≡ ok hours
    → (i : UserInvitation) × ((invite now actor body hash id db).1.user_invitations
        ≡ db.user_invitations ++ i ∷ [])
      × IsProper now actor i
      × (any (is_open i.email now) db.user_invitations ≡ false)
unfolding invite
invite-IsProper now actor body hash id db hours h =
    (lift-Ensures {A = Unit {0}} (IsExtended now actor db) db
        (email_guard (to_ascii_lowercase (trim body.email))) _
        λ u addressed.
          lift-Ensures {A = String} _ db (default_global_role body.global_role) _ λ role given.
            lift-Ensures {A = Unit {0}} _ db (admin_guard actor role) _ λ v admin.
              query-Ensures {A = Unit {0}} _ db
                (open_guard (to_ascii_lowercase (trim body.email)) now) _
                λ w unopened.
                  bind-Ensures {A = Unit {0}} _ db
                    (insert_invitation (new_invitation now actor body hash id role)) _
                    λ x inserted.
                      let (proper, unique) =
                        guards-IsProper now actor body hash id role db u v w addressed given admin
                          unopened in
                      log-Ensures _ _ _ _ _ _ (
                        new_invitation now actor body hash id role,
                        insert_invitation-ok _ db x inserted,
                        proper,
                        unique,
                      )).at
      hours h
