-- ===== src/Api/Users/Checks.antt =====
-- crates/pier-core/src/api/users.rs: the requests, and the checks and queries of the handlers.
use pier.Base.{
  ℕ, String, Text, Bool, not, ◌&&◌, ◌||◌, Option, none, some, [], ◌∷◌, ◌++◌, leb, ltb,
  if◌then◌else◌, str_eq, text_eq, first, any, count_if, unwrap_or, is_some, is_empty, contains_char,
  Result, ok, err, ok_or, AppError, bad_request, not_found, conflict, forbidden, database, ℤ, pos,
  negsuc,
}
use pier.Db.{Db, User, ApiToken, UserInvitation}
use pier.Rbac.GlobalRole
use pier.Rbac.GlobalRole.{GlobalRole}
use pier.Rbac.Policy.{AuthUser}

pub record InviteRequest : Type 0 where
  pub email : Text
  pub global_role : Option String
  pub ttl_hours : Option ℤ

pub record UpdateUserRequest : Type 0 where
  pub username : Option String
  pub email : Option Text
  pub is_active : Option Bool

-- `global_role = 'owner' AND is_active = 1`
abbrev pub is_active_owner : User → Bool
is_active_owner u = str_eq u.global_role "owner" && u.is_active

unfoldable pub count_owners : Db → ℕ
count_owners db = count_if is_active_owner db.users

abbrev pub has_id : String → User → Bool
has_id uid u = str_eq u.id uid

abbrev role_text : Option User → Option String
role_text none = none
role_text (some u) = some u.global_role

-- the stored role of a user, or 404
unfoldable pub target_role : String → Db → Result AppError String
target_role target db =
    ok_or (role_text (first (has_id target) db.users)) (not_found "errors.users.user_not_found")

abbrev pub role_or_user : String → GlobalRole
role_or_user s = unwrap_or (GlobalRole.parse s) GlobalRole.user

abbrev pub is_owner : GlobalRole → Bool
is_owner r = GlobalRole.role_eq r GlobalRole.owner

-- The role that an invitation gives: never owner.
unfoldable pub default_global_role : Option String → Result AppError String
default_global_role none = ok "user"
default_global_role (some s) =
    if str_eq s "user"
    then ok "user"
    else if str_eq s "admin"
    then ok "admin"
    else if str_eq s "owner"
    then err (bad_request "errors.users.owner_role_not_via_invitation")
    else err (bad_request "errors.users.unknown_role")

-- `.unwrap_or(48).clamp(1, 168)`
abbrev clamp_hours : ℤ → ℕ
clamp_hours (pos n) = if ltb n 1 then 1 else if ltb 168 n then 168 else n
clamp_hours (negsuc n) = 1

unfoldable pub ttl_hours : Option ℤ → ℕ
ttl_hours o = clamp_hours (unwrap_or o (pos 48))

-- an invitation of the address that is neither accepted nor expired
abbrev pub is_open : Text → ℕ → UserInvitation → Bool
is_open email now i = text_eq i.email email && not (is_some i.accepted_at) && ltb now i.expires_at

-- `INSERT INTO user_invitations`: the id and the hash are unique, and the inviter is a user.
unfoldable pub insert_invitation : UserInvitation → Db → Result AppError (Unit {0}) × Db
insert_invitation i db =
    if any (λ old. str_eq old.id i.id || str_eq old.invite_token_hash i.invite_token_hash)
      db.user_invitations
    then (err database, db)
    else if any (has_id (unwrap_or i.invited_by "")) db.users
    then (ok tt, record db { user_invitations = db.user_invitations ++ i ∷ [] })
    else (err database, db)

-- `target_id == actor.id`
unfoldable pub self_guard : AuthUser → String → String → Result AppError (Unit {0})
self_guard actor target key = if str_eq target actor.id then err (bad_request key) else ok tt

-- the check of `update` on the target's role
unfoldable pub edit_guard : AuthUser → GlobalRole → Result AppError (Unit {0})
edit_guard actor role =
    if is_owner role && not (is_owner actor.global_role)
    then err (forbidden "errors.users.only_owner_can_edit_owner")
    else ok tt

-- the check of `change_role` on the target's role
unfoldable pub may_demote : GlobalRole → Db → Result AppError (Unit {0})
may_demote current db =
    if is_owner current && leb (count_owners db) 1
    then err (conflict "errors.users.cannot_demote_last_owner")
    else ok tt

-- the checks of `invite`
unfoldable pub email_guard : Text → Result AppError (Unit {0})
email_guard email =
    if is_empty email || not (contains_char b'@' email)
    then err (bad_request "errors.users.valid_email_required")
    else ok tt

unfoldable pub admin_guard : AuthUser → String → Result AppError (Unit {0})
admin_guard actor role =
    if str_eq role "admin" && not (is_owner actor.global_role)
    then err (forbidden "errors.users.only_owner_can_invite_admins")
    else ok tt

unfoldable pub open_guard : Text → ℕ → Db → Result AppError (Unit {0})
open_guard email now db =
    if any (is_open email now) db.user_invitations
    then err (conflict "errors.users.active_invitation_exists")
    else ok tt

-- a token of the user that is not revoked yet
abbrev pub is_live_token : String → ApiToken → Bool
is_live_token target t = str_eq t.user_id target && not (is_some t.revoked_at)

-- the checks of `remove` on the target's role
unfoldable pub may_delete : AuthUser → GlobalRole → Db → Result AppError (Unit {0})
may_delete actor GlobalRole.owner db =
    if leb (count_owners db) 1
    then err (conflict "errors.users.cannot_delete_last_owner")
    else if not (is_owner actor.global_role)
    then err (forbidden "errors.users.only_owner_can_delete_owner")
    else ok tt
may_delete actor GlobalRole.admin db =
    if not (is_owner actor.global_role)
    then err (forbidden "errors.users.only_owner_can_delete_admins")
    else ok tt
may_delete actor GlobalRole.user db = ok tt
