-- ===== src/Api/Users.antt =====
-- crates/pier-core/src/api/users.rs: `invite`, `update`, `remove` and `change_role`. The clock is
-- `now`, in seconds; the token, its hash and the UUID come as arguments.
mod Checks
pub mod Counting
pub mod Owners
pub mod Offboarding
pub mod Access
unfoldable pub use Checks.*
use pier.Base.{
  ℕ, ◌+◌, ◌*◌, String, Text, Bool, true, false, not, ◌&&◌, ◌||◌, Option, none, some, [], ◌∷◌, ◌++◌,
  leb, ltb, if◌then◌else◌, str_eq, text_eq, first, any, keep, update_where, count_if, unwrap_or,
  is_some, is_empty, trim, contains_char, to_ascii_lowercase, Result, ok, err, ok_or, AppError,
  bad_request, not_found, conflict, forbidden, database, ℤ, pos, negsuc, map,
}
use pier.Db.{
  Db, User, ApiToken, UserInvitation, ProjectMemberRow, user_invited, user_deleted,
  user_role_changed,
}
use pier.Api.Handler.{Handler, ◌>>=◌, ◌>>◌, pure, lift, query, modify, log}
use pier.Rbac.GlobalRole
use pier.Rbac.GlobalRole.{GlobalRole}
use pier.Rbac.Policy.{AuthUser}

module _ (now : ℕ) where
  -- the row that `invite` inserts
  abbrev pub new_invitation : AuthUser → InviteRequest → String → String → String → UserInvitation
  new_invitation actor body token_hash id role = record {
    id = id;
    email = to_ascii_lowercase (trim body.email);
    invite_token_hash = token_hash;
    default_global_role = role;
    invited_by = some actor.id;
    expires_at = now + ttl_hours body.ttl_hours * 3600;
    accepted_at = none;
  }

  unfoldable pub invite : AuthUser → InviteRequest → String → String → Handler ℕ
  unfolding default_global_role email_guard admin_guard open_guard
  invite actor body token_hash id = do
    let email = to_ascii_lowercase (trim body.email)
    lift (email_guard email)
    role ← lift (default_global_role body.global_role)
    lift (admin_guard actor role)
    query (open_guard email now)
    insert_invitation (new_invitation actor body token_hash id role)
    log user_invited actor.id (("invite_id", id) ∷ ("default_global_role", role) ∷ [])
    pure (ttl_hours body.ttl_hours)

  abbrev set_user : String → (User → User) → Db → Db
  set_user target f db = record db {
    users = update_where (has_id target) (λ u. record (f u) { updated_at = now }) db.users;
  }

  -- `UPDATE users SET username = …`, where usernames are unique
  unfoldable pub set_username : String → Option String → Db → Result AppError (Unit {0}) × Db
  set_username target none db = (ok tt, db)
  set_username target (some username) db =
      if any (λ u. str_eq u.username username && not (has_id target u)) db.users
      then (err database, db)
      else (ok tt, set_user target (λ u. record u { username = username }) db)

  -- `UPDATE users SET email = …`, where addresses are unique
  unfoldable pub set_email : String → Option Text → Db → Result AppError (Unit {0}) × Db
  set_email target none db = (ok tt, db)
  set_email target (some email) db =
      if any (λ u. text_eq u.email (to_ascii_lowercase email) && not (has_id target u)) db.users
      then (err database, db)
      else (ok tt, set_user target (λ u. record u { email = to_ascii_lowercase email }) db)

  abbrev revoke : ApiToken → ApiToken
  revoke t = record t { revoked_at = some now }

  -- `UPDATE users SET is_active = …`, and the offboarding of a deactivated user
  unfoldable pub set_active : String → Option Bool → Db → Db
  set_active target none db = db
  set_active target (some true) db = set_user target (λ u. record u { is_active = true }) db
  set_active target (some false) db =
      record (set_user target (λ u. record u { is_active = false }) db) {
        sessions = keep (λ s. not (str_eq s.user_id target)) db.sessions;
        api_tokens = update_where (is_live_token target) revoke db.api_tokens;
      }

  -- the statements of `update`, each for a field that the request names
  unfoldable pub writes : String → UpdateUserRequest → Handler (Unit {0})
  writes target body = do
    set_username target body.username
    set_email target body.email
    modify (set_active target body.is_active)
    pure tt

  unfoldable pub update : AuthUser → String → UpdateUserRequest → Handler (Unit {0})
  unfolding target_role self_guard edit_guard writes
  update actor target body = do
    lift (self_guard actor target "errors.users.use_account_endpoints")
    role ← query (target_role target)
    lift (edit_guard actor (role_or_user role))
    writes target body

  -- `change_role` where the new role differs from the current one
  unfoldable pub reassign :
      AuthUser → String → GlobalRole → GlobalRole → Handler (Option GlobalRole)
  unfolding may_demote
  reassign actor target current new_role = do
    query (may_demote current)
    modify (set_user target (λ u. record u { global_role = GlobalRole.as_str new_role }))
    log user_role_changed actor.id (
        ("target_id", target)
        ∷ ("from", GlobalRole.as_str current)
        ∷ ("to", GlobalRole.as_str new_role)
        ∷ [])
    pure (some new_role)

  unfoldable pub change_role : AuthUser → String → String → Handler (Option GlobalRole)
  unfolding target_role
  change_role actor target body_role = do
    new_role ← lift (ok_or (GlobalRole.parse body_role) (bad_request "errors.users.unknown_role"))
    current_s ← query (target_role target)
    let current = role_or_user current_s
    if GlobalRole.role_eq current new_role
        then pure none
        else reassign actor target current new_role

-- `ON DELETE SET NULL`
abbrev pub forget : String → Option String → Option String
forget target none = none
forget target (some u) = if str_eq u target then none else some u

-- `DELETE FROM users WHERE id = ?1`, with what the foreign keys do to the other tables
unfoldable pub delete_user : String → Db → Db
delete_user target db = record db {
  users = keep (λ u. not (has_id target u)) db.users;
  sessions = keep (λ s. not (str_eq s.user_id target)) db.sessions;
  api_tokens = keep (λ t. not (str_eq t.user_id target)) db.api_tokens;
  project_members =
      map (λ (m : ProjectMemberRow). record m { added_by = forget target m.added_by })
        (keep (λ m. not (str_eq m.user_id target)) db.project_members);
  user_invitations =
      map (λ (i : UserInvitation). record i { invited_by = forget target i.invited_by })
        db.user_invitations;
}

unfoldable pub remove : AuthUser → String → Handler (Unit {0})
unfolding target_role may_delete self_guard
remove actor target = do
  lift (self_guard actor target "errors.users.cannot_delete_yourself")
  role ← query (target_role target)
  query (may_delete actor (role_or_user role))
  modify (delete_user target)
  log user_deleted actor.id
      (("target_id", target) ∷ ("target_role", GlobalRole.as_str (role_or_user role)) ∷ [])
  pure tt
