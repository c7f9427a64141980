-- ===== src/Api/Members.antt =====
-- crates/pier-core/src/api/project_members.rs: `add`, `update_role` and `remove`.
pub mod Counting
pub mod LastAdmin
pub mod Contract
use pier.Base.{
  String, Text, Bool, not, ◌&&◌, ◌||◌, Option, none, some, [], ◌∷◌, ◌++◌, leb, if◌then◌else◌,
  str_eq, text_eq, first, any, keep, update_where, unwrap_or, to_ascii_lowercase, contains_str,
  Result, ok, err, ok_or, AppError, bad_request, not_found, conflict, database,
}
use pier.Db.{
  Db, User, ProjectMemberRow, project_member_added, project_member_role_changed,
  project_member_removed,
}
use pier.Api.Handler.{Handler, ◌>>=◌, ◌>>◌, pure, lift, query, modify, log}
use pier.Rbac.ProjectRole
use pier.Rbac.ProjectRole.{ProjectRole}
use pier.Rbac.Membership.{is_member_row, count_admins}
use pier.Rbac.Policy.{AuthUser}
use pier.Rbac.Guards.{enforce_project_role}

pub record AddMemberRequest : Type 0 where
  pub user_id : Option String
  pub email : Option Text
  pub project_role : String

abbrev pub has_user : Db → String → Bool
has_user db uid = any (λ u. str_eq u.id uid) db.users

abbrev id_of : Option User → Option String
id_of none = none
id_of (some u) = some u.id

-- the user of a request: by id, or else by e-mail without regard to ASCII case
unfoldable pub resolve_user : Option String → Option Text → Db → Result AppError String
resolve_user (some uid) email db =
    ok_or (id_of (first (λ u. str_eq u.id uid) db.users))
      (not_found "errors.project_members.user_not_found")
resolve_user none (some email) db =
    ok_or
      (id_of
        (first (λ u. text_eq (to_ascii_lowercase u.email) (to_ascii_lowercase email)) db.users))
      (not_found "errors.project_members.user_with_email_not_found")
resolve_user none none db = err (bad_request "errors.project_members.user_id_or_email_required")

-- `INSERT OR IGNORE`: a row whose id or whose (project_id, user_id) is there already is not
-- inserted; a reference to a missing project or user is an error.
unfoldable pub insert_member : ProjectMemberRow → Db → Result AppError (Unit {0}) × Db
insert_member row db =
    if any (λ old. str_eq old.id row.id || is_member_row row.user_id row.project_id old)
      db.project_members
    then (err (conflict "errors.project_members.already_member"), db)
    else if contains_str db.projects row.project_id
        && has_user db row.user_id
        && has_user db (unwrap_or row.added_by row.user_id)
    then (ok tt, record db { project_members = db.project_members ++ row ∷ [] })
    else (err database, db)

-- `member_id` is the fresh UUID
unfoldable pub add : AuthUser → String → AddMemberRequest → String → Handler String
unfolding resolve_user
add actor project_id body member_id = do
  project_role ← lift (
      ok_or (ProjectRole.parse body.project_role)
        (bad_request "errors.project_members.unknown_project_role"))
  _ ← query (enforce_project_role actor project_id ProjectRole.admin)
  resolved ← query (resolve_user body.user_id body.email)
  insert_member (record {
    id = member_id;
    project_id = project_id;
    user_id = resolved;
    project_role = ProjectRole.as_str project_role;
    added_by = some actor.id;
  })
  log project_member_added actor.id (
      ("project_id", project_id)
      ∷ ("user_id", resolved)
      ∷ ("project_role", ProjectRole.as_str project_role)
      ∷ [])
  pure resolved

abbrev pub role_text : Option ProjectMemberRow → Option String
role_text none = none
role_text (some row) = some row.project_role

-- the stored role of a member, or 404
unfoldable pub current_role : String → String → Db → Result AppError String
current_role project_id target db =
    ok_or (role_text (first (is_member_row target project_id) db.project_members))
      (not_found "errors.project_members.membership_not_found")

abbrev pub role_or_viewer : String → ProjectRole
role_or_viewer s = unwrap_or (ProjectRole.parse s) ProjectRole.viewer

abbrev refuse_last : Db → String → String → Result AppError (Unit {0})
refuse_last db project_id key =
    if leb (count_admins db project_id) 1 then err (conflict key) else ok tt

abbrev pub set_role : ProjectRole → ProjectMemberRow → ProjectMemberRow
set_role new_role row = record row { project_role = ProjectRole.as_str new_role }

unfoldable pub update_role : AuthUser → String → String → String → Handler String
unfolding current_role
update_role actor project_id target body_role = do
  new_role ← lift (
      ok_or (ProjectRole.parse body_role)
        (bad_request "errors.project_members.unknown_project_role"))
  _ ← query (enforce_project_role actor project_id ProjectRole.admin)
  current_s ← query (current_role project_id target)
  let current = role_or_viewer current_s
  query (λ db.
      if ProjectRole.role_eq current ProjectRole.admin
        && not (ProjectRole.role_eq new_role ProjectRole.admin)
      then refuse_last db project_id "errors.project_members.cannot_demote_last_admin"
      else ok tt)
  modify (λ db. record db {
    project_members =
        update_where (is_member_row target project_id) (set_role new_role) db.project_members;
  })
  log project_member_role_changed actor.id (
      ("project_id", project_id)
      ∷ ("user_id", target)
      ∷ ("from", ProjectRole.as_str current)
      ∷ ("to", ProjectRole.as_str new_role)
      ∷ [])
  pure (ProjectRole.as_str new_role)

unfoldable pub remove : AuthUser → String → String → Handler (Unit {0})
unfolding current_role
remove actor project_id target = do
  _ ← query (enforce_project_role actor project_id ProjectRole.admin)
  current_s ← query (current_role project_id target)
  let current = role_or_viewer current_s
  query (λ db.
      if ProjectRole.role_eq current ProjectRole.admin
      then refuse_last db project_id "errors.project_members.cannot_remove_last_admin"
      else ok tt)
  modify (λ db. record db {
    project_members = keep (λ row. not (is_member_row target project_id row)) db.project_members;
  })
  log project_member_removed actor.id
      (("project_id", project_id) ∷ ("user_id", target) ∷ ("role", ProjectRole.as_str current) ∷ [])
  pure tt
