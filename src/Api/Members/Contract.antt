-- ===== src/Api/Members/Contract.antt =====
-- The contract of the membership handlers: who may change members, that an error writes nothing, and
-- what a success has stored.
use pier.Base.{
  String, ◌≡◌, refl, true, false, ◌&&◌, ◌||◌, some, List, [], ◌∷◌, ◌++◌, is_ok, ok, arith, first,
  any, str_eq, update_where, Bool-cases, inl, inr, contains_str, unwrap_or,
}
use pier.Db.{Db, ProjectMemberRow}
use pier.Db.Rows.{count_if-append}
use pier.Rbac.ProjectRole
use pier.Rbac.ProjectRole.{ProjectRole}
use pier.Rbac.Membership.{is_member_row, is_admin_row, role_for}
use pier.Rbac.Policy.{AuthUser, admin_project, can}
use pier.Rbac.Guards.{enforce_project_role}
use pier.Rbac.Agreement.{can-enforce_project_role}
use pier.Api.Handler.{◌>>=◌}
use pier.Api.Handler.Post.{
  ok_or-eq-ok, lift-post, query-post, bind-post, log-post, lift-Ensures, modify-log-Ensures,
  query-Ensures, log-ne-err, IsAtomic-modify-log, IsAtomic, IsAtomic-lift, IsAtomic-query,
  IsAtomic-last,
}
use pier.Api.Members.{AddMemberRequest, set_role, add, update_role, remove, insert_member, has_user}
use pier.Api.Members.Counting.{IsUniqueMembers-snoc}
use pier.Api.Members.LastAdmin.{IsManaged, IsManagedIn, current_role-eq-ok}

insert_member-IsAtomic : (row : ProjectMemberRow) → IsAtomic (insert_member row)
unfolding insert_member
insert_member-IsAtomic row = record { at = λ db e h. ground arith }

-- An error of `add`, `update_role` or `remove` means that the handler has written nothing, the audit
-- log included.
pub members-IsAtomic :
    (actor : AuthUser) (project_id target body member_id : String) (request : AddMemberRequest)
    → IsAtomic (add actor project_id request member_id)
      × IsAtomic (update_role actor project_id target body)
      × IsAtomic (remove actor project_id target)
unfolding add update_role remove
members-IsAtomic actor project_id target body member_id request = (
  IsAtomic-lift _ _ λ role. IsAtomic-query _ _ λ _.
      IsAtomic-query _ _
        λ resolved. IsAtomic-last _ _ (insert_member-IsAtomic _) λ _. log-ne-err _ _ _ _,
  IsAtomic-lift _ _ λ role.
      IsAtomic-query _ _
        λ _. IsAtomic-query _ _ λ current. IsAtomic-query _ _ λ _. IsAtomic-modify-log _ _ _ _ _,
  IsAtomic-query _ _
      λ _. IsAtomic-query _ _ λ current. IsAtomic-query _ _ λ _. IsAtomic-modify-log _ _ _ _ _,
)

enforce-can :
    (actor : AuthUser) (project_id : String) (db : Db)
    → is_ok (enforce_project_role actor project_id ProjectRole.admin db) ≡ true
    → can actor (admin_project project_id) db ≡ true
enforce-can actor project_id db h = ground (arith, can-enforce_project_role actor project_id db)

-- Whoever has added, changed or removed a member was allowed to administer the project.
pub members_authorised :
    (actor : AuthUser) (project_id target body member_id : String) (request : AddMemberRequest)
    (db : Db)
    → (is_ok (add actor project_id request member_id db).0 ≡ true
        → can actor (admin_project project_id) db ≡ true)
      × (is_ok (update_role actor project_id target body db).0 ≡ true
          → can actor (admin_project project_id) db ≡ true)
      × (is_ok (remove actor project_id target db).0 ≡ true
          → can actor (admin_project project_id) db ≡ true)
unfolding add update_role remove ◌>>=◌
members_authorised actor project_id target body member_id request db = (
  λ h. enforce-can actor project_id db (ground arith),
  λ h. enforce-can actor project_id db (ground arith),
  λ h. enforce-can actor project_id db (ground arith),
)

count-insert :
    (rows : List ProjectMemberRow) (row : ProjectMemberRow) (q : String)
    → IsManaged q rows
    → any (is_member_row row.user_id row.project_id) rows ≡ false
    → IsManaged q (rows ++ row ∷ [])
count-insert rows row q h fresh = record {
  unique = IsUniqueMembers-snoc rows row h.unique fresh;
  has_admin = omega (arith, h.has_admin, count_if-append (is_admin_row q) rows (row ∷ []));
}

any-or :
    (rows : List ProjectMemberRow) (row : ProjectMemberRow)
    → any (λ old. str_eq old.id row.id || is_member_row row.user_id row.project_id old) rows ≡ false
    → any (is_member_row row.user_id row.project_id) rows ≡ false
any-or [] row h = refl
any-or (x ∷ xs) row h = ground (arith, any-or xs row)

insert_member-IsManaged :
    (row : ProjectMemberRow) (q : String) (db : Db)
    → IsManagedIn q db
    → IsManagedIn q (insert_member row db).1
unfolding insert_member
insert_member-IsManaged row q db h =
    elim (Bool-cases (
      any (λ old. str_eq old.id row.id || is_member_row row.user_id row.project_id old)
        db.project_members)) [
          | inl e ↦ rw e h
          | inr e ↦
              rw e
                (elim (Bool-cases (
                  contains_str db.projects row.project_id
                  && has_user db row.user_id
                  && has_user db (unwrap_or row.added_by row.user_id))) [
                    | inl f ↦
                        rw f (
                          count-insert db.project_members row q h (any-or db.project_members row e))
                    | inr f ↦ rw f h
                  ])
        ]

-- If no member has two rows in a project and project q has a Project Admin, both still hold after
-- `add`, whatever the actor, the project, the request and the outcome.
pub add-IsManaged :
    (actor : AuthUser) (project_id member_id q : String) (request : AddMemberRequest) (db : Db)
    → IsManaged q db.project_members
    → IsManaged q (add actor project_id request member_id db).1.project_members
unfolding add
add-IsManaged actor project_id member_id q request db h =
    lift-post (IsManagedIn q) db _ _ h λ role _. query-post (IsManagedIn q) db _ _ h λ _ _.
      query-post (IsManagedIn q) db _ _ h λ resolved _.
        bind-post (IsManagedIn q) db _ _ (insert_member-IsManaged _ q db h)
          λ _ s k. log-post (IsManagedIn q) s _ _ _ _ k

first-set_role :
    (rows : List ProjectMemberRow) (t p : String) (new : ProjectRole) (r : ProjectMemberRow)
    → first (is_member_row t p) rows ≡ some r
    → first (is_member_row t p) (update_where (is_member_row t p) (set_role new) rows)
      ≡ some (set_role new r)
first-set_role [] t p new r f = ground arith
first-set_role (x ∷ xs) t p new r f = ground (arith, first-set_role xs t p new r)

-- After a successful `update_role` the member's role in the project is the role of the request.
pub role_for-update_role :
    (actor : AuthUser) (project_id target body s : String) (db : Db)
    → (update_role actor project_id target body db).0 ≡ ok s
    → role_for (update_role actor project_id target body db).1 target project_id
      ≡ ProjectRole.parse body
unfolding update_role role_for
role_for-update_role actor project_id target body s db h =
    (lift-Ensures (λ d. role_for d target project_id ≡ ProjectRole.parse body) db _ _
        λ new parsed. query-Ensures _ db _ _ λ _ _. query-Ensures _ db _ _ λ current found.
          query-Ensures _ db _ _ λ _ passed.
            let (r, first_row, same) = current_role-eq-ok project_id target current db found in
            modify-log-Ensures _ db _ _ _ _ _ (
              ground (
                arith,
                first-set_role db.project_members target project_id new r first_row,
                (ProjectRole.parse-as_str (ProjectRole.as_str new) new).1 refl,
                ok_or-eq-ok _ _ _ parsed,
              ))).at
      s h
