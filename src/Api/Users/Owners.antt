-- ===== src/Api/Users/Owners.antt =====
-- The instance always keeps an active owner.
use pier.Base.{
  ℕ, ◌≤◌, String, ◌≡◌, refl, Bool, none, if◌then◌else◌, true, false, not, some, List, str_eq,
  eq_iff, first, keep, count_if, update_where, arith, Option-cases, inl, inr, ok, leb,
}
use pier.Db.{Db, User}
use pier.Rbac.GlobalRole
use pier.Rbac.GlobalRole.{GlobalRole}
use pier.Rbac.Policy.{AuthUser}
use pier.Api.Handler.{pure, ◌>>=◌}
use pier.Api.Handler.Post.{lift-post, query-post, modify-post, log-post}
use pier.Api.Users.{
  reassign, has_id, is_active_owner, count_owners, target_role, role_or_user, is_owner, change_role,
  delete_user, may_delete, may_demote, remove,
}
use pier.Api.Users.Counting.{
  IsUniqueUsers, count-update, IsUniqueUsers-update, count-delete, IsUniqueUsers-keep,
}

-- Ids are unique and some active user is an owner.
pub record IsOwned (users : List User) : Type 0 where
  pub unique : IsUniqueUsers users
  pub has_owner : 1 ≤ count_if is_active_owner users

abbrev pub IsOwnedIn : Db → Type 0
IsOwnedIn db = IsOwned db.users

pub role_or_user-owner : (s : String) → is_owner (role_or_user s) ≡ str_eq s "owner"
unfolding GlobalRole.parse
role_or_user-owner s = ground (arith, eq_iff s "owner", eq_iff s "admin", eq_iff s "user")

as_str-owner : (r : GlobalRole) → str_eq (GlobalRole.as_str r) "owner" ≡ is_owner r
unfolding GlobalRole.as_str
as_str-owner GlobalRole.owner = refl
as_str-owner GlobalRole.admin = refl
as_str-owner GlobalRole.user = refl

pub target_role-eq-ok :
    (target s : String) (db : Db)
    → target_role target db ≡ ok s
    → (r : User) × (first (has_id target) db.users ≡ some r) × (s ≡ r.global_role)
unfolding target_role
target_role-eq-ok target s db h = elim (Option-cases (first (has_id target) db.users)) [
  | inl e ↦ ground arith
  | inr (r, e) ↦ (r, e, ground arith)
]

set_role-IsOwned :
    (now : ℕ) (users : List User) (target : String) (new : GlobalRole) (r : User)
    → first (has_id target) users ≡ some r
    → (is_owner (role_or_user r.global_role) ≡ true
        → leb (count_if is_active_owner users) 1 ≡ false)
    → IsOwned users
    → IsOwned (
        update_where
          (has_id target)
          (λ u. record u { global_role = GlobalRole.as_str new; updated_at = now })
          users)
set_role-IsOwned now users target new r found guarded h =
    let g : User → User = λ u. record u { global_role = GlobalRole.as_str new; updated_at = now } in
    record {
      unique = IsUniqueUsers-update target g (λ u. refl) users h.unique;
      has_owner = ground (
        arith,
        h.has_owner,
        count-update target g users r h.unique found,
        role_or_user-owner r.global_role,
        guarded,
      );
    }

may_demote-guarded :
    (role : String) (db : Db) (u : Unit {0}) (r : User)
    → role ≡ r.global_role
    → may_demote (role_or_user role) db ≡ ok u
    → is_owner (role_or_user r.global_role) ≡ true
    → leb (count_if is_active_owner db.users) 1 ≡ false
unfolding count_owners may_demote
may_demote-guarded role db u r same passed o =
    let o' : is_owner (role_or_user role) ≡ true = rw same o in ground arith

reassign-IsOwned :
    (now : ℕ) (actor : AuthUser) (target current : String) (new : GlobalRole) (db : Db)
    → target_role target db ≡ ok current
    → IsOwned db.users
    → IsOwned (reassign now actor target (role_or_user current) new db).1.users
unfolding reassign
reassign-IsOwned now actor target current new db found h =
    query-post {A = Unit {0}} IsOwnedIn db (may_demote (role_or_user current)) _ h λ u passed.
      let (r, first_row, same) = target_role-eq-ok target current db found in
      modify-post IsOwnedIn db _ _ (
        log-post IsOwnedIn _ _ _ _ _ (
          set_role-IsOwned now db.users target new r first_row
            (λ o. may_demote-guarded current db u r same passed o) h))

unchanged-IsOwned :
    (now : ℕ) (actor : AuthUser) (target current : String) (new : GlobalRole) (same : Bool)
    (db : Db)
    → target_role target db ≡ ok current
    → IsOwned db.users
    → IsOwned
        ((if same then pure none else reassign now actor target (role_or_user current) new)
          db).1.users
unfolding ◌>>=◌
unchanged-IsOwned now actor target current new true db found h = h
unchanged-IsOwned now actor target current new false db found h =
    reassign-IsOwned now actor target current new db found h

-- If ids are unique and there is an active owner, both still hold after `change_role`, whatever the
-- actor, the target, the new role and the outcome.
pub change_role-IsOwned :
    (now : ℕ) (actor : AuthUser) (target body : String) (db : Db)
    → IsOwned db.users
    → IsOwned (change_role now actor target body db).1.users
unfolding change_role
change_role-IsOwned now actor target body db h =
    lift-post {A = GlobalRole} IsOwnedIn db _ _ h λ new _.
      query-post {A = String} IsOwnedIn db (target_role target) _ h λ current found.
        unchanged-IsOwned now actor target current new
          (GlobalRole.role_eq (role_or_user current) new) db found h

delete-IsOwned :
    (users : List User) (target : String) (r : User)
    → first (has_id target) users ≡ some r
    → (is_owner (role_or_user r.global_role) ≡ true
        → leb (count_if is_active_owner users) 1 ≡ false)
    → IsOwned users
    → IsOwned (keep (λ u. not (has_id target u)) users)
delete-IsOwned users target r found guarded h = record {
  unique = IsUniqueUsers-keep users (λ u. not (has_id target u)) h.unique;
  has_owner = ground (
    arith,
    h.has_owner,
    count-delete users target r h.unique found,
    role_or_user-owner r.global_role,
    guarded,
  );
}

may_delete-owner :
    (actor : AuthUser) (role : GlobalRole) (db : Db) (u : Unit {0})
    → may_delete actor role db ≡ ok u
    → is_owner role ≡ true
    → leb (count_owners db) 1 ≡ false
unfolding may_delete
may_delete-owner actor GlobalRole.owner db u h o = ground arith
may_delete-owner actor _ db u h o = cc

may_delete-guarded :
    (actor : AuthUser) (target role : String) (db : Db) (u : Unit {0}) (r : User)
    → role ≡ r.global_role
    → may_delete actor (role_or_user role) db ≡ ok u
    → is_owner (role_or_user r.global_role) ≡ true
    → leb (count_if is_active_owner db.users) 1 ≡ false
unfolding count_owners
may_delete-guarded actor target role db u r same passed o =
    may_delete-owner actor (role_or_user role) db u passed (rw same o)

-- If ids are unique and there is an active owner, both still hold after `remove`, whatever the actor,
-- the target and the outcome.
pub remove-IsOwned :
    (actor : AuthUser) (target : String) (db : Db)
    → IsOwned db.users
    → IsOwned (remove actor target db).1.users
unfolding remove delete_user
remove-IsOwned actor target db h = lift-post {A = Unit {0}} IsOwnedIn db _ _ h λ _ _.
    query-post {A = String} IsOwnedIn db (target_role target) _ h λ role found.
      query-post {A = Unit {0}} IsOwnedIn db (may_delete actor (role_or_user role)) _ h λ u passed.
        let (r, first_row, same) = target_role-eq-ok target role db found in
        modify-post IsOwnedIn db _ _ (
          log-post IsOwnedIn _ _ _ _ _ (
            delete-IsOwned db.users target r first_row
              (λ o. may_delete-guarded actor target role db u r same passed o) h))
