-- ===== src/Api/Users/Offboarding.antt =====
-- `update` and `remove` of users: who survives, and what a leaving user leaves behind.
use pier.Base.{
  ℕ, ◌≤◌, String, ◌≡◌, refl, Bool, true, false, not, ◌&&◌, ◌⊎◌, Option, none, some, List, ◌∙◌,
  str_eq, first, any, count_if, update_where, arith, Bool-cases, inl, inr, ok, Text, text_eq,
  to_ascii_lowercase,
}
use pier.Db.{Db, User}
use pier.Rbac.Policy.{AuthUser}
use pier.Api.Handler.Post.{lift-post, query-post, bind-post, modify-post_last}
use pier.Api.Users.{
  UpdateUserRequest, has_id, is_active_owner, target_role, role_or_user, is_owner, set_username,
  set_email, set_active, update, edit_guard, self_guard, writes,
}
use pier.Api.Users.Counting.{
  IsUniqueUsers, count-update, IsUniqueUsers-update, first-update_self, first-update_ne,
  count-pos_of_first,
}
use pier.Api.Users.Owners.{IsOwned, role_or_user-owner, target_role-eq-ok}

-- Either the actor is an active owner and another user than the target, or the target is no owner
-- and there is an active owner.
record IsProtected (actor target : String) (users : List User) : Type 0 where
  unique : IsUniqueUsers users
  reason :
      ((a : User) × (first (has_id actor) users ≡ some a)
        × (is_active_owner a ≡ true)
        × (str_eq target actor ≡ false))
      ⊎ ((r : User) × (first (has_id target) users ≡ some r)
          × (str_eq r.global_role "owner" ≡ false)
          × (1 ≤ count_if is_active_owner users))

IsProtected-IsOwned :
    (actor target : String) (users : List User) → IsProtected actor target users → IsOwned users
IsProtected-IsOwned actor target users p = record {
  unique = p.unique;
  has_owner = elim p.reason [
    | inl (a, f, o, ne) ↦ count-pos_of_first users actor a f o
    | inr (r, f, n, c) ↦ c
  ];
}

module _ (actor target : String) (g : User → User) (same_id : (u : User) → (g u).id ≡ u.id)
    (same_role : (u : User) → (g u).global_role ≡ u.global_role) (users : List User) where
  IsProtected-update :
      IsProtected actor target users
      → IsProtected actor target (update_where (has_id target) g users)
  IsProtected-update p = record {
    unique = IsUniqueUsers-update target g same_id users p.unique;
    reason = elim p.reason [
      | inl (a, f, o, ne) ↦ inl (a, first-update_ne target g same_id users actor ne ∙ f, o, ne)
      | inr (r, f, n, c) ↦ inr (
        g r,
        first-update_self target g same_id users r f,
        rw (same_role r) n,
        ground (arith, count-update target g users r p.unique f, same_role r),
      )
    ];
  }

module _ (now : ℕ) (actor target : String) where
  abbrev ProtectedIn : Db → Type 0
  ProtectedIn db = IsProtected actor target db.users

  set_username-IsProtected :
      (o : Option String) (db : Db) → ProtectedIn db → ProtectedIn (set_username now target o db).1
  unfolding set_username
  set_username-IsProtected none db p = p
  set_username-IsProtected (some name) db p =
      elim (Bool-cases (any (λ u. str_eq u.username name && not (has_id target u)) db.users)) [
        | inl e ↦ rw e p
        | inr e ↦ rw e (
            IsProtected-update actor target (λ u. record u { username = name; updated_at = now })
              (λ u. refl) (λ u. refl) db.users p)
      ]

  set_email-IsProtected :
      (o : Option Text) (db : Db) → ProtectedIn db → ProtectedIn (set_email now target o db).1
  unfolding set_email
  set_email-IsProtected none db p = p
  set_email-IsProtected (some email) db p =
      elim (Bool-cases
        (any (λ u. text_eq u.email (to_ascii_lowercase email) && not (has_id target u)) db.users)) [
          | inl e ↦ rw e p
          | inr e ↦ rw e (
              IsProtected-update actor target
                (λ u. record u { email = to_ascii_lowercase email; updated_at = now }) (λ u. refl)
                (λ u. refl) db.users p)
        ]

  set_active-IsProtected :
      (o : Option Bool) (db : Db) → ProtectedIn db → ProtectedIn (set_active now target o db)
  unfolding set_active
  set_active-IsProtected none db p = p
  set_active-IsProtected (some true) db p =
      IsProtected-update actor target (λ u. record u { is_active = true; updated_at = now })
        (λ u. refl) (λ u. refl) db.users p
  set_active-IsProtected (some false) db p =
      IsProtected-update actor target (λ u. record u { is_active = false; updated_at = now })
        (λ u. refl) (λ u. refl) db.users p

  writes-IsProtected :
      (body : UpdateUserRequest) (db : Db)
      → ProtectedIn db
      → ProtectedIn (writes now target body db).1
  unfolding writes
  writes-IsProtected body db p =
      bind-post ProtectedIn db (set_username now target body.username) _
        (set_username-IsProtected body.username db p)
        λ _ s q.
          bind-post ProtectedIn s (set_email now target body.email) _
            (set_email-IsProtected body.email s q)
            λ _ t k. modify-post_last ProtectedIn t _ _ (set_active-IsProtected body.is_active t k)

guards-IsProtected :
    (actor : AuthUser) (target role : String) (db : Db) (u v : Unit {0})
    → (is_owner actor.global_role ≡ true
        → (a : User) × (first (has_id actor.id) db.users ≡ some a) × (is_active_owner a ≡ true))
    → self_guard actor target "errors.users.use_account_endpoints" ≡ ok u
    → target_role target db ≡ ok role
    → edit_guard actor (role_or_user role) ≡ ok v
    → IsOwned db.users
    → IsProtected actor.id target db.users
unfolding self_guard edit_guard
guards-IsProtected actor target role db u v acts self found edit h =
    let (r, first_row, same) = target_role-eq-ok target role db found in
    record {
      unique = h.unique;
      reason = elim (Bool-cases (is_owner actor.global_role)) [
        | inl o ↦ let (a, f, owns) = acts o in inl (a, f, owns, ground arith)
        | inr n ↦
            inr (r, first_row, ground (arith, role_or_user-owner r.global_role, same), h.has_owner)
      ];
    }

-- If ids are unique and there is an active owner, both still hold after `update`, whatever the target,
-- the request and the outcome, provided that an actor who acts as an owner is an active owner in the
-- database.
pub update-IsOwned :
    (now : ℕ) (actor : AuthUser) (target : String) (body : UpdateUserRequest) (db : Db)
    → (is_owner actor.global_role ≡ true
        → (a : User) × (first (has_id actor.id) db.users ≡ some a) × (is_active_owner a ≡ true))
    → IsOwned db.users
    → IsOwned (update now actor target body db).1.users
unfolding update
update-IsOwned now actor target body db acts h =
    lift-post {A = Unit {0}} (λ d. IsOwned d.users) db
      (self_guard actor target "errors.users.use_account_endpoints") _ h
      λ u self.
        query-post {A = String} (λ d. IsOwned d.users) db (target_role target) _ h
          λ role found.
            lift-post {A = Unit {0}} (λ d. IsOwned d.users) db
              (edit_guard actor (role_or_user role)) _ h
              λ v edit. IsProtected-IsOwned actor.id target _ (
                writes-IsProtected now actor.id target body db
                  (guards-IsProtected actor target role db u v acts self found edit h))
