-- ===== src/Rbac/GlobalRole.antt =====
-- `GlobalRole` of crates/pier-core/src/auth/rbac/roles.rs.
use pier.Base.{
  ℕ, String, Bool, Option, some, none, ◌≡◌, ◌↔◌, leb, if◌then◌else◌, str_eq, eq_iff, arith,
}

pub data GlobalRole : Type 0 where
  owner admin user : GlobalRole

unfoldable pub rank : GlobalRole → ℕ
rank owner = 3
rank admin = 2
rank user = 1

unfoldable pub at_least : GlobalRole → GlobalRole → Bool
unfolding rank
at_least self other = leb (rank other) (rank self)

unfoldable pub parse : String → Option GlobalRole
parse s =
    if str_eq s "owner"
    then some owner
    else if str_eq s "admin"
    then some admin
    else if str_eq s "user"
    then some user
    else none

unfoldable pub as_str : GlobalRole → String
as_str owner = "owner"
as_str admin = "admin"
as_str user = "user"

-- `==` on roles.
abbrev pub role_eq : GlobalRole → GlobalRole → Bool
role_eq owner owner = Bool.true
role_eq admin admin = Bool.true
role_eq user user = Bool.true
role_eq _ _ = Bool.false

-- A string parses to a role exactly when it is the string of that role.
pub parse-as_str : (s : String) (r : GlobalRole) → (parse s ≡ some r) ↔ (s ≡ as_str r)
unfolding parse as_str
parse-as_str s owner = ground (arith, eq_iff s "owner", eq_iff s "admin", eq_iff s "user")
parse-as_str s admin =
    ground (arith, eq_iff s "owner", eq_iff s "admin", eq_iff s "user", eq_iff "admin" "owner")
parse-as_str s user = ground (
  arith,
  eq_iff s "owner",
  eq_iff s "admin",
  eq_iff s "user",
  eq_iff "user" "owner",
  eq_iff "user" "admin",
)
