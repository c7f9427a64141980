-- ===== src/Rbac/ProjectRole.antt =====
-- `ProjectRole` of crates/pier-core/src/auth/rbac/roles.rs.
use pier.Base.{
  ℕ, String, Bool, Option, some, none, ◌≡◌, ◌↔◌, leb, if◌then◌else◌, str_eq, eq_iff, arith,
}

pub data ProjectRole : Type 0 where
  admin editor viewer : ProjectRole

unfoldable pub rank : ProjectRole → ℕ
rank admin = 3
rank editor = 2
rank viewer = 1

unfoldable pub at_least : ProjectRole → ProjectRole → Bool
unfolding rank
at_least self other = leb (rank other) (rank self)

unfoldable pub parse : String → Option ProjectRole
parse s =
    if str_eq s "admin"
    then some admin
    else if str_eq s "editor"
    then some editor
    else if str_eq s "viewer"
    then some viewer
    else none

unfoldable pub as_str : ProjectRole → String
as_str admin = "admin"
as_str editor = "editor"
as_str viewer = "viewer"

-- `==` on roles.
abbrev pub role_eq : ProjectRole → ProjectRole → Bool
role_eq admin admin = Bool.true
role_eq editor editor = Bool.true
role_eq viewer viewer = Bool.true
role_eq _ _ = Bool.false

-- A string parses to a role exactly when it is the string of that role.
pub parse-as_str : (s : String) (r : ProjectRole) → (parse s ≡ some r) ↔ (s ≡ as_str r)
unfolding parse as_str
parse-as_str s admin = ground (arith, eq_iff s "admin", eq_iff s "editor", eq_iff s "viewer")
parse-as_str s editor =
    ground (arith, eq_iff s "admin", eq_iff s "editor", eq_iff s "viewer", eq_iff "editor" "admin")
parse-as_str s viewer = ground (
  arith,
  eq_iff s "admin",
  eq_iff s "editor",
  eq_iff s "viewer",
  eq_iff "viewer" "admin",
  eq_iff "viewer" "editor",
)
