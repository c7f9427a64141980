-- ===== src/Mesh/Address.antt =====
-- crates/pier-core/src/network/address.rs: IPv6 literals in URLs and endpoints.
use pier.Base.{
  ℕ, ◌+◌, Text, Bool, false, not, ◌&&◌, ◌||◌, [], ◌∷◌, ◌++◌, if◌then◌else◌, leb, ◌==◌, starts_with,
  contains_char, show,
}

-- `host.contains("::")`
abbrev pub contains_pair : Text → Bool
contains_pair [] = false
contains_pair (c ∷ s) = (c == b':' && starts_with b':' s) || contains_pair s

abbrev pub colons : Text → ℕ
colons [] = 0
colons (c ∷ s) = (if c == b':' then 1 else 0) + colons s

unfoldable pub is_ipv6_literal : Text → Bool
is_ipv6_literal host = contains_pair host || (leb 2 (colons host) && not (contains_char b'.' host))

unfoldable pub host_for_url : Text → Text
unfolding is_ipv6_literal
host_for_url host = if is_ipv6_literal host then b'[' ∷ (host ++ b']' ∷ []) else host

unfoldable pub authority : Text → ℕ → Text
unfolding host_for_url show
authority host port = host_for_url host ++ b':' ∷ show port
