-- ===== src/Mesh/Subnet.antt =====
-- `Subnet`, its iterator and `allocate_ip` (crates/pier-core/src/network/wireguard.rs).
pub mod Bounds
pub mod Allocation
use pier.Base.{
  ℕ, zero, suc, ◌+◌, ◌-◌, ◌*◌, ◌/◌, ◌%◌, ◌^◌, Text, Bool, true, false, List, [], ◌∷◌, codes, ◌≡◌,
  refl, Result, ok, err, ◌>>=◌, ok_or, if◌then◌else◌, ltb, split_once, trim, parse_u8, contains,
  some, none, Option,
}
use pier.Mesh.Ipv4.{SubnetError, missing_prefix, bad_prefix, no_usable_hosts, parse_ipv4}

pub record Subnet : Type 0 where
  pub network : ℕ
  pub prefix : ℕ

-- the host bits of the prefix; `prefix` is at most 30
abbrev pub block : ℕ → ℕ
block prefix = 2 ^ (32 - prefix)

-- `n & u32::MAX.checked_shl(32 - prefix).unwrap_or(0)`: the host bits are zeroed.
abbrev pub mask_network : ℕ → ℕ → ℕ
mask_network n prefix = n / block prefix * block prefix

unfoldable pub parse : Text → Result SubnetError Subnet
parse s = do
  (addr, prefix_text) ← ok_or (split_once b'/' s) missing_prefix
  network ← parse_ipv4 (trim addr)
  prefix ← ok_or (parse_u8 (trim prefix_text)) bad_prefix
  if ltb 30 prefix
      then err no_usable_hosts
      else ok (record { network = mask_network network prefix; prefix = prefix })

unfoldable pub first_host : Subnet → ℕ
first_host s = s.network + 1

-- `network | u32::MAX.checked_shr(prefix).unwrap_or(0)`, less one
unfoldable pub last_host : Subnet → ℕ
last_host s = mask_network s.network s.prefix + (block s.prefix - 1) - 1

pub record SubnetHosts : Type 0 where
  pub cur : ℕ
  pub end : ℕ

unfoldable pub hosts : Subnet → SubnetHosts
unfolding first_host last_host
hosts s = record { cur = first_host s; end = last_host s }

-- `SubnetHosts::next`: the host, and the iterator after it.
unfoldable pub next : SubnetHosts → Option (ℕ × SubnetHosts)
next h =
    if ltb h.end h.cur
    then none
    else some (h.cur, record { cur = (h.cur + 1) % 2 ^ 32; end = h.end })

-- The loop of `allocate_ip` over the iterator, on fuel.
unfoldable pub lowest_free : ℕ → SubnetHosts → List ℕ → Option ℕ
lowest_free zero h used = none
lowest_free (suc fuel) h used = elim (next h) [
  | none ↦ none
  | some (candidate, rest) ↦ elim (contains used candidate) [
    | true ↦ lowest_free fuel rest used
    | false ↦ some candidate
  ]
]

-- The iterator yields less than 2 ^ 32 hosts.
unfoldable pub allocate_ip : Subnet → List ℕ → Option ℕ
unfolding hosts lowest_free next
allocate_ip s used = lowest_free (2 ^ 32) (hosts s) used
