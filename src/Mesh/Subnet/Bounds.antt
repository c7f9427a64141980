-- ===== src/Mesh/Subnet/Bounds.antt =====
-- The numbers of a `Subnet` of crates/pier-core/src/network/wireguard.rs: nothing leaves the `u32`.
use pier.Base.{
  ℕ, ◌+◌, ◌*◌, ◌/◌, ◌^◌, ◌≤◌, ◌<◌, true, false, ◌&&◌, ◌≡◌, refl, arith, leb, ltb, ◌==◌,
  all_below_lem, Text, ok, >>=-eq-ok, Bool-cases, inl, inr, ap, err, split_once, trim, ok_or,
  parse_u8, if◌then◌else◌, ◌++◌, ◌∷◌, show, [], none, some, Bool, Option, subst, IsSolid-trim,
  AreDigits-IsSolid, show-AreDigits, split_once-append, is_whitespace, All, contains_char,
}
use native.Mathlib.Nat.{div-lt_iff_lt-mul, mul-div_cancel, mul-le-mul_right}
use pier.Mesh.Ipv4.{
  to_string-address, is_address_char, parse_ipv4-to_string, parse_ipv4-lt, parse_ipv4,
  missing_prefix, bad_prefix, no_usable_hosts, to_string,
}
use pier.Mesh.Subnet.{Subnet, block, mask_network, first_host, last_host, parse}

-- A subnet as `parse` gives it: at least two hosts, the network address at the base of its block, and
-- the block inside the address space.
pub record IsSubnet (s : Subnet) : Type 0 where
  pub short : s.prefix ≤ 30
  pub roomy : 4 ≤ block s.prefix
  pub base : mask_network s.network s.prefix ≡ s.network
  pub inside : s.network + block s.prefix ≤ 2 ^ 32

block_lem : (p : ℕ) → p ≤ 30 → (4 ≤ block p) × (2 ^ p * block p ≡ 2 ^ 32)
block_lem p h =
    let e =
      all_below_lem (λ p. leb 4 (block p) && 2 ^ p * block p == 2 ^ 32) 31 p refl (omega arith) in
    ground (arith, e)

mask_network-inside : (n p : ℕ) → n < 2 ^ 32 → p ≤ 30 → mask_network n p + block p ≤ 2 ^ 32
mask_network-inside n p b h =
    let (roomy, whole) = block_lem p h in
    let lt : n / block p < 2 ^ p =
      (div-lt_iff_lt-mul {k = block p} {x = n} {y = 2 ^ p} (omega (arith, roomy))).1
        (omega (arith, whole)) in
    let le : (n / block p + 1) * block p ≤ 2 ^ p * block p =
      mul-le-mul_right (block p) (omega (arith, lt)) in
    omega (arith, le, whole)

mask_network-base : (n p : ℕ) → p ≤ 30 → mask_network (mask_network n p) p ≡ mask_network n p
mask_network-base n p h =
    ap (λ q. q * block p) (mul-div_cancel (n / block p) (omega (arith, block_lem p h)))

mask_network-IsSubnet :
    (n p : ℕ) → n < 2 ^ 32 → p ≤ 30 → IsSubnet (record { network = mask_network n p; prefix = p })
mask_network-IsSubnet n p b h = record {
  short = h;
  roomy = (block_lem p h).0;
  base = mask_network-base n p h;
  inside = mask_network-inside n p b h;
}

module _ (s : Subnet) (v : IsSubnet s) where
  pub first_host_lem : first_host s ≡ s.network + 1
  unfolding first_host
  first_host_lem = refl

  pub last_host_lem : last_host s + 2 ≡ s.network + block s.prefix
  unfolding last_host
  last_host_lem = omega (arith, v.base, v.roomy)

-- Whatever the text: an accepted subnet has at least two hosts, its network address is the base of its
-- block, and the block ends inside the address space, so no host computation leaves the `u32`.
pub parse-IsSubnet : (t : Text) (s : Subnet) → parse t ≡ ok s → IsSubnet s
unfolding parse
parse-IsSubnet t s h =
    let ((addr, prefix_text), _, h0) = >>=-eq-ok (ok_or (split_once b'/' t) missing_prefix) _ h in
    let (n, en, h1) = >>=-eq-ok (parse_ipv4 (trim addr)) _ h0 in
    let (p, ep, h2) = >>=-eq-ok (ok_or (parse_u8 (trim prefix_text)) bad_prefix) _ h1 in
    elim (Bool-cases (ltb 30 p)) [
      | inl long ↦ ground (arith, long, h2)
      | inr short ↦
          let e : record { network = mask_network n p; prefix = p } ≡ s =
            ground (arith, short, h2) in
          subst (λ s. IsSubnet s) e
            (mask_network-IsSubnet n p (parse_ipv4-lt (trim addr) n en) (ground (arith, short)))
    ]

reads : ℕ → Option ℕ → Bool
reads n (some m) = n == m
reads n none = false

reads-some : (n : ℕ) (r : Option ℕ) → reads n r ≡ true → r ≡ some n
unfolding reads
reads-some n (some m) h = ground arith
reads-some n none h = cc

parse_u8-show : (n : ℕ) → n < 256 → parse_u8 (show n) ≡ some n
parse_u8-show n h =
    reads-some n (parse_u8 (show n)) (
      all_below_lem (λ m. reads m (parse_u8 (show m))) 256 n (unfold reads parse_u8 show in refl) h)

-- An address and a prefix, as they are printed, are read back as the subnet around that address; a
-- prefix above 30 is refused. The address is any `u32` and the prefix any `u8`.
pub parse-to_string :
    (n p : ℕ)
    → n < 2 ^ 32
    → p < 256
    → parse (to_string n ++ b'/' ∷ show p) ≡ (
        if ltb 30 p
        then err no_usable_hosts
        else ok (record { network = mask_network n p; prefix = p }))
unfolding parse
parse-to_string n p hn hp =
    rw
      (
        split_once-append b'/' (to_string n) (show p) (
            clean (to_string n)
              (to_string-address (λ c. (c == b'/') ≡ false) n λ c e. ground (arith, e))),
        IsSolid-trim (to_string n) (to_string-address (λ c. is_whitespace c ≡ false) n solid),
        IsSolid-trim (show p) (AreDigits-IsSolid (show p) (show-AreDigits p)),
        parse_ipv4-to_string n hn,
        parse_u8-show p hp,
      )
      refl
  where
    solid : (c : ℕ) → is_address_char c ≡ true → is_whitespace c ≡ false
    solid c e = unfold is_whitespace in ground (arith, e)

    clean : (s : Text) → All (λ c. (c == b'/') ≡ false) s → contains_char b'/' s ≡ false
    clean [] a = refl
    clean (c ∷ s) (h, a) = ground (arith, clean s a)
