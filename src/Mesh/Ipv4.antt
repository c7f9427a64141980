-- ===== src/Mesh/Ipv4.antt =====
-- `std::net::Ipv4Addr`, which crates/pier-core/src/network/wireguard.rs prints into and reads from the
-- `assigned_ip` and `subnet` columns: an address is its `u32`.
use pier.Base.{
  ℕ, ◌+◌, ◌*◌, ◌/◌, ◌%◌, ◌^◌, ◌<◌, Text, Bool, true, false, not, ◌&&◌, [], ◌∷◌, ◌++◌, ◌≡◌, refl,
  arith, some, length, leb, ◌==◌, starts_with, Result, ok, err, ◌>>=◌, ok_or, if◌then◌else◌, show,
  read_digits, read_u8, split_once, show-AreDigits, AreDigits-contains_char, split_once-append,
  contains_char, is_digit, AreDigits, All, All-append, ◌||◌, ap, ◌∙◌, all_below_lem, below_256,
  none, Option, >>=-eq-ok,
}

-- The errors of `Subnet::parse`.
pub data SubnetError : Type 0 where
  missing_prefix bad_ipv4 bad_prefix no_usable_hosts : SubnetError

-- an octet: at most three digits, no zero in front of another digit
unfoldable pub parse_octet : Text → Result SubnetError ℕ
unfolding read_digits
parse_octet s =
    if leb (length s) 3 && not (starts_with b'0' s && leb 2 (length s))
    then ok_or (read_u8 s) bad_ipv4
    else err bad_ipv4

abbrev pub from_octets : ℕ → ℕ → ℕ → ℕ → ℕ
from_octets a b c d = ((a * 256 + b) * 256 + c) * 256 + d

-- `s.parse::<Ipv4Addr>()`
unfoldable pub parse_ipv4 : Text → Result SubnetError ℕ
unfolding parse_octet
parse_ipv4 s = do
  (s0, rest0) ← ok_or (split_once b'.' s) bad_ipv4
  (s1, rest1) ← ok_or (split_once b'.' rest0) bad_ipv4
  (s2, s3) ← ok_or (split_once b'.' rest1) bad_ipv4
  a ← parse_octet s0
  b ← parse_octet s1
  c ← parse_octet s2
  d ← parse_octet s3
  ok (from_octets a b c d)

-- `ip.to_string()`
unfoldable pub to_string : ℕ → Text
unfolding show
to_string ip =
    show (ip / 2 ^ 24 % 256)
    ++ b'.'
      ∷ (show (ip / 2 ^ 16 % 256) ++ b'.' ∷ (show (ip / 2 ^ 8 % 256) ++ b'.' ∷ show (ip % 256)))

is_read : ℕ → Result SubnetError ℕ → Bool
is_read n (ok m) = n == m
is_read n (err e) = false

is_read-ok : (n : ℕ) (r : Result SubnetError ℕ) → is_read n r ≡ true → r ≡ ok n
unfolding is_read
is_read-ok n (ok m) h = ground arith
is_read-ok n (err e) h = cc

parse_octet-show : (n : ℕ) → n < 256 → parse_octet (show n) ≡ ok n
parse_octet-show n h = is_read-ok n _ (
    all_below_lem (λ m. is_read m (parse_octet (show m))) 256 n
      (unfold is_read parse_octet show in refl) h)

parse_ipv4-octets :
    (a b c d : ℕ)
    → a < 256
    → b < 256
    → c < 256
    → d < 256
    → parse_ipv4 (show a ++ b'.' ∷ (show b ++ b'.' ∷ (show c ++ b'.' ∷ show d)))
      ≡ ok (from_octets a b c d)
unfolding parse_ipv4
parse_ipv4-octets a b c d ha hb hc hd =
    rw
      (
        split_once-append b'.' (show a) (show b ++ b'.' ∷ (show c ++ b'.' ∷ show d)) (no_dot a),
        split_once-append b'.' (show b) (show c ++ b'.' ∷ show d) (no_dot b),
        split_once-append b'.' (show c) (show d) (no_dot c),
        parse_octet-show a ha,
        parse_octet-show b hb,
        parse_octet-show c hc,
        parse_octet-show d hd,
      )
      refl
  where
    no_dot : (n : ℕ) → contains_char b'.' (show n) ≡ false
    no_dot n = AreDigits-contains_char b'.' (show n) refl (show-AreDigits n)

-- the column is read back
pub parse_ipv4-to_string : (ip : ℕ) → ip < 2 ^ 32 → parse_ipv4 (to_string ip) ≡ ok ip
unfolding to_string
parse_ipv4-to_string ip h =
    parse_ipv4-octets (ip / 2 ^ 24 % 256) (ip / 2 ^ 16 % 256) (ip / 2 ^ 8 % 256) (ip % 256)
      (omega arith) (omega arith) (omega arith) (omega arith)
    ∙ ap ok (omega arith)

-- What stands in a printed address: digits and dots.
abbrev pub is_address_char : ℕ → Bool
is_address_char c = is_digit c || c == b'.'

pub to_string-address :
    (P : ℕ → Type 0) (ip : ℕ) → ((c : ℕ) → is_address_char c ≡ true → P c) → All P (to_string ip)
unfolding to_string
to_string-address P ip h = All-append P (show (ip / 2 ^ 24 % 256)) _ (octet (ip / 2 ^ 24 % 256)) (
  dot,
  All-append P (show (ip / 2 ^ 16 % 256)) _ (octet (ip / 2 ^ 16 % 256)) (
    dot,
    All-append P (show (ip / 2 ^ 8 % 256)) _ (octet (ip / 2 ^ 8 % 256)) (dot, octet (ip % 256)),
  ),
)
  where
    dot : P b'.'
    dot = h b'.' refl

    digits : (s : Text) → AreDigits s → All P s
    digits [] a = tt
    digits (c ∷ s) (e, a) = (h c (ground (arith, e)), digits s a)

    octet : (n : ℕ) → All P (show n)
    octet n = digits (show n) (show-AreDigits n)

below_256-lt : (o : Option ℕ) (n : ℕ) → below_256 o ≡ some n → n < 256
below_256-lt none n h = cc
below_256-lt (some m) n h = ground arith

read_u8-lt : (s : Text) (n : ℕ) → read_u8 s ≡ some n → n < 256
read_u8-lt [] n h = cc
read_u8-lt (c ∷ s) n h = below_256-lt (read_digits (c ∷ s) 0) n h

parse_octet-lt : (s : Text) (n : ℕ) → parse_octet s ≡ ok n → n < 256
unfolding parse_octet
parse_octet-lt s n h = ground (arith, read_u8-lt s n)

pub parse_ipv4-lt : (s : Text) (ip : ℕ) → parse_ipv4 s ≡ ok ip → ip < 2 ^ 32
unfolding parse_ipv4
parse_ipv4-lt s ip h =
    let ((s0, rest0), _, h0) = >>=-eq-ok (ok_or (split_once b'.' s) bad_ipv4) _ h in
    let ((s1, rest1), _, h1) = >>=-eq-ok (ok_or (split_once b'.' rest0) bad_ipv4) _ h0 in
    let ((s2, s3), _, h2) = >>=-eq-ok (ok_or (split_once b'.' rest1) bad_ipv4) _ h1 in
    let (a, ea, h3) = >>=-eq-ok (parse_octet s0) _ h2 in
    let (b, eb, h4) = >>=-eq-ok (parse_octet s1) _ h3 in
    let (c, ec, h5) = >>=-eq-ok (parse_octet s2) _ h4 in
    let (d, ed, h6) = >>=-eq-ok (parse_octet s3) _ h5 in
    ground (
      arith,
      h6,
      parse_octet-lt s0 a ea,
      parse_octet-lt s1 b eb,
      parse_octet-lt s2 c ec,
      parse_octet-lt s3 d ed,
    )
