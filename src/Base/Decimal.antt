-- ===== src/Base/Decimal.antt =====
-- Decimal numbers as the standard library prints and reads them.
use Prim.Native.Nat.{ℕ, zero, suc, ◌+◌, ◌-◌, ◌*◌, ◌/◌, ◌%◌}
use mathlib.Core.Path.{◌≡◌, refl, ap, ◌∙◌}
use mathlib.Core.Logic.{inl, inr}
use mathlib.Core.Bool.{Bool, true, false, ◌&&◌}
use mathlib.Core.Option.{Option, none, some}
use mathlib.Core.List.{[], ◌∷◌, ◌++◌}
use native.Mathlib.Omega.{arith}
use pier.Base.Tests.{if◌then◌else◌, leb, ltb, ◌==◌, Bool-cases}
use pier.Base.Lists.{All}
use pier.Base.Texts.{
  Text, codes, is_whitespace, split_once, contains_char, trim, trim_start, trim_end,
}

abbrev pub is_digit : ℕ → Bool
is_digit c = leb b'0' c && leb c b'9'

abbrev show_from : ℕ → ℕ → Text
show_from zero n = []
show_from (suc fuel) n =
    let front = show_from fuel (n / 10) in
    if ltb n 10 then (b'0' + n) ∷ [] else front ++ (b'0' + n % 10) ∷ []

-- `n.to_string()`: a u64 has at most 20 digits.
unfoldable pub show : ℕ → Text
show n = show_from 20 n

-- the number that digits spell behind `n`
unfoldable pub read_digits : Text → ℕ → Option ℕ
read_digits [] n = some n
read_digits (c ∷ s) n = if is_digit c then read_digits s (n * 10 + (c - b'0')) else none

abbrev pub below_256 : Option ℕ → Option ℕ
below_256 none = none
below_256 (some n) = if ltb n 256 then some n else none

abbrev pub read_u8 : Text → Option ℕ
read_u8 [] = none
read_u8 (c ∷ s) = below_256 (read_digits (c ∷ s) 0)

-- `s.parse::<u8>()`: a plus sign is allowed.
unfoldable pub parse_u8 : Text → Option ℕ
unfolding read_digits
parse_u8 [] = none
parse_u8 (c ∷ s) = if c == b'+' then read_u8 s else read_u8 (c ∷ s)

pub All-append : (P : ℕ → Type 0) (s t : Text) → All P s → All P t → All P (s ++ t)
All-append P [] t a b = b
All-append P (c ∷ s) t (h, a) b = (h, All-append P s t a b)

abbrev pub AreDigits : Text → Type 0
AreDigits s = All (λ c. is_digit c ≡ true) s

show_from-AreDigits : (fuel n : ℕ) → AreDigits (show_from fuel n)
show_from-AreDigits zero n = tt
show_from-AreDigits (suc fuel) n = elim (Bool-cases (ltb n 10)) [
  | inl e ↦ rw e (ground (arith, e), tt)
  | inr e ↦ rw e (
      All-append _ (show_from fuel (n / 10)) ((b'0' + n % 10) ∷ [])
        (show_from-AreDigits fuel (n / 10)) (ground arith, tt))
]

pub show-AreDigits : (n : ℕ) → AreDigits (show n)
unfolding show
show-AreDigits n = show_from-AreDigits 20 n

pub AreDigits-contains_char :
    (c : ℕ) (s : Text) → is_digit c ≡ false → AreDigits s → contains_char c s ≡ false
AreDigits-contains_char c [] h a = refl
AreDigits-contains_char c (d ∷ s) h (e, a) = ground (arith, AreDigits-contains_char c s h a)

pub split_once-append :
    (c : ℕ) (s t : Text) → contains_char c s ≡ false → split_once c (s ++ c ∷ t) ≡ some (s, t)
unfolding split_once
split_once-append c [] t h = ground arith
split_once-append c (d ∷ s) t h = ground (arith, split_once-append c s t)

-- No blank.
abbrev pub IsSolid : Text → Type 0
IsSolid s = All (λ c. is_whitespace c ≡ false) s

pub IsSolid-append : (s t : Text) → IsSolid s → IsSolid t → IsSolid (s ++ t)
IsSolid-append s t = All-append _ s t

pub AreDigits-IsSolid : (s : Text) → AreDigits s → IsSolid s
unfolding is_whitespace
AreDigits-IsSolid [] a = tt
AreDigits-IsSolid (c ∷ s) (h, a) = (ground arith, AreDigits-IsSolid s a)

IsSolid-trim_end : (s : Text) → IsSolid s → trim_end s ≡ s
unfolding trim_end
IsSolid-trim_end [] a = refl
IsSolid-trim_end (c ∷ s) (h, a) = ground (arith, IsSolid-trim_end s a)

pub IsSolid-trim : (s : Text) → IsSolid s → trim s ≡ s
unfolding trim trim_start
IsSolid-trim [] a = unfold trim_end in refl
IsSolid-trim (c ∷ s) (h, a) = rw h (IsSolid-trim_end (c ∷ s) (h, a))

trim_end-behind_blank : (c : ℕ) (v : Text) → IsSolid (c ∷ v) → trim_end (32 ∷ c ∷ v) ≡ 32 ∷ c ∷ v
unfolding trim_end
trim_end-behind_blank c v a = rw (IsSolid-trim_end v a.1, a.0) (ground arith)

trim-behind_blank : (c : ℕ) (v : Text) → IsSolid (c ∷ v) → trim (32 ∷ c ∷ v) ≡ c ∷ v
unfolding trim trim_start is_whitespace
trim-behind_blank c v a = rw (a.0) (IsSolid-trim_end (c ∷ v) a)

-- A value behind a blank, as a directive has it.
pub trim-trim_end : (v : Text) → IsSolid v → trim (trim_end (32 ∷ v)) ≡ v
trim-trim_end [] a = unfold trim trim_start trim_end is_whitespace in refl
trim-trim_end (c ∷ v) a = ap trim (trim_end-behind_blank c v a) ∙ trim-behind_blank c v a

show_test : show 51820 ≡ codes "51820"
unfolding show
show_test = refl
