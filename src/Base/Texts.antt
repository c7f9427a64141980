-- ===== src/Base/Texts.antt =====
-- Rust's `str` where the program walks it: a list of code points, with the methods of the standard
-- library that the sources call.
use Prim.Native.Nat.{ℕ, ◌+◌}
use Prim.Native.Char.{code}
use Prim.Native.String.{String}
use mathlib.Core.Path.{◌≡◌, refl}
use mathlib.Core.Logic.{◌↔◌}
use mathlib.Core.Bool.{Bool, true, false, not, ◌&&◌, ◌||◌}
use mathlib.Core.Option.{Option, none, some}
use mathlib.Core.List.{List, [], ◌∷◌}
use native.Mathlib.Omega.{arith}
use pier.Base.Tests.{leb, ◌==◌, if◌then◌else◌}

abbrev pub Text : Type 0
Text = List ℕ

-- The code points of a literal.
abbrev pub codes : String → Text
codes String.[] = []
codes (String.◌∷◌ c s) = code c ∷ codes s

abbrev pub is_empty : Text → Bool
is_empty [] = true
is_empty (_ ∷ _) = false

abbrev pub text_eq : Text → Text → Bool
text_eq [] [] = true
text_eq [] (_ ∷ _) = false
text_eq (_ ∷ _) [] = false
text_eq (a ∷ s) (b ∷ t) = a == b && text_eq s t

pub text_eq_iff : (s t : Text) → (text_eq s t ≡ true) ↔ (s ≡ t)
text_eq_iff [] [] = ground arith
text_eq_iff [] (b ∷ t) = ground arith
text_eq_iff (a ∷ s) [] = ground arith
text_eq_iff (a ∷ s) (b ∷ t) = ground (arith, text_eq_iff s t)

pub text_eq_comm : (s t : Text) → text_eq s t ≡ text_eq t s
text_eq_comm [] [] = refl
text_eq_comm [] (b ∷ t) = refl
text_eq_comm (a ∷ s) [] = refl
text_eq_comm (a ∷ s) (b ∷ t) = ground (arith, text_eq_comm s t)

-- The Unicode property White_Space.
unfoldable pub is_whitespace : ℕ → Bool
is_whitespace c =
    (leb 9 c && leb c 13)
    || c == 0x20
    || c == 0x85
    || c == 0xa0
    || c == 0x1680
    || (leb 0x2000 c && leb c 0x200a)
    || c == 0x2028
    || c == 0x2029
    || c == 0x202f
    || c == 0x205f
    || c == 0x3000

unfoldable pub trim_start : Text → Text
trim_start [] = []
trim_start (c ∷ s) = if is_whitespace c then trim_start s else c ∷ s

unfoldable pub trim_end : Text → Text
trim_end [] = []
trim_end (c ∷ s) =
    let rest = trim_end s in if is_empty rest && is_whitespace c then [] else c ∷ rest

unfoldable pub trim : Text → Text
unfolding trim_start trim_end is_whitespace
trim s = trim_end (trim_start s)

abbrev pub starts_with : ℕ → Text → Bool
starts_with c [] = false
starts_with c (d ∷ s) = d == c

abbrev pub ends_with : ℕ → Text → Bool
ends_with c [] = false
ends_with c (d ∷ []) = d == c
ends_with c (d ∷ e ∷ s) = ends_with c (e ∷ s)

abbrev pub contains_char : ℕ → Text → Bool
contains_char c [] = false
contains_char c (d ∷ s) = d == c || contains_char c s

-- `&s[1..s.len() - 1]`, where the first and the last character are one byte long.
abbrev pub drop_last : Text → Text
drop_last [] = []
drop_last (c ∷ []) = []
drop_last (c ∷ d ∷ s) = c ∷ drop_last (d ∷ s)

abbrev pub inner : Text → Text
inner [] = []
inner (c ∷ s) = drop_last s

abbrev cons_left : ℕ → Option (Text × Text) → Option (Text × Text)
cons_left c none = none
cons_left c (some (l, r)) = some (c ∷ l, r)

-- `s.split_once(c)`
unfoldable pub split_once : ℕ → Text → Option (Text × Text)
split_once c [] = none
split_once c (d ∷ s) =
    let rest = split_once c s in if d == c then some ([], s) else cons_left d rest

abbrev pub push_first : ℕ → List Text → List Text
push_first c [] = (c ∷ []) ∷ []
push_first c (l ∷ ls) = (c ∷ l) ∷ ls

-- `s.lines()`: a line ends at "\n" or "\r\n", and the last one may have no end.
unfoldable pub lines : Text → List Text
lines [] = []
lines (c ∷ s) =
    let rest = lines s in
    if c == 10 then [] ∷ rest else if c == 13 && starts_with 10 s then rest else push_first c rest

-- `c.to_ascii_lowercase()`
abbrev pub lower_char : ℕ → ℕ
lower_char c = if leb b'A' c && leb c b'Z' then c + 32 else c

unfoldable pub to_ascii_lowercase : Text → Text
to_ascii_lowercase [] = []
to_ascii_lowercase (c ∷ s) = lower_char c ∷ to_ascii_lowercase s

abbrev is_some_text : Option Text → Bool
is_some_text none = false
is_some_text (some s) = true

-- `s.strip_prefix(p)`
abbrev pub strip_prefix : Text → Text → Option Text
strip_prefix [] s = some s
strip_prefix (c ∷ p) [] = none
strip_prefix (c ∷ p) (d ∷ s) = if d == c then strip_prefix p s else none

-- `s.split(c)`
unfoldable pub split : ℕ → Text → List Text
split c [] = [] ∷ []
split c (d ∷ s) = let rest = split c s in if d == c then [] ∷ rest else push_first d rest

abbrev or_split : ℕ → Text → ℕ → Option (Text × Text) → Option (Text × Text)
or_split c s d (some (l, r)) = some (d ∷ l, r)
or_split c s d none = if d == c then some ([], s) else none

-- `s.rsplit_once(c)`
unfoldable pub rsplit_once : ℕ → Text → Option (Text × Text)
rsplit_once c [] = none
rsplit_once c (d ∷ s) = or_split c s d (rsplit_once c s)

-- `s.trim_matches(..)` for a set of characters
unfoldable pub trim_start_matches : (ℕ → Bool) → Text → Text
trim_start_matches p [] = []
trim_start_matches p (c ∷ s) = if p c then trim_start_matches p s else c ∷ s

unfoldable pub trim_end_matches : (ℕ → Bool) → Text → Text
trim_end_matches p [] = []
trim_end_matches p (c ∷ s) =
    let rest = trim_end_matches p s in if is_empty rest && p c then [] else c ∷ rest

-- `s.len()`: the bytes of UTF-8
abbrev pub len_utf8 : ℕ → ℕ
len_utf8 c = if leb c 0x7f then 1 else if leb c 0x7ff then 2 else if leb c 0xffff then 3 else 4

abbrev pub len : Text → ℕ
len [] = 0
len (c ∷ s) = len_utf8 c + len s

-- `s.contains(p)`
abbrev pub contains_sub : Text → Text → Bool
contains_sub p [] = is_empty p
contains_sub p (c ∷ s) = is_some_text (strip_prefix p (c ∷ s)) || contains_sub p s

lines_test : lines (codes "a\r\n\nb") ≡ codes "a" ∷ [] ∷ codes "b" ∷ []
unfolding lines
lines_test = refl

trim_test : trim (codes "  a b\t") ≡ codes "a b"
unfolding trim
trim_test = refl

abbrev starts_word : Text → Bool
starts_word [] = false
starts_word (c ∷ s) = not (is_whitespace c)

-- `s.split_whitespace()`
unfoldable pub words : Text → List Text
unfolding is_whitespace
words [] = []
words (c ∷ s) =
    let rest = words s in
    if is_whitespace c then rest else if starts_word s then push_first c rest else (c ∷ []) ∷ rest

words_test : words (codes " ab  c\td ") ≡ codes "ab" ∷ codes "c" ∷ codes "d" ∷ []
unfolding words
words_test = refl
