-- ===== src/Base/Lines.antt =====
-- Laws of `lines` and `trim`.
use Prim.Native.Nat.{ℕ}
use mathlib.Core.Path.{◌≡◌, refl, sym, ap, ◌∙◌}
use mathlib.Core.Logic.{◌⊎◌, inl, inr}
use mathlib.Core.Bool.{true, false, ◌&&◌}
use mathlib.Core.List.{List, [], ◌∷◌, ◌++◌}
use native.Mathlib.Omega.{arith}
use pier.Base.Tests.{if◌then◌else◌, ◌==◌, Bool-cases}
use pier.Base.Lists.{All}
use pier.Base.Texts.{
  Text, lines, trim, trim_start, trim_end, is_whitespace, contains_char, push_first, starts_with,
}

-- A line as `lines` gives it back: without a "\r" at its end.
abbrev pub strip_cr : Text → Text
strip_cr [] = []
strip_cr (c ∷ []) = if c == 13 then [] else c ∷ []
strip_cr (c ∷ d ∷ s) = c ∷ strip_cr (d ∷ s)

pub lines-line :
    (l rest : Text) → contains_char 10 l ≡ false → lines (l ++ 10 ∷ rest) ≡ strip_cr l ∷ lines rest
unfolding lines
lines-line [] rest h = refl
lines-line (c ∷ []) rest h = ground arith
lines-line (c ∷ d ∷ s) rest h = ground (arith, lines-line (d ∷ s) rest)

push_first-clean :
    (c : ℕ) (ls : List Text)
    → (c == 10) ≡ false
    → All (λ l. contains_char 10 l ≡ false) ls
    → All (λ l. contains_char 10 l ≡ false) (push_first c ls)
push_first-clean c [] h a = ground arith
push_first-clean c (l ∷ ls) h a = ground arith

pub lines_clean : (s : Text) → All (λ l. contains_char 10 l ≡ false) (lines s)
unfolding lines
lines_clean [] = tt
lines_clean (c ∷ s) = elim (Bool-cases (c == 10)) [
  | inl e ↦ rw e (refl, lines_clean s)
  | inr e ↦ rw e (elim (Bool-cases (c == 13 && starts_with 10 s)) [
    | inl f ↦ rw f (lines_clean s)
    | inr f ↦ rw f (push_first-clean c (lines s) e (lines_clean s))
  ])
]

pub trim_end-blank :
    (s : Text) (w : ℕ) → is_whitespace w ≡ true → trim_end (s ++ w ∷ []) ≡ trim_end s
unfolding trim_end
trim_end-blank [] w h = ground arith
trim_end-blank (c ∷ s) w h = rw (trim_end-blank s w h)

trim_start-blank :
    (s : Text) (w : ℕ)
    → is_whitespace w ≡ true
    → (trim_start (s ++ w ∷ []) ≡ trim_start s ++ w ∷ [])
      ⊎ ((trim_start s ≡ []) × (trim_start (s ++ w ∷ []) ≡ []))
unfolding trim_start
trim_start-blank [] w h = ground arith
trim_start-blank (c ∷ s) w h = ground (arith, trim_start-blank s w h)

trim-blank : (s : Text) (w : ℕ) → is_whitespace w ≡ true → trim (s ++ w ∷ []) ≡ trim s
unfolding trim
trim-blank s w h = elim (trim_start-blank s w h) [
  | inl e ↦ rw e (trim_end-blank (trim_start s) w h)
  | inr (e, f) ↦ rw (e, f)
]

strip_cr-cases : (l : Text) → (strip_cr l ≡ l) ⊎ (l ≡ strip_cr l ++ 13 ∷ [])
strip_cr-cases [] = inl refl
strip_cr-cases (c ∷ []) = ground arith
strip_cr-cases (c ∷ d ∷ s) = elim (strip_cr-cases (d ∷ s)) [
  | inl e ↦ inl (ap (λ t. c ∷ t) e)
  | inr e ↦ inr (ap (λ t. c ∷ t) e)
]

pub trim-strip_cr : (l : Text) → trim (strip_cr l) ≡ trim l
trim-strip_cr l = elim (strip_cr-cases l) [
  | inl e ↦ ap trim e
  | inr e ↦ sym (ap trim e ∙ trim-blank (strip_cr l) 13 (unfold is_whitespace in refl))
]
