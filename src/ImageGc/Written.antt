-- ===== src/ImageGc/Written.antt =====
-- How an image is written in a compose file, described by the text of the line, and that
-- `compose_image_refs` (crates/pier-core/src/docker/image_gc.rs) reads it.
use pier.Base.{
  ℕ, zero, suc, Text, Bool, true, false, not, ◌&&◌, ◌||◌, none, List, [], ◌∷◌, ◌++◌, codes, text_eq,
  text_eq_iff, is_empty, trim, trim_start, trim_end, is_whitespace, lines, contains_char,
  rsplit_once, trim_start_matches, trim_end_matches, ◌==◌, IsRow, ◌≡◌, inl, inr, refl, ap, ◌∙◌,
  subst, arith, Bool-cases,
}
use pier.NetHelper.Protocol.{contains_text}
use pier.ImageGc.Compose.{
  is_quote, image_value, push_image, untagged, line_images, images_from, compose_image_refs,
}

pub contains_text-append :
    (xs ys : List Text) (a : Text)
    → contains_text (xs ++ ys) a ≡ (contains_text xs a || contains_text ys a)
contains_text-append [] ys a = refl
contains_text-append (x ∷ xs) ys a = ground (arith, contains_text-append xs ys a)

pub text_eq_refl : (s : Text) → text_eq s s ≡ true
text_eq_refl s = (text_eq_iff s s).1 refl

abbrev pub spaces : ℕ → Text
spaces zero = []
spaces (suc n) = 32 ∷ spaces n

-- The characters of a name that is written out: no blank, no quote and no `$`.
abbrev pub is_plain : Text → Bool
is_plain [] = true
is_plain (c ∷ s) =
    not (is_whitespace c) && not (c == b'"') && not (c == b'\'') && not (c == b'$') && is_plain s

-- `image: name`, indented, with or without quotes and with nothing behind it.
pub data IsImageLine (name : Text) : Text → Type 0 where
  bare : (n : ℕ) → IsImageLine name (spaces n ++ (codes "image: " ++ name))
  single :
      (n : ℕ) → IsImageLine name (spaces n ++ (codes "image: " ++ b'\'' ∷ (name ++ b'\'' ∷ [])))
  double : (n : ℕ) → IsImageLine name (spaces n ++ (codes "image: " ++ b'"' ∷ (name ++ b'"' ∷ [])))

-- The compose file names the tag, or names its image without a version and the tag is the latest.
pub data IsWritten (compose tag : Text) : Type 0 where
  as_it_is :
      (line : Text)
      → IsRow line (lines compose)
      → IsImageLine tag line
      → is_empty tag ≡ false
      → is_plain tag ≡ true
      → IsWritten compose tag
  as_latest :
      (line name : Text)
      → IsRow line (lines compose)
      → IsImageLine name line
      → is_empty name ≡ false
      → is_plain name ≡ true
      → contains_char b':' name ≡ false
      → tag ≡ name ++ codes ":latest"
      → IsWritten compose tag

abbrev pub is_solid : Text → Bool
is_solid [] = true
is_solid (c ∷ s) = not (is_whitespace c) && is_solid s

is_plain-solid : (s : Text) → is_plain s ≡ true → is_solid s ≡ true
is_plain-solid [] h = refl
is_plain-solid (c ∷ s) h = ground (arith, h, is_plain-solid s)

pub is_solid-append : (s t : Text) → is_solid (s ++ t) ≡ (is_solid s && is_solid t)
is_solid-append [] t = refl
is_solid-append (c ∷ s) t = ground (arith, is_solid-append s t)

pub is_empty-append : (s t : Text) → is_empty t ≡ false → is_empty (s ++ t) ≡ false
is_empty-append [] t h = h
is_empty-append (c ∷ s) t h = refl

pub trim_end-solid : (v : Text) → is_solid v ≡ true → trim_end v ≡ v
unfolding trim_end
trim_end-solid [] h = refl
trim_end-solid (c ∷ v) h = rw (trim_end-solid v (ground (arith, h))) (ground (arith, h))

pub trim_end-append :
    (s v : Text) → is_empty v ≡ false → is_solid v ≡ true → trim_end (s ++ v) ≡ s ++ v
unfolding trim_end
trim_end-append [] v e h = trim_end-solid v h
trim_end-append (c ∷ s) v e h = rw (trim_end-append s v e h) (rw (is_empty-append s v e) refl)

pub trim_start-spaces : (n : ℕ) (s : Text) → trim_start (spaces n ++ s) ≡ trim_start s
unfolding trim_start is_whitespace
trim_start-spaces zero s = refl
trim_start-spaces (suc n) s = trim_start-spaces n s

trim_start-solid : (v : Text) → is_solid v ≡ true → trim_start v ≡ v
unfolding trim_start
trim_start-solid [] h = refl
trim_start-solid (c ∷ v) h = ground (arith, h)

pub trim-solid : (v : Text) → is_solid v ≡ true → trim v ≡ v
unfolding trim
trim-solid v h = ap trim_end (trim_start-solid v h) ∙ trim_end-solid v h

trim_start_matches-plain :
    (s t : Text)
    → is_empty s ≡ false
    → is_plain s ≡ true
    → trim_start_matches is_quote (s ++ t) ≡ s ++ t
unfolding trim_start_matches
trim_start_matches-plain [] t e h = cc
trim_start_matches-plain (c ∷ s) t e h = ground (arith, h)

trim_end_matches-plain : (s : Text) → is_plain s ≡ true → trim_end_matches is_quote s ≡ s
unfolding trim_end_matches
trim_end_matches-plain [] h = refl
trim_end_matches-plain (c ∷ s) h =
    rw (trim_end_matches-plain s (ground (arith, h))) (ground (arith, h))

trim_end_matches-quote :
    (s : Text) (q : ℕ)
    → is_quote q ≡ true
    → trim_end_matches is_quote (s ++ q ∷ []) ≡ trim_end_matches is_quote s
unfolding trim_end_matches
trim_end_matches-quote [] q h = ground (arith, h)
trim_end_matches-quote (c ∷ s) q h = rw (trim_end_matches-quote s q h) refl

append-nil_text : (s : Text) → s ++ [] ≡ s
append-nil_text [] = refl
append-nil_text (c ∷ s) = ap (λ t. c ∷ t) (append-nil_text s)

trim-value : (v : Text) → is_solid v ≡ true → trim (32 ∷ v) ≡ v
unfolding trim
trim-value v h = ap trim_end (trim_start-spaces 1 v ∙ trim_start-solid v h) ∙ trim_end-solid v h

trim_start-image : (v : Text) → trim_start (codes "image: " ++ v) ≡ codes "image: " ++ v
unfolding trim_start is_whitespace
trim_start-image v = refl

trim-line :
    (n : ℕ) (v : Text)
    → is_empty v ≡ false
    → is_solid v ≡ true
    → trim (spaces n ++ (codes "image: " ++ v)) ≡ codes "image: " ++ v
unfolding trim
trim-line n v full h =
    let start : trim_start (spaces n ++ (codes "image: " ++ v)) ≡ codes "image: " ++ v =
      trim_start-spaces n (codes "image: " ++ v) ∙ trim_start-image v in
    let end : trim_end (codes "image: " ++ v) ≡ codes "image: " ++ v =
      trim_end-append (codes "image: ") v full h in
    rw start end

line_images-value :
    (n : ℕ) (v : Text)
    → is_empty v ≡ false
    → is_solid v ≡ true
    → line_images (spaces n ++ (codes "image: " ++ v)) ≡ push_image (image_value (32 ∷ v))
line_images-value n v full h = rw (trim-line n v full h) refl

no_dollar : (s : Text) → is_plain s ≡ true → contains_char b'$' s ≡ false
no_dollar [] h = refl
no_dollar (c ∷ s) h = ground (arith, h, no_dollar s)

pub rsplit_once-none : (s : Text) → contains_char b':' s ≡ false → rsplit_once b':' s ≡ none
unfolding rsplit_once
rsplit_once-none [] h = refl
rsplit_once-none (c ∷ s) h = rw (rsplit_once-none s (ground (arith, h))) (ground (arith, h))

-- What is left of a value.
module _ (name : Text) (full : is_empty name ≡ false) (plain : is_plain name ≡ true) where
  solid : is_solid name ≡ true
  solid = is_plain-solid name plain

  quoted-solid : (q : ℕ) → is_quote q ≡ true → is_solid (q ∷ (name ++ q ∷ [])) ≡ true
  unfolding is_whitespace
  quoted-solid q quote = ground (arith, quote, solid, is_solid-append name (q ∷ []))

  unquoted : trim (trim_end_matches is_quote (trim_start_matches is_quote name)) ≡ name
  unquoted =
      let start : trim_start_matches is_quote name ≡ name =
        subst (λ z. trim_start_matches is_quote z ≡ z) (append-nil_text name)
          (trim_start_matches-plain name [] full plain) in
      ap (λ z. trim (trim_end_matches is_quote z)) start
      ∙ ap trim (trim_end_matches-plain name plain)
      ∙ trim-solid name solid

  image_value-bare : image_value (32 ∷ name) ≡ name
  image_value-bare =
      ap (λ z. trim (trim_end_matches is_quote (trim_start_matches is_quote z)))
        (trim-value name solid)
      ∙ unquoted

  image_value-quoted : (q : ℕ) → is_quote q ≡ true → image_value (32 ∷ q ∷ (name ++ q ∷ [])) ≡ name
  unfolding trim_start_matches
  image_value-quoted q quote =
      let value = q ∷ (name ++ q ∷ []) in
      let start : trim_start_matches is_quote value ≡ name ++ q ∷ [] =
        rw quote (trim_start_matches-plain name (q ∷ []) full plain) in
      ap (λ z. trim (trim_end_matches is_quote (trim_start_matches is_quote z)))
        (trim-value value (quoted-solid q quote))
      ∙ ap (λ z. trim (trim_end_matches is_quote z)) start
      ∙ ap trim (trim_end_matches-quote name q quote ∙ trim_end_matches-plain name plain)
      ∙ trim-solid name solid

  named : contains_text (push_image name) name ≡ true
  named = elim (Bool-cases (untagged (rsplit_once b':' name))) [
    | inl e ↦ rw (full, no_dollar name plain, e) (ground (arith, text_eq_refl name))
    | inr e ↦ rw (full, no_dollar name plain, e) (ground (arith, text_eq_refl name))
  ]

  latest :
      contains_char b':' name ≡ false
      → contains_text (push_image name) (name ++ codes ":latest") ≡ true
  latest h =
      rw (full, no_dollar name plain, rsplit_once-none name h)
        (ground (arith, text_eq_refl (name ++ codes ":latest")))

  line_images-IsImageLine :
      (line : Text) → IsImageLine name line → line_images line ≡ push_image name
  line_images-IsImageLine line (bare n) =
      line_images-value n name full solid ∙ ap push_image image_value-bare
  line_images-IsImageLine line (single n) =
      line_images-value n (b'\'' ∷ (name ++ b'\'' ∷ [])) refl (quoted-solid b'\'' refl)
      ∙ ap push_image (image_value-quoted b'\'' refl)
  line_images-IsImageLine line (double n) =
      line_images-value n (b'"' ∷ (name ++ b'"' ∷ [])) refl (quoted-solid b'"' refl)
      ∙ ap push_image (image_value-quoted b'"' refl)

images_from-line :
    (ls : List Text) (line tag : Text)
    → IsRow line ls
    → contains_text (line_images line) tag ≡ true
    → contains_text (images_from ls) tag ≡ true
unfolding images_from
images_from-line [] line tag r h = absurd r
images_from-line (x ∷ xs) line tag r h =
    let both = contains_text-append (line_images x) (images_from xs) tag in
    elim r [
      | inl same ↦ ground (arith, both, ap (λ z. contains_text (line_images z) tag) same, h)
      | inr later ↦ ground (arith, both, images_from-line xs line tag later h)
    ]

pub compose_image_refs-IsWritten :
    (compose tag : Text)
    → IsWritten compose tag
    → contains_text (compose_image_refs compose) tag ≡ true
unfolding compose_image_refs
compose_image_refs-IsWritten compose tag (as_it_is line r l full plain) =
    images_from-line (lines compose) line tag r
      (rw (line_images-IsImageLine tag full plain line l) (named tag full plain))
compose_image_refs-IsWritten compose tag (as_latest line name r l full plain bare_name e) =
    images_from-line (lines compose) line tag r
      (rw (line_images-IsImageLine name full plain line l, e) (latest name full plain bare_name))
