-- ===== src/ImageGc/Declared.antt =====
-- How a service stands in a compose file, described by the lines of the file, and that
-- `compose_declares_service` (crates/pier-core/src/docker/image_gc.rs) finds it.
use pier.Base.{
  ℕ, zero, suc, ◌+◌, ◌-◌, Text, Bool, true, false, not, ◌&&◌, Option, none, some, List, [], ◌∷◌,
  ◌++◌, codes, is_empty, trim, trim_start, trim_end, is_whitespace, lines, starts_with, ends_with,
  drop_last, len, ◌==◌, ◌≡◌, refl, ap, ◌∙◌, arith,
}
use pier.ImageGc.Compose.{
  strip_colon, names, declare_line, scan_line, declares_from, compose_declares_service,
}
use pier.ImageGc.Written.{
  spaces, is_solid, text_eq_refl, trim_start-spaces, trim-solid, trim_end-append, is_empty-append,
}

-- A character that a key may start with.
abbrev pub starts_key : ℕ → Bool
starts_key c = not (is_whitespace c) && not (c == b'#')

-- Lines under `services:` where every key is indented by `n` spaces or more, and the first by `n`; `seen`
-- says whether a key stands before them.
pub data IsBlock (n : ℕ) : Bool → List Text → Type 0 where
  done : (seen : Bool) → IsBlock n seen []
  blank :
      (m : ℕ) (seen : Bool) (ls : List Text) → IsBlock n seen ls → IsBlock n seen (spaces m ∷ ls)
  comment :
      (m : ℕ) (t : Text) (seen : Bool) (ls : List Text)
      → IsBlock n seen ls
      → IsBlock n seen ((spaces m ++ b'#' ∷ t) ∷ ls)
  first :
      (c : ℕ) (t : Text) (ls : List Text)
      → starts_key c ≡ true
      → IsBlock n true ls
      → IsBlock n false ((spaces n ++ c ∷ t) ∷ ls)
  deeper :
      (k c : ℕ) (t : Text) (ls : List Text)
      → starts_key c ≡ true
      → IsBlock n true ls
      → IsBlock n true ((spaces (n + k) ++ c ∷ t) ∷ ls)

-- `services:` at the margin, then such lines, then the name with a colon, indented by `n + 1`.
pub record IsDeclared (compose svc : Text) : Type 0 where
  pub before : List Text
  pub body : List Text
  pub after : List Text
  pub n : ℕ
  pub stands :
      lines compose
      ≡ before ++ (codes "services:") ∷ (body ++ (spaces (suc n) ++ (svc ++ codes ":")) ∷ after)
  pub block : IsBlock (suc n) false body
  pub full : is_empty svc ≡ false
  pub solid : is_solid svc ≡ true
  pub no_comment : starts_with b'#' svc ≡ false

len-spaces : (n : ℕ) (s : Text) → len (spaces n ++ s) ≡ n + len s
len-spaces zero s = omega arith
len-spaces (suc n) s = ground (arith, len-spaces n s)

trim_end-key :
    (m c : ℕ) (t : Text)
    → is_whitespace c ≡ false
    → trim_end (spaces m ++ c ∷ t) ≡ spaces m ++ c ∷ trim_end t
unfolding trim_end
trim_end-key zero c t h = ground (arith, h)
trim_end-key (suc m) c t h =
    rw (trim_end-key m c t h) (rw (is_empty-append (spaces m) (c ∷ trim_end t) refl) refl)

trim_end-spaces : (m : ℕ) → trim_end (spaces m) ≡ []
unfolding trim_end is_whitespace
trim_end-spaces zero = refl
trim_end-spaces (suc m) = rw (trim_end-spaces m) refl

trim_start-key : (c : ℕ) (t : Text) → is_whitespace c ≡ false → trim_start (c ∷ t) ≡ c ∷ t
unfolding trim_start
trim_start-key c t h = rw h refl

module _ (svc : Text) where
  scan_line-key :
      (m c : ℕ) (t : Text) (st : Bool) (ind : Option ℕ)
      → starts_key c ≡ true
      → scan_line svc st ind (spaces m ++ c ∷ t) ≡ declare_line svc st ind m (c ∷ trim_end t)
  unfolding scan_line
  scan_line-key m c t st ind h =
      let visible : is_whitespace c ≡ false = ground (arith, h) in
      let no_hash : c == b'#' ≡ false = ground (arith, h) in
      let width : len (spaces m ++ c ∷ trim_end t) - len (c ∷ trim_end t) ≡ m =
        omega (arith, len-spaces m (c ∷ trim_end t)) in
      rw
        (
          trim_end-key m c t visible,
          trim_start-spaces m (c ∷ trim_end t),
          trim_start-key c (trim_end t) visible,
          no_hash,
          width,
        )
        refl

  scan_line-blank :
      (m : ℕ) (st : Bool) (ind : Option ℕ) → scan_line svc st ind (spaces m) ≡ ((st, ind), false)
  unfolding scan_line trim_start
  scan_line-blank m st ind = rw (trim_end-spaces m) refl

  scan_line-comment :
      (m : ℕ) (t : Text) (st : Bool) (ind : Option ℕ)
      → scan_line svc st ind (spaces m ++ b'#' ∷ t) ≡ ((st, ind), false)
  unfolding scan_line is_whitespace
  scan_line-comment m t st ind =
      rw (trim_end-key m b'#' t refl, trim_start-spaces m (b'#' ∷ trim_end t)) refl

  -- One round, by what the line gives.
  declares_from-line :
      (st st' : Bool) (ind ind' : Option ℕ) (line : Text) (rest : List Text) (d : Bool)
      → scan_line svc st ind line ≡ ((st', ind'), d)
      → declares_from svc st' ind' rest ≡ true
      → declares_from svc st ind (line ∷ rest) ≡ true
  unfolding declares_from
  declares_from-line st st' ind ind' line rest d e h = rw e (ground (arith, h))

  declares_from-before :
      (before rest : List Text) (st : Bool) (ind : Option ℕ)
      → ((st' : Bool) (ind' : Option ℕ) → declares_from svc st' ind' rest ≡ true)
      → declares_from svc st ind (before ++ rest) ≡ true
  declares_from-before [] rest st ind h = h st ind
  declares_from-before (line ∷ before) rest st ind h =
      let ((st', ind'), d) = scan_line svc st ind line in
      declares_from-line st st' ind ind' line (before ++ rest) d refl
        (declares_from-before before rest st' ind' h)

  abbrev indent_of : ℕ → Bool → Option ℕ
  indent_of n false = none
  indent_of n true = some n

  declare_line-first :
      (n : ℕ) (body : Text)
      → declare_line svc true none (suc n) body
        ≡ ((true, some (suc n)), names svc (strip_colon body))
  declare_line-first n body = let inside : suc n == 0 ≡ false = ground arith in rw inside refl

  declare_line-deeper :
      (n k : ℕ) (body : Text)
      → declare_line svc true (some (suc n)) (suc n + k) body
        ≡ ((true, some (suc n)), (suc n + k) == suc n && names svc (strip_colon body))
  declare_line-deeper n k body =
      let inside : (suc n + k) == 0 ≡ false = ground arith in rw inside refl

  key_found :
      (n : ℕ) (seen : Bool) (body : Text)
      → strip_colon body ≡ some svc
      → trim svc ≡ svc
      → declare_line svc true (indent_of (suc n) seen) (suc n) body ≡ ((true, some (suc n)), true)
  key_found n false body e f = declare_line-first n body ∙ rw (e, f, text_eq_refl svc) refl
  key_found n true body e f =
      let inside : suc n == 0 ≡ false = ground arith in
      let same : suc n == suc n ≡ true = ground arith in
      rw (inside, same, e, f, text_eq_refl svc) refl

  declares_from-block :
      (n : ℕ) (seen : Bool) (body rest : List Text)
      → IsBlock (suc n) seen body
      → ((seen' : Bool) → declares_from svc true (indent_of (suc n) seen') rest ≡ true)
      → declares_from svc true (indent_of (suc n) seen) (body ++ rest) ≡ true
  declares_from-block n seen [] rest (done _) h = h seen
  declares_from-block n seen _ rest (blank m _ ls b) h =
      declares_from-line true true (indent_of (suc n) seen) (indent_of (suc n) seen) (spaces m)
        (ls ++ rest) false (scan_line-blank m true (indent_of (suc n) seen))
        (declares_from-block n seen ls rest b h)
  declares_from-block n seen _ rest (comment m t _ ls b) h =
      declares_from-line true true (indent_of (suc n) seen) (indent_of (suc n) seen)
        (spaces m ++ b'#' ∷ t) (ls ++ rest) false
        (scan_line-comment m t true (indent_of (suc n) seen))
        (declares_from-block n seen ls rest b h)
  declares_from-block n false _ rest (first c t ls k b) h =
      declares_from-line true true none (some (suc n)) (spaces (suc n) ++ c ∷ t) (ls ++ rest)
        (names svc (strip_colon (c ∷ trim_end t)))
        (scan_line-key (suc n) c t true none k ∙ declare_line-first n (c ∷ trim_end t))
        (declares_from-block n true ls rest b h)
  declares_from-block n true _ rest (deeper k c t ls key b) h =
      declares_from-line true true (some (suc n)) (some (suc n)) (spaces (suc n + k) ++ c ∷ t)
        (ls ++ rest) ((suc n + k) == suc n && names svc (strip_colon (c ∷ trim_end t)))
        (scan_line-key (suc n + k) c t true (some (suc n)) key
          ∙ declare_line-deeper n k (c ∷ trim_end t))
        (declares_from-block n true ls rest b h)

  strip_colon-append : (s : Text) → strip_colon (s ++ codes ":") ≡ some s
  strip_colon-append s = rw (ends s, drops s) refl
    where
      ends : (s : Text) → ends_with b':' (s ++ codes ":") ≡ true
      ends [] = refl
      ends (c ∷ []) = refl
      ends (c ∷ d ∷ s) = ends (d ∷ s)

      drops : (s : Text) → drop_last (s ++ codes ":") ≡ s
      drops [] = refl
      drops (c ∷ []) = refl
      drops (c ∷ d ∷ s) = ap (λ t. c ∷ t) (drops (d ∷ s))

  margin :
      (st : Bool) (ind : Option ℕ)
      → scan_line svc st ind (codes "services:") ≡ ((true, none), false)
  unfolding scan_line is_whitespace
  margin st ind = refl

declares_from-key :
    (svc : Text) (n : ℕ) (seen : Bool) (after : List Text)
    → is_empty svc ≡ false
    → is_solid svc ≡ true
    → starts_with b'#' svc ≡ false
    → declares_from svc true
        (indent_of svc (suc n) seen)
        ((spaces (suc n) ++ (svc ++ codes ":")) ∷ after)
      ≡ true
unfolding declares_from is_whitespace
declares_from-key [] n seen after full h no_comment = cc
declares_from-key (c ∷ s) n seen after full h no_comment =
    let svc = c ∷ s in
    let end : trim_end (s ++ codes ":") ≡ s ++ codes ":" =
      trim_end-append s (codes ":") refl refl in
    let line : scan_line svc true (indent_of svc (suc n) seen)
          (spaces (suc n) ++ (svc ++ codes ":"))
        ≡ ((true, some (suc n)), true) =
      scan_line-key svc (suc n) c (s ++ codes ":") true (indent_of svc (suc n) seen)
        (ground (arith, h, no_comment))
      ∙ ap (λ t. declare_line svc true (indent_of svc (suc n) seen) (suc n) (c ∷ t)) end
      ∙ key_found svc n seen (svc ++ codes ":") (strip_colon-append svc svc) (trim-solid svc h) in
    rw line refl

pub compose_declares_service-IsDeclared :
    (compose svc : Text) → IsDeclared compose svc → compose_declares_service compose svc ≡ true
unfolding compose_declares_service
compose_declares_service-IsDeclared compose svc d =
    let key = (spaces (suc d.n) ++ (svc ++ codes ":")) ∷ d.after in
    rw d.stands (
      declares_from-before svc d.before (codes "services:" ∷ (d.body ++ key)) false none λ st ind.
        declares_from-line svc st true ind none (codes "services:") (d.body ++ key) false
          (margin svc st ind)
          (declares_from-block svc d.n false d.body key d.block
            λ seen. declares_from-key svc d.n seen d.after d.full d.solid d.no_comment))
