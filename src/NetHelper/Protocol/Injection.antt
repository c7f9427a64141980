-- ===== src/NetHelper/Protocol/Injection.antt =====
-- The text with the node's private key in it still is a configuration.
use pier.Base.{
  ℕ, Text, Bool, true, false, List, [], ◌∷◌, ◌++◌, codes, ◌≡◌, refl, text_eq, text_eq_iff, trim,
  trim_start, trim_end, is_whitespace, split_once, lines, if◌then◌else◌, ok, arith, Bool-cases, inl,
  inr, strip_cr, lines-line, lines_clean, trim-strip_cr, sym, subst, ap, ◌∙◌, is_ok, any, All, map,
  contains_char,
}
use pier.NetHelper.Protocol.{
  Section, no_section, interface, peer, key_line, inject_from, finish, inject_private_key,
  validate_wg_config, validate_wg_config_no_privkey, allowed_interface,
}
use pier.NetHelper.Protocol.Grammar.{
  Admits, Line, skipped, header_interface, header_peer, directive, IsWellFormed, done, next,
  validate_wg_config-IsWellFormed,
}

IsWellFormed-strip_cr :
    (forbid : Bool) (s u : Section) (ls : List Text)
    → IsWellFormed forbid s ls u
    → IsWellFormed forbid s (map strip_cr ls) u
IsWellFormed-strip_cr forbid s u ls (done _) = done s
IsWellFormed-strip_cr forbid s u ls (next {t = t} raw rest l c) =
    next (strip_cr raw) (map strip_cr rest)
      (subst (λ x. Line forbid s x t) (sym (trim-strip_cr raw)) l)
      (IsWellFormed-strip_cr forbid t u rest c)

Admits-relax : (s : Section) (key : Text) → Admits true s key → Admits false s key
Admits-relax no_section key h = h
Admits-relax interface key h = (h.0, λ e. cc)
Admits-relax peer key h = h

Line-relax : (s t : Section) (line : Text) → Line true s line t → Line false s line t
Line-relax s t line (skipped _ _ a) = skipped s line a
Line-relax s t line (header_interface _ _ a b c) = header_interface s line a b c
Line-relax s t line (header_peer _ _ a b c) = header_peer s line a b c
Line-relax s t line (directive _ _ key value a b c d) =
    directive s line key value a b c (Admits-relax s (trim key) d)

IsWellFormed-relax :
    (s u : Section) (ls : List Text) → IsWellFormed true s ls u → IsWellFormed false s ls u
IsWellFormed-relax s u ls (done _) = done s
IsWellFormed-relax s u ls (next {t = t} raw rest l c) =
    next raw rest (Line-relax s t (trim raw) l) (IsWellFormed-relax t u rest c)

abbrev pub is_interface : Text → Bool
is_interface line = text_eq (trim line) (codes "[Interface]")

-- The lines with the key behind the first `[Interface]`.
abbrev pub insert_line : Text → List Text → List Text
insert_line key [] = []
insert_line key (l ∷ ls) = if is_interface l then l ∷ key_line key ∷ ls else l ∷ insert_line key ls

is_interface-Line :
    (s t : Section) (line : Text)
    → text_eq line (codes "[Interface]") ≡ true
    → Line false s line t
    → t ≡ interface
is_interface-Line s t line h l = go t (subst (λ x. Line false s x t) ((text_eq_iff line _).0 h) l)
  where
    go : (t : Section) → Line false s (codes "[Interface]") t → t ≡ interface
    go t (skipped _ _ a) = cc
    go t (header_interface _ _ a b c) = refl
    go t (header_peer _ _ a b c) =
        ground (arith, (text_eq_iff (codes "Interface") (codes "Peer")).1 c)
    go t (directive _ _ key value a b c d) = cc

pub trim_end-append :
    (p s : Text) (c : ℕ) → is_whitespace c ≡ false → trim_end (p ++ c ∷ s) ≡ p ++ c ∷ trim_end s
unfolding trim_end
trim_end-append [] s c h = ground arith
trim_end-append (d ∷ []) s c h = ground (arith, trim_end-append [] s c h)
trim_end-append (d ∷ e ∷ p) s c h = rw (trim_end-append (e ∷ p) s c h)

-- `PrivateKey = <key>` is `PrivateKey`, an equals sign and a value.
trim-key_line : (key : Text) → trim (key_line key) ≡ codes "PrivateKey =" ++ trim_end (32 ∷ key)
unfolding trim trim_start is_whitespace
trim-key_line key = trim_end-append (codes "PrivateKey ") (32 ∷ key) b'=' refl

key_line-Line : (key : Text) → Line false interface (trim (key_line key)) interface
key_line-Line key =
    subst (λ l. Line false interface l interface) (sym (trim-key_line key))
      (directive interface (codes "PrivateKey =" ++ trim_end (32 ∷ key)) (codes "PrivateKey ")
        (trim_end (32 ∷ key)) refl refl (unfold split_once in refl)
        (unfold allowed_interface trim trim_start trim_end is_whitespace in (refl, λ e. cc)))

IsWellFormed-insert_line :
    (key : Text) (s u : Section) (ls : List Text)
    → IsWellFormed true s ls u
    → IsWellFormed false s (insert_line key ls) u
IsWellFormed-insert_line key s u ls (done _) = done s
IsWellFormed-insert_line key s u ls (next {t = t} raw rest l c) =
    elim (Bool-cases (is_interface raw)) [
      | inl e ↦
          let l' = Line-relax s t (trim raw) l in
          let in_interface = is_interface-Line s t (trim raw) e l' in
          rw e (
            next raw (key_line key ∷ rest) l' (
              subst (λ x. IsWellFormed false x (key_line key ∷ rest) u) (sym in_interface)
                (next (key_line key) rest (key_line-Line key) (
                  subst (λ x. IsWellFormed false x rest u) in_interface
                    (IsWellFormed-relax t u rest c)))))
      | inr e ↦ rw e (
          next raw (insert_line key rest) (Line-relax s t (trim raw) l)
            (IsWellFormed-insert_line key t u rest c))
    ]

contains-key_line :
    (key : Text) → contains_char 10 key ≡ false → contains_char 10 (key_line key) ≡ false
contains-key_line key h = h

lines-inject_done :
    (key : Text) (ls : List Text)
    → All (λ l. contains_char 10 l ≡ false) ls
    → lines (inject_from key true ls).0 ≡ map strip_cr ls
unfolding inject_from
lines-inject_done key [] a = unfold lines in refl
lines-inject_done key (l ∷ ls) (h, a) =
    lines-line l (inject_from key true ls).0 h
    ∙ ap (λ t. strip_cr l ∷ t) (lines-inject_done key ls a)

-- The lines of the text that `inject_private_key` writes.
lines-inject_from :
    (key : Text) (ls : List Text)
    → contains_char 10 key ≡ false
    → All (λ l. contains_char 10 l ≡ false) ls
    → lines (inject_from key false ls).0 ≡ map strip_cr (insert_line key ls)
unfolding inject_from
lines-inject_from key [] k a = unfold lines in refl
lines-inject_from key (l ∷ ls) k (h, a) = elim (Bool-cases (is_interface l)) [
  | inl e ↦ rw e (
      lines-line l _ h
      ∙ ap (λ t. strip_cr l ∷ t)
          (lines-line (key_line key) _ (contains-key_line key k)
            ∙ ap (λ t. strip_cr (key_line key) ∷ t) (lines-inject_done key ls a)))
  | inr e ↦ rw e (lines-line l _ h ∙ ap (λ t. strip_cr l ∷ t) (lines-inject_from key ls k a))
]

inject_from-done : (key : Text) (ls : List Text) → (inject_from key true ls).1 ≡ true
unfolding inject_from
inject_from-done key [] = refl
inject_from-done key (l ∷ ls) = inject_from-done key ls

inject_from-flag :
    (key : Text) (ls : List Text) → (inject_from key false ls).1 ≡ any is_interface ls
unfolding inject_from
inject_from-flag key [] = refl
inject_from-flag key (l ∷ ls) = elim (Bool-cases (is_interface l)) [
  | inl e ↦ rw e (inject_from-done key ls)
  | inr e ↦ rw e (inject_from-flag key ls)
]

finish-true : (p : Text × Bool) → p.1 ≡ true → finish p ≡ ok p.0
finish-true (out, flag) h = rw h

finish-false : (p : Text × Bool) → p.1 ≡ false → is_ok (finish p) ≡ false
finish-false (out, flag) h = rw h

valid-inject :
    (content key : Text)
    → contains_char 10 key ≡ false
    → is_ok (validate_wg_config_no_privkey content) ≡ true
    → is_ok (validate_wg_config (inject_from key false (lines content)).0) ≡ true
unfolding validate_wg_config_no_privkey validate_wg_config
valid-inject content key k valid =
    let (u, c) = (validate_wg_config-IsWellFormed content true).0 valid in
    (validate_wg_config-IsWellFormed (inject_from key false (lines content)).0 false).1 (
      u,
      subst (λ ls. IsWellFormed false no_section ls u)
          (sym (lines-inject_from key (lines content) k (lines_clean content)))
          (IsWellFormed-strip_cr false no_section u (insert_line key (lines content))
            (IsWellFormed-insert_line key no_section u (lines content) c)),
    )

-- For a text that passed the validation over the wire and a key of one line: `inject_private_key` fails
-- exactly when no line of the text is `[Interface]`, up to blanks around it; otherwise the result has the
-- lines of the text with one more, `PrivateKey = <key>`, behind the first `[Interface]` (a "\r" at the end
-- of a line is lost), and it passes the whitelist of local configurations.
pub inject_private_key-IsWellFormed :
    (content key : Text)
    → contains_char 10 key ≡ false
    → is_ok (validate_wg_config_no_privkey content) ≡ true
    → (any is_interface (lines content) ≡ false → is_ok (inject_private_key content key) ≡ false)
      × (any is_interface (lines content) ≡ true
          → (out : Text) × (inject_private_key content key ≡ ok out)
            × (lines out ≡ map strip_cr (insert_line key (lines content)))
            × (is_ok (validate_wg_config out) ≡ true))
unfolding inject_private_key validate_wg_config_no_privkey validate_wg_config
inject_private_key-IsWellFormed content key k valid =
    let flag = inject_from-flag key (lines content) in
    (
      λ e. finish-false _ (flag ∙ e),
      λ e. (
        (inject_from key false (lines content)).0,
        finish-true _ (flag ∙ e),
        lines-inject_from key (lines content) k (lines_clean content),
        valid-inject content key k valid,
      ),
    )
