-- ===== src/NetHelper/Protocol/Grammar.antt =====
-- The grammar of the configurations that the helper accepts.
use pier.Base.{
  ℕ, ◌+◌, Text, Bool, true, false, some, List, [], ◌∷◌, codes, ◌≡◌, ◌↔◌, ◌⊎◌, refl, text_eq_iff,
  inner, trim, split_once, lines, ok, arith, Option-cases, Bool-cases, inl, inr,
}
use pier.Base.{sym, subst, is_ok, >>=-eq-ok, Result-cases}
use pier.NetHelper.Protocol.{
  Section, no_section, interface, peer, contains_text, allowed_interface, allowed_peer,
  section_named, check_key, is_skipped, is_header, is_private_key, validate_line, validate_from,
  validate_wg_config_inner,
}

-- The keys that a section admits.
abbrev pub Admits : Bool → Section → Text → Type 0
Admits forbid no_section key = ⊥
Admits forbid interface key =
    (contains_text allowed_interface key ≡ true) × (forbid ≡ true → is_private_key key ≡ false)
Admits forbid peer key = contains_text allowed_peer key ≡ true

-- A trimmed line, between the section before it and the section after it.
pub data Line (forbid : Bool) : Section → Text → Section → Type 0 where
  skipped : (s : Section) (line : Text) → is_skipped line ≡ true → Line forbid s line s
  header_interface :
      (s : Section) (line : Text)
      → is_skipped line ≡ false
      → is_header line ≡ true
      → inner line ≡ codes "Interface"
      → Line forbid s line interface
  header_peer :
      (s : Section) (line : Text)
      → is_skipped line ≡ false
      → is_header line ≡ true
      → inner line ≡ codes "Peer"
      → Line forbid s line peer
  directive :
      (s : Section) (line key value : Text)
      → is_skipped line ≡ false
      → is_header line ≡ false
      → split_once b'=' line ≡ some (key, value)
      → Admits forbid s (trim key)
      → Line forbid s line s

pub data IsWellFormed (forbid : Bool) : Section → List Text → Section → Type 0 where
  done : (s : Section) → IsWellFormed forbid s [] s
  next :
      {s t u : Section} (raw : Text) (rest : List Text)
      → Line forbid s (trim raw) t
      → IsWellFormed forbid t rest u
      → IsWellFormed forbid s (raw ∷ rest) u

check_key-Admits :
    (forbid : Bool) (s t : Section) (key : Text) (n : ℕ)
    → check_key forbid s key n ≡ ok t
    → Admits forbid s key × (t ≡ s)
unfolding check_key
check_key-Admits forbid no_section t key n h = cc
check_key-Admits forbid interface t key n h = ground arith
check_key-Admits forbid peer t key n h = ground arith

Admits-check_key :
    (forbid : Bool) (s : Section) (key : Text) (n : ℕ)
    → Admits forbid s key
    → check_key forbid s key n ≡ ok s
unfolding check_key
Admits-check_key forbid no_section key n h = absurd h
Admits-check_key forbid interface key n h = ground arith
Admits-check_key forbid peer key n h = ground arith

section_named-cases :
    (name : Text) (n : ℕ) (t : Section)
    → section_named name n ≡ ok t
    → ((name ≡ codes "Interface") × (t ≡ interface)) ⊎ ((name ≡ codes "Peer") × (t ≡ peer))
unfolding section_named
section_named-cases name n t h =
    ground (arith, text_eq_iff name (codes "Interface"), text_eq_iff name (codes "Peer"))

validate_line-Line :
    (forbid : Bool) (s t : Section) (n : ℕ) (line : Text)
    → validate_line forbid s n line ≡ ok t
    → Line forbid s line t
unfolding validate_line
validate_line-Line forbid s t n line h = elim (Bool-cases (is_skipped line)) [
  | inl skip ↦
      let e : s ≡ t = ground arith in subst (λ x. Line forbid s line x) e (skipped s line skip)
  | inr more ↦ elim (Bool-cases (is_header line)) [
    | inl head ↦ elim (section_named-cases (inner line) n t (rw (more, head) at h)) [
      | inl (name, e) ↦
          subst (λ x. Line forbid s line x) (sym e) (header_interface s line more head name)
      | inr (name, e) ↦
          subst (λ x. Line forbid s line x) (sym e) (header_peer s line more head name)
    ]
    | inr body ↦ elim (Option-cases (split_once b'=' line)) [
      | inl e ↦ ground arith
      | inr ((key, value), e) ↦
          let (admits, same) = check_key-Admits forbid s t (trim key) n (rw (more, body, e) at h) in
          subst (λ x. Line forbid s line x) (sym same)
            (directive s line key value more body e admits)
    ]
  ]
]

Line-validate_line :
    (forbid : Bool) (s t : Section) (n : ℕ) (line : Text)
    → Line forbid s line t
    → validate_line forbid s n line ≡ ok t
unfolding validate_line
Line-validate_line forbid s t n line (skipped _ _ skip) = rw skip
Line-validate_line forbid s t n line (header_interface _ _ more head name) =
    rw (more, head, name) (unfold section_named in refl)
Line-validate_line forbid s t n line (header_peer _ _ more head name) =
    rw (more, head, name) (unfold section_named in refl)
Line-validate_line forbid s t n line (directive _ _ key value more body e admits) =
    rw (more, body, e) (Admits-check_key forbid s (trim key) n admits)

validate_from-IsWellFormed :
    (forbid : Bool) (s u : Section) (n : ℕ) (ls : List Text)
    → validate_from forbid s n ls ≡ ok u
    → IsWellFormed forbid s ls u
unfolding validate_from
validate_from-IsWellFormed forbid s u n [] h =
    let e : s ≡ u = ground arith in subst (λ x. IsWellFormed forbid s [] x) e (done s)
validate_from-IsWellFormed forbid s u n (raw ∷ rest) h =
    let (t, first_line, more) =
      >>=-eq-ok (validate_line forbid s n (trim raw)) (λ t. validate_from forbid t (n + 1) rest)
        h in
    next raw rest (validate_line-Line forbid s t n (trim raw) first_line)
      (validate_from-IsWellFormed forbid t u (n + 1) rest more)

pub IsWellFormed-validate_from :
    (forbid : Bool) (s u : Section) (n : ℕ) (ls : List Text)
    → IsWellFormed forbid s ls u
    → validate_from forbid s n ls ≡ ok u
unfolding validate_from
IsWellFormed-validate_from forbid s u n ls (done _) = refl
IsWellFormed-validate_from forbid s u n ls (next {t = t} raw rest l c) =
    rw (Line-validate_line forbid s t n (trim raw) l)
      (IsWellFormed-validate_from forbid t u (n + 1) rest c)

-- The validation accepts a text exactly when its lines form a configuration: blank lines and comments,
-- headers of the two known sections, and directives `key=value` whose key the current section admits;
-- over the wire no interface section has a `PrivateKey`.
pub validate_wg_config-IsWellFormed :
    (content : Text) (forbid : Bool)
    → (is_ok (validate_wg_config_inner content forbid) ≡ true)
      ↔ ((u : Section) × IsWellFormed forbid no_section (lines content) u)
unfolding validate_wg_config_inner
validate_wg_config-IsWellFormed content forbid = (
  λ h. elim (Result-cases (validate_from forbid no_section 1 (lines content))) [
    | inl (u, e) ↦ (u, validate_from-IsWellFormed forbid no_section u 1 (lines content) e)
    | inr (x, e) ↦ ground arith
  ],
  λ c. rw (IsWellFormed-validate_from forbid no_section c.0 1 (lines content) c.1),
)
