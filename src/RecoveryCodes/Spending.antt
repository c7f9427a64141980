-- ===== src/RecoveryCodes/Spending.antt =====
-- What spending a recovery code changes (crates/pier-core/src/auth/totp.rs).
use pier.Base.{
  Text, not, ◌&&◌, none, some, List, [], ◌∷◌, text_eq, text_eq_iff, if◌then◌else◌, keep, is_some,
  ◌≡◌, inl, inr, refl, sym, ap, ◌∙◌, arith, Bool-cases, Option-cases, subst,
}
use pier.NetHelper.Protocol.{contains_text}
use pier.RecoveryCodes.{Libraries, hash_recovery_code, consume_hash, consume_recovery_code}

contains_text-keep :
    (target a : Text) (hashes : List Text)
    → contains_text (keep (λ h. not (text_eq h target)) hashes) a
      ≡ (contains_text hashes a && not (text_eq a target))
contains_text-keep target a [] = refl
contains_text-keep target a (h ∷ hs) = ground (
  arith,
  contains_text-keep target a hs,
  text_eq_iff h target,
  text_eq_iff h a,
  text_eq_iff a target,
)

module _ (lib : Libraries) where
  -- A list that is written can be read back.
  abbrev pub ReadsBack : Type 0
  ReadsBack =
      (xs : List Text) → (s : Text) × (lib.to_string xs ≡ some s) × (lib.from_str s ≡ some xs)

  consume_hash-is_some :
      (target : Text) (hashes : List Text)
      → ReadsBack
      → is_some (consume_hash lib target (some hashes)) ≡ contains_text hashes target
  consume_hash-is_some target hashes back =
      let (s, e, _) = back (keep (λ h. not (text_eq h target)) hashes) in
      elim (Bool-cases (contains_text hashes target)) [
        | inl found ↦ rw found (rw e refl)
        | inr missing ↦ rw missing refl
      ]

  none_lem : (rest : Text) → none ≡ some rest → ⊥
  none_lem rest e = cc

  unread_lem : (rest target : Text) → consume_hash lib target none ≡ some rest → ⊥
  unread_lem rest target e = cc

  -- What was written back is the list without the hash.
  consume_hash-rest :
      (rest target : Text) (hashes : List Text)
      → ReadsBack
      → consume_hash lib target (some hashes) ≡ some rest
      → lib.from_str rest ≡ some (keep (λ h. not (text_eq h target)) hashes)
  consume_hash-rest rest target hashes back e =
      let (s, written, read) = back (keep (λ h. not (text_eq h target)) hashes) in
      elim (Bool-cases (contains_text hashes target)) [
        | inl found ↦
            let same : some s ≡ some rest =
              sym written
              ∙ subst
                  (λ b.
                    (if not b
                      then none
                      else lib.to_string (keep (λ h. not (text_eq h target)) hashes))
                    ≡ some rest)
                  found e in
            let equal : s ≡ rest = cc in
            subst (λ t. lib.from_str t ≡ some (keep (λ h. not (text_eq h target)) hashes)) equal
              read
        | inr missing ↦
            let no : (none ≡ some rest) =
              subst
                (λ b.
                  (if not b
                    then none
                    else lib.to_string (keep (λ h. not (text_eq h target)) hashes))
                  ≡ some rest)
                missing e in
            absurd (none_lem rest no)
      ]

  -- Once a code is spent, exactly the codes with its hash stop being accepted, where a list that is
  -- written can be read back.
  pub consume_recovery_code-is_some :
      (stored_json rest provided other : Text)
      → ReadsBack
      → consume_recovery_code lib stored_json provided ≡ some rest
      → is_some (consume_recovery_code lib rest other) ≡ (
          is_some (consume_recovery_code lib stored_json other)
          && not (text_eq (hash_recovery_code lib other) (hash_recovery_code lib provided)))
  unfolding consume_recovery_code
  consume_recovery_code-is_some stored_json rest provided other back e =
      elim (Option-cases (lib.from_str stored_json)) [
        | inl unread ↦ absurd (
            unread_lem rest (hash_recovery_code lib provided) (
              subst (λ o. consume_hash lib (hash_recovery_code lib provided) o ≡ some rest) unread
                e))
        | inr (hashes, read) ↦
            let target = hash_recovery_code lib provided in
            let a = hash_recovery_code lib other in
            let left =
              consume_hash-rest rest target hashes back
                (subst (λ o. consume_hash lib target o ≡ some rest) read e) in
            ap (λ o. is_some (consume_hash lib a o)) left
            ∙ consume_hash-is_some a (keep (λ h. not (text_eq h target)) hashes) back
            ∙ contains_text-keep target a hashes
            ∙ ap (λ b. b && not (text_eq a target))
                (sym (
                  ap (λ o. is_some (consume_hash lib a o)) read
                  ∙ consume_hash-is_some a hashes back))
      ]
