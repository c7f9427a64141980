-- ===== src/RecoveryCodes/Tests.antt =====
-- The recovery codes of a user (crates/pier-core/src/auth/totp.rs). The libraries are stood in for by a
-- digest that keeps the text and by lists with a separator.
use pier.Base.{ℕ, zero, suc, Text, false, some, List, [], ◌∷◌, ap, ◌∙◌, is_some, codes, ◌≡◌, refl}
use pier.RecoveryCodes.{Libraries, normalised, hash_recovery_code, consume_recovery_code}
use pier.RecoveryCodes.Spending.{ReadsBack, consume_recovery_code-is_some}

normalised_test : normalised (codes "abcd-EFGH 1234") ≡ codes "ABCDEFGH1234"
unfolding normalised
normalised_test = refl

-- Every character one up, and a zero behind each text.
abbrev write_text : Text → Text → Text
write_text [] rest = 0 ∷ rest
write_text (c ∷ t) rest = suc c ∷ write_text t rest

abbrev write_all : List Text → Text
write_all [] = []
write_all (t ∷ ts) = write_text t (write_all ts)

abbrev push : ℕ → List Text → List Text
push c [] = (c ∷ []) ∷ []
push c (t ∷ ts) = (c ∷ t) ∷ ts

abbrev read_all : Text → List Text
read_all [] = []
read_all (zero ∷ s) = [] ∷ read_all s
read_all (suc c ∷ s) = push c (read_all s)

read_all-write_text : (t rest : Text) → read_all (write_text t rest) ≡ t ∷ read_all rest
read_all-write_text [] rest = refl
read_all-write_text (c ∷ t) rest = ap (λ ts. push c ts) (read_all-write_text t rest)

read_all-write_all : (ts : List Text) → read_all (write_all ts) ≡ ts
read_all-write_all [] = refl
read_all-write_all (t ∷ ts) =
    read_all-write_text t (write_all ts) ∙ ap (λ xs. t ∷ xs) (read_all-write_all ts)

abbrev plain : Libraries
plain = record {
  sha256_hex = λ s. s;
  from_str = λ s. some (read_all s);
  to_string = λ ts. some (write_all ts);
}

plain-ReadsBack : ReadsBack plain
plain-ReadsBack ts = (write_all ts, refl, ap (λ xs. some xs) (read_all-write_all ts))

abbrev stored : Text
stored = write_all (codes "ABCDEFGH1234" ∷ codes "QRST" ∷ [])

abbrev left : Text
left = write_all (codes "QRST" ∷ [])

-- The code that was spent is no longer accepted.
consume_recovery_code-is_some_example :
    is_some (consume_recovery_code plain left (codes "ABCD-EFGH-1234")) ≡ false
unfolding consume_recovery_code hash_recovery_code normalised
consume_recovery_code-is_some_example =
    consume_recovery_code-is_some plain stored left (codes "abcd-efgh-1234")
      (codes "ABCD-EFGH-1234") plain-ReadsBack refl
