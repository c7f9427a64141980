-- ===== src/RecoveryCodes.antt =====
-- crates/pier-core/src/auth/totp.rs: the recovery codes of the second factor.
mod Spending
mod Tests
use pier.Base.{
  ℕ, Text, Bool, true, false, not, ◌&&◌, ◌||◌, Option, none, some, List, [], ◌∷◌, map, leb, ◌-◌,
  if◌then◌else◌, text_eq, is_digit, keep, lower_char,
}
use pier.NetHelper.Protocol.{contains_text}

-- `c.to_ascii_uppercase()`
abbrev pub upper_char : ℕ → ℕ
upper_char c = if leb b'a' c && leb c b'z' then c - 32 else c

-- `c.is_ascii_alphanumeric()`
abbrev pub is_alphanumeric : ℕ → Bool
is_alphanumeric c = is_digit c || (leb b'a' c && leb c b'z') || (leb b'A' c && leb c b'Z')

unfoldable pub normalised : Text → Text
normalised code = map (λ c. upper_char c) (keep is_alphanumeric code)

-- The digest in hexadecimal, and serde_json on a list of texts.
pub record Libraries : Type 0 where
  pub sha256_hex : Text → Text
  pub from_str : Text → Option (List Text)
  pub to_string : List Text → Option Text

module _ (lib : Libraries) where
  unfoldable pub hash_recovery_code : Text → Text
  unfolding normalised
  hash_recovery_code code = lib.sha256_hex (normalised code)

  abbrev pub consume_hash : Text → Option (List Text) → Option Text
  consume_hash target none = none
  consume_hash target (some hashes) =
      if not (contains_text hashes target)
      then none
      else lib.to_string (keep (λ h. not (text_eq h target)) hashes)

  unfoldable pub consume_recovery_code : Text → Text → Option Text
  unfolding hash_recovery_code
  consume_recovery_code stored_json provided =
      consume_hash (hash_recovery_code provided) (lib.from_str stored_json)
