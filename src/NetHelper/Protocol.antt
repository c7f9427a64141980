-- ===== src/NetHelper/Protocol.antt =====
-- crates/pier-net-helper/src/protocol.rs: the whitelist of `wg0.conf` directives, and the insertion of
-- the node's private key.
pub mod Grammar
pub mod Injection
use pier.Base.{
  ℕ, ◌+◌, Text, Bool, true, false, ◌&&◌, ◌||◌, Option, none, some, List, [], ◌∷◌, ◌++◌, codes,
  is_empty, text_eq, starts_with, ends_with, inner, trim, split_once, lines, if◌then◌else◌, Result,
  ok, err, ◌>>=◌,
}

pub data Section : Type 0 where
  no_section interface peer : Section

-- The errors of `validate_wg_config_inner`, with the line's number from 1, and of
-- `inject_private_key`.
pub data ConfigError : Type 0 where
  unknown_section not_key_value private_key_supplied outside_section not_allowed : ℕ → ConfigError
  no_interface_section : ConfigError

abbrev pub contains_text : List Text → Text → Bool
contains_text [] a = false
contains_text (x ∷ xs) a = text_eq x a || contains_text xs a

unfoldable pub allowed_interface : List Text
allowed_interface =
    codes "PrivateKey"
    ∷ codes "Address"
    ∷ codes "ListenPort"
    ∷ codes "DNS"
    ∷ codes "MTU"
    ∷ codes "Table"
    ∷ []

unfoldable pub allowed_peer : List Text
allowed_peer =
    codes "PublicKey"
    ∷ codes "PresharedKey"
    ∷ codes "AllowedIPs"
    ∷ codes "Endpoint"
    ∷ codes "PersistentKeepalive"
    ∷ []

-- the name between the brackets of a header
unfoldable pub section_named : Text → ℕ → Result ConfigError Section
section_named name lineno =
    if text_eq name (codes "Interface")
    then ok interface
    else if text_eq name (codes "Peer")
    then ok peer
    else err (unknown_section lineno)

-- `key == "PrivateKey"`
unfoldable pub is_private_key : Text → Bool
is_private_key key = text_eq key (codes "PrivateKey")

-- the checks on a directive's key
unfoldable pub check_key : Bool → Section → Text → ℕ → Result ConfigError Section
check_key forbid_private_key no_section key lineno = err (outside_section lineno)
check_key forbid_private_key interface key lineno =
    if forbid_private_key && is_private_key key
    then err (private_key_supplied lineno)
    else if contains_text allowed_interface key
    then ok interface
    else err (not_allowed lineno)
check_key forbid_private_key peer key lineno =
    if contains_text allowed_peer key then ok peer else err (not_allowed lineno)

abbrev pub is_skipped : Text → Bool
is_skipped line = is_empty line || starts_with b'#' line

abbrev pub is_header : Text → Bool
is_header line = starts_with b'[' line && ends_with b']' line

abbrev pub check_split : Bool → Section → ℕ → Option (Text × Text) → Result ConfigError Section
check_split forbid s lineno none = err (not_key_value lineno)
check_split forbid s lineno (some (key, value)) = check_key forbid s (trim key) lineno

-- One round of the loop, on the trimmed line: the section after it.
unfoldable pub validate_line : Bool → Section → ℕ → Text → Result ConfigError Section
validate_line forbid s lineno line =
    if is_skipped line
    then ok s
    else if is_header line
    then section_named (inner line) lineno
    else check_split forbid s lineno (split_once b'=' line)

unfoldable pub validate_from : Bool → Section → ℕ → List Text → Result ConfigError Section
validate_from forbid s lineno [] = ok s
validate_from forbid s lineno (raw ∷ rest) = do
  t ← validate_line forbid s lineno (trim raw)
  validate_from forbid t (lineno + 1) rest

unfoldable pub validate_wg_config_inner : Text → Bool → Result ConfigError (Unit {0})
validate_wg_config_inner content forbid_private_key = do
  _ ← validate_from forbid_private_key no_section 1 (lines content)
  ok tt

unfoldable pub validate_wg_config : Text → Result ConfigError (Unit {0})
validate_wg_config content = validate_wg_config_inner content false

unfoldable pub validate_wg_config_no_privkey : Text → Result ConfigError (Unit {0})
validate_wg_config_no_privkey content = validate_wg_config_inner content true

abbrev pub key_line : Text → Text
key_line private_key = codes "PrivateKey = " ++ private_key

-- The loop of `inject_private_key`: the text written, and whether the key is in it.
unfoldable pub inject_from : Text → Bool → List Text → Text × Bool
inject_from private_key injected [] = ([], injected)
inject_from private_key true (line ∷ rest) =
    let (out, done) = inject_from private_key true rest in (line ++ 10 ∷ out, done)
inject_from private_key false (line ∷ rest) =
    let (out, done) = inject_from private_key (text_eq (trim line) (codes "[Interface]")) rest in
    (
      line
          ++ 10
            ∷ (if text_eq (trim line) (codes "[Interface]")
                then key_line private_key ++ 10 ∷ out
                else out),
      done,
    )

abbrev pub finish : Text × Bool → Result ConfigError Text
finish (out, true) = ok out
finish (out, false) = err no_interface_section

unfoldable pub inject_private_key : Text → Text → Result ConfigError Text
unfolding inject_from
inject_private_key content private_key = finish (inject_from private_key false (lines content))
