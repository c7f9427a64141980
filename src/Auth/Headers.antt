-- ===== src/Auth/Headers.antt =====
-- What crates/pier-core/src/auth/middleware.rs reads from a request.
use pier.Base.{
  ◌≡◌, refl, ℕ, Text, Bool, true, false, not, ◌&&◌, ◌||◌, Option, none, some, List, [], ◌∷◌, ◌++◌,
  codes, if◌then◌else◌, ◌==◌, is_empty, is_some, text_eq, trim, trim_end, is_whitespace, split_once,
  split, strip_prefix, contains_sub, contains_char, is_digit,
}
use pier.Base.{lower_char}
use pier.NetHelper.Protocol.{contains_text}

-- `text.starts_with(prefix)`
abbrev pub has_prefix : Text → Text → Bool
has_prefix prefix text = is_some (strip_prefix prefix text)

unfoldable pub is_api_path : Text → Bool
is_api_path full_path =
    has_prefix (codes "/api/") full_path || has_prefix (codes "/registry/") full_path

abbrev or_else : Option Text → Option Text → Option Text
or_else none b = b
or_else (some a) b = some a

abbrev non_empty : Option Text → Option Text
non_empty none = none
non_empty (some s) = if is_empty (trim s) then none else some (trim s)

unfoldable pub parse_bearer : Text → Option Text
unfolding trim
parse_bearer header =
    let trimmed = trim header in
    non_empty
      (or_else (strip_prefix (codes "Bearer ") trimmed) (strip_prefix (codes "bearer ") trimmed))

-- `decode` is the base64 decoding and the UTF-8 decoding of the libraries.
module _ (decode : Text → Option Text) where
  abbrev named : Option (Text × Text) → Option (Text × Text)
  named none = none
  named (some (user, pass)) = if is_empty user then none else some (user, pass)

  abbrev decoded : Option Text → Option (Text × Text)
  decoded none = none
  decoded (some s) = named (split_once b':' s)

  abbrev stripped : Option Text → Option (Text × Text)
  stripped none = none
  stripped (some s) = decoded (decode (trim s))

  unfoldable pub parse_basic : Text → Option (Text × Text)
  unfolding trim split_once
  parse_basic header =
      let trimmed = trim header in
      stripped
        (or_else (strip_prefix (codes "Basic ") trimmed) (strip_prefix (codes "basic ") trimmed))

-- One part of the header, behind the values that were found before.
abbrev push_value : List Text → Option Text → List Text
push_value out none = out
push_value out (some v) = if is_empty v || contains_text out v then out else out ++ v ∷ []

unfoldable pub collect_values : Text → List Text → List Text → List Text
unfolding trim
collect_values prefix out [] = out
collect_values prefix out (part ∷ parts) =
    collect_values prefix (push_value out (strip_prefix prefix (trim part))) parts

unfoldable pub session_cookie_values : Text → Text → List Text
unfolding collect_values split
session_cookie_values cookie_header name =
    collect_values (name ++ b'=' ∷ []) [] (split b';' cookie_header)

-- What the loop of `ua_fingerprint` does with a character: what it pushes, and whether there is output
-- and whether it ends with a blank.
abbrev fingerprint_step : Bool → Bool → ℕ → Text × (Bool × Bool)
fingerprint_step filled prev_space c =
    if is_digit c || c == b'.'
    then ([], (filled, prev_space))
    else if is_whitespace c
    then (if not prev_space && filled then (32 ∷ [], (true, true)) else ([], (filled, prev_space)))
    else (lower_char c ∷ [], (true, false))

unfoldable pub fingerprint_from : Bool → Bool → Text → Text
unfolding is_whitespace
fingerprint_from filled prev_space [] = []
fingerprint_from filled prev_space (c ∷ ua) =
    let (pushed, (filled', prev_space')) = fingerprint_step filled prev_space c in
    pushed ++ fingerprint_from filled' prev_space' ua

unfoldable pub ua_fingerprint : Text → Text
unfolding fingerprint_from trim_end
ua_fingerprint ua = trim_end (fingerprint_from false false ua)

-- `encode` is `urlencoding::encode`.
unfoldable pub login_redirect_for_path : (Text → Text) → Text → Text
login_redirect_for_path encode path =
    if not (has_prefix (codes "/") path)
      || has_prefix (codes "//") path
      || contains_sub (codes "://") path
      || contains_char b'\\' path
    then codes "/login"
    else if text_eq path (codes "/login") || has_prefix (codes "/login?") path
    then codes "/login"
    else codes "/login?return_to=" ++ encode path

cookies_test :
    session_cookie_values
      (codes "pier_session=dead; other=x; pier_session=live;pier_session=dead")
      (codes "pier_session")
    ≡ codes "dead" ∷ codes "live" ∷ []
unfolding session_cookie_values is_whitespace
cookies_test = refl

fingerprint_test :
    ua_fingerprint (codes "Chrome/120.0  (X11 64)") ≡ ua_fingerprint (codes "Chrome/121.1 (X11 64)")
unfolding ua_fingerprint
fingerprint_test = refl
