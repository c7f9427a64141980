-- ===== src/ImageGc/Compose.antt =====
-- The two scanners of compose files (crates/pier-core/src/docker/image_gc.rs).
use pier.Base.{
  ℕ, ◌-◌, Text, Bool, true, false, not, ◌&&◌, ◌||◌, Option, none, some, List, [], ◌∷◌, ◌++◌, codes,
  if◌then◌else◌, ◌==◌, is_empty, text_eq, trim, trim_start, trim_end, lines, len, drop_last,
  starts_with, ends_with, contains_char, strip_prefix, rsplit_once, trim_start_matches,
  trim_end_matches, is_whitespace, ◌≡◌, refl,
}

-- `body.strip_suffix(':')`
abbrev pub strip_colon : Text → Option Text
strip_colon body = if ends_with b':' body then some (drop_last body) else none

abbrev pub names : Text → Option Text → Bool
names svc none = false
names svc (some name) = text_eq (trim name) svc

-- the indent of the services, and whether the line stands there
abbrev pub at_indent : Option ℕ → ℕ → Option ℕ × Bool
at_indent none indent = (some indent, true)
at_indent (some expected) indent = (some expected, indent == expected)

-- A line that is neither blank nor a comment: the state after it, and whether it declares `svc`.
abbrev pub declare_line : Text → Bool → Option ℕ → ℕ → Text → (Bool × Option ℕ) × Bool
declare_line svc in_services service_indent indent body =
    if indent == 0
    then ((text_eq body (codes "services:"), none), false)
    else if not in_services
    then ((in_services, service_indent), false)
    else let (expected, there) = at_indent service_indent indent in
      ((in_services, expected), there && names svc (strip_colon body))

-- The state of the scanner, and whether a line that is not blank declares `svc`.
unfoldable pub scan_line : Text → Bool → Option ℕ → Text → (Bool × Option ℕ) × Bool
unfolding trim_end trim_start
scan_line svc in_services service_indent line =
    let trimmed = trim_end line in
    let body = trim_start trimmed in
    if is_empty body || starts_with b'#' body
    then ((in_services, service_indent), false)
    else declare_line svc in_services service_indent (len trimmed - len body) body

unfoldable pub declares_from : Text → Bool → Option ℕ → List Text → Bool
unfolding scan_line trim trim_start trim_end
declares_from svc in_services service_indent [] = false
declares_from svc in_services service_indent (line ∷ rest) =
    let ((in_services', service_indent'), declared) =
      scan_line svc in_services service_indent line in
    declared || declares_from svc in_services' service_indent' rest

unfoldable pub compose_declares_service : Text → Text → Bool
unfolding declares_from lines
compose_declares_service compose svc = declares_from svc false none (lines compose)

abbrev pub is_quote : ℕ → Bool
is_quote c = c == b'"' || c == b'\''

-- `value.trim().trim_matches(['"', '\'']).trim()`
abbrev pub image_value : Text → Text
image_value value = trim (trim_end_matches is_quote (trim_start_matches is_quote (trim value)))

abbrev pub untagged : Option (Text × Text) → Bool
untagged none = true
untagged (some (repo, tag)) = contains_char b'/' tag

abbrev pub push_image : Text → List Text
push_image value =
    if is_empty value || contains_char b'$' value
    then []
    else (if untagged (rsplit_once b':' value) then (value ++ codes ":latest") ∷ [] else [])
      ++ value ∷ []

abbrev push_value : Option Text → List Text
push_value none = []
push_value (some value) = push_image (image_value value)

-- What a line names.
abbrev pub line_images : Text → List Text
line_images line =
    if starts_with b'#' (trim line)
    then []
    else push_value (strip_prefix (codes "image:") (trim line))

unfoldable pub images_from : List Text → List Text
unfolding trim rsplit_once trim_start_matches trim_end_matches
images_from [] = []
images_from (line ∷ rest) = line_images line ++ images_from rest

unfoldable pub compose_image_refs : Text → List Text
unfolding images_from lines
compose_image_refs compose = images_from (lines compose)

declares_test :
    compose_declares_service (codes "services:\n  web:\n    build: .\n  db:\n") (codes "db") ≡ true
unfolding compose_declares_service is_whitespace
declares_test = refl

refs_test :
    compose_image_refs (codes "services:\n  db:\n    image: \"postgres\"\n    image: redis:7\n")
    ≡ codes "postgres:latest" ∷ codes "postgres" ∷ codes "redis:7" ∷ []
unfolding compose_image_refs is_whitespace
refs_test = refl
