-- ===== src/Auth/Tests.antt =====
-- One user with a session in the middle of its life, a session that is past it, and a token.
use pier.Base.{
  err, Text, Bool, true, false, none, some, [], ◌∷◌, codes, ◌≡◌, inl, inr, refl, ok, is_whitespace,
  trim, trim_start, trim_end, split, text_eq, str_eq, sym, ◌∙◌,
}
use pier.Auth.Headers.{
  is_api_path, session_cookie_values, collect_values, ua_fingerprint, fingerprint_from,
}
use pier.Auth.Tables.{UserRow, SessionRow, AuthDb}
use pier.Auth.Require.{
  Libraries, Config, Request, passes, user_of, is_fresh, other_device, lookup, try_candidates,
  revoked, found, candidates_of, require_auth, session_gc_once,
}
use pier.Auth.Credential.{Credential, fingerprint}
use pier.Auth.Sound.{require_auth-Credential}
use pier.Auth.Collection.{decision, require_auth-session_gc_once}
use pier.Auth.Tokens.{store, revoke, lookup-store-revoke}
use pier.Auth.Kept.{IsKept, require_auth-IsKept}

abbrev libraries : Libraries
libraries = record {
  hash = λ s. 0 ∷ s;
  verify_password = λ pass stored. some (is_same pass stored);
  decode = λ s. some s;
  encode = λ s. s;
}
  where
    is_same : Text → Text → Bool
    is_same pass stored = text_eq pass stored

abbrev config : Config
config = record {
  session_cookie = codes "pier_session";
  session_ttl_hours = 8;
  session_abs_max_hours = 72;
}

abbrev olga : UserRow
olga = record {
  id = "o";
  username = "olga";
  email = "olga@example.com";
  password = codes "secret";
  role = "admin";
  global_role = "owner";
  is_active = true;
}

abbrev live : SessionRow
live = record {
  id = "s1";
  user_id = "o";
  user_agent = some (codes "Firefox/1.0");
  expires_at = 400000;
  created_at = 200000;
}

abbrev old : SessionRow
old = record live { id = "s2"; created_at = 0 }

abbrev db : AuthDb
db = record {
  users = olga ∷ [];
  sessions = old ∷ live ∷ [];
  api_tokens = [];
  peer_grants = [];
  gc_enabled = none;
}

abbrev request : Request
request = record {
  full_path = codes "/services";
  path_and_query = codes "/services";
  peer_token = none;
  authorization = none;
  cookie = some (codes "pier_session=s2; pier_session=s1");
  user_agent = some (codes "Firefox/2.0");
}

passed : (require_auth config 390000 libraries request db).0 ≡ passes (user_of olga "s1") true
unfolding require_auth is_api_path session_cookie_values collect_values split trim trim_start
    trim_end is_whitespace ua_fingerprint fingerprint_from try_candidates is_fresh other_device
passed = refl

require_auth-Credential_example : Credential config 390000 libraries request db (user_of olga "s1")
require_auth-Credential_example =
    require_auth-Credential config 390000 libraries request db (user_of olga "s1") true passed

require_auth-session_gc_once_example :
    decision (require_auth config 390000 libraries request (session_gc_once config 390000 db)).0
    ≡ decision (require_auth config 390000 libraries request db).0
require_auth-session_gc_once_example =
    require_auth-session_gc_once config 390000 libraries request db

lookup-store-revoke_example :
    ((store libraries 5 "t" (codes "pier_npm_1") "o" db).0 ≡ ok tt)
    × ((lookup libraries 7
          (codes "pier_npm_1")
          (store libraries 5 "t" (codes "pier_npm_1") "o" db).1).0
        ≡ some (user_of olga ""))
    × ((revoke 9 "t" "o" (store libraries 5 "t" (codes "pier_npm_1") "o" db).1).0 ≡ ok tt)
    × ((lookup libraries 7
          (codes "pier_npm_1")
          (revoke 9 "t" "o" (store libraries 5 "t" (codes "pier_npm_1") "o" db).1).1).0
        ≡ none)
lookup-store-revoke_example =
    lookup-store-revoke libraries 5 7 9 "t" "o" (codes "pier_npm_1") db olga refl refl refl refl

-- An id that is taken, or a user who is not there: the INSERT fails.
taken_test :
    (store libraries 6 "t"
      (codes "pier_npm_2")
      "o"
      (store libraries 5 "t" (codes "pier_npm_1") "o" db).1).0
    ≡ err tt
unfolding store
taken_test = refl

no_user_test : store libraries 5 "t" (codes "pier_npm_1") "nobody" db ≡ (err tt, db)
unfolding store
no_user_test = refl

tried :
    try_candidates config 390000 db (fingerprint request) (candidates_of config request)
    ≡ found live olga
unfolding try_candidates session_cookie_values collect_values split trim trim_start trim_end
    is_whitespace ua_fingerprint fingerprint_from is_fresh other_device
tried = refl

require_auth-IsKept_example :
    IsKept live (require_auth config 390000 libraries request db).1.sessions
require_auth-IsKept_example =
    require_auth-IsKept config 390000 libraries request db live (inr (inl refl))
      (unfold is_fresh in refl) other
  where
    other :
        (s : SessionRow)
        → try_candidates config 390000 db (fingerprint request) (candidates_of config request)
          ≡ revoked s
        → str_eq live.id s.id ≡ false
    other s e = let clash : found live olga ≡ revoked s = sym tried ∙ e in cc
