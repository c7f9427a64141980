-- ===== src/Auth/Require.antt =====
-- `require_auth` and `session_gc_once` of crates/pier-core/src/auth/middleware.rs, and `lookup` of
-- auth/api_token.rs. The hash of a token (sha256), the check of a password (bcrypt) and the decoding of
-- base64 are the libraries', and the handler behind the middleware runs on what this answers.
use pier.Base.{
  ℕ, ◌+◌, ◌*◌, ◌/◌, String, Text, Bool, true, false, not, ◌&&◌, ◌||◌, Option, none, some, List, [],
  ◌∷◌, codes, if◌then◌else◌, ltb, is_empty, is_some, text_eq, str_eq, any, keep, first,
  update_where, unwrap_or,
}
use pier.Rbac.GlobalRole
use pier.Rbac.GlobalRole.{GlobalRole}
use pier.Rbac.Policy.{AuthUser}
use pier.Rbac.Guards.{peer_user}
use pier.NetHelper.Protocol.{contains_text}
use pier.Auth.Headers.{
  has_prefix, is_api_path, parse_bearer, parse_basic, session_cookie_values, ua_fingerprint,
  login_redirect_for_path,
}
use pier.Auth.Tables.{UserRow, SessionRow, TokenRow, PeerGrant, AuthDb}

pub record Libraries : Type 0 where
  pub hash : Text → Text
  -- none is an error of the library
  pub verify_password : Text → Text → Option Bool
  pub decode : Text → Option Text
  pub encode : Text → Text

pub record Config : Type 0 where
  pub session_cookie : Text
  pub session_ttl_hours : ℕ
  pub session_abs_max_hours : ℕ

-- The headers that can be read as text.
pub record Request : Type 0 where
  pub full_path : Text
  pub path_and_query : Text
  pub peer_token : Option Text
  pub authorization : Option Text
  pub cookie : Option Text
  pub user_agent : Option Text

-- What the middleware does: it runs the handler as a user, and may renew the cookie of a session; or it
-- refuses, and may clear the cookies.
pub data Outcome : Type 0 where
  passes : AuthUser → Bool → Outcome
  unauthorized : Bool → Outcome
  redirects : Text → Bool → Outcome

abbrev pub at_least_one : ℕ → ℕ
at_least_one n = if ltb n 1 then 1 else n

-- `GlobalRole::parse(..).unwrap_or(GlobalRole::User)`
abbrev pub user_of : UserRow → String → AuthUser
user_of u session_id = record {
  id = u.id;
  username = u.username;
  role = u.role;
  global_role = unwrap_or (GlobalRole.parse u.global_role) GlobalRole.user;
  session_id = session_id;
  is_peer = false;
}

-- The user of a row, if active: the join of both queries.
abbrev pub active_user : AuthDb → String → Option UserRow
active_user db id = first (λ u. str_eq u.id id && u.is_active) db.users

abbrev pub is_grant : Text → PeerGrant → Bool
is_grant token g = text_eq g.token token && g.is_active

abbrev pub touch_grant : ℕ → PeerGrant → AuthDb → AuthDb
touch_grant now g db = record db {
  peer_grants =
      update_where (λ x. str_eq x.id g.id) (λ x. record x { last_used_at = some now })
        db.peer_grants;
}

abbrev pub peer_branch : ℕ → AuthDb → Option PeerGrant → Outcome × AuthDb
peer_branch now db none = (unauthorized false, db)
peer_branch now db (some g) = (passes (peer_user g.id g.name) false, touch_grant now g db)

abbrev pub is_named : Text → UserRow → Bool
is_named name u = (text_eq (codes u.username) name || text_eq (codes u.email) name) && u.is_active

abbrev pub verified : UserRow → Option Bool → Option AuthUser
verified u none = none
verified u (some false) = none
verified u (some true) = some (user_of u "")

abbrev pub basic_of : Libraries → Request → Option (Text × Text)
basic_of lib req =
    if has_prefix (codes "/registry/") req.full_path then basic_header req.authorization else none
  where
    basic_header : Option Text → Option (Text × Text)
    basic_header none = none
    basic_header (some h) = parse_basic lib.decode h

abbrev pub bearer_of : Option Text → Option Text
bearer_of none = none
bearer_of (some h) = parse_bearer h

abbrev pub peer_of : Request → Option Text
peer_of req = if is_api_path req.full_path then req.peer_token else none

abbrev pub abs_max : Config → ℕ
abs_max config = at_least_one config.session_abs_max_hours

abbrev pub candidates_of : Config → Request → List Text
candidates_of config req = session_cookie_values (unwrap_or req.cookie []) config.session_cookie

module _ (lib : Libraries) (now : ℕ) where
  abbrev pub is_live_token : AuthDb → Text → TokenRow → Bool
  is_live_token db plaintext t =
      text_eq t.token_hash (lib.hash plaintext)
      && not (is_some t.revoked_at)
      && is_some (active_user db t.user_id)

  abbrev pub touch_token : TokenRow → AuthDb → AuthDb
  touch_token t db = record db {
    api_tokens =
        update_where (λ x. str_eq x.id t.id) (λ x. record x { last_used_at = some now })
          db.api_tokens;
  }

  abbrev pub token_user : AuthDb → TokenRow → Option UserRow → Option AuthUser × AuthDb
  token_user db t none = (none, db)
  token_user db t (some u) = (some (user_of u ""), touch_token t db)

  abbrev pub token_row : AuthDb → Option TokenRow → Option AuthUser × AuthDb
  token_row db none = (none, db)
  token_row db (some t) = token_user db t (active_user db t.user_id)

  -- `api_token::lookup`
  unfoldable pub lookup : Text → AuthDb → Option AuthUser × AuthDb
  lookup plaintext db =
      if has_prefix (codes "pier_npm_") plaintext
      then token_row db (first (is_live_token db plaintext) db.api_tokens)
      else (none, db)

  abbrev pub answer : Option AuthUser × AuthDb → Outcome × AuthDb
  answer (none, db) = (unauthorized false, db)
  answer (some u, db) = (passes u false, db)

  abbrev pub basic_row : Text → Option UserRow → Option AuthUser
  basic_row pass none = none
  basic_row pass (some u) = verified u (lib.verify_password pass u.password)

  unfoldable pub basic_user : Text × Text → AuthDb → Option AuthUser
  basic_user (name, pass) db = basic_row pass (first (is_named name) db.users)

module _ (config : Config) (now : ℕ) where
  -- neither expired nor past its absolute lifetime
  unfoldable pub is_fresh : SessionRow → Bool
  is_fresh s = ltb now s.expires_at && ltb now (s.created_at + abs_max config * 3600)

  abbrev pub is_live : AuthDb → Text → SessionRow → Bool
  is_live db sid s = text_eq (codes s.id) sid && is_fresh s && is_some (active_user db s.user_id)

  -- the query for a candidate
  abbrev pub live_session : AuthDb → Text → Option SessionRow
  live_session db sid = first (is_live db sid) db.sessions

  abbrev pub stored_fingerprint : Option Text → Text
  stored_fingerprint none = []
  stored_fingerprint (some ua) = ua_fingerprint ua

  unfoldable pub other_device : Text → SessionRow → Bool
  unfolding ua_fingerprint
  other_device fingerprint s =
      not (is_empty fingerprint)
      && not (is_empty (stored_fingerprint s.user_agent))
      && not (text_eq (stored_fingerprint s.user_agent) fingerprint)

  pub data Tried : Type 0 where
    found : SessionRow → UserRow → Tried
    revoked : SessionRow → Tried
    nothing : Tried

  abbrev pub on_user : Text → SessionRow → Option UserRow → Tried
  on_user fingerprint s none = nothing
  on_user fingerprint s (some u) = if other_device fingerprint s then revoked s else found s u

  abbrev pub on_session : AuthDb → Text → Option SessionRow → Tried → Tried
  on_session db fingerprint none rest = rest
  on_session db fingerprint (some s) rest = on_user fingerprint s (active_user db s.user_id)

  -- The loop over the candidates: it ends at the first live one.
  unfoldable pub try_candidates : AuthDb → Text → List Text → Tried
  unfolding is_fresh other_device
  try_candidates db fingerprint [] = nothing
  try_candidates db fingerprint (sid ∷ rest) =
      on_session db fingerprint (live_session db sid) (try_candidates db fingerprint rest)

  abbrev pub ttl : ℕ
  ttl = at_least_one config.session_ttl_hours

  abbrev pub is_slid : SessionRow → SessionRow → Bool
  is_slid s x =
      str_eq x.id s.id
      && ltb x.expires_at (now + ttl * 60 / 2 * 60)
      && ltb now (x.created_at + abs_max config * 3600)

  unfoldable pub slide : SessionRow → AuthDb → AuthDb
  slide s db = record db {
    sessions =
        update_where (is_slid s) (λ x. record x { expires_at = now + ttl * 3600 }) db.sessions;
  }

  abbrev pub is_dead_candidate : List Text → SessionRow → Bool
  is_dead_candidate candidates x = contains_text candidates (codes x.id) && not (is_fresh x)

  unfoldable pub reap : List Text → AuthDb → AuthDb
  unfolding is_fresh
  reap candidates db = record db {
    sessions = keep (λ x. not (is_dead_candidate candidates x)) db.sessions;
  }

  unfoldable pub revoke_session : SessionRow → AuthDb → AuthDb
  revoke_session s db = record db { sessions = keep (λ x. not (str_eq x.id s.id)) db.sessions }

  -- the two answers without a user
  abbrev pub refused : Libraries → Request → Bool → Outcome
  refused lib req clears =
      if is_api_path req.full_path
      then unauthorized clears
      else redirects (login_redirect_for_path lib.encode req.path_and_query) clears

  abbrev pub on_tried : Libraries → Request → List Text → AuthDb → Tried → Outcome × AuthDb
  on_tried lib req candidates db (found s u) =
      (passes (user_of u s.id) (any (is_slid s) db.sessions), slide s db)
  on_tried lib req candidates db (revoked s) =
      (refused lib req true, reap candidates (revoke_session s db))
  on_tried lib req candidates db nothing = (refused lib req true, reap candidates db)

  abbrev pub session_branch : Libraries → Request → AuthDb → List Text → Outcome × AuthDb
  session_branch lib req db [] = (refused lib req false, db)
  session_branch lib req db (sid ∷ rest) =
      on_tried lib req (sid ∷ rest) db
        (try_candidates db (ua_fingerprint (unwrap_or req.user_agent [])) (sid ∷ rest))

  abbrev pub basic_branch : Libraries → Request → AuthDb → Option (Text × Text) → Outcome × AuthDb
  basic_branch lib req db (some credentials) =
      answer lib now (basic_user lib now credentials db, db)
  basic_branch lib req db none = session_branch lib req db (candidates_of config req)

  abbrev pub bearer_branch : Libraries → Request → AuthDb → Option Text → Outcome × AuthDb
  bearer_branch lib req db (some plaintext) = answer lib now (lookup lib now plaintext db)
  bearer_branch lib req db none = basic_branch lib req db (basic_of lib req)

  abbrev pub with_peer : Libraries → Request → AuthDb → Option Text → Outcome × AuthDb
  with_peer lib req db (some token) = peer_branch now db (first (is_grant token) db.peer_grants)
  with_peer lib req db none = bearer_branch lib req db (bearer_of req.authorization)

  unfoldable pub require_auth : Libraries → Request → AuthDb → Outcome × AuthDb
  unfolding is_api_path parse_bearer parse_basic session_cookie_values ua_fingerprint try_candidates
      slide reap revoke_session lookup basic_user login_redirect_for_path
  require_auth lib req db = with_peer lib req db (peer_of req)

  -- the switch `session.gc_enabled`
  abbrev pub is_enabled : Option Text → Bool
  is_enabled none = true
  is_enabled (some v) = not (text_eq v (codes "false")) && not (text_eq v (codes "0"))

  unfoldable pub session_gc_once : AuthDb → AuthDb
  unfolding is_fresh
  session_gc_once db =
      if is_enabled db.gc_enabled then record db { sessions = keep is_fresh db.sessions } else db
