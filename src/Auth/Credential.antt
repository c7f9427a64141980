-- ===== src/Auth/Credential.antt =====
-- The ways through `require_auth` (crates/pier-core/src/auth/middleware.rs), described independently.
use pier.Base.{
  ℕ, ◌+◌, ◌*◌, ◌<◌, String, Text, true, false, ◌&&◌, none, some, [], codes, text_eq, str_eq,
  first-IsRow, IsRow, unwrap_or, ◌≡◌, arith,
}
use pier.Rbac.Policy.{AuthUser}
use pier.Rbac.Guards.{peer_user}
use pier.NetHelper.Protocol.{contains_text}
use pier.Auth.Headers.{has_prefix, ua_fingerprint}
use pier.Auth.Tables.{UserRow, SessionRow, TokenRow, PeerGrant, AuthDb}
use pier.Auth.Require.{
  Libraries, Config, Request, user_of, active_user, is_named, abs_max, other_device, candidates_of,
  basic_of, bearer_of, peer_of,
}

-- An active row of `users`.
pub record IsActiveUser (db : AuthDb) (id : String) (u : UserRow) : Type 0 where
  pub row : IsRow u db.users
  pub same : str_eq u.id id ≡ true
  pub active : u.is_active ≡ true

pub active_user-IsActiveUser :
    (db : AuthDb) (id : String) (u : UserRow) → active_user db id ≡ some u → IsActiveUser db id u
active_user-IsActiveUser db id u h =
    let (row, p) = first-IsRow (λ u. str_eq u.id id && u.is_active) db.users u h in
    record { row = row; same = ground (arith, p); active = ground (arith, p) }

abbrev pub fingerprint : Request → Text
fingerprint req = ua_fingerprint (unwrap_or req.user_agent [])

module _ (config : Config) (now : ℕ) (lib : Libraries) (req : Request) (db : AuthDb) where
  -- The ways in, in their order: a later one counts only where the request has nothing for an earlier.
  pub data Credential : AuthUser → Type 0 where
    peer :
        (token : Text) (g : PeerGrant)
        → peer_of req ≡ some token
        → IsRow g db.peer_grants
        → text_eq g.token token ≡ true
        → g.is_active ≡ true
        → Credential (peer_user g.id g.name)
    api_token :
        (plaintext : Text) (t : TokenRow) (u : UserRow)
        → peer_of req ≡ none
        → bearer_of req.authorization ≡ some plaintext
        → has_prefix (codes "pier_npm_") plaintext ≡ true
        → IsRow t db.api_tokens
        → text_eq t.token_hash (lib.hash plaintext) ≡ true
        → t.revoked_at ≡ none
        → IsActiveUser db t.user_id u
        → Credential (user_of u "")
    basic :
        (name pass : Text) (u : UserRow)
        → peer_of req ≡ none
        → bearer_of req.authorization ≡ none
        → basic_of lib req ≡ some (name, pass)
        → IsRow u db.users
        → is_named name u ≡ true
        → lib.verify_password pass u.password ≡ some true
        → Credential (user_of u "")
    session :
        (s : SessionRow) (u : UserRow)
        → peer_of req ≡ none
        → bearer_of req.authorization ≡ none
        → basic_of lib req ≡ none
        → IsRow s db.sessions
        → contains_text (candidates_of config req) (codes s.id) ≡ true
        → now < s.expires_at
        → now < s.created_at + abs_max config * 3600
        → other_device config now (fingerprint req) s ≡ false
        → IsActiveUser db s.user_id u
        → Credential (user_of u s.id)
