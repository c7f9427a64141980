-- ===== src/Auth/Sound.antt =====
-- Whom `require_auth` of crates/pier-core/src/auth/middleware.rs lets through.
use pier.Base.{
  first-IsRow, IsRow, ℕ, ◌+◌, ◌*◌, ◌<◌, Text, Bool, true, false, Option, none, some, List, [], ◌∷◌,
  codes, first, ◌≡◌, inl, inr, refl, subst, arith, Bool-cases, Option-cases, text_eq_comm,
  both_branches,
}
use pier.Rbac.Policy.{AuthUser}
use pier.NetHelper.Protocol.{contains_text}
use pier.Auth.Headers.{has_prefix, is_api_path}
use pier.Auth.Tables.{UserRow, SessionRow, TokenRow, PeerGrant, AuthDb}
use pier.Auth.Credential.{
  IsActiveUser, active_user-IsActiveUser, fingerprint, Credential, peer, api_token, basic, session,
}
use pier.Auth.Require.{
  Libraries, Config, Request, Outcome, passes, unauthorized, redirects, active_user, is_grant,
  peer_branch, is_live_token, token_user, token_row, lookup, answer, is_named, verified, basic_row,
  basic_user, abs_max, is_fresh, is_live, live_session, other_device, Tried, found, revoked,
  nothing, on_user, try_candidates, refused, on_tried, candidates_of, session_branch, basic_branch,
  basic_of, bearer_branch, bearer_of, peer_of, with_peer, require_auth,
}

module _ (config : Config) (now : ℕ) (lib : Libraries) (req : Request) (db : AuthDb) where
  abbrev CredentialOf : AuthUser → Type 0
  CredentialOf = Credential config now lib req db

  -- What holds of the user of every outcome that passes.
  abbrev LetsThrough : (AuthUser → Type 0) → Outcome → Type 0
  LetsThrough P (passes u renewed) = P u
  LetsThrough P (unauthorized clears) = Unit
  LetsThrough P (redirects to clears) = Unit

  sound_peer :
      (token : Text) (g : Option PeerGrant)
      → peer_of req ≡ some token
      → first (is_grant token) db.peer_grants ≡ g
      → LetsThrough CredentialOf (peer_branch now db g).0
  sound_peer token none e h = tt
  sound_peer token (some g) e h =
      let (row, p) = first-IsRow (is_grant token) db.peer_grants g h in
      peer token g e row (ground (arith, p)) (ground (arith, p))

  sound_token_user :
      (plaintext : Text) (t : TokenRow) (u : Option UserRow)
      → peer_of req ≡ none
      → bearer_of req.authorization ≡ some plaintext
      → has_prefix (codes "pier_npm_") plaintext ≡ true
      → first (is_live_token lib now db plaintext) db.api_tokens ≡ some t
      → active_user db t.user_id ≡ u
      → LetsThrough CredentialOf (answer lib now (token_user lib now db t u)).0
  sound_token_user plaintext t none p b k h a = tt
  sound_token_user plaintext t (some u) p b k h a =
      let (row, q) = first-IsRow (is_live_token lib now db plaintext) db.api_tokens t h in
      api_token plaintext t u p b k row (ground (arith, q)) (ground (arith, q))
        (active_user-IsActiveUser db t.user_id u a)

  sound_token_row :
      (plaintext : Text) (t : Option TokenRow)
      → peer_of req ≡ none
      → bearer_of req.authorization ≡ some plaintext
      → has_prefix (codes "pier_npm_") plaintext ≡ true
      → first (is_live_token lib now db plaintext) db.api_tokens ≡ t
      → LetsThrough CredentialOf (answer lib now (token_row lib now db t)).0
  sound_token_row plaintext none p b k h = tt
  sound_token_row plaintext (some t) p b k h =
      sound_token_user plaintext t (active_user db t.user_id) p b k h refl

  sound_token :
      (plaintext : Text)
      → peer_of req ≡ none
      → bearer_of req.authorization ≡ some plaintext
      → LetsThrough CredentialOf (answer lib now (lookup lib now plaintext db)).0
  unfolding lookup
  sound_token plaintext p b = elim (Bool-cases (has_prefix (codes "pier_npm_") plaintext)) [
    | inr e ↦ rw e tt
    | inl e ↦ rw e (
        sound_token_row plaintext (first (is_live_token lib now db plaintext) db.api_tokens) p b e
          refl)
  ]

  sound_verified :
      (name pass : Text) (u : UserRow) (v : Option Bool)
      → peer_of req ≡ none
      → bearer_of req.authorization ≡ none
      → basic_of lib req ≡ some (name, pass)
      → first (is_named name) db.users ≡ some u
      → lib.verify_password pass u.password ≡ v
      → LetsThrough CredentialOf (answer lib now (verified u v, db)).0
  sound_verified name pass u none p b k h v = tt
  sound_verified name pass u (some false) p b k h v = tt
  sound_verified name pass u (some true) p b k h v =
      let (row, q) = first-IsRow (is_named name) db.users u h in basic name pass u p b k row q v

  sound_basic :
      (name pass : Text) (u : Option UserRow)
      → peer_of req ≡ none
      → bearer_of req.authorization ≡ none
      → basic_of lib req ≡ some (name, pass)
      → first (is_named name) db.users ≡ u
      → LetsThrough CredentialOf (answer lib now (basic_row lib now pass u, db)).0
  sound_basic name pass none p b k h = tt
  sound_basic name pass (some u) p b k h =
      sound_verified name pass u (lib.verify_password pass u.password) p b k h refl

  -- What the loop over the candidates has found.
  abbrev IsFound : List Text → Tried config now → Type 0
  IsFound sids (found s u) =
      IsRow s db.sessions
      × (contains_text sids (codes s.id) ≡ true)
      × (is_fresh config now s ≡ true)
      × (other_device config now (fingerprint req) s ≡ false)
      × IsActiveUser db s.user_id u
  IsFound sids (revoked s) = Unit
  IsFound sids nothing = Unit

  IsFound-later :
      (sid : Text) (sids : List Text) (t : Tried config now)
      → IsFound sids t
      → IsFound (sid ∷ sids) t
  IsFound-later sid sids (found s u) (row, c, fresh, same, user) =
      (row, ground (arith, c), fresh, same, user)
  IsFound-later sid sids (revoked s) h = tt
  IsFound-later sid sids nothing h = tt

  on_user-IsFound :
      (sid : Text) (sids : List Text) (s : SessionRow) (u : Option UserRow)
      → live_session config now db sid ≡ some s
      → active_user db s.user_id ≡ u
      → IsFound (sid ∷ sids) (on_user config now (fingerprint req) s u)
  on_user-IsFound sid sids s none h a = tt
  on_user-IsFound sid sids s (some u) h a =
      let (row, q) = first-IsRow (is_live config now db sid) db.sessions s h in
      elim (Bool-cases (other_device config now (fingerprint req) s)) [
        | inl e ↦ rw e tt
        | inr e ↦ rw e (
          row,
          ground (arith, q, text_eq_comm (codes s.id) sid),
          ground (arith, q),
          e,
          active_user-IsActiveUser db s.user_id u a,
        )
      ]

  try_candidates-IsFound :
      (sids : List Text) → IsFound sids (try_candidates config now db (fingerprint req) sids)
  unfolding try_candidates
  try_candidates-IsFound [] = tt
  try_candidates-IsFound (sid ∷ sids) = elim (Option-cases (live_session config now db sid)) [
    | inl e ↦ rw e (IsFound-later sid sids _ (try_candidates-IsFound sids))
    | inr (s, e) ↦ rw e (on_user-IsFound sid sids s (active_user db s.user_id) e refl)
  ]

  refused_lem : (clears : Bool) → LetsThrough CredentialOf (refused config now lib req clears)
  refused_lem clears =
      both_branches (LetsThrough CredentialOf) (is_api_path req.full_path) _ _ (λ _. tt) (λ _. tt)

  fresh_expiry : (s : SessionRow) → is_fresh config now s ≡ true → now < s.expires_at
  unfolding is_fresh
  fresh_expiry s h = ground arith

  fresh_age :
      (s : SessionRow) → is_fresh config now s ≡ true → now < s.created_at + abs_max config * 3600
  unfolding is_fresh
  fresh_age s h = ground arith

  sound_tried :
      (sids : List Text) (t : Tried config now)
      → peer_of req ≡ none
      → bearer_of req.authorization ≡ none
      → basic_of lib req ≡ none
      → candidates_of config req ≡ sids
      → IsFound sids t
      → LetsThrough CredentialOf (on_tried config now lib req sids db t).0
  sound_tried sids (found s u) p b k c (row, listed, fresh, same, user) =
      session s u p b k row (rw c listed) (fresh_expiry s fresh) (fresh_age s fresh) same user
  sound_tried sids (revoked s) p b k c h = refused_lem true
  sound_tried sids nothing p b k c h = refused_lem true

  sound_sessions :
      (sids : List Text)
      → peer_of req ≡ none
      → bearer_of req.authorization ≡ none
      → basic_of lib req ≡ none
      → candidates_of config req ≡ sids
      → LetsThrough CredentialOf (session_branch config now lib req db sids).0
  sound_sessions [] p b k c = refused_lem false
  sound_sessions (sid ∷ sids) p b k c =
      sound_tried (sid ∷ sids) (try_candidates config now db (fingerprint req) (sid ∷ sids)) p b k c
        (try_candidates-IsFound (sid ∷ sids))

  sound_basic_user :
      (name pass : Text)
      → peer_of req ≡ none
      → bearer_of req.authorization ≡ none
      → basic_of lib req ≡ some (name, pass)
      → LetsThrough CredentialOf (answer lib now (basic_user lib now (name, pass) db, db)).0
  unfolding basic_user
  sound_basic_user name pass p b k =
      sound_basic name pass (first (is_named name) db.users) p b k refl

  sound_after_bearer :
      (c : Option (Text × Text))
      → peer_of req ≡ none
      → bearer_of req.authorization ≡ none
      → basic_of lib req ≡ c
      → LetsThrough CredentialOf (basic_branch config now lib req db c).0
  sound_after_bearer none p b k = sound_sessions (candidates_of config req) p b k refl
  sound_after_bearer (some (name, pass)) p b k = sound_basic_user name pass p b k

  sound_after_peer :
      (c : Option Text)
      → peer_of req ≡ none
      → bearer_of req.authorization ≡ c
      → LetsThrough CredentialOf (bearer_branch config now lib req db c).0
  sound_after_peer none p b = sound_after_bearer (basic_of lib req) p b refl
  sound_after_peer (some plaintext) p b = sound_token plaintext p b

  sound_all :
      (c : Option Text)
      → peer_of req ≡ c
      → LetsThrough CredentialOf (with_peer config now lib req db c).0
  sound_all none p = sound_after_peer (bearer_of req.authorization) p refl
  sound_all (some token) p = sound_peer token (first (is_grant token) db.peer_grants) p refl

  let_through :
      (P : AuthUser → Type 0) (o : Outcome) (u : AuthUser) (renewed : Bool)
      → LetsThrough P o
      → o ≡ passes u renewed
      → P u
  let_through P (passes v renewed') u renewed h e = let same : v ≡ u = cc in subst P same h
  let_through P (unauthorized clears) u renewed h e = cc
  let_through P (redirects to clears) u renewed h e = cc

  -- Whoever is let through has a credential of the first kind that the request carries: on an API path
  -- an active peer grant with the token of the header; or a Bearer token that is stored, not revoked and
  -- of an active user; or on a registry path the name and the password of an active user; or the cookie of
  -- a session of an active user that has not expired, is younger than its absolute lifetime and was not
  -- made on another device. A request with a credential of one kind is never judged by a later kind.
  pub require_auth-Credential :
      (u : AuthUser) (renewed : Bool)
      → (require_auth config now lib req db).0 ≡ passes u renewed
      → Credential config now lib req db u
  unfolding require_auth
  require_auth-Credential u renewed h =
      let_through CredentialOf _ u renewed (sound_all (peer_of req) refl) h
