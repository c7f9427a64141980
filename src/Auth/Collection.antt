-- ===== src/Auth/Collection.antt =====
-- The sweep of dead sessions (crates/pier-core/src/auth/middleware.rs).
use pier.Base.{
  ℕ, Text, false, Option, none, some, List, [], ◌∷◌, first, keep, codes, ◌≡◌, refl, ap, ◌∙◌, arith,
  Bool-cases, inl, inr, unwrap_or, both_branches,
}
use pier.Rbac.Policy.{AuthUser}
use pier.Auth.Headers.{ua_fingerprint, has_prefix}
use pier.Auth.Tables.{SessionRow, UserRow, TokenRow, PeerGrant, AuthDb}
use pier.Auth.Require.{
  Libraries, Config, Request, Outcome, passes, unauthorized, redirects, is_fresh, is_live,
  live_session, active_user, try_candidates, on_session, on_tried, Tried, found, revoked, nothing,
  session_branch, basic_branch, bearer_branch, with_peer, basic_of, bearer_of, peer_of,
  candidates_of, require_auth, session_gc_once, is_enabled, answer, lookup, basic_user, token_row,
  token_user, peer_branch, is_live_token, is_grant,
}

-- The outcome up to whether the cookie is renewed.
abbrev pub decision : Outcome → Outcome
decision (passes u renewed) = passes u false
decision (unauthorized clears) = unauthorized clears
decision (redirects to clears) = redirects to clears

module _ (config : Config) (now : ℕ) where
  abbrev swept : AuthDb → AuthDb
  swept db = record db { sessions = keep (is_fresh config now) db.sessions }

  first-keep :
      (db : AuthDb) (sid : Text) (rows : List SessionRow)
      → first (is_live config now db sid) (keep (is_fresh config now) rows)
        ≡ first (is_live config now db sid) rows
  first-keep db sid [] = refl
  first-keep db sid (s ∷ rows) = ground (arith, first-keep db sid rows)

  try_candidates-swept :
      (db : AuthDb) (fingerprint : Text) (sids : List Text)
      → try_candidates config now (swept db) fingerprint sids
        ≡ try_candidates config now db fingerprint sids
  unfolding try_candidates
  try_candidates-swept db fingerprint [] = refl
  try_candidates-swept db fingerprint (sid ∷ sids) =
      ap
        (λ s.
          on_session config now db fingerprint s
            (try_candidates config now (swept db) fingerprint sids))
        (first-keep db sid db.sessions)
      ∙ ap (on_session config now db fingerprint (live_session config now db sid))
          (try_candidates-swept db fingerprint sids)

  module _ (lib : Libraries) (req : Request) (db : AuthDb) where
    on_tried-swept :
        (sids : List Text) (t : Tried config now)
        → decision (on_tried config now lib req sids (swept db) t).0
          ≡ decision (on_tried config now lib req sids db t).0
    on_tried-swept sids (found s u) = refl
    on_tried-swept sids (revoked s) = refl
    on_tried-swept sids nothing = refl

    sessions-swept :
        (sids : List Text)
        → decision (session_branch config now lib req (swept db) sids).0
          ≡ decision (session_branch config now lib req db sids).0
    sessions-swept [] = refl
    sessions-swept (sid ∷ sids) =
        on_tried-swept (sid ∷ sids) _
        ∙ ap (λ t. decision (on_tried config now lib req (sid ∷ sids) db t).0)
            (try_candidates-swept db (ua_fingerprint (unwrap_or req.user_agent [])) (sid ∷ sids))

    token_user-swept :
        (t : TokenRow) (u : Option UserRow)
        → decision (answer lib now (token_user lib now (swept db) t u)).0
          ≡ decision (answer lib now (token_user lib now db t u)).0
    token_user-swept t none = refl
    token_user-swept t (some u) = refl

    token_row-swept :
        (t : Option TokenRow)
        → decision (answer lib now (token_row lib now (swept db) t)).0
          ≡ decision (answer lib now (token_row lib now db t)).0
    token_row-swept none = refl
    token_row-swept (some t) = token_user-swept t (active_user db t.user_id)

    lookup-swept :
        (plaintext : Text)
        → decision (answer lib now (lookup lib now plaintext (swept db))).0
          ≡ decision (answer lib now (lookup lib now plaintext db)).0
    unfolding lookup
    lookup-swept plaintext = elim (Bool-cases (has_prefix (codes "pier_npm_") plaintext)) [
      | inl e ↦ rw e (token_row-swept (first (is_live_token lib now db plaintext) db.api_tokens))
      | inr e ↦ rw e refl
    ]

    basic_user-swept :
        (u : Option AuthUser)
        → decision (answer lib now (u, swept db)).0 ≡ decision (answer lib now (u, db)).0
    basic_user-swept none = refl
    basic_user-swept (some u) = refl

    basic-swept :
        (c : Option (Text × Text))
        → decision (basic_branch config now lib req (swept db) c).0
          ≡ decision (basic_branch config now lib req db c).0
    unfolding basic_user
    basic-swept none = sessions-swept (candidates_of config req)
    basic-swept (some c) = basic_user-swept (basic_user lib now c db)

    bearer-swept :
        (c : Option Text)
        → decision (bearer_branch config now lib req (swept db) c).0
          ≡ decision (bearer_branch config now lib req db c).0
    bearer-swept none = basic-swept (basic_of lib req)
    bearer-swept (some plaintext) = lookup-swept plaintext

    grant-swept :
        (g : Option PeerGrant)
        → decision (peer_branch now (swept db) g).0 ≡ decision (peer_branch now db g).0
    grant-swept none = refl
    grant-swept (some g) = refl

    peer-swept :
        (c : Option Text)
        → decision (with_peer config now lib req (swept db) c).0
          ≡ decision (with_peer config now lib req db c).0
    peer-swept none = bearer-swept (bearer_of req.authorization)
    peer-swept (some token) = grant-swept (first (is_grant token) db.peer_grants)

    -- The sweep is invisible: a request gets through as the same user, or is refused in the same way,
    -- whether or not the sweep has run at that time, whatever the request and the tables; only whether
    -- the cookie is renewed is left open.
    pub require_auth-session_gc_once :
        decision (require_auth config now lib req (session_gc_once config now db)).0
        ≡ decision (require_auth config now lib req db).0
    unfolding require_auth session_gc_once
    require_auth-session_gc_once =
        both_branches
          (λ (x : AuthDb).
            decision (require_auth config now lib req x).0
            ≡ decision (require_auth config now lib req db).0)
          (is_enabled config now db.gc_enabled) (swept db) db (λ _. peer-swept (peer_of req))
          (λ _. refl)
