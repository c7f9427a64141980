-- ===== src/Auth/Kept.antt =====
-- What `require_auth` (crates/pier-core/src/auth/middleware.rs) leaves of the sessions.
use pier.Base.{
  IsRow, ℕ, ◌+◌, ◌*◌, ◌≤◌, Text, Bool, true, false, not, Option, none, some, List, [], ◌∷◌, first,
  keep, update_where, str_eq, codes, ◌≡◌, inl, inr, refl, arith, Bool-cases,
}
use pier.Rbac.Policy.{AuthUser}
use pier.Auth.Headers.{has_prefix}
use pier.Auth.Tables.{SessionRow, UserRow, TokenRow, PeerGrant, AuthDb}
use pier.Auth.Credential.{fingerprint}
use pier.Auth.Require.{
  Libraries, Config, Request, ttl, is_fresh, is_slid, slide, is_dead_candidate, reap,
  revoke_session, try_candidates, on_tried, Tried, found, revoked, nothing, session_branch,
  basic_branch, bearer_branch, with_peer, basic_of, bearer_of, peer_of, candidates_of, require_auth,
  answer, lookup, basic_user, token_row, token_user, peer_branch, is_live_token, is_grant,
  active_user,
}

-- The row is there, made at the same time and with no earlier expiry.
abbrev pub IsKept : SessionRow → List SessionRow → Type 0
IsKept r rows =
    (x : SessionRow) × IsRow x rows
    × (x.id ≡ r.id)
    × (x.user_id ≡ r.user_id)
    × (x.created_at ≡ r.created_at)
    × (r.expires_at ≤ x.expires_at)

same-IsKept : (r : SessionRow) (rows : List SessionRow) → IsRow r rows → IsKept r rows
same-IsKept r rows row = (r, row, refl, refl, refl, omega arith)

later-IsKept : (r y : SessionRow) (rows : List SessionRow) → IsKept r rows → IsKept r (y ∷ rows)
later-IsKept r y rows (x, row, a, b, c, d) = (x, inr row, a, b, c, d)

module _ (p : SessionRow → Bool) where
  IsRow-keep :
      (r : SessionRow) (rows : List SessionRow) → p r ≡ true → IsRow r rows → IsRow r (keep p rows)
  IsRow-keep r [] h row = row
  IsRow-keep r (y ∷ rows) h (inl e) = rw (← e, h) (inl refl)
  IsRow-keep r (y ∷ rows) h (inr row) = elim (Bool-cases (p y)) [
    | inl e ↦ rw e (inr (IsRow-keep r rows h row))
    | inr e ↦ rw e (IsRow-keep r rows h row)
  ]

module _ (config : Config) (now : ℕ) where
  slide-IsKept :
      (s r : SessionRow) (rows : List SessionRow)
      → IsRow r rows
      → IsKept r (
          update_where
            (is_slid config now s)
            (λ x. record x { expires_at = now + ttl config now * 3600 })
            rows)
  slide-IsKept s r [] row = absurd row
  slide-IsKept s r (y ∷ rows) (inr row) = later-IsKept r _ _ (slide-IsKept s r rows row)
  slide-IsKept s r (y ∷ rows) (inl e) = elim (Bool-cases (is_slid config now s r)) [
    | inl slid ↦
        rw (← e, slid)
          (
            record r { expires_at = now + ttl config now * 3600 },
            inl refl,
            refl,
            refl,
            refl,
            ground (arith, slid),
          )
    | inr stays ↦ rw (← e, stays) (r, inl refl, refl, refl, refl, omega arith)
  ]

  module _ (lib : Libraries) (req : Request) (db : AuthDb) (r : SessionRow)
      (row : IsRow r db.sessions) (fresh : is_fresh config now r ≡ true) where
    reap-IsKept :
        (sids : List Text) (old : AuthDb)
        → IsRow r old.sessions
        → IsKept r (reap config now sids old).sessions
    unfolding reap
    reap-IsKept sids old here = same-IsKept r _ (
        IsRow-keep (λ x. not (is_dead_candidate config now sids x)) r old.sessions
          (ground (arith, fresh)) here)

    tried-IsKept :
        (sids : List Text) (t : Tried config now)
        → ((s : SessionRow) → t ≡ revoked s → str_eq r.id s.id ≡ false)
        → IsKept r (on_tried config now lib req sids db t).1.sessions
    unfolding slide revoke_session
    tried-IsKept sids (found s u) other = slide-IsKept s r db.sessions row
    tried-IsKept sids (revoked s) other =
        reap-IsKept sids (revoke_session config now s db)
          (IsRow-keep (λ x. not (str_eq x.id s.id)) r db.sessions (rw (other s refl) refl) row)
    tried-IsKept sids nothing other = reap-IsKept sids db row

    sessions-IsKept :
        (sids : List Text)
        → ((s : SessionRow)
            → try_candidates config now db (fingerprint req) sids ≡ revoked s
            → str_eq r.id s.id ≡ false)
        → IsKept r (session_branch config now lib req db sids).1.sessions
    sessions-IsKept [] other = same-IsKept r db.sessions row
    sessions-IsKept (sid ∷ sids) other =
        tried-IsKept (sid ∷ sids) (try_candidates config now db (fingerprint req) (sid ∷ sids))
          other

    answer-IsKept :
        (u : Option AuthUser) (x : AuthDb)
        → IsKept r x.sessions
        → IsKept r (answer lib now (u, x)).1.sessions
    answer-IsKept none x h = h
    answer-IsKept (some u) x h = h

    token_user-IsKept :
        (t : TokenRow) (u : Option UserRow)
        → IsKept r (answer lib now (token_user lib now db t u)).1.sessions
    token_user-IsKept t none = same-IsKept r db.sessions row
    token_user-IsKept t (some u) = same-IsKept r db.sessions row

    token_row-IsKept :
        (t : Option TokenRow) → IsKept r (answer lib now (token_row lib now db t)).1.sessions
    token_row-IsKept none = same-IsKept r db.sessions row
    token_row-IsKept (some t) = token_user-IsKept t (active_user db t.user_id)

    lookup-IsKept :
        (plaintext : Text) → IsKept r (answer lib now (lookup lib now plaintext db)).1.sessions
    unfolding lookup
    lookup-IsKept plaintext = elim (Bool-cases (has_prefix (codes "pier_npm_") plaintext)) [
      | inl e ↦ rw e (token_row-IsKept (first (is_live_token lib now db plaintext) db.api_tokens))
      | inr e ↦ rw e (same-IsKept r db.sessions row)
    ]

    grant-IsKept : (g : Option PeerGrant) → IsKept r (peer_branch now db g).1.sessions
    grant-IsKept none = same-IsKept r db.sessions row
    grant-IsKept (some g) = same-IsKept r db.sessions row

    module _
        (other : (s : SessionRow)
          → try_candidates config now db (fingerprint req) (candidates_of config req) ≡ revoked s
          → str_eq r.id s.id ≡ false) where
      basic-IsKept :
          (c : Option (Text × Text)) → IsKept r (basic_branch config now lib req db c).1.sessions
      basic-IsKept none = sessions-IsKept (candidates_of config req) other
      basic-IsKept (some c) =
          answer-IsKept (basic_user lib now c db) db (same-IsKept r db.sessions row)

      bearer-IsKept :
          (c : Option Text) → IsKept r (bearer_branch config now lib req db c).1.sessions
      bearer-IsKept none = basic-IsKept (basic_of lib req)
      bearer-IsKept (some plaintext) = lookup-IsKept plaintext

      peer-IsKept : (c : Option Text) → IsKept r (with_peer config now lib req db c).1.sessions
      peer-IsKept none = bearer-IsKept (bearer_of req.authorization)
      peer-IsKept (some token) = grant-IsKept (first (is_grant token) db.peer_grants)

      -- A session that is neither expired nor past its absolute lifetime, and is not the one that this
      -- request revokes for its device, is still there after the request, of the same user, made at the
      -- same time and with no earlier expiry, whatever the request.
      pub require_auth-IsKept : IsKept r (require_auth config now lib req db).1.sessions
      unfolding require_auth
      require_auth-IsKept = peer-IsKept (peer_of req)
