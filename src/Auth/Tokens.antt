-- ===== src/Auth/Tokens.antt =====
-- The life of an API token: `store` and `revoke` of crates/pier-core/src/auth/api_token.rs.
use pier.Base.{
  ℕ, String, Text, Bool, true, false, not, ◌&&◌, ◌||◌, none, some, List, [], ◌∷◌, ◌++◌,
  if◌then◌else◌, first, any, update_where, is_some, first-IsRow, any-IsRow, text_eq, text_eq_iff,
  str_eq, codes, Result, ok, err, ◌≡◌, refl, arith, eq_refl,
}
use pier.Auth.Headers.{has_prefix}
use pier.Auth.Tables.{UserRow, TokenRow, AuthDb}
use pier.Auth.Require.{Libraries, user_of, active_user, is_live_token, lookup}

abbrev pub row_of : Libraries → ℕ → String → Text → String → TokenRow
row_of lib now id plaintext user_id = record {
  id = id;
  user_id = user_id;
  token_hash = lib.hash plaintext;
  created_at = now;
  last_used_at = none;
  revoked_at = none;
}

abbrev pub with_token : TokenRow → AuthDb → AuthDb
with_token t db = record db { api_tokens = db.api_tokens ++ t ∷ [] }

-- The key and the unique hash of the table.
abbrev pub clashes : TokenRow → TokenRow → Bool
clashes new t = str_eq t.id new.id || text_eq t.token_hash new.token_hash

abbrev pub has_user : String → AuthDb → Bool
has_user user_id db = any (λ u. str_eq u.id user_id) db.users

-- `store`, with the clock and the issued token as arguments; the error is that of the INSERT.
unfoldable pub store :
    Libraries → ℕ → String → Text → String → AuthDb → Result (Unit {0}) (Unit {0}) × AuthDb
store lib now id plaintext user_id db =
    let row = row_of lib now id plaintext user_id in
    if any (clashes row) db.api_tokens || not (has_user user_id db)
    then (err tt, db)
    else (ok tt, with_token row db)

abbrev pub is_owned : String → String → TokenRow → Bool
is_owned id user_id t = str_eq t.id id && str_eq t.user_id user_id

abbrev pub is_revocable : String → String → TokenRow → Bool
is_revocable id user_id t = is_owned id user_id t && not (is_some t.revoked_at)

-- `revoke`: the error is "token not found".
unfoldable pub revoke : ℕ → String → String → AuthDb → Result (Unit {0}) (Unit {0}) × AuthDb
revoke now id user_id db = (
  if any (is_revocable id user_id) db.api_tokens || any (is_owned id user_id) db.api_tokens
      then ok tt
      else err tt,
  record db {
    api_tokens =
        update_where (is_revocable id user_id) (λ t. record t { revoked_at = some now })
          db.api_tokens;
  },
)

module _ (lib : Libraries) (now : ℕ) (plaintext : Text) where
  abbrev pub has_hash : TokenRow → Bool
  has_hash t = text_eq t.token_hash (lib.hash plaintext)

  module _ (db : AuthDb) where
    first-append :
        (rows : List TokenRow) (t : TokenRow)
        → any has_hash rows ≡ false
        → is_live_token lib now db plaintext t ≡ true
        → first (is_live_token lib now db plaintext) (rows ++ t ∷ []) ≡ some t
    first-append [] t h l = rw l refl
    first-append (x ∷ rows) t h l = ground (arith, h, first-append rows t)

    -- Without a row of that hash which is not revoked there is no live token.
    first-revoked :
        (id user_id : String) (later : ℕ) (rows : List TokenRow) (t : TokenRow)
        → any has_hash rows ≡ false
        → is_owned id user_id t ≡ true
        → first (is_live_token lib now db plaintext) (
            update_where
              (is_revocable id user_id)
              (λ t. record t { revoked_at = some later })
              (rows ++ t ∷ []))
          ≡ none
    first-revoked id user_id later [] t h o = ground (arith, o)
    first-revoked id user_id later (x ∷ rows) t h o =
        ground (arith, h, first-revoked id user_id later rows t)

active_user-has_user :
    (db : AuthDb) (user_id : String) (u : UserRow)
    → active_user db user_id ≡ some u
    → has_user user_id db ≡ true
active_user-has_user db user_id u e =
    let (row, p) = first-IsRow (λ x. str_eq x.id user_id && x.is_active) db.users u e in
    any-IsRow (λ x. str_eq x.id user_id) u db.users row (ground (arith, p))

no_clash :
    (row : TokenRow) (rows : List TokenRow)
    → any (λ t. str_eq t.id row.id) rows ≡ false
    → any (λ t. text_eq t.token_hash row.token_hash) rows ≡ false
    → any (clashes row) rows ≡ false
no_clash row [] i h = refl
no_clash row (x ∷ rows) i h =
    ground (arith, i, h, no_clash row rows (ground (arith, i)) (ground (arith, h)))

text_eq_refl : (s : Text) → text_eq s s ≡ true
text_eq_refl s = (text_eq_iff s s).1 refl

any-snoc :
    (p : TokenRow → Bool) (rows : List TokenRow) (t : TokenRow)
    → p t ≡ true
    → any p (rows ++ t ∷ []) ≡ true
any-snoc p [] t h = rw h refl
any-snoc p (x ∷ rows) t h = ground (arith, any-snoc p rows t h)

module _ (lib : Libraries) (now at_time later : ℕ) (id user_id : String) (plaintext : Text)
    (db : AuthDb) (u : UserRow) (token : has_prefix (codes "pier_npm_") plaintext ≡ true)
    (unused : any (λ t. str_eq t.id id) db.api_tokens ≡ false)
    (fresh : any (has_hash lib now plaintext) db.api_tokens ≡ false)
    (active : active_user db user_id ≡ some u) where
  abbrev stored : AuthDb
  stored = with_token (row_of lib now id plaintext user_id) db

  store-ok : store lib now id plaintext user_id db ≡ (ok tt, stored)
  unfolding store
  store-ok =
      rw
        (
          no_clash (row_of lib now id plaintext user_id) db.api_tokens unused fresh,
          active_user-has_user db user_id u active,
        )
        refl

  lookup-stored : (lookup lib at_time plaintext stored).0 ≡ some (user_of u "")
  unfolding lookup
  lookup-stored =
      let live : is_live_token lib at_time db plaintext (row_of lib now id plaintext user_id)
          ≡ true =
        rw (active, text_eq_refl (lib.hash plaintext)) refl in
      rw
        (
          token,
          first-append lib at_time plaintext db db.api_tokens (row_of lib now id plaintext user_id)
              fresh live,
          active,
        )
        refl

  lookup-revoked : (lookup lib at_time plaintext (revoke later id user_id stored).1).0 ≡ none
  unfolding lookup revoke
  lookup-revoked =
      rw
        (
          token,
          first-revoked lib at_time plaintext db id user_id later db.api_tokens
              (row_of lib now id plaintext user_id) fresh (rw (eq_refl id, eq_refl user_id) refl),
        )
        refl

  revoke-ok : (revoke later id user_id stored).0 ≡ ok tt
  unfolding revoke
  revoke-ok =
      rw
        (any-snoc (is_owned id user_id) db.api_tokens (row_of lib now id plaintext user_id)
          (rw (eq_refl id, eq_refl user_id) refl))
        (ground arith)

  -- A token with an id and a hash that no row has is stored for an active user without an error; it is
  -- that user's from then on, at any time; and once the user has revoked it, which succeeds, it is
  -- nobody's.
  pub lookup-store-revoke :
      ((store lib now id plaintext user_id db).0 ≡ ok tt)
      × ((lookup lib at_time plaintext (store lib now id plaintext user_id db).1).0
          ≡ some (user_of u ""))
      × ((revoke later id user_id (store lib now id plaintext user_id db).1).0 ≡ ok tt)
      × ((lookup lib at_time plaintext
            (revoke later id user_id (store lib now id plaintext user_id db).1).1).0
          ≡ none)
  lookup-store-revoke = rw store-ok (refl, lookup-stored, revoke-ok, lookup-revoked)
