-- ===== src/PartialToken/OneShot.antt =====
-- A token of crates/pier-core/src/auth/partial_token.rs can be consumed once, in time and from its address.
use pier.Base.{
  ℕ, ◌+◌, String, Bool, false, not, ◌&&◌, Option, none, some, List, [], ◌∷◌, ◌≡◌, inl, inr, refl,
  ap, ltb, if◌then◌else◌, str_eq, eq_refl, keep, first, any, arith, Bool-cases, Option-cases,
}
use pier.PartialToken.{
  Entry, has_token, without, evict_expired, issue, ip_matches, take_entry, consume,
}

any-without : (token : String) (g : List Entry) → any (has_token token) (without token g) ≡ false
any-without token [] = refl
any-without token (e ∷ g) = ground (arith, any-without token g)

any-keep :
    (token : String) (p : Entry → Bool) (g : List Entry)
    → any (has_token token) g ≡ false
    → any (has_token token) (keep p g) ≡ false
any-keep token p [] h = h
any-keep token p (e ∷ g) h = ground (arith, h, any-keep token p g)

first-any :
    (token : String) (g : List Entry)
    → any (has_token token) g ≡ false
    → first (has_token token) g ≡ none
first-any token [] h = refl
first-any token (e ∷ g) h = ground (arith, h, first-any token g)

first-none :
    (token : String) (g : List Entry)
    → first (has_token token) g ≡ none
    → any (has_token token) g ≡ false
first-none token [] h = refl
first-none token (e ∷ g) h = ground (arith, h, first-none token g)

-- An issue of another token, or an attempt to consume any token.
pub data Step (token : String) : List Entry → List Entry → Type 0 where
  other :
      (g : List Entry) (now : ℕ) (fresh user_id : String) (ip : Option String)
      → str_eq fresh token ≡ false
      → Step token g (issue now fresh user_id ip g)
  attempt :
      (g : List Entry) (now : ℕ) (wanted : String) (ip : Option String)
      → Step token g (consume now wanted ip g).1

pub data Steps (token : String) : List Entry → List Entry → Type 0 where
  stop : (g : List Entry) → Steps token g g
  next :
      {g later last : List Entry} → Step token g later → Steps token later last → Steps token g last

abbrev IsGone : String → List Entry → Type 0
IsGone token g = any (has_token token) g ≡ false

IsGone-take_entry :
    (token wanted : String) (ip : Option String) (o : Option Entry) (g : List Entry)
    → IsGone token g
    → IsGone token (take_entry wanted ip o g).1
IsGone-take_entry token wanted ip none g h = h
IsGone-take_entry token wanted ip (some e) g h = any-keep token (λ x. not (has_token wanted x)) g h

IsGone-Step :
    (token : String) (g later : List Entry)
    → Step token g later
    → IsGone token g
    → IsGone token later
unfolding issue consume
IsGone-Step token g later (other _ now fresh user_id ip n) h = ground (
  arith,
  n,
  any-keep token (λ e. not (has_token fresh e)) (keep (λ e. ltb now e.expires_at) g)
      (any-keep token (λ e. ltb now e.expires_at) g h),
)
IsGone-Step token g later (attempt _ now wanted ip) h =
    IsGone-take_entry token wanted ip (first (has_token wanted) (evict_expired now g))
      (evict_expired now g) (unfold evict_expired in any-keep token (λ e. ltb now e.expires_at) g h)

IsGone-Steps :
    (token : String) (g last : List Entry) → Steps token g last → IsGone token g → IsGone token last
IsGone-Steps token g last (stop _) h = h
IsGone-Steps token g last (next {later = later} s t) h =
    IsGone-Steps token later last t (IsGone-Step token g later s h)

IsGone-consumed :
    (token : String) (ip : Option String) (g : List Entry)
    → IsGone token (take_entry token ip (first (has_token token) g) g).1
IsGone-consumed token ip g = elim (Option-cases (first (has_token token) g)) [
  | inl e ↦ ground (arith, e, first-none token g e)
  | inr (x, e) ↦ ground (arith, e, any-without token g)
]

-- An attempt to consume a token, whether it succeeds or not, is the last one that can succeed: after any
-- sequence of issues of other tokens and of attempts, a further attempt answers nothing, whatever the times
-- and the addresses.
pub consume_once :
    (token : String) (now later : ℕ) (ip ip' : Option String) (g last : List Entry)
    → Steps token (consume now token ip g).1 last
    → (consume later token ip' last).0 ≡ none
unfolding consume evict_expired
consume_once token now later ip ip' g last s =
    let gone =
      IsGone-Steps token (consume now token ip g).1 last s
        (IsGone-consumed token ip (evict_expired now g)) in
    let evicted = any-keep token (λ e. ltb later e.expires_at) last gone in
    ap (λ o. (take_entry token ip' o (keep (λ e. ltb later e.expires_at) last)).0)
      (first-any token (keep (λ e. ltb later e.expires_at) last) evicted)

-- A token is good for 300 seconds from its issue, the last one excluded, and if it was bound to an address,
-- from that address alone; then it answers the user for whom it was issued, and otherwise nothing.
pub consume-issue :
    (token user_id : String) (now later : ℕ) (bound ip : Option String) (g : List Entry)
    → (consume later token ip (issue now token user_id bound g)).0
      ≡ (if ltb later (now + 300) && ip_matches bound ip then some user_id else none)
unfolding consume issue evict_expired
consume-issue token user_id now later bound ip g =
    let rest = without token (keep (λ e. ltb now e.expires_at) g) in
    elim (Bool-cases (ltb later (now + 300))) [
      | inl h ↦ ground (arith, h, eq_refl token)
      | inr h ↦
          let gone =
            any-keep token (λ e. ltb later e.expires_at) rest
              (any-without token (keep (λ e. ltb now e.expires_at) g)) in
          ground (arith, h, first-any token (keep (λ e. ltb later e.expires_at) rest) gone)
    ]
