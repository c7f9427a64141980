-- ===== src/PartialToken.antt =====
-- crates/pier-core/src/auth/partial_token.rs: the tokens between the password and the second factor. The
-- clock, in seconds, and the random token are arguments; the map is a list of its entries.
pub mod OneShot
mod Tests
use pier.Base.{
  ℕ, ◌+◌, ◌<◌, ◌≤◌, String, Bool, true, false, not, ◌&&◌, ◌||◌, Option, none, some, List, [], ◌∷◌,
  ◌≡◌, ◌≢◌, ◌⊎◌, inl, inr, refl, sym, ap, subst, ◌∙◌, ltb, if◌then◌else◌, str_eq, eq_iff, eq_refl,
  keep, first, any, arith, Bool-cases, Option-cases,
}

pub record Entry : Type 0 where
  pub token : String
  pub user_id : String
  pub expires_at : ℕ
  pub issued_to_ip : Option String

abbrev partial_ttl_secs : ℕ
partial_ttl_secs = 300

abbrev pub has_token : String → Entry → Bool
has_token token e = str_eq e.token token

-- `HashMap::remove`
abbrev pub without : String → List Entry → List Entry
without token g = keep (λ e. not (has_token token e)) g

unfoldable pub evict_expired : ℕ → List Entry → List Entry
evict_expired now g = keep (λ e. ltb now e.expires_at) g

unfoldable pub issue : ℕ → String → String → Option String → List Entry → List Entry
unfolding evict_expired
issue now token user_id issued_to_ip g =
    record {
      token = token;
      user_id = user_id;
      expires_at = now + partial_ttl_secs;
      issued_to_ip = issued_to_ip;
    }
    ∷ without token (evict_expired now g)

-- whether a caller at `ip` may use an entry that is bound to an address, if it is
abbrev pub ip_matches : Option String → Option String → Bool
ip_matches none ip = true
ip_matches (some bound) none = false
ip_matches (some bound) (some now) = str_eq now bound

abbrev pub take_entry :
    String → Option String → Option Entry → List Entry → Option String × List Entry
take_entry token ip none g = (none, g)
take_entry token ip (some e) g =
    (if ip_matches e.issued_to_ip ip then some e.user_id else none, without token g)

unfoldable pub consume : ℕ → String → Option String → List Entry → Option String × List Entry
unfolding evict_expired
consume now token ip g =
    let live = evict_expired now g in take_entry token ip (first (has_token token) live) live
