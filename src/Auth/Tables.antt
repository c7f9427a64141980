-- ===== src/Auth/Tables.antt =====
-- The rows that crates/pier-core/src/auth/middleware.rs and api_token.rs read and write. Times are whole
-- seconds; SQLite compares the texts of `datetime` in the same order.
use pier.Base.{ℕ, String, Text, Bool, Option, List}

pub record UserRow : Type 0 where
  pub id : String
  pub username : String
  pub email : String
  pub password : Text
  pub role : String
  pub global_role : String
  pub is_active : Bool

pub record SessionRow : Type 0 where
  pub id : String
  pub user_id : String
  pub user_agent : Option Text
  pub expires_at : ℕ
  pub created_at : ℕ

pub record TokenRow : Type 0 where
  pub id : String
  pub user_id : String
  pub token_hash : Text
  pub created_at : ℕ
  pub last_used_at : Option ℕ
  pub revoked_at : Option ℕ

pub record PeerGrant : Type 0 where
  pub id : String
  pub name : String
  pub token : Text
  pub is_active : Bool
  pub last_used_at : Option ℕ

pub record AuthDb : Type 0 where
  pub users : List UserRow
  pub sessions : List SessionRow
  pub api_tokens : List TokenRow
  pub peer_grants : List PeerGrant
  pub gc_enabled : Option Text
