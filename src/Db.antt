-- ===== src/Db.antt =====
-- The rows of the SQLite tables that the modelled handlers read and write
-- (crates/pier-core/src/db/schema.rs), with the columns that they name.
pub mod Rows
use pier.Base.{ℕ, String, Text, Bool, Option, List}

pub record User : Type 0 where
  pub id : String
  pub username : String
  pub email : Text
  pub global_role : String
  pub is_active : Bool
  pub updated_at : ℕ

pub record ProjectMemberRow : Type 0 where
  pub id : String
  pub project_id : String
  pub user_id : String
  pub project_role : String
  pub added_by : Option String

pub record Service : Type 0 where
  pub id : String
  pub project_id : Option String

pub record Session : Type 0 where
  pub id : String
  pub user_id : String

pub record ApiToken : Type 0 where
  pub id : String
  pub user_id : String
  pub revoked_at : Option ℕ

pub record UserInvitation : Type 0 where
  pub id : String
  pub email : Text
  pub invite_token_hash : String
  pub default_global_role : String
  pub invited_by : Option String
  pub expires_at : ℕ
  pub accepted_at : Option ℕ

-- `AuthEvent` of crates/pier-core/src/auth/audit.rs, the events of the modelled handlers.
pub data AuthEvent : Type 0 where
  user_invited user_deleted user_role_changed : AuthEvent
  project_member_added project_member_role_changed project_member_removed : AuthEvent

pub record AuthEventRow : Type 0 where
  pub event_type : AuthEvent
  pub user_id : Option String
  pub details : List (String × String)

pub record Db : Type 0 where
  pub users : List User
  pub projects : List String
  pub project_members : List ProjectMemberRow
  pub services : List Service
  pub sessions : List Session
  pub api_tokens : List ApiToken
  pub user_invitations : List UserInvitation
  pub auth_events : List AuthEventRow
