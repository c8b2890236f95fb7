-- ===== src/Auth/Rows.antt =====
-- The tables of the sign-in schema that the account's operations read and write
-- (backend/app/models/auth.py). A digest is the text of a SHA-256.
use cabinet_numismatics.Prelude.{ℕ, String, Bool, Option, List}

pub record User : Type 0 where
  pub id : ℕ
  pub username : String
  pub password_hash : Option String
  pub role : String
  pub is_active : Bool
  pub created_at : ℕ
  pub last_login_at : Option ℕ
  pub password_changed_at : Option ℕ

-- `auth_method`
pub data Method : Type 0 where
  password oidc trusted_header : Method

pub record Session : Type 0 where
  pub id : ℕ
  pub secret_hash : String
  pub user_id : ℕ
  pub auth_method : Method
  pub created_at : ℕ
  pub last_seen_at : ℕ
  pub expires_at : ℕ
  pub confirmed_until : Option ℕ
  pub user_agent : Option String
  pub address : Option String
  pub revoked_at : Option ℕ
  pub identity_id : Option ℕ
  pub notice_failed : Option ℕ
  pub notice_since : Option ℕ

-- A token's scope, as the table's check constraint allows.
pub data Scope : Type 0 where
  read write metrics : Scope

pub record ApiToken : Type 0 where
  pub id : ℕ
  pub public_id : String
  pub secret_hash : String
  pub user_id : ℕ
  pub name : String
  pub scope : Scope
  pub created_at : ℕ
  pub last_used_at : Option ℕ
  pub expires_at : Option ℕ
  pub revoked_at : Option ℕ

pub record KnownDevice : Type 0 where
  pub id : ℕ
  pub secret_hash : String
  pub user_id : ℕ
  pub created_at : ℕ
  pub expires_at : ℕ
  pub failures : ℕ

pub record KnownBrowser : Type 0 where
  pub id : ℕ
  pub user_id : ℕ
  pub secret_hash : String
  pub created_at : ℕ
  pub last_seen_at : ℕ
  pub expires_at : ℕ

-- `kind` is `provider` or `trusted_header`.
pub record Identity : Type 0 where
  pub id : ℕ
  pub user_id : ℕ
  pub kind : String
  pub provider_id : Option ℕ
  pub issuer : String
  pub subject : String
  pub display : Option String
  pub linked_at : ℕ
  pub last_used_at : Option ℕ

-- One row of the audit log; of the JSON detail the keys.
pub record AuditEntry : Type 0 where
  pub id : ℕ
  pub at : ℕ
  pub actor_user_id : Option ℕ
  pub actor_label : Option String
  pub actor_kind : String
  pub action : String
  pub target : Option String
  pub detail : List String
  pub address : Option String
  pub user_agent : Option String

-- The sign-in schema, as far as the gate and the account's operations use it. `claim` is the user of
-- the singleton row, `next_id` is above every id in use, and the audit log has its newest row
-- first.
pub record Db : Type 0 where
  pub users : List User
  pub claim : Option ℕ
  pub sessions : List Session
  pub tokens : List ApiToken
  pub devices : List KnownDevice
  pub browsers : List KnownBrowser
  pub identities : List Identity
  pub audit : List AuditEntry
  pub next_id : ℕ
