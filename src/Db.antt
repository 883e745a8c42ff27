-- ===== src/Db.antt =====
-- The SQLite database of LoRaDB-UI/backend/src/db/database.ts: the rows of its three tables and the
-- AUTOINCREMENT sequences. A JSON column is held as the value that its text encodes. An attempt's
-- time is in milliseconds: its ISO text has a fixed width, and its order is that of the numbers.
pub mod WellFormed
use lo_ra_dbase.Common.{ℕ, String, List, [], Bool, true, false}
use lo_ra_dbase.Json.{Json}

-- utils/encryption.ts: EncryptedData
pub record EncryptedData : Type 0 where
  pub ciphertext : String
  pub iv : String
  pub auth_tag : String
  pub salt : String

pub record Server : Type 0 where
  pub id : ℕ
  pub name : String
  pub host : String
  pub api_key : String
  pub api_key_iv : String
  pub api_key_auth_tag : String
  pub api_key_salt : String
  pub password_hash : String
  pub created_at : String
  pub updated_at : String

pub record FailedAttempt : Type 0 where
  pub id : ℕ
  pub server_id : ℕ
  pub ip_address : String
  pub attempted_at : ℕ

pub record Dashboard : Type 0 where
  pub id : ℕ
  pub server_id : ℕ
  pub name : String
  pub is_default : ℕ
  pub version : String
  pub time_range : String
  pub auto_refresh : ℕ
  pub refresh_interval : ℕ
  pub widgets : Json
  pub layouts : Json
  pub created_at : String
  pub updated_at : String

pub record Db : Type 0 where
  pub servers : List Server
  pub failed_attempts : List FailedAttempt
  pub dashboards : List Dashboard
  pub next_server : ℕ
  pub next_attempt : ℕ
  pub next_dashboard : ℕ

-- The schema as `initializeSchema` creates it on a new file.
abbrev pub empty : Db
empty = record {
  servers = [];
  failed_attempts = [];
  dashboards = [];
  next_server = 1;
  next_attempt = 1;
  next_dashboard = 1;
}

-- The ways in which a statement throws.
pub data DbError : Type 0 where
  unique_violation not_null_violation foreign_key_violation : DbError

pub data Result {ℓ} (A : Type ℓ) : Type ℓ where
  ok : A → Result A
  throw : DbError → Result A

infixl 5 ◌>>=◌
abbrev pub ◌>>=◌ {ℓ κ} : {A : Type ℓ} {B : Type κ} → Result A → (A → Result B) → Result B
ok a >>= k = k a
throw e >>= k = throw e
