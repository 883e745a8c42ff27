-- ===== src/Backup.antt =====
-- The servers of LoRaDB-UI/backend/src/db/repositories/backupRepository.ts: export, checks and import.
-- A missing text of a backup is empty, except the two times, whose absence is `none`. The parts of an
-- error's message are held, not its text. `day` is the date and `now` the whole of
-- `new Date().toISOString()`.
pub mod Names
pub mod Import
pub mod Turn
pub mod Boards
pub mod Files
pub mod Restore
pub mod Routes
mod Tests
mod RestoreTests
use lo_ra_dbase.Common.{
  ℕ, zero, suc, ◌+◌, ◌-◌, ◌*◌, ◌/◌, ◌%◌, ◌≤◌, ◌<◌, Char, code, String, ◌≡◌, refl, sym, ap, ◌∙◌, ◌≢◌,
  ◌↔◌, ◌⊎◌, inl, inr, Bool, true, false, not, ◌&&◌, ◌||◌, Option, none, some, List, [], ◌∷◌, ◌++◌,
  map, arith, eq_iff, ltb, leb, nat_beq, nat_beq_iff, Eq, ◌==◌, nat_eq, string_eq, if◌then◌else◌,
  Bool-cases, Option-cases, false_of_not_true, beq_refl, ne_of_beq, beq_of_ne, length,
  length-append, All, All-append, All-concat, All-map, All-image, All-zip, All-every, Distinct,
  Distinct-concat,
}
use Prim.Native.String.{◌++◌ as append, []}
use lo_ra_dbase.Common.TextOrder.{text_leb}
use lo_ra_dbase.Text
use lo_ra_dbase.Text.{some_chars, is_letter, is_digit, is_space}
use lo_ra_dbase.Text.Decimal.{decimal}
use lo_ra_dbase.Table.Sort.{order_by}
use lo_ra_dbase.Db.{Db, Server, EncryptedData, DbError, Result, ok, throw, not_null_violation}
use lo_ra_dbase.Servers.{CreateServerData, find_by_name, find_by_host, insert_server, is_some}

pub record BackupServer : Type 0 where
  pub name : String
  pub host : String
  pub api_key : String
  pub api_key_iv : String
  pub api_key_auth_tag : String
  pub api_key_salt : String
  pub password_hash : String
  pub created_at : Option String
  pub updated_at : Option String

abbrev pub backup_of : Server → BackupServer
backup_of s = record {
  name = s.name;
  host = s.host;
  api_key = s.api_key;
  api_key_iv = s.api_key_iv;
  api_key_auth_tag = s.api_key_auth_tag;
  api_key_salt = s.api_key_salt;
  password_hash = s.password_hash;
  created_at = some s.created_at;
  updated_at = some s.updated_at;
}

-- ORDER BY created_at ASC
abbrev pub oldest_first : Server → Server → Bool
oldest_first a b = text_leb a.created_at b.created_at

unfoldable pub export_servers : Db → List BackupServer
export_servers db = map backup_of (order_by oldest_first db.servers)

pub data Strategy : Type 0 where
  merge replace : Strategy

abbrev pub is_merge : Strategy → Bool
is_merge merge = true
is_merge replace = false

-- /^[a-zA-Z0-9\s\-_().]+$/
unfoldable pub is_backup_name : String → Bool
unfolding some_chars
is_backup_name name =
    some_chars
      (λ c.
        is_letter c
        || is_digit c
        || is_space c
        || c == b'-'
        || c == b'_'
        || c == b'('
        || c == b')'
        || c == b'.')
      name

abbrev error_if : Bool → String → List String
error_if test message = if test then message ∷ [] else []

-- the errors of `validateServerData`; `valid` is that there are none
unfoldable pub validate_server_data : BackupServer → List String
unfolding is_backup_name
validate_server_data s =
    error_if (s.name == "") "Server name is required"
    ++ error_if (s.host == "") "Server host is required"
    ++ error_if (s.api_key == "") "API key is required"
    ++ error_if (s.password_hash == "") "Password hash is required"
    ++ error_if (s.api_key_iv == "" || s.api_key_auth_tag == "" || s.api_key_salt == "")
        "Missing encryption fields (iv, auth_tag, or salt)"
    ++ error_if (not (s.name == "") && not (is_backup_name s.name)) "Invalid server name format"

pub data ImportError : Type 0 where
  invalid : (name : String) (errors : List String) → ImportError
  host_exists : (name host : String) → ImportError
  failed : (name : String) → DbError → ImportError
  invalid_dashboard missing_server_name : ImportError
  server_not_found default_exists : (server_name : String) → ImportError
  dashboard_failed : Option DbError → ImportError

pub record ImportResult : Type 0 where
  pub imported : ℕ
  pub skipped : ℕ
  pub errors : List ImportError

abbrev pub nothing : ImportResult
nothing = record { imported = 0; skipped = 0; errors = [] }

abbrev pub skip : ImportError → ImportResult → ImportResult
skip e r = record r { skipped = suc r.skipped; errors = r.errors ++ e ∷ [] }

abbrev pub count_imported : ImportResult → ImportResult
count_imported r = record r { imported = suc r.imported }

-- `${name} (${day})`, and `${name} (${day}-${counter})` for the counters from 1 on
unfoldable pub candidate : String → String → ℕ → String
candidate name day zero = append name (append " (" (append day ")"))
candidate name day (suc n) =
    append name (append " (" (append day (append "-" (append (decimal (suc n)) ")"))))

-- the loop that looks for a free name, from the candidate `k` on
unfoldable pub free_name : ℕ → String → String → ℕ → Db → String
unfolding candidate
free_name zero name day k db = candidate name day k
free_name (suc fuel) name day k db =
    let more = free_name fuel name day (suc k) db in
    if is_some (find_by_name (candidate name day k) db) then more else candidate name day k

-- There are more candidates than servers, so the fuel is enough.
unfoldable pub server_name : String → String → Db → String
unfolding free_name
server_name name day db =
    if is_some (find_by_name name db)
    then free_name (suc (length db.servers)) name day 0 db
    else name

abbrev pub text_or : Option String → String → String
text_or none default = default
text_or (some t) default = if t == "" then default else t

abbrev pub given_of : String → BackupServer → CreateServerData
given_of name s = record {
  name = name;
  host = s.host;
  encrypted_api_key = record {
    ciphertext = s.api_key;
    iv = s.api_key_iv;
    auth_tag = s.api_key_auth_tag;
    salt = s.api_key_salt;
  };
  password_hash = s.password_hash;
}

abbrev pub inserted : Result (ℕ × Db) → Result Db
inserted (throw e) = throw e
inserted (ok (id, db)) = ok db

-- the INSERT: a missing `created_at` makes it throw
unfoldable pub insert_backup : String → String → BackupServer → Db → Result Db
insert_backup now name s db = elim s.created_at [
  | none ↦ throw not_null_violation
  | some created_at ↦
      inserted (insert_server (given_of name s) created_at (text_or s.updated_at now) db)
]

abbrev pub settle : BackupServer → Result Db → Db → ImportResult → Db × ImportResult
settle s (throw e) db r = (db, skip (failed s.name e) r)
settle s (ok db') db r = (db', count_imported r)

-- one turn of the loop over the servers
unfoldable pub import_server :
    Strategy → String → String → BackupServer → Db → ImportResult → Db × ImportResult
unfolding insert_backup server_name validate_server_data
import_server strategy day now s db r =
    if not (length (validate_server_data s) == 0)
    then (db, skip (invalid s.name (validate_server_data s)) r)
    else if is_merge strategy && is_some (find_by_host s.host db)
    then (db, skip (host_exists s.name s.host) r)
    else settle s
        (insert_backup now (if is_merge strategy then server_name s.name day db else s.name) s db)
        db r

unfoldable pub import_all :
    Strategy → String → String → List BackupServer → Db → ImportResult → Db × ImportResult
unfolding import_server
import_all strategy day now [] db r = (db, r)
import_all strategy day now (s ∷ servers) db r =
    let (db', r') = import_server strategy day now s db r in
    import_all strategy day now servers db' r'

-- DELETE FROM servers, with its cascades
abbrev pub without_servers : Db → Db
without_servers db = record db { servers = []; failed_attempts = []; dashboards = [] }

unfoldable pub import_servers :
    Strategy → String → String → List BackupServer → Db → Db × ImportResult
unfolding import_all
import_servers merge day now servers db = import_all merge day now servers db nothing
import_servers replace day now servers db =
    import_all replace day now servers (without_servers db) nothing
