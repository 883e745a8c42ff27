-- ===== src/Servers.antt =====
-- LoRaDB-UI/backend/src/db/repositories/serverRepository.ts: `now` is the text of
-- `new Date().toISOString()`. A method that writes returns the new database, or the constraint that
-- made its statement throw; `none` is `null` or `undefined`.
pub mod Constraints
pub mod Validation
pub mod Routes
pub mod Creation
pub mod Deletion
pub mod Removal
pub mod Renaming
pub mod Connection
mod Tests
use lo_ra_dbase.Common.{
  ℕ, zero, suc, ◌+◌, ◌-◌, ◌*◌, ◌/◌, ◌%◌, ◌≤◌, ◌<◌, Char, code, String, ◌≡◌, refl, sym, ap, ◌∙◌, ◌≢◌,
  ◌↔◌, ◌⊎◌, inl, inr, Bool, true, false, not, ◌&&◌, ◌||◌, Option, none, some, List, [], ◌∷◌, ◌++◌,
  map, arith, eq_iff, ltb, leb, nat_beq, nat_beq_iff, Eq, ◌==◌, nat_eq, string_eq, if◌then◌else◌,
  Bool-cases, Option-cases, false_of_not_true, beq_refl, ne_of_beq, beq_of_ne, length,
  length-append, All, All-append, All-concat, All-map, All-image, Distinct, Distinct-concat,
}
use lo_ra_dbase.Common.TextOrder.{text_leb}
use lo_ra_dbase.Table
use lo_ra_dbase.Table.{select, first, count, insert, update, delete}
use lo_ra_dbase.Table.Keys.{by_key}
use lo_ra_dbase.Table.Sort.{order_by}
use lo_ra_dbase.Db.{
  Db, Server, Dashboard, FailedAttempt, EncryptedData, Result, ok, throw, ◌>>=◌, unique_violation,
}

pub record ServerPublic : Type 0 where
  pub id : ℕ
  pub name : String
  pub host : String
  pub created_at : String

pub record CreateServerData : Type 0 where
  pub name : String
  pub host : String
  pub encrypted_api_key : EncryptedData
  pub password_hash : String

-- `none` is a field that is `undefined`
pub record UpdateServerData : Type 0 where
  pub name : Option String
  pub host : Option String
  pub encrypted_api_key : Option EncryptedData
  pub password_hash : Option String

unfoldable pub find_by_id : ℕ → Db → Option Server
find_by_id id db = by_key (λ (s : Server). s.id) id db.servers

unfoldable pub find_by_name : String → Db → Option Server
find_by_name name db = by_key (λ (s : Server). s.name) name db.servers

unfoldable pub find_by_host : String → Db → Option Server
find_by_host host db = by_key (λ (s : Server). s.host) host db.servers

abbrev pub is_some {ℓ} : {A : Type ℓ} → Option A → Bool
is_some none = false
is_some (some _) = true

-- the row that an INSERT adds
abbrev pub server_row : ℕ → CreateServerData → String → String → Server
server_row id given created_at updated_at = record {
  id = id;
  name = given.name;
  host = given.host;
  api_key = given.encrypted_api_key.ciphertext;
  api_key_iv = given.encrypted_api_key.iv;
  api_key_auth_tag = given.encrypted_api_key.auth_tag;
  api_key_salt = given.encrypted_api_key.salt;
  password_hash = given.password_hash;
  created_at = created_at;
  updated_at = updated_at;
}

-- INSERT INTO servers: the identifier of the new row (`lastInsertRowid`), or a UNIQUE violation
unfoldable pub insert_server : CreateServerData → String → String → Db → Result (ℕ × Db)
unfolding find_by_name find_by_host
insert_server given created_at updated_at db =
    if is_some (find_by_name given.name db) || is_some (find_by_host given.host db)
    then throw unique_violation
    else ok (
      db.next_server,
      record db {
        servers = insert (server_row db.next_server given created_at updated_at) db.servers;
        next_server = suc db.next_server;
      },
    )

unfoldable pub create : String → CreateServerData → Db → Result (Option Server × Db)
unfolding insert_server find_by_id
create now given db = do
  added ← insert_server given now now db
  ok (find_by_id added.0 added.1, added.1)

abbrev pub to_public : Server → ServerPublic
to_public s = record { id = s.id; name = s.name; host = s.host; created_at = s.created_at }

-- ORDER BY created_at DESC
abbrev pub newest_first : ServerPublic → ServerPublic → Bool
newest_first a b = text_leb b.created_at a.created_at

unfoldable pub list_all : Db → List ServerPublic
list_all db = order_by newest_first (map to_public db.servers)

abbrev or_kept {ℓ} : {A : Type ℓ} → Option A → A → A
or_kept none kept = kept
or_kept (some given) kept = given

-- the assignments that `update` joins into its SET clause
abbrev pub assign : String → UpdateServerData → Server → Server
assign now given s = record s {
  name = or_kept given.name s.name;
  host = or_kept given.host s.host;
  api_key = elim given.encrypted_api_key [ none ↦ s.api_key | some e ↦ e.ciphertext ];
  api_key_iv = elim given.encrypted_api_key [ none ↦ s.api_key_iv | some e ↦ e.iv ];
  api_key_auth_tag = elim given.encrypted_api_key [
    | none ↦ s.api_key_auth_tag
    | some e ↦ e.auth_tag
  ];
  api_key_salt = elim given.encrypted_api_key [ none ↦ s.api_key_salt | some e ↦ e.salt ];
  password_hash = or_kept given.password_hash s.password_hash;
  updated_at = now;
}

-- another row than `id` has the value in the UNIQUE column
abbrev pub name_taken : ℕ → String → List Server → Bool
name_taken id name servers =
    is_some (first (λ (s : Server). s.name == name && not (s.id == id)) servers)

abbrev pub host_taken : ℕ → String → List Server → Bool
host_taken id host servers =
    is_some (first (λ (s : Server). s.host == host && not (s.id == id)) servers)

abbrev given_and {ℓ} : {A : Type ℓ} → Option A → (A → Bool) → Bool
given_and none test = false
given_and (some a) test = test a

-- UPDATE servers SET … WHERE id = ?
update_rows : String → ℕ → UpdateServerData → Db → Result Db
update_rows now id given db =
    if given_and given.name (λ n. name_taken id n db.servers)
      || given_and given.host (λ h. host_taken id h db.servers)
    then throw unique_violation
    else ok (record db {
      servers = Table.update (λ (s : Server). s.id == id) (assign now given) db.servers;
    })

unfoldable pub update_server : String → ℕ → UpdateServerData → Db → Result (Option Server × Db)
unfolding find_by_id update_rows
update_server now id given db = elim (find_by_id id db) [
  | none ↦ ok (none, db)
  | some server ↦ do written ← update_rows now id given db; ok (find_by_id id written, written)
]

-- DELETE FROM servers WHERE id = ?, with ON DELETE CASCADE of the two other tables; the result is
-- `changes > 0`
unfoldable pub delete_server : ℕ → Db → Bool × Db
delete_server id db = (
  ltb 0 (count (λ (s : Server). s.id == id) db.servers),
  record db {
    servers = delete (λ (s : Server). s.id == id) db.servers;
    failed_attempts = delete (λ (a : FailedAttempt). a.server_id == id) db.failed_attempts;
    dashboards = delete (λ (d : Dashboard). d.server_id == id) db.dashboards;
  },
)

unfoldable pub get_encrypted_api_key : ℕ → Db → Option EncryptedData
unfolding find_by_id
get_encrypted_api_key id db = elim (find_by_id id db) [
  | none ↦ none
  | some s ↦ some (record {
    ciphertext = s.api_key;
    iv = s.api_key_iv;
    auth_tag = s.api_key_auth_tag;
    salt = s.api_key_salt;
  })
]

-- `excludeId` is left out as `undefined` or 0
unfoldable pub name_exists : String → ℕ → Db → Bool
name_exists name exclude_id db =
    if exclude_id == 0
    then ltb 0 (count (λ (s : Server). s.name == name) db.servers)
    else ltb 0 (count (λ (s : Server). s.name == name && not (s.id == exclude_id)) db.servers)

unfoldable pub host_exists : String → ℕ → Db → Bool
host_exists host exclude_id db =
    if exclude_id == 0
    then ltb 0 (count (λ (s : Server). s.host == host) db.servers)
    else ltb 0 (count (λ (s : Server). s.host == host && not (s.id == exclude_id)) db.servers)
