-- ===== src/Servers/Routes.antt =====
-- LoRaDB-UI/backend/src/routes/servers.ts: each handler takes the database and returns its answer
-- with the database that it leaves. `req.params.id` is what `parseInt` makes of it, `none` for NaN. A
-- handler with an `await` between its reads and its writes is two functions: what other handlers do
-- in between is a change of the database from the one to the other.
use lo_ra_dbase.Common.{
  ℕ, String, Bool, not, ◌&&◌, Option, none, some, List, ◌==◌, nat_eq, string_eq, if◌then◌else◌,
}
use lo_ra_dbase.Table.{first}
use lo_ra_dbase.Db.{Db, Server, Result, ok, throw}
use lo_ra_dbase.Crypto.{Bytes}
use lo_ra_dbase.Config.{Env}
use lo_ra_dbase.Http.{Reply, fail, reply, given?, text_of, validation_error, not_found}
use lo_ra_dbase.Passwords.{validate_password, passwords_match}
use lo_ra_dbase.Encryption.Codec.{encrypt_api_key}
use lo_ra_dbase.Encryption.Cache.{Cache, clear_cached_api_key}
use lo_ra_dbase.Servers.{
  ServerPublic, CreateServerData, find_by_id, create, update_server, delete_server, list_all,
  name_exists, host_exists, is_some,
}
use lo_ra_dbase.Servers.Validation.{is_valid_server_name, is_valid_host}

-- A field of a body is a text or absent. A request with a field of another type, such as a number as the
-- host, which throws in the handler and is answered by its `catch` with 500, is not modelled.
pub record CreateBody : Type 0 where
  pub name : Option String
  pub host : Option String
  pub api_key : Option String
  pub password : Option String
  pub password_confirm : Option String

-- a handler that stops with an answer before its `await`, or goes on
pub data Stage {ℓ} (A B : Type ℓ) : Type ℓ where
  stop : Reply A → Stage A B
  go_on : B → Stage A B

pub record NewServer : Type 0 where
  pub name : String
  pub host : String
  pub api_key : String
  pub password : String

abbrev pub name_message : String
name_message = "Server name can only contain letters, numbers, spaces, hyphens, and underscores"

abbrev pub host_message : String
host_message =
    "Invalid host format. Use http://domain, https://domain, IP:port, or domain:port (e.g., https://ldb.example.com or 192.168.1.100:8080)"

abbrev pub duplicate_name {ℓ} : {A : Type ℓ} → Reply A
duplicate_name = fail 409 "DuplicateError" "A server with this name already exists"

abbrev pub duplicate_host {ℓ} : {A : Type ℓ} → Reply A
duplicate_host = fail 409 "DuplicateError" "A server with this host already exists"

-- the checks of POST / on the fields that are there
check_fields : Env → NewServer → String → Db → Stage ServerPublic NewServer
check_fields env new password_confirm db =
    if not (is_valid_server_name new.name)
    then stop (validation_error name_message)
    else if not (is_valid_host env new.host)
    then stop (validation_error host_message)
    else elim (validate_password new.password) [
      | some error ↦ stop (validation_error error)
      | none ↦
          if not (passwords_match new.password password_confirm)
          then stop (validation_error "Passwords do not match")
          else if name_exists new.name 0 db
          then stop duplicate_name
          else if host_exists new.host 0 db
          then stop duplicate_host
          else go_on new
    ]

-- POST / up to `await hashPassword`
unfoldable pub create_check : Env → CreateBody → Db → Stage ServerPublic NewServer
unfolding check_fields
create_check env body db =
    if not (
      given? body.name
      && given? body.host
      && given? body.api_key
      && given? body.password
      && given? body.password_confirm)
    then stop (validation_error "All fields are required")
    else check_fields env
        (record {
          name = text_of body.name;
          host = text_of body.host;
          api_key = text_of body.api_key;
          password = text_of body.password;
        })
        (text_of body.password_confirm) db

-- the random bytes that POST / draws
pub record Draws : Type 0 where
  pub bcrypt_salt : Bytes
  pub salt : Bytes
  pub iv : Bytes

abbrev pub stored_data : Env → Draws → NewServer → CreateServerData
stored_data env draws new =
    let password_hash = env.crypto.bcrypt_hash draws.bcrypt_salt new.password in
    record {
      name = new.name;
      host = new.host;
      encrypted_api_key = encrypt_api_key env.crypto draws.salt draws.iv new.api_key password_hash;
      password_hash = password_hash;
    }

abbrev pub public_view : Server → ServerPublic
public_view s = record { id = s.id; name = s.name; host = s.host; created_at = s.created_at }

abbrev pub creation_failed : Reply ServerPublic
creation_failed = fail 500 "InternalServerError" "Failed to create server"

created : Result (Option Server × Db) → Db → Reply ServerPublic × Db
created (throw e) db = (creation_failed, db)
created (ok (none, db')) db = (creation_failed, db')
created (ok (some server, db')) db = (reply 201 (public_view server), db')

-- POST / after `await hashPassword`
unfoldable pub create_commit : Env → Draws → String → NewServer → Db → Reply ServerPublic × Db
unfolding created
create_commit env draws now new db = created (create now (stored_data env draws new) db) db

-- POST / with nothing in between
unfoldable pub create_server : Env → Draws → String → CreateBody → Db → Reply ServerPublic × Db
create_server env draws now body db = elim (create_check env body db) [
  | stop answer ↦ (answer, db)
  | go_on new ↦ create_commit env draws now new db
]

-- GET /
unfoldable pub get_servers : Db → Reply (List ServerPublic)
get_servers db = reply 200 (list_all db)

abbrev pub invalid_id {ℓ} : {A : Type ℓ} → Reply A
invalid_id = validation_error "Invalid server ID"

-- GET /:id
unfoldable pub get_server : Option ℕ → Db → Reply ServerPublic
get_server none db = invalid_id
get_server (some server_id) db = elim (find_by_id server_id db) [
  | none ↦ not_found
  | some server ↦ reply 200 (public_view server)
]

-- DELETE /:id, with the cache of API keys
unfoldable pub delete_route : Option ℕ → Db → Cache → Reply String × Db × Cache
delete_route none db cache = (invalid_id, db, cache)
delete_route (some server_id) db cache = elim (find_by_id server_id db) [
  | none ↦ (not_found, db, cache)
  | some server ↦
      let (deleted, db') = delete_server server_id db in
      if deleted
      then (reply 200 "Server deleted successfully", db', clear_cached_api_key server_id cache)
      else (fail 500 "InternalServerError" "Failed to delete server", db', cache)
]

pub record UpdateBody : Type 0 where
  pub name : Option String
  pub host : Option String

-- listAll().find(s => … && s.id !== serverId)
abbrev pub other_has : (ServerPublic → Bool) → ℕ → Db → Bool
other_has test server_id db = is_some (first (λ s. test s && not (s.id == server_id)) (list_all db))

abbrev pub update_failed : Reply ServerPublic
update_failed = fail 500 "InternalServerError" "Failed to update server"

updated : Result (Option Server × Db) → Db → Reply ServerPublic × Db
updated (throw e) db = (update_failed, db)
updated (ok (none, db')) db = (update_failed, db')
updated (ok (some server, db')) db = (reply 200 (public_view server), db')

-- PUT /:id
unfoldable pub update_route : Env → String → Option ℕ → UpdateBody → Db → Reply ServerPublic × Db
unfolding updated
update_route env now none body db = (invalid_id, db)
update_route env now (some server_id) body db =
    let name = text_of body.name in
    let host = text_of body.host in
    if not (is_some (find_by_id server_id db))
    then (not_found, db)
    else if not (given? body.name && given? body.host)
    then (validation_error "Name and host are required", db)
    else if not (is_valid_server_name name)
    then (validation_error name_message, db)
    else if not (is_valid_host env host)
    then (validation_error host_message, db)
    else if other_has (λ s. s.name == name) server_id db
    then (duplicate_name, db)
    else if other_has (λ s. s.host == host) server_id db
    then (duplicate_host, db)
    else updated
        (update_server now server_id
          (record {
            name = some name;
            host = some host;
            encrypted_api_key = none;
            password_hash = none;
          })
          db)
        db
