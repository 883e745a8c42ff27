-- ===== src/Session.antt =====
-- Tokens: LoRaDB-UI/backend/src/middleware/masterAuth.ts, middleware/serverContext.ts and
-- routes/auth.ts. `now` is `Date.now()`, and a header or a field that is not there is `none`.
pub mod Tokens
pub mod Login
pub mod Master
pub mod Journey
pub mod Deleted
mod Tests
use lo_ra_dbase.Common.{
  ℕ, zero, suc, ◌+◌, ◌-◌, ◌*◌, ◌/◌, ◌%◌, ◌≤◌, ◌<◌, Char, code, String, ◌≡◌, refl, sym, ap, ◌∙◌, ◌≢◌,
  ◌↔◌, ◌⊎◌, inl, inr, Bool, true, false, not, ◌&&◌, ◌||◌, Option, none, some, List, [], ◌∷◌, ◌++◌,
  map, arith, eq_iff, ltb, leb, nat_beq, nat_beq_iff, Eq, ◌==◌, nat_eq, string_eq, if◌then◌else◌,
  Bool-cases, Option-cases, false_of_not_true, beq_refl, ne_of_beq, beq_of_ne, length,
  length-append, All, All-append, All-concat, All-map, All-image, All-zip, All-every, Distinct,
  Distinct-concat,
}
use Prim.Native.String.{[], ◌∷◌, len}
use lo_ra_dbase.Db.{Db, Server}
use lo_ra_dbase.Crypto.{
  Claims, Verified, claims, token_expired, json_web_token_error, not_before_error, other_error,
}
use lo_ra_dbase.Config.{Env, is_protected}
use lo_ra_dbase.Http.{Reply, fail, reply, given?, text_of, validation_error}
use lo_ra_dbase.Servers.{ServerPublic, find_by_id, get_encrypted_api_key}
use lo_ra_dbase.Servers.Validation.{base_url}
use lo_ra_dbase.Servers.Routes.{
  Stage, stop, go_on, CreateBody, UpdateBody, Draws, create_server, update_route, delete_route,
}
use lo_ra_dbase.Encryption.Cache.{Cache, get_decrypted_api_key}
use lo_ra_dbase.Text.{after_prefix}

abbrev unauthorized {ℓ} : {A : Type ℓ} → String → String → Reply A
unauthorized error message = fail 401 error message

abbrev pub verify : Env → ℕ → String → Verified
verify env now token = env.crypto.jwt_verify (now / 1000) token env.config.jwt_secret

abbrev invalid_master_token {ℓ} : {A : Type ℓ} → Reply A
invalid_master_token = unauthorized "InvalidMasterToken" "Invalid master authentication token"

abbrev is_master : Option String → Bool
is_master none = false
is_master (some type) = type == "master"

-- what follows `jwt.verify` of the master token: `none` is `next()`
check_master {ℓ} : {A : Type ℓ} → Verified → Option (Reply A)
check_master (claims c) = if is_master c.type then none else some invalid_master_token
check_master token_expired = some (unauthorized "MasterTokenExpired" "Master session has expired")
check_master json_web_token_error = some invalid_master_token
check_master not_before_error = some invalid_master_token
check_master other_error = some (fail 500 "InternalError" "Failed to verify master authentication")

unfoldable pub require_master_auth {ℓ} : {A : Type ℓ} → Env → ℕ → Option String → Option (Reply A)
unfolding check_master
require_master_auth env now master_token =
    if not (is_protected env.config)
    then none
    else if not (given? master_token)
    then some (unauthorized "MasterAuthRequired" "Master password authentication required")
    else check_master (verify env now (text_of master_token))

-- what the middleware attaches to the request
pub record Context : Type 0 where
  pub base_url : String
  pub api_key : String
  pub server_id : ℕ
  pub name : String
  pub host : String
  pub session_token : Option String

unfoldable pub context_of : Server → Option String → String → Context
context_of server session_token api_key = record {
  base_url = base_url server.host;
  api_key = api_key;
  server_id = server.id;
  name = server.name;
  host = server.host;
  session_token = session_token;
}

abbrev pub decrypted :
    {A : Type 0} → Server → Option String → Option String × Cache → Stage A Context × Cache
decrypted server session_token (none, cache) =
    (stop (fail 500 "InternalServerError" "Failed to decrypt server credentials"), cache)
decrypted server session_token (some api_key, cache) =
    (go_on (context_of server session_token api_key), cache)

abbrev no_context {ℓ} : {A : Type ℓ} → Reply A
no_context = unauthorized "InvalidToken" "Token does not contain valid server context"

abbrev server_gone {ℓ} : {A : Type ℓ} → Reply A
server_gone = fail 404 "ServerNotFound" "The server associated with this session no longer exists"

-- from the claims of a session token on
unfoldable pub setup :
    {A : Type 0} → Env → ℕ → Option ℕ → Option String → Db → Cache → Stage A Context × Cache
setup env now none session_token db cache = (stop no_context, cache)
setup env now (some server_id) session_token db cache =
    if server_id == 0 then (stop no_context, cache) else elim (find_by_id server_id db) [
      | none ↦ (stop server_gone, cache)
      | some server ↦ elim (get_encrypted_api_key server_id db) [
        | none ↦
            (stop (fail 500 "InternalServerError" "Failed to retrieve server credentials"), cache)
        | some encrypted ↦
            decrypted server session_token
              (get_decrypted_api_key env.crypto now server_id encrypted server.password_hash cache)
      ]
    ]

unfoldable pub enter : {A : Type 0} → Env → ℕ → Db → Cache → Verified → Stage A Context × Cache
enter env now db cache (claims c) = setup env now c.server_id c.sub db cache
enter env now db cache token_expired = (stop (unauthorized "TokenExpired" "Session expired"), cache)
enter env now db cache json_web_token_error =
    (stop (unauthorized "InvalidToken" "Invalid token"), cache)
enter env now db cache not_before_error =
    (stop (fail 500 "InternalServerError" "Failed to setup server context"), cache)
enter env now db cache other_error =
    (stop (fail 500 "InternalServerError" "Failed to setup server context"), cache)

abbrev no_token {ℓ} : {A : Type ℓ} → Reply A
no_token = unauthorized "Unauthorized" "No authorization token provided"

-- serverContextMiddleware, with the cache of API keys
unfoldable pub server_context :
    {A : Type 0} → Env → ℕ → Option String → Db → Cache → Stage A Context × Cache
unfolding enter setup context_of
server_context env now none db cache = (stop no_token, cache)
server_context env now (some header) db cache = elim (after_prefix "Bearer " header) [
  | none ↦ (stop no_token, cache)
  | some token ↦ enter env now db cache (verify env now token)
]

abbrev or_zero : Option ℕ → ℕ
or_zero none = 0
or_zero (some n) = n

-- the body of a valid answer of POST /api/auth/verify-token; times are in milliseconds
pub record TokenInfo : Type 0 where
  pub session_token : Option String
  pub server_id : ℕ
  pub server_name : String
  pub server_host : String
  pub expires_at : ℕ
  pub issued_at : ℕ

token_info : Claims → Db → Reply TokenInfo
token_info c db =
    if or_zero c.server_id == 0 then no_context else elim (find_by_id (or_zero c.server_id) db) [
      | none ↦ server_gone
      | some server ↦ reply 200 (record {
        session_token = c.sub;
        server_id = or_zero c.server_id;
        server_name = server.name;
        server_host = server.host;
        expires_at = c.exp * 1000;
        issued_at = c.iat * 1000;
      })
    ]

verified : Db → Verified → Reply TokenInfo
unfolding token_info
verified db (claims c) = token_info c db
verified db token_expired = unauthorized "TokenExpired" "Session has expired"
verified db json_web_token_error = unauthorized "InvalidToken" "Invalid token"
verified db not_before_error = unauthorized "InvalidToken" "Invalid token"
verified db other_error = fail 500 "InternalError" "Failed to verify token"

-- POST /api/auth/verify-token
unfoldable pub verify_token : Env → ℕ → Option String → Db → Reply TokenInfo
unfolding verified
verify_token env now token db =
    if not (given? token)
    then validation_error "Token is required"
    else verified db (verify env now (text_of token))

-- GET /api/auth/master-password-status
abbrev pub master_password_status : Env → Reply Bool
master_password_status env = reply 200 (is_protected env.config)

pub record MasterSession : Type 0 where
  pub token : String
  pub expires_at : ℕ

-- `Buffer.from` of both, their lengths, then `timingSafeEqual`
unfoldable pub is_same_password : String → String → Bool
is_same_password provided stored = if len provided == len stored then provided == stored else false

abbrev pub master_claims : Env → ℕ → Claims
master_claims env now = record {
  type = some "master";
  sub = none;
  server_id = none;
  iat = now / 1000;
  exp = now / 1000 + env.config.master_session_hours * 60 * 60;
}

-- POST /api/auth/verify-master-password
unfoldable pub verify_master_password : Env → ℕ → Option String → Reply MasterSession
unfolding is_same_password
verify_master_password env now password =
    if not (is_protected env.config)
    then fail 400 "MasterPasswordNotConfigured" "Master password protection is not enabled"
    else if not (given? password)
    then validation_error "Password is required"
    else if not (is_same_password (text_of password) env.config.master_password)
    then unauthorized "InvalidPassword" "Invalid master password"
    else reply 200 (record {
      token = env.crypto.jwt_sign (master_claims env now) env.config.jwt_secret;
      expires_at = (master_claims env now).exp * 1000;
    })

-- the routes of routes/servers.ts that stand behind `requireMasterAuth`
unfoldable pub post_server :
    Env → ℕ → Option String → Draws → String → CreateBody → Db → Reply ServerPublic × Db
post_server env now token draws stamp body db =
    elim (require_master_auth {A = ServerPublic} env now token) [
      | some answer ↦ (answer, db)
      | none ↦ create_server env draws stamp body db
    ]

unfoldable pub put_server :
    Env → ℕ → Option String → String → Option ℕ → UpdateBody → Db → Reply ServerPublic × Db
put_server env now token stamp server_id body db =
    elim (require_master_auth {A = ServerPublic} env now token) [
      | some answer ↦ (answer, db)
      | none ↦ update_route env stamp server_id body db
    ]

unfoldable pub delete_server :
    Env → ℕ → Option String → Option ℕ → Db → Cache → Reply String × Db × Cache
delete_server env now token server_id db cache =
    elim (require_master_auth {A = String} env now token) [
      | some answer ↦ (answer, db, cache)
      | none ↦ delete_route server_id db cache
    ]
