-- ===== src/Auth.antt =====
-- POST /api/servers/:id/authenticate of LoRaDB-UI/backend/src/routes/servers.ts, before and after
-- `await verifyPassword`. Times are `Date.now()`; a token's times are in seconds.
pub mod Attempts
pub mod Overlap
pub mod Steps
mod Tests
use lo_ra_dbase.Common.{
  ℕ, zero, suc, ◌+◌, ◌-◌, ◌*◌, ◌/◌, ◌%◌, ◌≤◌, ◌<◌, Char, code, String, ◌≡◌, refl, sym, ap, ◌∙◌, ◌≢◌,
  ◌↔◌, ◌⊎◌, inl, inr, Bool, true, false, not, ◌&&◌, ◌||◌, Option, none, some, List, [], ◌∷◌, ◌++◌,
  map, arith, eq_iff, ltb, leb, nat_beq, nat_beq_iff, Eq, ◌==◌, nat_eq, string_eq, if◌then◌else◌,
  Bool-cases, Option-cases, false_of_not_true, beq_refl, ne_of_beq, beq_of_ne, length,
  length-append, All, All-append, All-concat, All-map, All-image, All-zip, All-every, Distinct,
  Distinct-concat,
}
use lo_ra_dbase.Text
use lo_ra_dbase.Db.{Db, Server, Result, ok, throw}
use lo_ra_dbase.Crypto.{Bytes, Claims}
use lo_ra_dbase.Config.{Env}
use lo_ra_dbase.Http.{Reply, fail, reply, given?, text_of, validation_error, not_found}
use lo_ra_dbase.Servers.{find_by_id}
use lo_ra_dbase.Servers.Routes.{Stage, stop, go_on, invalid_id}
use lo_ra_dbase.Lockout.{
  LockoutStatus, record_failed_attempt, get_recent_failed_attempts, clear_failed_attempts,
  is_locked_out,
}

abbrev pub max_failed_attempts : ℕ
max_failed_attempts = 5

abbrev pub failed_attempt_window_minutes : ℕ
failed_attempt_window_minutes = 15

-- the x-forwarded-for header and the socket's address
pub record Client : Type 0 where
  pub forwarded_for : Option String
  pub remote_address : Option String

abbrev first_part : Option String → String
first_part none = ""
first_part (some header) = elim (Text.split b',' header) [ [] ↦ "" | part ∷ _ ↦ Text.trim part ]

-- a || b || c of texts
unfoldable pub get_client_ip : Client → String
get_client_ip client =
    let forwarded = first_part client.forwarded_for in
    if not (forwarded == "")
    then forwarded
    else if given? client.remote_address
    then text_of client.remote_address
    else "unknown"

pub data AuthBody : Type 0 where
  account_locked : (minutes_remaining : ℕ) → AuthBody
  invalid_credentials : (attempts_remaining : ℕ) → AuthBody
  session : (token : String) (expires_at : ℕ) (id : ℕ) (name host : String) → AuthBody

pub record Pending : Type 0 where
  pub server : Server
  pub server_id : ℕ
  pub ip_address : String
  pub password : String

-- up to `await verifyPassword`
unfoldable pub authenticate_check :
    ℕ → Client → Option ℕ → Option String → Db → Stage AuthBody Pending
authenticate_check now client none password db = stop invalid_id
authenticate_check now client (some server_id) password db =
    let ip_address = get_client_ip client in
    if not (given? password)
    then stop (validation_error "Password is required")
    else elim (find_by_id server_id db) [
      | none ↦ stop not_found
      | some server ↦
          let status =
            is_locked_out now server_id ip_address max_failed_attempts failed_attempt_window_minutes
              db in
          if status.is_locked
          then stop (reply 429 (account_locked status.minutes_remaining))
          else go_on (record {
            server = server;
            server_id = server_id;
            ip_address = ip_address;
            password = text_of password;
          })
    ]

-- `config.jwtExpirationHours || 1`
abbrev pub expiration_hours : Env → ℕ
expiration_hours env =
    if env.config.jwt_expiration_hours == 0 then 1 else env.config.jwt_expiration_hours

-- the claims of a session token
abbrev pub session_claims : Env → ℕ → String → ℕ → Claims
session_claims env now session_token server_id = record {
  type = none;
  sub = some session_token;
  server_id = some server_id;
  iat = now / 1000;
  exp = now / 1000 + expiration_hours env * 60 * 60;
}

refused : ℕ → Pending → Result Db → Db → Reply AuthBody × Db
refused now p (throw e) db = (fail 500 "InternalServerError" "Authentication failed", db)
refused now p (ok db') db = (
  reply 401 (
      invalid_credentials (
        max_failed_attempts
        - get_recent_failed_attempts now p.server_id p.ip_address failed_attempt_window_minutes
            db')),
  db',
)

-- after `await verifyPassword`, which compares with the hash that was read before it; `random` is the
-- session token's 32 bytes
unfoldable pub authenticate_finish : Env → ℕ → Bytes → Pending → Db → Reply AuthBody × Db
unfolding refused
authenticate_finish env now random p db =
    if not (env.crypto.bcrypt_compare p.password p.server.password_hash)
    then refused now p (record_failed_attempt now p.server_id p.ip_address db) db
    else let claims = session_claims env now (env.crypto.to_hex random) p.server_id in
      (
        reply 200 (
            session (env.crypto.jwt_sign claims env.config.jwt_secret) (claims.exp * 1000)
              p.server.id p.server.name p.server.host),
        clear_failed_attempts p.server_id p.ip_address db,
      )

-- a request that no other runs beside: it is checked at `now` and finished at `later`
unfoldable pub authenticate :
    Env → ℕ → ℕ → Bytes → Client → Option ℕ → Option String → Db → Reply AuthBody × Db
authenticate env now later random client server_id password db =
    elim (authenticate_check now client server_id password db) [
      | stop answer ↦ (answer, db)
      | go_on p ↦ authenticate_finish env later random p db
    ]
