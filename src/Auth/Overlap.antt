-- ===== src/Auth/Overlap.antt =====
-- How many wrong passwords can be tried when requests overlap.
use lo_ra_dbase.Common.{
  ℕ, ◌+◌, ◌*◌, ◌≤◌, ◌<◌, String, ◌≡◌, refl, ◌≢◌, inl, inr, true, false, Option, none, some, List,
  [], ◌∷◌, arith, nat_eq, string_eq, Option-cases, beq_refl, length, All,
}
use lo_ra_dbase.Table.{insert}
use lo_ra_dbase.Table.Laws.{count-insert}
use lo_ra_dbase.Db.{Db, Server}
use lo_ra_dbase.Crypto.{Bytes}
use lo_ra_dbase.Config.{Env}
use lo_ra_dbase.Http.{given?, text_of}
use lo_ra_dbase.Servers.{find_by_id}
use lo_ra_dbase.Servers.Routes.{Stage, stop, go_on}
use lo_ra_dbase.Lockout.{record_failed_attempt, is_locked_out}
use lo_ra_dbase.Auth.{
  Client, Pending, AuthBody, authenticate_check, authenticate_finish, get_client_ip,
  max_failed_attempts, failed_attempt_window_minutes,
}
use lo_ra_dbase.Auth.Attempts.{in_window, failures, new_attempt}

-- a request that logs in, with the times at which it is checked and finished
pub record Try : Type 0 where
  pub client : Client
  pub password : Option String
  pub checked_at : ℕ
  pub finished_at : ℕ
  pub random : Bytes

-- the end of a request that was checked
settled : Env → Try → Stage AuthBody Pending → Db → Db
settled env t (stop answer) db = db
settled env t (go_on p) db = (authenticate_finish env t.finished_at t.random p db).1

-- requests that are all checked on the database `start`, and then finished one after another
pub overlap : Env → ℕ → Db → List Try → Db → Db
unfolding settled
overlap env server_id start [] db = db
overlap env server_id start (t ∷ tries) db =
    overlap env server_id start tries (
      settled env t (authenticate_check t.checked_at t.client (some server_id) t.password start) db)

-- a wrong password from an address that `start` does not lock out, finished in the window that ends now
pub record IsWrong (env : Env) (now server_id : ℕ) (ip_address : String) (server : Server)
    (start : Db) (t : Try) : Type 0 where
  pub address : get_client_ip t.client ≡ ip_address
  pub given : given? t.password ≡ true
  pub unlocked :
      (is_locked_out t.checked_at server_id ip_address max_failed_attempts
        failed_attempt_window_minutes start).is_locked
      ≡ false
  pub wrong : env.crypto.bcrypt_compare (text_of t.password) server.password_hash ≡ false
  pub finished : t.finished_at ≤ now
  pub recent : now < t.finished_at + failed_attempt_window_minutes * 60000

module _ (env : Env) (now server_id : ℕ) (ip_address : String) (server : Server) (start : Db)
    (found : find_by_id server_id start ≡ some server) where
  abbrev pending_of : Try → Pending
  pending_of t = record {
    server = server;
    server_id = server_id;
    ip_address = ip_address;
    password = text_of t.password;
  }

  check-passes :
      (t : Try)
      → IsWrong env now server_id ip_address server start t
      → authenticate_check t.checked_at t.client (some server_id) t.password start
        ≡ go_on (pending_of t)
  unfolding authenticate_check
  check-passes t c = rw (c.given, found, c.address, c.unlocked) refl

  finish-wrong :
      (t : Try) (db : Db)
      → IsWrong env now server_id ip_address server start t
      → find_by_id server_id db ≢ none
      → ((authenticate_finish env t.finished_at t.random (pending_of t) db).1.failed_attempts
          ≡ insert (new_attempt t.finished_at server_id ip_address db) db.failed_attempts)
        × (find_by_id server_id (authenticate_finish env t.finished_at t.random (pending_of t) db).1
            ≢ none)
  unfolding authenticate_finish record_failed_attempt
  finish-wrong t db c there =
      let wrong = c.wrong in
      elim (Option-cases (find_by_id server_id db)) [
        | inl absent ↦ absurd (there absent)
        | inr (s, stored) ↦ (ground arith, λ e. ground arith)
      ]

  window_of_try :
      (t : Try) (db : Db)
      → IsWrong env now server_id ip_address server start t
      → in_window server_id ip_address now (new_attempt t.finished_at server_id ip_address db)
        ≡ true
  window_of_try t db c =
      ground (arith, c.finished, c.recent, beq_refl server_id, beq_refl ip_address)

  failures-finish :
      (t : Try) (db : Db)
      → IsWrong env now server_id ip_address server start t
      → find_by_id server_id db ≢ none
      → failures server_id ip_address now
          (authenticate_finish env t.finished_at t.random (pending_of t) db).1
        ≡ failures server_id ip_address now db + 1
  failures-finish t db c there = rw ((finish-wrong t db c there).0) (
      ground (
        arith,
        count-insert (in_window server_id ip_address now) db.failed_attempts
            (new_attempt t.finished_at server_id ip_address db),
        window_of_try t db c,
      ))

  overlap-failures :
      (tries : List Try) (db : Db)
      → All (IsWrong env now server_id ip_address server start) tries
      → find_by_id server_id db ≢ none
      → failures server_id ip_address now (overlap env server_id start tries db)
        ≡ failures server_id ip_address now db + length tries
  unfolding overlap
  overlap-failures [] db wrong there = omega arith
  overlap-failures (t ∷ tries) db (c, wrong) there =
      let next = (authenticate_finish env t.finished_at t.random (pending_of t) db).1 in
      let rest = overlap-failures tries next wrong (finish-wrong t db c there).1 in
      rw (overlap, check-passes t c) (omega (arith, rest, failures-finish t db c there))

-- Requests that overlap, for a server that exists: all are checked on the same database, before the
-- first of them is finished, and then finished in any order. However many they are, if each brings a
-- wrong password from an address that this database does not lock out, and is finished in the fifteen
-- minutes that end now, then every one is compared and recorded: the window holds that many more.
pub overlapping_failures :
    (env : Env) (now server_id : ℕ) (ip_address : String) (server : Server) (start : Db)
    (tries : List Try)
    → find_by_id server_id start ≡ some server
    → All (IsWrong env now server_id ip_address server start) tries
    → failures server_id ip_address now (overlap env server_id start tries start)
      ≡ failures server_id ip_address now start + length tries
overlapping_failures env now server_id ip_address server start tries found wrong =
    overlap-failures env now server_id ip_address server start found tries start wrong
      (λ absent. cc)
