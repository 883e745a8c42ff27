-- ===== src/Auth/Attempts.antt =====
-- How many wrong passwords can be tried, one request after another.
use lo_ra_dbase.Common.{
  ℕ, ◌≤◌, ◌<◌, String, ◌≡◌, refl, inl, inr, Bool, false, ◌&&◌, Option, none, some, arith, eq_iff,
  leb, nat_eq, string_eq, Bool-cases, All, All-concat, All-map, All-every,
}
use lo_ra_dbase.Table.{count, insert, delete}
use lo_ra_dbase.Table.Laws.{count-insert, count_mono, count-delete-le, All-delete}
use lo_ra_dbase.Db.{Db, FailedAttempt, Result, ok, throw}
use lo_ra_dbase.Crypto.{Bytes}
use lo_ra_dbase.Config.{Env}
use lo_ra_dbase.Servers.Routes.{Stage, stop, go_on}
use lo_ra_dbase.Lockout.{
  is_of, is_recent, record_failed_attempt, get_recent_failed_attempts, clear_failed_attempts,
  is_locked_out,
}
use lo_ra_dbase.Auth.{
  max_failed_attempts, failed_attempt_window_minutes, Client, Pending, AuthBody, authenticate_check,
  authenticate_finish, authenticate,
}

-- the failures of a server and an address in the window that ends at `t`
abbrev pub in_window : ℕ → String → ℕ → FailedAttempt → Bool
in_window server_id ip_address t a =
    is_of server_id ip_address a
    && leb a.attempted_at t
    && is_recent t failed_attempt_window_minutes a

abbrev pub failures : ℕ → String → ℕ → Db → ℕ
failures server_id ip_address t db = count (in_window server_id ip_address t) db.failed_attempts

pub record IsBounded (clock : ℕ) (db : Db) : Type 0 where
  pub windows :
      (server_id : ℕ) (ip_address : String) (t : ℕ)
      → failures server_id ip_address t db ≤ max_failed_attempts
  pub past : All (λ (a : FailedAttempt). a.attempted_at ≤ clock) db.failed_attempts

abbrev pub new_attempt : ℕ → ℕ → String → Db → FailedAttempt
new_attempt now server_id ip_address db = record {
  id = db.next_attempt;
  server_id = server_id;
  ip_address = ip_address;
  attempted_at = now;
}

recorded_attempts :
    (now server_id : ℕ) (ip_address : String) (db db' : Db)
    → record_failed_attempt now server_id ip_address db ≡ ok db'
    → db'.failed_attempts ≡ insert (new_attempt now server_id ip_address db) db.failed_attempts
unfolding record_failed_attempt
recorded_attempts now server_id ip_address db db' h = ground arith

-- In the window of a later time stand no more failures than in the one that ends now.
failures-le_recent :
    (now t server_id : ℕ) (ip_address : String) (db : Db)
    → now ≤ t
    → failures server_id ip_address t db
      ≤ get_recent_failed_attempts now server_id ip_address failed_attempt_window_minutes db
unfolding get_recent_failed_attempts
failures-le_recent now t server_id ip_address db later =
    count_mono (in_window server_id ip_address t)
      (λ a. is_of server_id ip_address a && is_recent now failed_attempt_window_minutes a)
      db.failed_attempts (All-every (λ a h. ground arith) db.failed_attempts)

insert-windows :
    (now later server_id : ℕ) (ip_address : String) (db : Db)
    → now ≤ later
    → IsBounded now db
    → get_recent_failed_attempts now server_id ip_address failed_attempt_window_minutes db
      < max_failed_attempts
    → (s : ℕ) (ip : String) (t : ℕ)
    → count
        (in_window s ip t)
        (insert (new_attempt later server_id ip_address db) db.failed_attempts)
      ≤ max_failed_attempts
insert-windows now later server_id ip_address db after b room s ip t =
    let row = new_attempt later server_id ip_address db in
    let more = count-insert (in_window s ip t) db.failed_attempts row in
    elim (Bool-cases (in_window s ip t row)) [
      | inr other ↦ ground (arith, more, b.windows s ip t)
      | inl here ↦
          let same_s : server_id ≡ s = ground arith in
          let same_ip : ip_address ≡ ip = ground (arith, eq_iff ip_address ip) in
          let few : failures s ip t db < max_failed_attempts =
            rw (← same_s, ← same_ip)
              (omega
                (arith, room, failures-le_recent now t server_id ip_address db (ground arith))) in
          ground (arith, more, few)
    ]

record-IsBounded :
    (now later server_id : ℕ) (ip_address : String) (db db' : Db)
    → now ≤ later
    → IsBounded now db
    → get_recent_failed_attempts now server_id ip_address failed_attempt_window_minutes db
      < max_failed_attempts
    → record_failed_attempt later server_id ip_address db ≡ ok db'
    → IsBounded later db'
record-IsBounded now later server_id ip_address db db' after b room h =
    let row = new_attempt later server_id ip_address db in
    let e = recorded_attempts later server_id ip_address db db' h in
    record {
      windows =
          λ s ip t. rw e (insert-windows now later server_id ip_address db after b room s ip t);
      past = rw e (
          All-concat (λ (a : FailedAttempt). a.attempted_at ≤ later) db.failed_attempts row
            (All-map (λ a le. omega arith) db.failed_attempts b.past) (omega arith));
    }

-- Nothing but a recorded failure adds to a window.
pub fewer-IsBounded :
    (p : FailedAttempt → Bool) (clock : ℕ) (db db' : Db)
    → db'.failed_attempts ≡ delete p db.failed_attempts
    → IsBounded clock db
    → IsBounded clock db'
fewer-IsBounded p clock db db' e b = record {
  windows = λ s ip t.
      rw e
        (omega (arith, count-delete-le p (in_window s ip t) db.failed_attempts, b.windows s ip t));
  past =
      rw e (All-delete (λ (a : FailedAttempt). a.attempted_at ≤ clock) p db.failed_attempts b.past);
}

pub later-IsBounded :
    (clock later : ℕ) (db : Db) → clock ≤ later → IsBounded clock db → IsBounded later db
later-IsBounded clock later db after b = record {
  windows = b.windows;
  past = All-map (λ (a : FailedAttempt) le. omega arith) db.failed_attempts b.past;
}

-- A request goes on to its password only while fewer failures than allowed are recent.
pub check-room :
    (now : ℕ) (client : Client) (server_id : Option ℕ) (password : Option String) (db : Db)
    (p : Pending)
    → authenticate_check now client server_id password db ≡ go_on p
    → get_recent_failed_attempts now p.server_id p.ip_address failed_attempt_window_minutes db
      < max_failed_attempts
unfolding authenticate_check is_locked_out
check-room now client none password db p h = absurd (cc)
check-room now client (some server_id) password db p h = ground arith

finish-IsBounded :
    (env : Env) (now later : ℕ) (random : Bytes) (p : Pending) (db : Db)
    → now ≤ later
    → IsBounded now db
    → get_recent_failed_attempts now p.server_id p.ip_address failed_attempt_window_minutes db
      < max_failed_attempts
    → IsBounded later (authenticate_finish env later random p db).1
finish-IsBounded env now later random p db after b room =
    elim (Bool-cases (env.crypto.bcrypt_compare p.password p.server.password_hash)) [
      | inl right ↦
          let run : (authenticate_finish env later random p db).1
              ≡ clear_failed_attempts p.server_id p.ip_address db =
            unfold authenticate_finish in ground arith in
          rw run (
            fewer-IsBounded (is_of p.server_id p.ip_address) later db
              (clear_failed_attempts p.server_id p.ip_address db)
              (unfold clear_failed_attempts in refl) (later-IsBounded now later db after b))
      | inr wrong ↦ go wrong (record_failed_attempt later p.server_id p.ip_address db) refl
    ]
  where
    go :
        env.crypto.bcrypt_compare p.password p.server.password_hash ≡ false
        → (r : Result Db) → record_failed_attempt later p.server_id p.ip_address db ≡ r
        → IsBounded later (authenticate_finish env later random p db).1
    go wrong (throw e) h =
        let run : (authenticate_finish env later random p db).1 ≡ db =
          unfold authenticate_finish in ground arith in
        rw run (later-IsBounded now later db after b)
    go wrong (ok db') h =
        let run : (authenticate_finish env later random p db).1 ≡ db' =
          unfold authenticate_finish in ground arith in
        rw run (record-IsBounded now later p.server_id p.ip_address db db' after b room h)

pub authenticate-IsBounded :
    (env : Env) (now later : ℕ) (random : Bytes) (client : Client) (server_id : Option ℕ)
    (password : Option String) (db : Db)
    → now ≤ later
    → IsBounded now db
    → IsBounded later (authenticate env now later random client server_id password db).1
authenticate-IsBounded env now later random client server_id password db after b =
    go (authenticate_check now client server_id password db) refl
  where
    go :
        (stage : Stage AuthBody Pending)
        → authenticate_check now client server_id password db ≡ stage
        → IsBounded later (authenticate env now later random client server_id password db).1
    go (stop answer) e =
        let run : (authenticate env now later random client server_id password db).1 ≡ db =
          unfold authenticate in (rw (e, authenticate)) in
        rw run (later-IsBounded now later db after b)
    go (go_on p) e =
        let run : (authenticate env now later random client server_id password db).1
            ≡ (authenticate_finish env later random p db).1 =
          unfold authenticate in (rw (e, authenticate)) in
        rw run (
          finish-IsBounded env now later random p db after b
            (check-room now client server_id password db p e))
