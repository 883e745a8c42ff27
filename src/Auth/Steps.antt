-- ===== src/Auth/Steps.antt =====
-- The requests and the jobs of the backend that touch the failed attempts, as steps.
use lo_ra_dbase.Common.{ℕ, ◌+◌, ◌≤◌, String, ◌≡◌, refl, Option, ltb, ◌==◌, nat_eq, string_eq}
use lo_ra_dbase.Db.{Db}
use lo_ra_dbase.Crypto.{Bytes}
use lo_ra_dbase.Config.{Env}
use lo_ra_dbase.Servers.{delete_server}
use lo_ra_dbase.Lockout.{minutes_ms, cleanup_old_failed_attempts}
use lo_ra_dbase.Auth.{Client, authenticate}
use lo_ra_dbase.Auth.Attempts.{IsBounded, later-IsBounded, authenticate-IsBounded, fewer-IsBounded}

-- What the backend does to the failures, one request after another, while time goes on.
pub data Step (env : Env) (clock : ℕ) (db : Db) : ℕ → Db → Type 0 where
  wait : (later : ℕ) → clock ≤ later → Step env clock db later db
  authenticates :
      (later : ℕ) (random : Bytes) (client : Client) (server_id : Option ℕ)
      (password : Option String)
      → clock ≤ later
      → Step env clock db later (authenticate env clock later random client server_id password db).1
  deletes : (server_id : ℕ) → Step env clock db clock (delete_server server_id db).1
  cleans_up : Step env clock db clock (cleanup_old_failed_attempts clock db)
  elsewhere : (db' : Db) → db'.failed_attempts ≡ db.failed_attempts → Step env clock db clock db'

pub data Reach (env : Env) (clock : ℕ) (db : Db) : ℕ → Db → Type 0 where
  here : Reach env clock db clock db
  next :
      {later last : ℕ} {db' db'' : Db}
      → Reach env clock db later db'
      → Step env later db' last db''
      → Reach env clock db last db''

Step-IsBounded :
    {env : Env} {clock later : ℕ} {db db' : Db}
    → Step env clock db later db'
    → IsBounded clock db
    → IsBounded later db'
Step-IsBounded {db} (wait later after) b = later-IsBounded _ later db after b
Step-IsBounded {env} {clock} {db} (authenticates later random client server_id password after) b =
    authenticate-IsBounded env clock later random client server_id password db after b
Step-IsBounded {clock} {db} (deletes server_id) b =
    fewer-IsBounded (λ a. a.server_id == server_id) clock db (delete_server server_id db).1
      (unfold delete_server in refl) b
Step-IsBounded {clock} {db} cleans_up b =
    fewer-IsBounded (λ a. ltb (a.attempted_at + minutes_ms 1440) clock) clock db
      (cleanup_old_failed_attempts clock db) (unfold cleanup_old_failed_attempts in refl) b
Step-IsBounded {clock} (elsewhere db' same) b = record {
  windows = λ s ip t. rw same (b.windows s ip t);
  past = rw same b.past;
}

-- Requests that do not overlap: whatever they are, from a database whose windows hold at most five
-- failures and none of the future, no window of fifteen minutes ever holds more than five recorded
-- wrong passwords for a server and an address.
pub Reach-IsBounded :
    {env : Env} {clock : ℕ} {db : Db} {later : ℕ} {db' : Db}
    → Reach env clock db later db'
    → IsBounded clock db
    → IsBounded later db'
Reach-IsBounded here b = b
Reach-IsBounded (next r s) b = Step-IsBounded s (Reach-IsBounded r b)
