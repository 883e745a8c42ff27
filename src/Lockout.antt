-- ===== src/Lockout.antt =====
-- LoRaDB-UI/backend/src/db/repositories/authRepository.ts, and the daily cleanup of
-- LoRaDB-UI/backend/src/db/database.ts. `now` is `Date.now()`; windows are in minutes. A comparison
-- with `now - window` is written with `window` on the other side.
pub mod Remaining
use lo_ra_dbase.Common.{
  ℕ, zero, suc, ◌+◌, ◌-◌, ◌*◌, ◌/◌, ◌%◌, ◌≤◌, ◌<◌, Char, code, String, ◌≡◌, refl, sym, ap, ◌∙◌, ◌≢◌,
  ◌↔◌, ◌⊎◌, inl, inr, Bool, true, false, not, ◌&&◌, ◌||◌, Option, none, some, List, [], ◌∷◌, ◌++◌,
  map, arith, eq_iff, ltb, leb, nat_beq, nat_beq_iff, Eq, ◌==◌, nat_eq, string_eq, if◌then◌else◌,
  Bool-cases, Option-cases, false_of_not_true, beq_refl, ne_of_beq, beq_of_ne, length,
  length-append, All, All-append, All-concat, All-map, All-image, All-zip, Distinct,
  Distinct-concat,
}
use lo_ra_dbase.Table.{select, count, insert, delete}
use lo_ra_dbase.Table.Sort.{order_by}
use lo_ra_dbase.Db.{Db, FailedAttempt, Result, ok, throw, foreign_key_violation}
use lo_ra_dbase.Servers.{find_by_id, is_some}

-- minutes * 60 * 1000
abbrev pub minutes_ms : ℕ → ℕ
minutes_ms minutes = minutes * 60000

abbrev pub is_of : ℕ → String → FailedAttempt → Bool
is_of server_id ip_address a = a.server_id == server_id && a.ip_address == ip_address

-- attempted_at > now - minutes
abbrev pub is_recent : ℕ → ℕ → FailedAttempt → Bool
is_recent now minutes a = ltb now (a.attempted_at + minutes_ms minutes)

unfoldable pub record_failed_attempt : ℕ → ℕ → String → Db → Result Db
unfolding find_by_id
record_failed_attempt now server_id ip_address db =
    if is_some (find_by_id server_id db)
    then ok (record db {
      failed_attempts =
          insert
            (record {
              id = db.next_attempt;
              server_id = server_id;
              ip_address = ip_address;
              attempted_at = now;
            })
            db.failed_attempts;
      next_attempt = suc db.next_attempt;
    })
    else throw foreign_key_violation

unfoldable pub get_recent_failed_attempts : ℕ → ℕ → String → ℕ → Db → ℕ
get_recent_failed_attempts now server_id ip_address minutes db =
    count (λ a. is_of server_id ip_address a && is_recent now minutes a) db.failed_attempts

unfoldable pub clear_failed_attempts : ℕ → String → Db → Db
clear_failed_attempts server_id ip_address db = record db {
  failed_attempts = delete (is_of server_id ip_address) db.failed_attempts;
}

abbrev pub oldest_first : FailedAttempt → FailedAttempt → Bool
oldest_first a b = leb a.attempted_at b.attempted_at

-- LIMIT 1
abbrev pub limit_one {ℓ} : {A : Type ℓ} → List A → Option A
limit_one [] = none
limit_one (r ∷ rows) = some r

-- Math.ceil(ms / (60 * 1000))
abbrev pub ceil_minutes : ℕ → ℕ
ceil_minutes ms = (ms + 59999) / 60000

unfoldable pub get_time_until_unlock : ℕ → ℕ → String → ℕ → Db → ℕ
get_time_until_unlock now server_id ip_address minutes db =
    elim (limit_one (
      order_by oldest_first (
        select (λ a. is_of server_id ip_address a && is_recent now minutes a)
          db.failed_attempts))) [
            | none ↦ 0
            | some oldest ↦ ceil_minutes (oldest.attempted_at + minutes_ms minutes - now)
          ]

pub record LockoutStatus : Type 0 where
  pub is_locked : Bool
  pub minutes_remaining : ℕ

unfoldable pub is_locked_out : ℕ → ℕ → String → ℕ → ℕ → Db → LockoutStatus
is_locked_out now server_id ip_address max_attempts window_minutes db =
    if leb max_attempts (get_recent_failed_attempts now server_id ip_address window_minutes db)
    then record {
      is_locked = true;
      minutes_remaining = get_time_until_unlock now server_id ip_address window_minutes db;
    }
    else record { is_locked = false; minutes_remaining = 0 }

unfoldable pub delete_server_attempts : ℕ → Db → Db
delete_server_attempts server_id db = record db {
  failed_attempts = delete (λ a. a.server_id == server_id) db.failed_attempts;
}

-- DELETE … WHERE attempted_at < now - 24 hours
unfoldable pub cleanup_old_failed_attempts : ℕ → Db → Db
cleanup_old_failed_attempts now db = record db {
  failed_attempts = delete (λ a. ltb (a.attempted_at + minutes_ms 1440) now) db.failed_attempts;
}
