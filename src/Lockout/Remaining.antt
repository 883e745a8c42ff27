-- ===== src/Lockout/Remaining.antt =====
-- The minutes that a locked-out client is told to wait.
use lo_ra_dbase.Common.{
  ℕ, ◌+◌, ◌-◌, ◌≤◌, ◌<◌, String, ◌≡◌, refl, ap, ◌∙◌, ◌↔◌, Bool, true, false, ◌&&◌, some, List, [],
  ◌∷◌, arith, nat_eq, string_eq, false_of_not_true, All, All-map, All-every,
}
use lo_ra_dbase.Common.Order.{leb→le}
use lo_ra_dbase.Table.{select, count}
use lo_ra_dbase.Table.Laws.{All-select, All-select_test, count-select, count_mono}
use lo_ra_dbase.Table.Sort.{order_by, order_by-All, order_by-IsOrdered, IsOrdered, count-order_by}
use lo_ra_dbase.Db.{Db, FailedAttempt}
use lo_ra_dbase.Lockout.{
  minutes_ms, is_of, is_recent, get_recent_failed_attempts, oldest_first, limit_one, ceil_minutes,
  get_time_until_unlock, is_locked_out, LockoutStatus,
}

oldest_first-total : (a b : FailedAttempt) → oldest_first a b ≡ false → oldest_first b a ≡ true
oldest_first-total a b h = ground arith

oldest_first_trans :
    (a b c : FailedAttempt)
    → oldest_first a b ≡ true
    → oldest_first b c ≡ true
    → oldest_first a c ≡ true
oldest_first_trans a b c h k = ground arith

-- A first row that one test refuses and the other accepts makes the counts differ.
count-lt :
    (p q : FailedAttempt → Bool) (rows : List FailedAttempt) (o : FailedAttempt)
    → ((a : FailedAttempt) → q a ≡ true → p a ≡ true)
    → limit_one rows ≡ some o
    → p o ≡ true
    → q o ≡ false
    → count q rows < count p rows
unfolding count
count-lt p q [] o imp e t f = absurd (cc)
count-lt p q (a ∷ rows) o imp e t f = ground (arith, count_mono q p rows (All-every imp rows))

module _ (now server_id : ℕ) (ip_address : String) (minutes : ℕ) (db : Db) where
  abbrev counted : FailedAttempt → Bool
  counted a = is_of server_id ip_address a && is_recent now minutes a

  abbrev recent : List FailedAttempt
  recent = order_by oldest_first (select counted db.failed_attempts)

  count-recent :
      (q : FailedAttempt → Bool)
      → ((a : FailedAttempt) → q a ≡ true → counted a ≡ true)
      → count q recent ≡ count q db.failed_attempts
  count-recent q h =
      count-order_by oldest_first q (select counted db.failed_attempts)
      ∙ count-select counted q db.failed_attempts h

  recent-counted : All (λ a. counted a ≡ true) recent
  recent-counted =
      order_by-All oldest_first (λ a. counted a ≡ true) (select counted db.failed_attempts)
        (All-select_test counted db.failed_attempts)

  recent-IsOrdered : IsOrdered oldest_first recent
  recent-IsOrdered =
      order_by-IsOrdered oldest_first oldest_first-total oldest_first_trans
        (select counted db.failed_attempts)

  -- Of the recent attempts the oldest is recent, and no recent attempt stands before it.
  oldest-counted : (o : FailedAttempt) → limit_one recent ≡ some o → counted o ≡ true
  oldest-counted o = go recent recent-counted
    where
      go :
          (rows : List FailedAttempt)
          → All (λ a. counted a ≡ true) rows
          → limit_one rows ≡ some o
          → counted o ≡ true
      go [] h e = absurd (cc)
      go (a ∷ rows) (t, h) e = let same : a ≡ o = cc in rw (← same) t

  oldest-first :
      (o : FailedAttempt)
      → limit_one recent ≡ some o
      → All (λ a. o.attempted_at ≤ a.attempted_at) recent
  oldest-first o = go recent recent-IsOrdered
    where
      go :
          (rows : List FailedAttempt)
          → IsOrdered oldest_first rows
          → limit_one rows ≡ some o
          → All (λ a. o.attempted_at ≤ a.attempted_at) rows
      go [] s e = tt
      go (a ∷ rows) (t, s) e =
          let same : a ≡ o = cc in
          let at = ap (λ (x : FailedAttempt). x.attempted_at) same in
          (
            omega (arith, at),
            All-map (λ b le. omega (arith, at, leb→le a.attempted_at b.attempted_at le)) rows t,
          )

  oldest_exists :
      0 < get_recent_failed_attempts now server_id ip_address minutes db
      → (o : FailedAttempt) × (limit_one recent ≡ some o)
  unfolding get_recent_failed_attempts
  oldest_exists h = go recent (rw (← count-recent counted (λ a t. t)) at h)
    where
      go :
          (rows : List FailedAttempt)
          → 0 < count counted rows
          → (o : FailedAttempt) × (limit_one rows ≡ some o)
      go [] h = absurd (unfold count in omega arith)
      go (a ∷ rows) h = (a, refl)

  remaining-eq :
      (o : FailedAttempt)
      → limit_one recent ≡ some o
      → get_time_until_unlock now server_id ip_address minutes db
        ≡ ceil_minutes (o.attempted_at + minutes_ms minutes - now)
  unfolding get_time_until_unlock
  remaining-eq o e = rw (e, get_time_until_unlock)

  -- After the oldest has expired, fewer attempts are recent.
  fewer_later :
      (later : ℕ) (o : FailedAttempt)
      → now ≤ later
      → limit_one recent ≡ some o
      → o.attempted_at + minutes_ms minutes ≤ later
      → get_recent_failed_attempts later server_id ip_address minutes db
        < get_recent_failed_attempts now server_id ip_address minutes db
  unfolding get_recent_failed_attempts
  fewer_later later o after e expired =
      let still : FailedAttempt → Bool =
        λ a. is_of server_id ip_address a && is_recent later minutes a in
      let imp : (a : FailedAttempt) → still a ≡ true → counted a ≡ true = λ a t. ground arith in
      omega (
        arith,
        count-recent still imp,
        count-recent counted (λ a t. t),
        count-lt counted still recent o imp e (oldest-counted o e) (ground arith),
      )

module _ (now server_id : ℕ) (ip_address : String) (max_attempts minutes : ℕ) (db : Db) where
  abbrev status : LockoutStatus
  status = is_locked_out now server_id ip_address max_attempts minutes db

  -- A client is locked out exactly when it has as many recent failures as are allowed.
  pub is_locked_iff :
      (status.is_locked ≡ true)
      ↔ (max_attempts ≤ get_recent_failed_attempts now server_id ip_address minutes db)
  unfolding is_locked_out
  is_locked_iff = ground arith

  minutes_remaining_lem :
      status.is_locked ≡ true
      → status.minutes_remaining ≡ get_time_until_unlock now server_id ip_address minutes db
  unfolding is_locked_out
  minutes_remaining_lem h = ground arith

  module _ (pos : 0 < max_attempts) (locked : status.is_locked ≡ true) where
    oldest_recent :
        (o : FailedAttempt) × (limit_one (recent now server_id ip_address minutes db) ≡ some o)
    oldest_recent =
        oldest_exists now server_id ip_address minutes db (omega (arith, is_locked_iff.0 locked))

    oldest_in_window :
        (now < oldest_recent.0.attempted_at + minutes_ms minutes)
        × (status.minutes_remaining
            ≡ ceil_minutes (oldest_recent.0.attempted_at + minutes_ms minutes - now))
    oldest_in_window =
        let (o, e) = oldest_recent in
        let in_window = oldest-counted now server_id ip_address minutes db o e in
        (
          ground (arith, in_window),
          minutes_remaining_lem locked ∙ remaining-eq now server_id ip_address minutes db o e,
        )

All-limit_one :
    (P : FailedAttempt → Type 0) (rows : List FailedAttempt) (o : FailedAttempt)
    → All P rows
    → limit_one rows ≡ some o
    → P o
All-limit_one P [] o h e = absurd (cc)
All-limit_one P (a ∷ rows) o (p, h) e = let same : a ≡ o = cc in rw (← same) p

module _ (now server_id : ℕ) (ip_address : String) (max_attempts minutes : ℕ) (db : Db)
    (pos : 0 < max_attempts)
    (locked : (is_locked_out now server_id ip_address max_attempts minutes db).is_locked
      ≡ true) where
  -- For a limit of at least one attempt, a locked-out client whose attempts do not lie in the future is told to wait at least one minute
  -- and at most the window.
  pub is_locked_out-bounds :
      All (λ (a : FailedAttempt). a.attempted_at ≤ now) db.failed_attempts
      → (1 ≤ (is_locked_out now server_id ip_address max_attempts minutes db).minutes_remaining)
        × ((is_locked_out now server_id ip_address max_attempts minutes db).minutes_remaining
            ≤ minutes)
  is_locked_out-bounds past =
      let found = oldest_recent now server_id ip_address max_attempts minutes db pos locked in
      let before_now =
        All-limit_one (λ a. a.attempted_at ≤ now) (recent now server_id ip_address minutes db)
          found.0
          (order_by-All oldest_first (λ a. a.attempted_at ≤ now) _
            (All-select (λ a. a.attempted_at ≤ now) _ db.failed_attempts past))
          found.1 in
      let facts = oldest_in_window now server_id ip_address max_attempts minutes db pos locked in
      (omega (arith, facts.0, facts.1), omega (arith, facts.0, facts.1, before_now))

  -- The wait that a locked-out client is told is long enough, for a limit of at least one attempt: if it failed just as often as is allowed, and
  -- does not fail again, then after that many minutes it is no longer locked out.
  pub is_locked_out-expires :
      get_recent_failed_attempts now server_id ip_address minutes db ≡ max_attempts
      → (later : ℕ)
      → now
          + minutes_ms
              (is_locked_out now server_id ip_address max_attempts minutes db).minutes_remaining
        ≤ later
      → (is_locked_out later server_id ip_address max_attempts minutes db).is_locked ≡ false
  is_locked_out-expires just later waited =
      let (o, e) = oldest_recent now server_id ip_address max_attempts minutes db pos locked in
      let facts = oldest_in_window now server_id ip_address max_attempts minutes db pos locked in
      let fewer =
        fewer_later now server_id ip_address minutes db later o (omega arith) e
          (omega (arith, facts.0, facts.1)) in
      false_of_not_true _ λ t.
        omega (arith, fewer, (is_locked_iff later server_id ip_address max_attempts minutes db).0 t)
