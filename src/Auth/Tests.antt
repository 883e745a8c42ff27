-- ===== src/Auth/Tests.antt =====
-- The theorems on the failed attempts at concrete requests.
use lo_ra_dbase.Common.{
  ℕ, List, ◌∷◌, All, ◌+◌, ◌≤◌, ◌≡◌, refl, true, false, none, some, [], arith, nat_eq, string_eq,
}
use lo_ra_dbase.Samples.{env, db, calm, alpha}
use lo_ra_dbase.Table.{count, first}
use lo_ra_dbase.Db.{Db}
use lo_ra_dbase.Servers.{find_by_id}
use lo_ra_dbase.Crypto.Sample.{sample}
use lo_ra_dbase.Lockout.{is_locked_out, get_recent_failed_attempts}
use lo_ra_dbase.Lockout.Remaining.{is_locked_out-bounds, is_locked_out-expires}
use lo_ra_dbase.Auth.{Client, authenticate, get_client_ip}
use lo_ra_dbase.Auth.Attempts.{IsBounded, failures}
use lo_ra_dbase.Auth.Steps.{authenticates, here, next, Reach-IsBounded}
use lo_ra_dbase.Auth.Overlap.{Try, IsWrong, overlap, overlapping_failures}

calm-IsBounded : IsBounded 0 calm
unfolding count
calm-IsBounded = record { windows = λ s ip t. omega arith; past = tt }

abbrev client : Client
client = record { forwarded_for = none; remote_address = some "10.0.0.1" }

abbrev tried : Db
tried = (authenticate env 0 60 [] client (some 1) (some "wrong") calm).1

Reach-IsBounded_example : IsBounded 60 tried
Reach-IsBounded_example =
    Reach-IsBounded (next here (authenticates 60 [] client (some 1) (some "wrong") (omega arith)))
      calm-IsBounded

locked : (is_locked_out 6000 1 "10.0.0.1" 5 15 db).is_locked ≡ true
unfolding is_locked_out get_recent_failed_attempts count
locked = refl

five : get_recent_failed_attempts 6000 1 "10.0.0.1" 15 db ≡ 5
unfolding get_recent_failed_attempts count
five = refl

is_locked_out-bounds_example :
    (1 ≤ (is_locked_out 6000 1 "10.0.0.1" 5 15 db).minutes_remaining)
    × ((is_locked_out 6000 1 "10.0.0.1" 5 15 db).minutes_remaining ≤ 15)
is_locked_out-bounds_example =
    is_locked_out-bounds 6000 1 "10.0.0.1" 5 15 db (omega arith) locked
      (omega arith, (omega arith, (omega arith, (omega arith, (omega arith, tt)))))

fifteen : (is_locked_out 6000 1 "10.0.0.1" 5 15 db).minutes_remaining ≤ 15
fifteen = is_locked_out-bounds_example.1

is_locked_out-expires_example : (is_locked_out 906000 1 "10.0.0.1" 5 15 db).is_locked ≡ false
is_locked_out-expires_example =
    is_locked_out-expires 6000 1 "10.0.0.1" 5 15 db (omega arith) locked five 906000
      (omega (arith, fifteen))

abbrev guess : ℕ → Try
guess finished_at = record {
  client = client;
  password = some "wrong";
  checked_at = 0;
  finished_at = finished_at;
  random = [];
}

-- more than the five that are allowed one after another
abbrev guesses : List Try
guesses = guess 10 ∷ guess 20 ∷ guess 30 ∷ guess 40 ∷ guess 50 ∷ guess 60 ∷ guess 60 ∷ []

alpha-there : find_by_id 1 calm ≡ some alpha
unfolding find_by_id first
alpha-there = refl

guess-IsWrong :
    (finished_at : ℕ)
    → finished_at ≤ 60
    → IsWrong env 60 1 "10.0.0.1" alpha calm (guess finished_at)
unfolding sample is_locked_out get_recent_failed_attempts count get_client_ip
guess-IsWrong finished_at past = record {
  address = refl;
  given = refl;
  unlocked = refl;
  wrong = refl;
  finished = past;
  recent = omega arith;
}

guesses-IsWrong : All (IsWrong env 60 1 "10.0.0.1" alpha calm) guesses
guesses-IsWrong = (
  guess-IsWrong 10 (omega arith),
  (
    guess-IsWrong 20 (omega arith),
    (
      guess-IsWrong 30 (omega arith),
      (
        guess-IsWrong 40 (omega arith),
        (
          guess-IsWrong 50 (omega arith),
          (guess-IsWrong 60 (omega arith), (guess-IsWrong 60 (omega arith), tt)),
        ),
      ),
    ),
  ),
)

overlapping_failures_example :
    failures 1 "10.0.0.1" 60 (overlap env 1 calm guesses calm) ≡ failures 1 "10.0.0.1" 60 calm + 7
overlapping_failures_example =
    overlapping_failures env 60 1 "10.0.0.1" alpha calm guesses alpha-there guesses-IsWrong
