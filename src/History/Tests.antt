-- ===== src/History/Tests.antt =====
-- The theorem on histories at a concrete history.
use lo_ra_dbase.Common.{◌≡◌, refl, [], ◌∷◌, nat_eq, string_eq}
use lo_ra_dbase.History.{
  Reach, here, then_step, server_inserted, attempt_recorded, server_deleted, Reach-IsWellFormed,
}
use lo_ra_dbase.Servers.{
  find_by_id, find_by_name, find_by_host, delete_server, insert_server, server_row,
  CreateServerData,
}
use lo_ra_dbase.Db.{Db, empty, ok}
use lo_ra_dbase.Db.WellFormed.{IsWellFormed}
use lo_ra_dbase.Table.{first}
use lo_ra_dbase.Lockout.{record_failed_attempt}

abbrev given : CreateServerData
given = record {
  name = "alpha";
  host = "a.example:3000";
  encrypted_api_key = record { ciphertext = "c"; iv = "i"; auth_tag = "t"; salt = "s" };
  password_hash = "hash";
}

-- the database with one server
abbrev one_server : Db
one_server = record empty {
  servers = server_row 1 given "2025-01-01" "2025-01-01" ∷ [];
  next_server = 2;
}

-- and with one failed attempt
abbrev one_attempt : Db
one_attempt = record one_server {
  failed_attempts =
      record { id = 1; server_id = 1; ip_address = "10.0.0.1"; attempted_at = 5 } ∷ [];
  next_attempt = 2;
}

inserted : insert_server given "2025-01-01" "2025-01-01" empty ≡ ok (1, one_server)
unfolding insert_server find_by_name find_by_host first
inserted = refl

recorded : record_failed_attempt 5 1 "10.0.0.1" one_server ≡ ok one_attempt
unfolding record_failed_attempt find_by_id first
recorded = refl

history : Reach empty (delete_server 1 one_attempt).1
history =
    then_step empty one_attempt (delete_server 1 one_attempt).1
      (then_step empty one_server one_attempt
        (then_step empty empty one_server (here empty)
          (server_inserted given "2025-01-01" "2025-01-01" 1 empty one_server inserted))
        (attempt_recorded 5 1 "10.0.0.1" one_server one_attempt recorded))
      (server_deleted 1 one_attempt)

Reach-IsWellFormed_example : IsWellFormed (delete_server 1 one_attempt).1
Reach-IsWellFormed_example = Reach-IsWellFormed (delete_server 1 one_attempt).1 history
