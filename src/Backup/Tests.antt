-- ===== src/Backup/Tests.antt =====
-- The theorems on backups at a concrete import.
use lo_ra_dbase.Common.{refl, ◌≡◌, none, some, [], ◌∷◌, nat_eq, string_eq}
use lo_ra_dbase.Samples.{db, db-IsWellFormed}
use lo_ra_dbase.Servers.{find_by_name}
use lo_ra_dbase.Backup.{
  BackupServer, merge, replace, nothing, server_name, import_servers, without_servers, length,
  String,
}
use lo_ra_dbase.Table.{insert, first}
use lo_ra_dbase.Text.{some_chars}
use lo_ra_dbase.Servers.{find_by_host}
use lo_ra_dbase.Backup.{validate_server_data, is_backup_name, import_server}
use lo_ra_dbase.Backup.Turn.{imported_row, merge-imports}
use lo_ra_dbase.Backup.Names.{server_name-free}
use lo_ra_dbase.Backup.Import.{IsImported, merge-IsImported, replace-IsImported}

-- a server whose name is taken and whose host is free
abbrev copy : BackupServer
copy = record {
  name = "alpha";
  host = "c.example:3000";
  api_key = "c3";
  api_key_iv = "i3";
  api_key_auth_tag = "t3";
  api_key_salt = "s3";
  password_hash = "hash";
  created_at = some "2025-01-05";
  updated_at = none;
}

server_name-free_example : find_by_name (server_name "alpha" "2025-02-01" db) db ≡ none
server_name-free_example = server_name-free "alpha" "2025-02-01" db

merge-IsImported_example :
    IsImported 1 db nothing
      (import_servers merge "2025-02-01" "2025-02-01T00" (copy ∷ []) db).0
      (import_servers merge "2025-02-01" "2025-02-01T00" (copy ∷ []) db).1
merge-IsImported_example =
    merge-IsImported "2025-02-01" "2025-02-01T00" (copy ∷ []) db db-IsWellFormed

replace-IsImported_example :
    IsImported 1
      (without_servers db)
      nothing
      (import_servers replace "2025-02-01" "2025-02-01T00" (copy ∷ []) db).0
      (import_servers replace "2025-02-01" "2025-02-01T00" (copy ∷ []) db).1
replace-IsImported_example = replace-IsImported "2025-02-01" "2025-02-01T00" (copy ∷ []) db

copy-valid : length (validate_server_data copy) ≡ 0
unfolding validate_server_data is_backup_name some_chars
copy-valid = refl

host-free : find_by_host "c.example:3000" db ≡ none
unfolding find_by_host first
host-free = refl

merge-imports_example :
    (name : String) × (find_by_name name db ≡ none)
    × (import_server merge "2025-02-01" "2025-02-01T00" copy db nothing ≡ (
      record db {
        servers = insert (imported_row 3 name "2025-01-05" "2025-02-01T00" copy) db.servers;
        next_server = 4;
      },
      record nothing { imported = 1 },
    ))
merge-imports_example =
    merge-imports "2025-02-01" "2025-02-01T00" copy "2025-01-05" db nothing copy-valid host-free
      refl
