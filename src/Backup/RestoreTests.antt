-- ===== src/Backup/RestoreTests.antt =====
-- The theorems on dashboards, files and restored servers at concrete values.
use lo_ra_dbase.Common.{
  ◌≡◌, refl, true, false, none, some, List, [], ◌∷◌, map, nat_eq, string_eq, length,
}
use Prim.Native.String.{◌++◌ as append}
use lo_ra_dbase.Text
use lo_ra_dbase.Servers
use lo_ra_dbase.Json.{null}
use lo_ra_dbase.Backup.Boards.{BackupDashboard, import_dashboards, import_each, import_dashboard}
use lo_ra_dbase.Backup.Files.{File, Node, find_file, cleanup_old_backups, save_automatic_backup}
use lo_ra_dbase.Backup.Boards.Import.{IsTaken, import_dashboards-IsTaken}
use lo_ra_dbase.Text.{after_prefix, some_chars}
use lo_ra_dbase.Backup.{
  backup_of, validate_server_data, import_servers, is_backup_name, merge, replace, export_servers,
  nothing, default_exists, server_not_found,
}
use lo_ra_dbase.Backup.Files.Safety.{IsOther, files-kept}
use lo_ra_dbase.Backup.Routes.{delete_backup}
use lo_ra_dbase.Samples.{db, env, calm, db-IsWellFormed}
use lo_ra_dbase.Backup.Restore.{IsRestorable, replace-restores}
use lo_ra_dbase.Servers.{find_by_name}
use lo_ra_dbase.Table.{first, select}
use lo_ra_dbase.Dashboards.{get_default, create, set_default, find_by_id, find_row}
use lo_ra_dbase.DeviceTypes.Export.{export_device_types, no_index}

abbrev board_of_beta : BackupDashboard
board_of_beta = record {
  server_name = some "beta";
  name = none;
  is_default = some true;
  version = some "2.0";
  time_range = some "24h";
  auto_refresh = none;
  refresh_interval = none;
  widgets = none;
  layouts = none;
  created_at = none;
  updated_at = none;
}

-- alpha has a default dashboard, beta has none, and no server is called gamma
abbrev boards : List BackupDashboard
boards =
    record board_of_beta { server_name = some "alpha" }
    ∷ board_of_beta
    ∷ record board_of_beta { server_name = some "gamma" }
    ∷ []

boards_counts : (import_dashboards merge "2025-02-01" boards db).1 ≡ record {
  imported = 1;
  skipped = 2;
  errors = default_exists "alpha" ∷ server_not_found "gamma" ∷ [];
}
unfolding import_dashboards import_each import_dashboard find_by_name first get_default create
    Servers.find_by_id set_default find_by_id find_row
boards_counts = refl

import_dashboards-IsTaken_example :
    IsTaken merge 3 db nothing
      (import_dashboards merge "2025-02-01" boards db).0
      (import_dashboards merge "2025-02-01" boards db).1
import_dashboards-IsTaken_example =
    import_dashboards-IsTaken merge "2025-02-01" boards db db-IsWellFormed

db-IsRestorable : IsRestorable db.servers
unfolding validate_server_data is_backup_name some_chars
db-IsRestorable = ((refl, refl), ((refl, refl), tt))

replace-restores_example :
    (map backup_of
        (import_servers replace "2025-02-01" "2025-02-01T00" (export_servers db) calm).0.servers
      ≡ export_servers db)
    × ((import_servers replace "2025-02-01" "2025-02-01T00" (export_servers db) calm).1
        ≡ record nothing { imported = length (export_servers db) })
replace-restores_example =
    replace-restores "2025-02-01" "2025-02-01T00" db calm db-IsWellFormed db-IsRestorable

abbrev node : Node
node = record {
  join = λ dir name. append dir (append "/" name);
  backup_dir = "data/backups";
  parse = λ text. none;
  stringify = λ v. "{}";
  time = λ text. none;
}

abbrev file : File
file = record { path = "data/loradb.db"; content = ""; modified = "2025-02-01"; size = 4096 }

file-IsOther : IsOther node "data/loradb.db"
unfolding after_prefix
file-IsOther = refl

day_is_plain : Text.includes 47 "2025-02-02" ≡ false
unfolding Text.includes
day_is_plain = refl

time_is_plain : Text.includes 47 "020000" ≡ false
unfolding Text.includes
time_is_plain = refl

files-kept_example :
    (find_file "data/loradb.db" (delete_backup env node 0 none "../loradb.db" (file ∷ [])).1
      ≡ find_file "data/loradb.db" (file ∷ []))
    × (find_file "data/loradb.db" (cleanup_old_backups node 0 7 (file ∷ [])).1
        ≡ find_file "data/loradb.db" (file ∷ []))
    × (find_file "data/loradb.db"
          (save_automatic_backup node "2025-02-02" "2025-02-02" "020000" 9 null (file ∷ [])).1
        ≡ find_file "data/loradb.db" (file ∷ []))
files-kept_example =
    files-kept env node 0 7 9 none "../loradb.db" "2025-02-02" "2025-02-02" "020000"
      "data/loradb.db" null (file ∷ []) (λ name e f g h. refl) file-IsOther day_is_plain
      time_is_plain

abbrev sensor : File
sensor = record { path = "types/sensor.json"; content = "null"; modified = ""; size = 4 }

-- without an index the directory is listed, and a file that is gone meanwhile is left out
sensor_exported :
    export_device_types
      (record node { parse = λ text. some null })
      "types"
      (sensor ∷ [])
      true
      no_index
      ("sensor.json" ∷ "index.json" ∷ "gone.json" ∷ [])
    ≡ record { filename = "sensor.json"; content = some null } ∷ []
unfolding export_device_types select Text.ends_with first
sensor_exported = refl
