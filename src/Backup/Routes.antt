-- ===== src/Backup/Routes.antt =====
-- LoRaDB-UI/backend/src/routes/backup.ts, behind `requireMasterAuth`, and the backup that
-- utils/backupScheduler.ts writes each day. `device_types` is what the loader of device types returns. The
-- two imports of a request are two transactions; `import_types` is the third step of an import.
use lo_ra_dbase.Common.{
  ℕ, String, Bool, true, false, not, ◌||◌, Option, none, some, List, [], ◌∷◌, ◌==◌, nat_eq,
  string_eq, if◌then◌else◌,
}
use lo_ra_dbase.Text
use Prim.Native.String.{◌++◌ as append}
use lo_ra_dbase.Backup.{
  BackupServer, ImportResult, Strategy, merge, export_servers, import_servers, replace,
}
use lo_ra_dbase.DeviceTypes.{DeviceTypeBackup, TypeImportResult, no_types}
use lo_ra_dbase.Config.{Env}
use lo_ra_dbase.Backup.Boards.{BackupDashboard, export_dashboards, import_dashboards}
use lo_ra_dbase.Db.{Db}
use lo_ra_dbase.Backup.Files.{
  Node, File, BackupFile, is_unsafe, list_automatic_backups, prefix, read_backup_file,
  delete_backup_file,
}
use lo_ra_dbase.Http.{Reply, fail, validation_error, given?, reply, text_of}
use lo_ra_dbase.Session.{require_master_auth}
use lo_ra_dbase.Json.{Json, is_truthy}

pub data Source : Type 0 where
  manual automatic : Source

pub record BackupData : Type 0 where
  pub version : String
  pub timestamp : String
  pub source : Source
  pub servers : List BackupServer
  pub device_types : List DeviceTypeBackup
  pub dashboards : Option (List BackupDashboard)

-- POST /export
unfoldable pub exported : String → Bool → Bool → List DeviceTypeBackup → Db → BackupData
exported now include_device_types save_automatic device_types db = record {
  version = "1.0.0";
  timestamp = now;
  source = if save_automatic then automatic else manual;
  servers = export_servers db;
  device_types = if include_device_types then device_types else [];
  dashboards = some (export_dashboards db);
}

-- the scheduler's `createFullBackup`
unfoldable pub create_full_backup : String → List DeviceTypeBackup → Db → BackupData
create_full_backup now device_types db = record {
  version = "1.0.0";
  timestamp = now;
  source = automatic;
  servers = export_servers db;
  device_types = device_types;
  dashboards = none;
}

-- the `data` of a backup in a request
pub record BackupContent : Type 0 where
  pub servers : Option (List BackupServer)
  pub dashboards : Option (List BackupDashboard)
  pub device_types : Option (List DeviceTypeBackup)

pub record ImportBody : Type 0 where
  pub version : Option String
  pub content : Option BackupContent
  pub strategy : Option String

pub record ImportAnswer : Type 0 where
  pub servers : ImportResult
  pub dashboards : ImportResult
  pub device_types : TypeImportResult

abbrev or_empty {ℓ} : {A : Type ℓ} → Option (List A) → List A
or_empty none = []
or_empty (some xs) = xs

-- `strategy = 'merge'`, and the two strategies that are taken
unfoldable pub strategy_of : Option String → Option Strategy
strategy_of none = some merge
strategy_of (some s) =
    if s == "merge" then some merge else if s == "replace" then some replace else none

-- `version.split('.').map(Number)` starts with the number of CURRENT_VERSION, 1; `number` is `Number`
unfoldable pub is_version_compatible : (String → Option ℕ) → String → Bool
is_version_compatible number version = elim (Text.split b'.' version) [
  | [] ↦ false
  | major ∷ parts ↦ elim (number major) [ none ↦ false | some n ↦ n == 1 ]
]

abbrev has_items {ℓ} : {A : Type ℓ} → List A → Bool
has_items [] = false
has_items (x ∷ xs) = true

module _ (env : Env) (number : String → Option ℕ)
    (import_device_types : List DeviceTypeBackup → TypeImportResult) where
  abbrev checked_import : ImportBody → Reply (Strategy × BackupContent)
  checked_import body = elim body.content [
    | none ↦ validation_error "Invalid backup data structure"
    | some content ↦
        if not (given? body.version)
        then validation_error "Invalid backup data structure"
        else elim (strategy_of body.strategy) [
          | none ↦ validation_error "Strategy must be \"merge\" or \"replace\""
          | some strategy ↦
              if is_version_compatible number (text_of body.version)
              then reply 200 (strategy, content)
              else fail 400 "VersionError" (
                  append "Backup version "
                    (append (text_of body.version) " is not compatible with current version"))
        ]
  ]

  abbrev import_content : String → String → Strategy → BackupContent → Db → ImportAnswer × Db
  import_content day now strategy content db =
      let (db', servers) = import_servers strategy day now (or_empty content.servers) db in
      let (db'', dashboards) = import_dashboards strategy now (or_empty content.dashboards) db' in
      (
        record {
          servers = servers;
          dashboards = dashboards;
          device_types =
              if has_items (or_empty content.device_types)
              then import_device_types (or_empty content.device_types)
              else no_types;
        },
        db'',
      )

  -- POST /import
  unfoldable pub post_import :
      ℕ → Option String → String → String → ImportBody → Db → Reply ImportAnswer × Db
  post_import at token day now body db =
      elim (require_master_auth {A = ImportAnswer} env at token) [
        | some answer ↦ (answer, db)
        | none ↦ elim (checked_import body) [
          | fail status error message ↦ (fail status error message, db)
          | reply status (strategy, content) ↦
              let (answer, db') = import_content day now strategy content db in
              (reply 200 answer, db')
        ]
      ]

module _ (env : Env) where
  -- GET /list
  unfoldable pub get_list : Node → ℕ → Option String → List File → Reply (List BackupFile)
  get_list node at token files = elim (require_master_auth {A = List BackupFile} env at token) [
    | some answer ↦ answer
    | none ↦ reply 200 (list_automatic_backups node files)
  ]

  abbrev invalid_filename {ℓ} : {A : Type ℓ} → Reply A
  invalid_filename = validation_error "Invalid filename"

  abbrev no_backup {ℓ} : {A : Type ℓ} → Reply A
  no_backup = fail 404 "NotFoundError" "Backup file not found"

  -- GET /download/:filename
  unfoldable pub get_download : Node → ℕ → Option String → String → List File → Reply Json
  get_download node at token filename files = elim (require_master_auth {A = Json} env at token) [
    | some answer ↦ answer
    | none ↦
        if filename == "" || is_unsafe filename
        then invalid_filename
        else elim (read_backup_file node filename files) [
          | none ↦ no_backup
          | some backup ↦ if is_truthy backup then reply 200 backup else no_backup
        ]
  ]

  -- DELETE /:filename
  unfoldable pub delete_backup :
      Node → ℕ → Option String → String → List File → Reply String × List File
  delete_backup node at token filename files =
      elim (require_master_auth {A = String} env at token) [
        | some answer ↦ (answer, files)
        | none ↦
            if filename == "" || is_unsafe filename
            then (invalid_filename, files)
            else if not (Text.begins_with prefix filename)
            then (validation_error "Can only delete automatic backup files", files)
            else let (deleted, files') = delete_backup_file node filename files in
              if deleted
              then (reply 200 "Backup deleted successfully", files')
              else (no_backup, files')
      ]
