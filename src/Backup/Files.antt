-- ===== src/Backup/Files.antt =====
-- The backup files of LoRaDB-UI/backend/src/db/repositories/backupRepository.ts, on a disk that is the list
-- of its files. `path.join`, the texts of JSON and the times of dates are Node's, and so parameters; `none`
-- is what throws, or a date that is not valid. A file name has no line break, and the characters of a time
-- in it are code units.
pub mod Safety
use Prim.Native.String.{◌++◌ as append}
use lo_ra_dbase.Text
use lo_ra_dbase.Table.{delete}
use lo_ra_dbase.Common.{
  ℕ, zero, suc, ◌+◌, ◌-◌, ◌*◌, ◌/◌, ◌%◌, ◌≤◌, ◌<◌, Char, code, String, ◌≡◌, refl, sym, ap, ◌∙◌, ◌≢◌,
  ◌↔◌, ◌⊎◌, inl, inr, Bool, true, false, not, ◌&&◌, ◌||◌, Option, none, some, List, [], ◌∷◌, ◌++◌,
  map, arith, eq_iff, ltb, leb, nat_beq, nat_beq_iff, Eq, ◌==◌, nat_eq, string_eq, if◌then◌else◌,
  Bool-cases, Option-cases, false_of_not_true, beq_refl, ne_of_beq, beq_of_ne, length,
  length-append, All, All-append, All-concat, All-map, All-image, All-zip, All-every, Distinct,
  Distinct-concat,
}
use lo_ra_dbase.Json.{Json}
use lo_ra_dbase.Table.Keys.{by_key}
use lo_ra_dbase.Table.{insert}
use lo_ra_dbase.Table.Sort.{order_by}
use lo_ra_dbase.Text.{after_prefix}

pub record File : Type 0 where
  pub path : String
  pub content : String
  pub modified : String
  pub size : ℕ

pub record Node : Type 0 where
  pub join : String → String → String
  pub backup_dir : String
  pub parse : String → Option Json
  pub stringify : Json → String
  pub time : String → Option ℕ

pub record BackupFile : Type 0 where
  pub filename : String
  pub timestamp : String
  pub size : ℕ

-- HHmmss becomes HH:mm:ss
abbrev colons : String → String
colons time =
    append (Text.slice 0 2 time)
      (append ":" (append (Text.slice 2 4 time) (append ":" (Text.slice 4 6 time))))

-- the time that the parts of a name give, empty where they give none
unfoldable pub time_of_parts : List String → String
time_of_parts (year ∷ month ∷ day ∷ time ∷ []) =
    if Text.length time == 6
    then append year
        (append "-" (append month (append "-" (append day (append "T" (colons time))))))
    else ""
time_of_parts parts = ""

abbrev pub prefix : String
prefix = "backup-automatic-"

unfoldable pub timestamp_of : String → String
unfolding time_of_parts
timestamp_of filename = elim (after_prefix prefix filename) [
  | none ↦ ""
  | some rest ↦ elim (Text.before_suffix ".json" rest) [
    | none ↦ ""
    | some middle ↦ if middle == "" then "" else time_of_parts (Text.split b'-' middle)
  ]
]

abbrev pub find_file : String → List File → Option File
find_file path files = by_key (λ (f : File). f.path) path files

abbrev pub is_unsafe : String → Bool
is_unsafe filename = Text.includes_dots filename || Text.includes b'/' filename

module _ (node : Node) where
  -- the name of a file of the directory itself
  unfoldable pub entry : File → Option String
  entry f = elim (after_prefix (append node.backup_dir "/") f.path) [
    | none ↦ none
    | some name ↦ if Text.includes b'/' name then none else some name
  ]

  abbrev backup_file : File → String → BackupFile
  backup_file f name = record {
    filename = name;
    timestamp = if timestamp_of name == "" then f.modified else timestamp_of name;
    size = f.size;
  }

  -- the listing of the directory, as far as it is an automatic backup
  unfoldable pub automatic : List File → List BackupFile
  unfolding entry
  automatic [] = []
  automatic (f ∷ files) =
      let rest = automatic files in
      elim (entry f) [
        | none ↦ rest
        | some name ↦
            if Text.begins_with prefix name && Text.ends_with ".json" name
            then backup_file f name ∷ rest
            else rest
      ]

  abbrev pub newest_first : BackupFile → BackupFile → Bool
  newest_first a b = elim (node.time a.timestamp) [
    | none ↦ true
    | some s ↦ elim (node.time b.timestamp) [ none ↦ true | some t ↦ leb t s ]
  ]

  unfoldable pub list_automatic_backups : List File → List BackupFile
  unfolding automatic
  list_automatic_backups files = order_by newest_first (automatic files)

  unfoldable pub read_backup_file : String → List File → Option Json
  read_backup_file filename files =
      if is_unsafe filename
      then none
      else elim (find_file (node.join node.backup_dir filename) files) [
        | none ↦ none
        | some f ↦ node.parse f.content
      ]

  -- `day` is YYYY-MM-DD and `time` is HHmmss
  abbrev pub backup_name : String → String → String
  backup_name day time = append prefix (append day (append "-" (append time ".json")))

  abbrev pub written : File → List File → List File
  written f files = insert f (delete (λ (g : File). g.path == f.path) files)

  unfoldable pub save_automatic_backup :
      String → String → String → ℕ → Json → List File → String × List File
  save_automatic_backup now day time size backup files = (
    backup_name day time,
    written
        (record {
          path = node.join node.backup_dir (backup_name day time);
          content = node.stringify backup;
          modified = now;
          size = size;
        })
        files,
  )

  unfoldable pub delete_backup_file : String → List File → Bool × List File
  delete_backup_file filename files =
      if is_unsafe filename
      then (false, files)
      else elim (find_file (node.join node.backup_dir filename) files) [
        | none ↦ (false, files)
        | some f ↦ (true, delete (λ (g : File). g.path == node.join node.backup_dir filename) files)
      ]

  abbrev pub is_older : ℕ → BackupFile → Bool
  is_older cutoff b = elim (node.time b.timestamp) [ none ↦ false | some t ↦ ltb t cutoff ]

  abbrev counted : Bool → ℕ → ℕ
  counted b n = if b then suc n else n

  -- the loop of `cleanupOldBackups`
  unfoldable pub remove_older : ℕ → List BackupFile → List File → ℕ × List File
  unfolding delete_backup_file
  remove_older cutoff [] files = (0, files)
  remove_older cutoff (b ∷ backups) files =
      let (deleted, files') =
        if is_older cutoff b then delete_backup_file b.filename files else (false, files) in
      let (n, files'') = remove_older cutoff backups files' in (counted deleted n, files'')

  abbrev pub cutoff_ms : ℕ → ℕ → ℕ
  cutoff_ms now keep_days = now - keep_days * 24 * 60 * 60 * 1000

  unfoldable pub cleanup_old_backups : ℕ → ℕ → List File → ℕ × List File
  unfolding remove_older list_automatic_backups
  cleanup_old_backups now keep_days files =
      remove_older (cutoff_ms now keep_days) (list_automatic_backups files) files
