-- ===== src/Frontend/Storage.antt =====
-- The browser's localStorage as LoRaDB-UI/frontend/src/utils/dashboardStorage.ts and backupUtils.ts use it: a
-- list of keys and texts. `Texts` is JSON.stringify and JSON.parse, on a layout and on the two texts that
-- are set aside before an import; `none` is null, or what throws. A write never fails here.
pub mod Rollback
mod Tests
use lo_ra_dbase.Common.{
  ℕ, zero, suc, ◌+◌, ◌-◌, ◌*◌, ◌/◌, ◌%◌, ◌≤◌, ◌<◌, Char, code, String, ◌≡◌, refl, sym, ap, ◌∙◌, ◌≢◌,
  ◌↔◌, ◌⊎◌, inl, inr, Bool, true, false, not, ◌&&◌, ◌||◌, Option, none, some, List, [], ◌∷◌, ◌++◌,
  map, arith, eq_iff, ltb, leb, nat_beq, nat_beq_iff, Eq, ◌==◌, nat_eq, string_eq, if◌then◌else◌,
  Bool-cases, Option-cases, false_of_not_true, beq_refl, ne_of_beq, beq_of_ne, length,
  length-append, All, All-append, All-concat, All-map, All-image, All-zip, All-every, Distinct,
  Distinct-concat,
}
use lo_ra_dbase.Frontend.Layout.{DashboardLayout, get_default_layout}
use lo_ra_dbase.Json.{Json, is_array, is_truthy, is_truthy?, get}
use lo_ra_dbase.Http.{given?, text_of}

abbrev pub Store : Type 0
Store = List (String × String)

unfoldable pub get_item : String → Store → Option String
get_item key [] = none
get_item key ((k, text) ∷ store) = if k == key then some text else get_item key store

unfoldable pub remove_item : String → Store → Store
remove_item key [] = []
remove_item key ((k, text) ∷ store) =
    let rest = remove_item key store in if k == key then rest else (k, text) ∷ rest

unfoldable pub set_item : String → String → Store → Store
unfolding remove_item
set_item key text store = (key, text) ∷ remove_item key store

abbrev pub storage_key : String
storage_key = "loradb-dashboard-layout"

abbrev pub settings_key : String
settings_key = "settings_showDebugView"

abbrev pub backup_key : String
backup_key = "loradb-restore-backup"

pub record SavedState : Type 0 where
  pub dashboard : Option String
  pub settings : Option String

pub record Texts : Type 0 where
  pub of_layout : DashboardLayout → String
  pub layout_of : String → Option DashboardLayout
  pub of_state : SavedState → String
  pub state_of : String → Option SavedState

module _ (texts : Texts) where
  unfoldable pub save_dashboard_layout : DashboardLayout → Store → Store
  unfolding set_item
  save_dashboard_layout layout store = set_item storage_key (texts.of_layout layout) store

  abbrev pub migrated : DashboardLayout → DashboardLayout
  migrated layout = record layout { version = "2.0" }

  abbrev loaded : Option DashboardLayout → Store → Option DashboardLayout × Store
  loaded none store = (none, store)
  loaded (some layout) store =
      if layout.version == "1.0"
      then (some (migrated layout), save_dashboard_layout (migrated layout) store)
      else if layout.version == "2.0"
      then (some layout, store)
      else (none, store)

  unfoldable pub load_dashboard_layout : Store → Option DashboardLayout × Store
  unfolding save_dashboard_layout get_item
  load_dashboard_layout store = elim (get_item storage_key store) [
    | none ↦ (none, store)
    | some stored ↦ if stored == "" then (none, store) else loaded (texts.layout_of stored) store
  ]

  unfoldable pub clear_dashboard_layout : Store → Store
  unfolding remove_item
  clear_dashboard_layout store = remove_item storage_key store

  abbrev created : Option DashboardLayout × Store → DashboardLayout × Store
  created (some layout, store) = (layout, store)
  created (none, store) = (get_default_layout, save_dashboard_layout get_default_layout store)

  unfoldable pub get_or_create_dashboard_layout : Store → DashboardLayout × Store
  unfolding load_dashboard_layout
  get_or_create_dashboard_layout store = created (load_dashboard_layout store)

  unfoldable pub backup_local_storage : Store → String × Store
  unfolding set_item get_item
  backup_local_storage store = (
    backup_key,
    set_item backup_key
        (texts.of_state (record {
          dashboard = get_item storage_key store;
          settings = get_item settings_key store;
        }))
        store,
  )

  abbrev pub put_back : String → Option String → Store → Store
  put_back key text store = if given? text then set_item key (text_of text) store else store

  abbrev pub restored : Option SavedState → Store → Store
  restored none store = store
  restored (some s) store =
      put_back settings_key s.settings (put_back storage_key s.dashboard store)

  -- where the set-aside text does not parse, the source throws before the key is removed
  unfoldable pub restore_local_storage : String → Store → Store
  unfolding set_item get_item remove_item
  restore_local_storage key store = elim (get_item key store) [
    | none ↦ remove_item key store
    | some backup ↦ if backup == "" then remove_item key store else elim (texts.state_of backup) [
      | none ↦ store
      | some s ↦ remove_item key (restored (some s) store)
    ]
  ]

unfoldable pub clear_local_storage_backup : String → Store → Store
unfolding remove_item
clear_local_storage_backup key store = remove_item key store

abbrev pub write : String → Option String → Store → Store
write key none store = store
write key (some text) store = set_item key text store

-- an import writes the layout and the settings that it has
unfoldable pub import_frontend_data : Option String → Option String → Store → Store
unfolding set_item
import_frontend_data dashboards settings store =
    write settings_key settings (write storage_key dashboards store)

abbrev is_list : Option Json → Bool
is_list none = false
is_list (some v) = is_array v

-- `validateBackupFile`: the error, `none` where the file is valid
unfoldable pub validate_backup_file : Json → Option String
validate_backup_file file =
    if not (is_truthy file)
    then some "Backup file is empty"
    else if not (is_truthy? (get "version" file))
    then some "Missing version field"
    else if not (is_truthy? (get "timestamp" file))
    then some "Missing timestamp field"
    else elim (get "metadata" file) [
      | none ↦ some "Invalid metadata structure"
      | some metadata ↦
          if not (
            is_truthy metadata
            && is_truthy? (get "type" metadata)
            && is_truthy? (get "source" metadata))
          then some "Invalid metadata structure"
          else elim (get "data" file) [
            | none ↦ some "Missing data field"
            | some content ↦
                if not (is_truthy content)
                then some "Missing data field"
                else if not (is_list (get "servers" content))
                then some "Invalid servers data (must be an array)"
                else if is_truthy? (get "deviceTypes" content)
                    && not (is_list (get "deviceTypes" content))
                then some "Invalid deviceTypes data (must be an array)"
                else none
          ]
    ]
