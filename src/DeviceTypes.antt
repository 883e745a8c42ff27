-- ===== src/DeviceTypes.antt =====
-- LoRaDB-UI/backend/src/utils/deviceTypeLoader.ts: the checks, the import and the index of device types, on
-- the disk of Backup/Files. The entries of the index are texts; `index` is what reading it gives, `none`
-- where that throws. A file that cannot be written throws.
pub mod Export
use lo_ra_dbase.Common.{
  ℕ, suc, String, Bool, false, not, ◌||◌, Option, none, some, List, [], ◌∷◌, ◌++◌, ◌==◌, nat_eq,
  string_eq, if◌then◌else◌, length,
}
use lo_ra_dbase.Table.{delete, insert}
use lo_ra_dbase.Json.{Items, Json, arr, cons, get, is_truthy?, nil, null}
use lo_ra_dbase.Backup.Files.{Node, File}
use lo_ra_dbase.Table.Sort.{order_by}
use lo_ra_dbase.Common.TextOrder.{text_leb}

pub record DeviceTypeBackup : Type 0 where
  pub filename : String
  pub content : Option Json

pub data TypeError : Type 0 where
  no_device_type no_name no_measurements : TypeError
  no_id no_path no_measurement_name : (index : ℕ) → TypeError

pub data TypeWarning : Type 0 where
  no_manufacturer : TypeWarning

pub record ValidationResult : Type 0 where
  pub errors : List TypeError
  pub warnings : List TypeWarning

abbrev unless_given {ℓ} : {A : Type ℓ} → String → Json → A → List A
unless_given key v message = if is_truthy? (get key v) then [] else message ∷ []

-- a property of `null` throws
unfoldable pub measurement_errors : ℕ → Items → Option (List TypeError)
measurement_errors index nil = some []
measurement_errors index (cons null rest) = none
measurement_errors index (cons v rest) = elim (measurement_errors (suc index) rest) [
  | none ↦ none
  | some more ↦ some (
      unless_given "id" v (no_id index)
      ++ unless_given "path" v (no_path index)
      ++ unless_given "name" v (no_measurement_name index)
      ++ more)
]

unfoldable pub measurements_of : Option Json → Option (List TypeError)
unfolding measurement_errors
measurements_of (some (arr items)) = measurement_errors 0 items
measurements_of v = some (no_measurements ∷ [])

-- `none` where a property of `null` or `undefined` is read
unfoldable pub validate_device_type : Option Json → Option ValidationResult
unfolding measurements_of
validate_device_type none = none
validate_device_type (some null) = none
validate_device_type (some v) = elim (measurements_of (get "measurements" v)) [
  | none ↦ none
  | some more ↦ some (record {
    errors = unless_given "deviceType" v no_device_type ++ unless_given "name" v no_name ++ more;
    warnings = unless_given "manufacturer" v no_manufacturer;
  })
]

pub data TypeImportError : Type 0 where
  invalid_type : (filename : String) (errors : List TypeError) → TypeImportError
  type_failed : (filename : String) → TypeImportError
  index_failed : TypeImportError

pub record TypeImportResult : Type 0 where
  pub imported : ℕ
  pub skipped : ℕ
  pub errors : List TypeImportError

abbrev pub no_types : TypeImportResult
no_types = record { imported = 0; skipped = 0; errors = [] }

unfoldable pub lists_name : String → List String → Bool
lists_name name [] = false
lists_name name (n ∷ names) = n == name || lists_name name names

-- `deviceTypes.push` of each new name that is not there
unfoldable pub add_names : List String → List String → List String
unfolding lists_name
add_names [] names = names
add_names (n ∷ new) names = add_names new (if lists_name n names then names else names ++ n ∷ [])

-- the `deviceTypes` of the index after `updateDeviceTypesIndex`
unfoldable pub update_device_types_index : List String → List String → List String
unfolding add_names
update_device_types_index new names = order_by text_leb (add_names new names)

module _ (node : Node) (types_dir : String) (can_write : String → Bool) where
  abbrev type_file : DeviceTypeBackup → Json → File
  type_file t v = record {
    path = node.join types_dir t.filename;
    content = node.stringify v;
    modified = "";
    size = 0;
  }

  abbrev skip_type : TypeImportError → TypeImportResult → TypeImportResult
  skip_type e r = record r { skipped = suc r.skipped; errors = r.errors ++ e ∷ [] }

  abbrev written : File → List File → List File
  written f files = insert f (delete (λ (g : File). g.path == f.path) files)

  -- the loop over the types: the files, the names that were written, and the counts
  unfoldable pub import_types :
      List DeviceTypeBackup
      → List File
      → TypeImportResult
      → List File × List String × TypeImportResult
  import_types [] files r = (files, [], r)
  import_types (t ∷ types) files r = elim (validate_device_type t.content) [
    | none ↦ import_types types files (skip_type (type_failed t.filename) r)
    | some checked ↦
        if not (length checked.errors == 0)
        then import_types types files (skip_type (invalid_type t.filename checked.errors) r)
        else elim t.content [
          | none ↦ import_types types files r
          | some v ↦
              if can_write (node.join types_dir t.filename)
              then (let (files', names, r') =
                    import_types types (written (type_file t v) files)
                      (record r { imported = suc r.imported }) in
                  (files', t.filename ∷ names, r'))
              else import_types types files (skip_type (type_failed t.filename) r)
        ]
  ]

  -- `index` is the index before, `none` where it cannot be read; the index after is the second result
  unfoldable pub import_device_types :
      List DeviceTypeBackup
      → Option (List String)
      → List File
      → List File × Option (List String) × TypeImportResult
  unfolding import_types update_device_types_index
  import_device_types types index files =
      let (files', names, r) = import_types types files no_types in
      if length names == 0 then (files', index, r) else elim index [
        | none ↦ (files', none, record r { errors = r.errors ++ index_failed ∷ [] })
        | some old ↦ (files', some (update_device_types_index names old), r)
      ]
