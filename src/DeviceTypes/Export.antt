-- ===== src/DeviceTypes/Export.antt =====
-- `exportDeviceTypes` of LoRaDB-UI/backend/src/utils/deviceTypeLoader.ts, on the disk of Backup/Files.
-- `listing` is what `readdirSync` gives of the directory.
use lo_ra_dbase.Common.{
  String, Bool, true, false, not, ◌&&◌, Option, none, some, List, [], ◌∷◌, ◌==◌, nat_eq, string_eq,
}
use lo_ra_dbase.Text
use lo_ra_dbase.Table.{select}
use lo_ra_dbase.Backup.Files.{Node, File, find_file}
use lo_ra_dbase.DeviceTypes.{DeviceTypeBackup}

-- the index: its file is not there, cannot be read, or holds these `deviceTypes`
pub data Index : Type 0 where
  no_index : Index
  broken : Index
  holds : (names : Option (List String)) → Index

abbrev type_names : List String → List String
type_names listing =
    select (λ name. Text.ends_with ".json" name && not (name == "index.json")) listing

-- an index without names is taken for none
abbrev names_to_read : Option (List String) → List String → List String
names_to_read none listing = type_names listing
names_to_read (some []) listing = type_names listing
names_to_read (some (name ∷ names)) listing = name ∷ names

module _ (node : Node) (types_dir : String) (files : List File) where
  -- a file that is not there or does not parse is left out
  abbrev read_type : String → Option DeviceTypeBackup
  read_type filename = elim (find_file (node.join types_dir filename) files) [
    | none ↦ none
    | some f ↦ elim (node.parse f.content) [
      | none ↦ none
      | some v ↦ some (record { filename = filename; content = some v })
    ]
  ]

  read_types : List String → List DeviceTypeBackup
  read_types [] = []
  read_types (name ∷ names) =
      let types = read_types names in elim (read_type name) [ none ↦ types | some t ↦ t ∷ types ]

  unfoldable pub export_device_types : Bool → Index → List String → List DeviceTypeBackup
  unfolding read_types
  export_device_types false index listing = []
  export_device_types true no_index listing = read_types (names_to_read none listing)
  export_device_types true broken listing = []
  export_device_types true (holds names) listing = read_types (names_to_read names listing)
