-- ===== src/Backup/Turn.antt =====
-- What a merge does to one server of a backup.
use lo_ra_dbase.Common.{ℕ, suc, String, ◌≡◌, refl, none, some, nat_eq, string_eq, length}
use lo_ra_dbase.Table.{insert}
use lo_ra_dbase.Db.{Db, Server, ok}
use lo_ra_dbase.Servers.{find_by_name, find_by_host, insert_server}
use lo_ra_dbase.Backup.{
  BackupServer, merge, ImportResult, validate_server_data, server_name, given_of, text_or,
  insert_backup, import_server,
}
use lo_ra_dbase.Backup.Names.{server_name-free}

-- the row of an imported server: everything but its identifier, its name and its times as in the backup
abbrev pub imported_row : ℕ → String → String → String → BackupServer → Server
imported_row id name created_at updated_at s = record {
  id = id;
  name = name;
  host = s.host;
  api_key = s.api_key;
  api_key_iv = s.api_key_iv;
  api_key_auth_tag = s.api_key_auth_tag;
  api_key_salt = s.api_key_salt;
  password_hash = s.password_hash;
  created_at = created_at;
  updated_at = updated_at;
}

-- A merge imports every server that passes the checks, has a time of creation and a host that no server
-- has: its row is added under a name that was free, with its credentials as they are in the backup, and
-- it is counted as imported; a taken name is no reason to skip it.
pub merge-imports :
    (day now : String) (s : BackupServer) (created : String) (db : Db) (r : ImportResult)
    → length (validate_server_data s) ≡ 0
    → find_by_host s.host db ≡ none
    → s.created_at ≡ some created
    → (name : String) × (find_by_name name db ≡ none)
      × (import_server merge day now s db r ≡ (
        record db {
          servers =
              insert
                (imported_row db.next_server name created (text_or s.updated_at now) s)
                db.servers;
          next_server = suc db.next_server;
        },
        record r { imported = suc r.imported },
      ))
unfolding import_server
merge-imports day now s created db r valid free there =
    let name = server_name s.name day db in
    let new_name = server_name-free s.name day db in
    let run : insert_server (given_of name s) created (text_or s.updated_at now) db
        ≡ ok (
          db.next_server,
          record db {
            servers =
                insert (imported_row db.next_server name created (text_or s.updated_at now) s)
                  db.servers;
            next_server = suc db.next_server;
          },
        ) =
      unfold insert_server in rw (new_name, free) refl in
    let stored : insert_backup now name s db
        ≡ ok (record db {
          servers =
              insert (imported_row db.next_server name created (text_or s.updated_at now) s)
                db.servers;
          next_server = suc db.next_server;
        }) =
      unfold insert_backup in rw (there, insert_backup) (rw run refl) in
    (name, new_name, rw (valid, free, stored) refl)
