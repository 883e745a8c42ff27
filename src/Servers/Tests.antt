-- ===== src/Servers/Tests.antt =====
-- The theorems on the servers at concrete requests.
use lo_ra_dbase.Common.{◌≡◌, refl, ◌≢◌, ◌⊎◌, none, some, ◌==◌, nat_eq, string_eq, [], arith, false}
use lo_ra_dbase.Samples.{draws, gamma, env, db, alpha, db-IsWellFormed}
use lo_ra_dbase.Db.{Db, Server, ok}
use lo_ra_dbase.Db.WellFormed.{IsWellFormed}
use lo_ra_dbase.Http.{status_of, reply}
use lo_ra_dbase.Table
use lo_ra_dbase.Table.{first}
use lo_ra_dbase.Servers.{
  CreateServerData, UpdateServerData, insert_server, update_server, assign, find_by_name,
  find_by_host, find_by_id,
}
use lo_ra_dbase.Servers.Routes.{NewServer, stored_data, create_commit}
use lo_ra_dbase.Samples.{alpha-found}
use lo_ra_dbase.Encryption.Cache.Laws.{IsCache}
use lo_ra_dbase.Servers.Routes.{UpdateBody, delete_route, update_route}
use lo_ra_dbase.Servers.Removal.{IsRemoved, delete_route_lem}
use lo_ra_dbase.Servers.Renaming.{
  IsRenamable, renamed_row, shown, with_renaming, update_route_branches,
}
use lo_ra_dbase.Servers.Creation.{
  with_server, IsCreatable, IsCreated, IsRefused, create_server_branches, create_commit_races,
}
use lo_ra_dbase.Servers.Connection.{test_connection, failed}

create_server_branches_example :
    (IsCreatable env gamma db × IsCreated env draws "2025-02-01" gamma db db-IsWellFormed)
    ⊎ ((¬ IsCreatable env gamma db) × IsRefused env draws "2025-02-01" gamma db db-IsWellFormed)
create_server_branches_example =
    create_server_branches env draws "2025-02-01" gamma db db-IsWellFormed

abbrev late : NewServer
late = record {
  name = "alpha";
  host = "c.example:3000";
  api_key = "key of gamma";
  password = "long enough";
}

create_commit_races_example :
    IsWellFormed (create_commit env draws "2025-02-01" late db).1
    × (((status_of (create_commit env draws "2025-02-01" late db).0 ≡ 201)
          × ((create_commit env draws "2025-02-01" late db).1
              ≡ with_server (stored_data env draws late) "2025-02-01" db))
        ⊎ ((status_of (create_commit env draws "2025-02-01" late db).0 ≡ 500)
            × ((find_by_name "alpha" db ≢ none) ⊎ (find_by_host "c.example:3000" db ≢ none))
            × ((create_commit env draws "2025-02-01" late db).1 ≡ db)))
create_commit_races_example = create_commit_races env draws "2025-02-01" late db db-IsWellFormed

abbrev given : CreateServerData
given = record {
  name = "gamma";
  host = "c.example:3000";
  encrypted_api_key = record { ciphertext = "c3"; iv = "i3"; auth_tag = "t3"; salt = "s3" };
  password_hash = "hash";
}

insert_server-run :
    insert_server given "2025-02-01" "2025-02-01" db ≡ ok (3, with_server given "2025-02-01" db)
unfolding insert_server first
insert_server-run = refl

abbrev renaming : UpdateServerData
renaming = record {
  name = some "gamma";
  host = none;
  encrypted_api_key = none;
  password_hash = none;
}

abbrev renamed : Db
renamed = record db {
  servers = Table.update (λ (s : Server). s.id == 1) (assign "2025-02-01" renaming) db.servers;
}

update_server-run :
    update_server "2025-02-01" 1 renaming db
    ≡ ok (some (assign "2025-02-01" renaming alpha), renamed)
unfolding update_server first Table.update
update_server-run = refl

no_keys : IsCache []
no_keys = record { keys = tt; bound = omega arith }

alpha-there : find_by_id 1 db ≢ none
unfolding find_by_id first
alpha-there = λ absent. cc

delete_route_lem_example :
    ((delete_route (some 1) db []).0 ≡ reply 200 "Server deleted successfully")
    × IsRemoved 1 db [] (delete_route (some 1) db []).1 (delete_route (some 1) db []).2
delete_route_lem_example = delete_route_lem 1 db [] db-IsWellFormed no_keys alpha-there

abbrev moving : UpdateBody
moving = record { name = some "gamma"; host = some "c.example:3000" }

update_route_branches_example :
    (IsRenamable env 1 moving db
      × (update_route env "2025-02-01" (some 1) moving db ≡ (
        reply 200 (shown (renamed_row "2025-02-01" moving alpha)),
        with_renaming "2025-02-01" 1 moving db,
      ))
      × IsWellFormed (with_renaming "2025-02-01" 1 moving db))
    ⊎ ((¬ IsRenamable env 1 moving db)
        × ((status_of (update_route env "2025-02-01" (some 1) moving db).0 ≡ 400)
            ⊎ (status_of (update_route env "2025-02-01" (some 1) moving db).0 ≡ 409))
        × ((update_route env "2025-02-01" (some 1) moving db).1 ≡ db))
update_route_branches_example =
    update_route_branches env "2025-02-01" 1 moving db alpha alpha-found db-IsWellFormed

refused_connection :
    test_connection (λ address. failed (some "ECONNREFUSED") none) (some 1) db
    ≡ reply 200 (record {
      success = false;
      message = "Connection refused - server may be offline";
      content = none;
    })
unfolding test_connection find_by_id first
refused_connection = refl
