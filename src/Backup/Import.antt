-- ===== src/Backup/Import.antt =====
-- What an import of servers does to the rows that are there, and what it counts.
use lo_ra_dbase.Common.{
  ℕ, suc, ◌+◌, String, ◌≡◌, refl, sym, ◌∙◌, inl, inr, ◌&&◌, some, List, [], ◌∷◌, ◌++◌, arith, ◌==◌,
  nat_eq, string_eq, if◌then◌else◌, Bool-cases, Option-cases, length, length-append,
}
use mathlib.Core.List.{append-nil, append_assoc}
use lo_ra_dbase.Table.{insert, count}
use lo_ra_dbase.Db.{Db, Server, Result, ok, throw}
use lo_ra_dbase.Db.WellFormed.{IsWellFormed}
use lo_ra_dbase.Servers.{CreateServerData, find_by_host, insert_server, server_row, is_some}
use lo_ra_dbase.Servers.Constraints.{insert_server-IsWellFormed}
use lo_ra_dbase.Backup.{
  BackupServer, Strategy, merge, replace, is_merge, ImportError, ImportResult, nothing,
  validate_server_data, server_name, insert_backup, import_server, import_all, import_servers,
  without_servers, settle, given_of, invalid, text_or, host_exists, failed, not_null_violation,
}

-- `n` servers of a backup were taken from one state to the next: the rows that were there stay in front
-- and unchanged, one row is added for each server that counts as imported, each other one counts as
-- skipped and has a message, and nothing else changes.
pub record IsImported (n : ℕ) (db : Db) (r : ImportResult) (db' : Db) (r' : ImportResult)
    : Type 0 where
  pub added : List Server
  pub rows : db'.servers ≡ db.servers ++ added
  pub imported : r'.imported ≡ r.imported + length added
  pub all : r'.imported + r'.skipped ≡ r.imported + r.skipped + n
  pub messages : length r'.errors + r.skipped ≡ length r.errors + r'.skipped
  pub attempts : db'.failed_attempts ≡ db.failed_attempts
  pub dashboards : db'.dashboards ≡ db.dashboards
  pub kept : IsWellFormed db'

skipped-IsImported :
    (e : ImportError) (db : Db) (r : ImportResult)
    → IsWellFormed db
    → IsImported 1 db r db (record r { skipped = suc r.skipped; errors = r.errors ++ e ∷ [] })
skipped-IsImported e db r w = record {
  added = [];
  rows = sym (append-nil db.servers);
  imported = omega arith;
  all = omega arith;
  messages = rw (length-append r.errors (e ∷ [])) (omega arith);
  attempts = refl;
  dashboards = refl;
  kept = w;
}

inserted-IsImported :
    (given : CreateServerData) (created updated : String) (id : ℕ) (db db' : Db) (r : ImportResult)
    → IsWellFormed db
    → insert_server given created updated db ≡ ok (id, db')
    → IsImported 1 db r db' (record r { imported = suc r.imported })
inserted-IsImported given created updated id db db' r w h =
    let shape : db' ≡ record db {
      servers = insert (server_row db.next_server given created updated) db.servers;
      next_server = suc db.next_server;
    } =
      unfold insert_server in ground (arith, h) in
    record {
      added = server_row db.next_server given created updated ∷ [];
      rows = rw shape refl;
      imported = omega arith;
      all = omega arith;
      messages = omega arith;
      attempts = rw shape refl;
      dashboards = rw shape refl;
      kept = insert_server-IsWellFormed given created updated db id db' w h;
    }

emptied-IsWellFormed : (db : Db) → IsWellFormed (without_servers db)
unfolding count
emptied-IsWellFormed db = record {
  servers = record { ids = tt; names = tt; hosts = tt; fresh = tt };
  dashboards = record { ids = tt; fresh = tt; owned = tt; one_default = λ s. omega arith };
  attempts = tt;
}

settle-IsImported :
    (now name : String) (s : BackupServer) (db : Db) (r : ImportResult)
    → IsWellFormed db
    → IsImported 1 db r
        (settle s (insert_backup now name s db) db r).0
        (settle s (insert_backup now name s db) db r).1
unfolding insert_backup
settle-IsImported now name s db r w = elim (Option-cases s.created_at) [
  | inl missing ↦
      rw (missing, insert_backup) (skipped-IsImported (failed s.name not_null_violation) db r w)
  | inr (created, there) ↦
      go created there (insert_server (given_of name s) created (text_or s.updated_at now) db) refl
]
  where
    go :
        (created : String)
        → s.created_at ≡ some created
        → (res : Result (ℕ × Db))
        → insert_server (given_of name s) created (text_or s.updated_at now) db ≡ res
        → IsImported 1 db r
            (settle s (insert_backup now name s db) db r).0
            (settle s (insert_backup now name s db) db r).1
    go created there (throw e) h =
        rw (there, insert_backup) (rw h (skipped-IsImported (failed s.name e) db r w))
    go created there (ok (id, db')) h =
        rw (there, insert_backup)
          (rw h (
            inserted-IsImported (given_of name s) created (text_or s.updated_at now) id db db' r w
              h))

then-IsImported :
    (m : ℕ) (a b c : Db) (r s t : ImportResult)
    → IsImported 1 a r b s
    → IsImported m b s c t
    → IsImported (suc m) a r c t
then-IsImported m a b c r s t h k = record {
  added = h.added ++ k.added;
  rows = rw (k.rows, h.rows) (append_assoc a.servers h.added k.added);
  imported = rw (length-append h.added k.added) (omega (arith, h.imported, k.imported));
  all = omega (arith, h.all, k.all);
  messages = omega (arith, h.messages, k.messages);
  attempts = k.attempts ∙ h.attempts;
  dashboards = k.dashboards ∙ h.dashboards;
  kept = k.kept;
}

turn-IsImported :
    (strategy : Strategy) (day now : String) (s : BackupServer) (db : Db) (r : ImportResult)
    → IsWellFormed db
    → IsImported 1 db r
        (import_server strategy day now s db r).0
        (import_server strategy day now s db r).1
unfolding import_server
turn-IsImported strategy day now s db r w =
    elim (Bool-cases (length (validate_server_data s) == 0)) [
      | inr wrong ↦ rw wrong (skipped-IsImported (invalid s.name (validate_server_data s)) db r w)
      | inl valid ↦ elim (Bool-cases (is_merge strategy && is_some (find_by_host s.host db))) [
        | inl taken ↦ rw (valid, taken) (skipped-IsImported (host_exists s.name s.host) db r w)
        | inr free ↦
            rw (valid, free)
              (settle-IsImported now
                (if is_merge strategy then server_name s.name day db else s.name) s db r w)
      ]
    ]

all-IsImported :
    (strategy : Strategy) (day now : String) (servers : List BackupServer) (db : Db)
    (r : ImportResult)
    → IsWellFormed db
    → IsImported
        (length servers)
        db
        r
        (import_all strategy day now servers db r).0
        (import_all strategy day now servers db r).1
unfolding import_all
all-IsImported strategy day now [] db r w = record {
  added = [];
  rows = sym (append-nil db.servers);
  imported = omega arith;
  all = omega arith;
  messages = refl;
  attempts = refl;
  dashboards = refl;
  kept = w;
}
all-IsImported strategy day now (s ∷ servers) db r w =
    let run = import_server strategy day now s db r in
    let first_turn = turn-IsImported strategy day now s db r w in
    then-IsImported (length servers) db run.0 _ r run.1 _ first_turn
      (all-IsImported strategy day now servers run.0 run.1 first_turn.kept)

-- A merge of servers into a well-formed database: no row that was there is changed or removed, each
-- server of the backup is either imported, as one new row behind them, or skipped with one message,
-- the dashboards and the failed attempts are as they were, and the database stays well formed.
pub merge-IsImported :
    (day now : String) (servers : List BackupServer) (db : Db)
    → IsWellFormed db
    → IsImported
        (length servers)
        db
        nothing
        (import_servers merge day now servers db).0
        (import_servers merge day now servers db).1
unfolding import_servers
merge-IsImported day now servers db w = all-IsImported merge day now servers db nothing w

-- A replacement of the servers of a database does the same from an empty one: every
-- server that was there is gone, and with it all dashboards and failed attempts.
pub replace-IsImported :
    (day now : String) (servers : List BackupServer) (db : Db)
    → IsImported
        (length servers)
        (without_servers db)
        nothing
        (import_servers replace day now servers db).0
        (import_servers replace day now servers db).1
unfolding import_servers
replace-IsImported day now servers db =
    all-IsImported replace day now servers (without_servers db) nothing (emptied-IsWellFormed db)
