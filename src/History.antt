-- ===== src/History.antt =====
-- The statements that the repositories of LoRaDB-UI/backend/src/db issue, one after another, on one database.
mod Tests
use lo_ra_dbase.Common.{
  ℕ, zero, suc, ◌+◌, ◌-◌, ◌*◌, ◌/◌, ◌%◌, ◌≤◌, ◌<◌, Char, code, String, ◌≡◌, refl, sym, ap, ◌∙◌, ◌≢◌,
  ◌↔◌, ◌⊎◌, inl, inr, Bool, true, false, not, ◌&&◌, ◌||◌, Option, none, some, List, [], ◌∷◌, ◌++◌,
  map, arith, eq_iff, ltb, leb, nat_beq, nat_beq_iff, Eq, ◌==◌, nat_eq, string_eq, if◌then◌else◌,
  Bool-cases, Option-cases, false_of_not_true, beq_refl, ne_of_beq, beq_of_ne, length,
  length-append, All, All-append, All-concat, All-map, All-image, All-zip, All-every, Distinct,
  Distinct-concat,
}
use lo_ra_dbase.Servers
use lo_ra_dbase.Dashboards
use lo_ra_dbase.Table.{delete, count, insert}
use lo_ra_dbase.Db.{Db, FailedAttempt, empty, ok, Server}
use lo_ra_dbase.Backup.{Strategy, BackupServer, import_servers, merge, replace}
use lo_ra_dbase.Lockout.{
  record_failed_attempt, clear_failed_attempts, is_of, delete_server_attempts,
  cleanup_old_failed_attempts,
}
use lo_ra_dbase.Servers.{
  CreateServerData, insert_server, UpdateServerData, ServerPublic, update_server, delete_server,
}
use lo_ra_dbase.Db.WellFormed.{IsWellFormed, Refers}
use lo_ra_dbase.Table.Laws.{All-delete}
use lo_ra_dbase.Servers.Constraints.{insert_server-IsWellFormed, update_server-IsWellFormed}
use lo_ra_dbase.Dashboards.{
  set_default, find_row, find_by_id, CreateDashboardData, DashboardPublic, create,
  UpdateDashboardData, delete_dashboard,
}
use lo_ra_dbase.Backup.Import.{merge-IsImported, replace-IsImported}
use lo_ra_dbase.Servers.Deletion.{delete_server-IsWellFormed}
use lo_ra_dbase.Dashboards.Defaults.{set_default_lem}
use lo_ra_dbase.Dashboards.Rows.{
  create-IsWellFormed, update-IsWellFormed, delete_dashboard-IsWellFormed,
}
use lo_ra_dbase.Backup.Boards.Import.{import_dashboards-IsTaken}
use lo_ra_dbase.Backup.Boards.{BackupDashboard, import_dashboards}

-- One statement, or one import, that does not throw.
pub data Step : Db → Db → Type 0 where
  server_inserted :
      (given : CreateServerData) (created updated : String) (id : ℕ) (a b : Db)
      → insert_server given created updated a ≡ ok (id, b)
      → Step a b
  server_updated :
      (now : String) (id : ℕ) (given : UpdateServerData) (found : Option Server) (a b : Db)
      → update_server now id given a ≡ ok (found, b)
      → Step a b
  server_deleted : (id : ℕ) (a : Db) → Step a (delete_server id a).1
  attempt_recorded :
      (now id : ℕ) (ip : String) (a b : Db) → record_failed_attempt now id ip a ≡ ok b → Step a b
  attempts_cleared : (id : ℕ) (ip : String) (a : Db) → Step a (clear_failed_attempts id ip a)
  attempts_deleted : (id : ℕ) (a : Db) → Step a (delete_server_attempts id a)
  attempts_cleaned : (now : ℕ) (a : Db) → Step a (cleanup_old_failed_attempts now a)
  dashboard_created :
      (now : String) (given : CreateDashboardData) (made : Option DashboardPublic) (a b : Db)
      → create now given a ≡ ok (made, b)
      → Step a b
  dashboard_updated :
      (now : String) (id : ℕ) (given : UpdateDashboardData) (a : Db)
      → Step a (Dashboards.update now id given a).1
  dashboard_deleted : (id : ℕ) (a : Db) → Step a (delete_dashboard id a).1
  default_set : (now : String) (id : ℕ) (a : Db) → Step a (set_default now id a).1
  servers_imported :
      (strategy : Strategy) (day now : String) (servers : List BackupServer) (a : Db)
      → Step a (import_servers strategy day now servers a).0
  dashboards_imported :
      (strategy : Strategy) (now : String) (dashboards : List BackupDashboard) (a : Db)
      → Step a (import_dashboards strategy now dashboards a).0

pub data Reach : Db → Db → Type 0 where
  here : (a : Db) → Reach a a
  then_step : (a b c : Db) → Reach a b → Step b c → Reach a c

-- fewer failed attempts
fewer-IsWellFormed :
    (p : FailedAttempt → Bool) (a : Db)
    → IsWellFormed a
    → IsWellFormed (record a { failed_attempts = delete p a.failed_attempts })
fewer-IsWellFormed p a w = record {
  servers = w.servers;
  dashboards = w.dashboards;
  attempts =
      All-delete (λ (x : FailedAttempt). Refers a.servers x.server_id) p a.failed_attempts
        w.attempts;
}

recorded-IsWellFormed :
    (now id : ℕ) (ip : String) (a b : Db)
    → IsWellFormed a
    → record_failed_attempt now id ip a ≡ ok b
    → IsWellFormed b
unfolding record_failed_attempt Servers.find_by_id
recorded-IsWellFormed now id ip a b w h = elim (Option-cases (Servers.find_by_id id a)) [
  | inl absent ↦ absurd (ground arith)
  | inr (s, found) ↦
      let row : FailedAttempt = record {
        id = a.next_attempt;
        server_id = id;
        ip_address = ip;
        attempted_at = now;
      } in
      let shape : b ≡ record a {
        failed_attempts = insert row a.failed_attempts;
        next_attempt = suc a.next_attempt;
      } =
        ground arith in
      rw shape (record {
        servers = w.servers;
        dashboards = w.dashboards;
        attempts =
            All-concat (λ (x : FailedAttempt). Refers a.servers x.server_id) a.failed_attempts row
              w.attempts (λ absent. cc);
      })
]

set_default-IsWellFormed :
    (now : String) (id : ℕ) (a : Db) → IsWellFormed a → IsWellFormed (set_default now id a).1
set_default-IsWellFormed now id a w = elim (Option-cases (find_row id a)) [
  | inl absent ↦
      let run : (set_default now id a).1 ≡ a = unfold set_default find_by_id in ground arith in
      rw run w
  | inr (row, found) ↦ (set_default_lem now id a row w found).3
]

servers-IsWellFormed :
    (strategy : Strategy) (day now : String) (servers : List BackupServer) (a : Db)
    → IsWellFormed a
    → IsWellFormed (import_servers strategy day now servers a).0
servers-IsWellFormed merge day now servers a w = (merge-IsImported day now servers a w).kept
servers-IsWellFormed replace day now servers a w = (replace-IsImported day now servers a).kept

step-IsWellFormed : (a b : Db) → IsWellFormed a → Step a b → IsWellFormed b
step-IsWellFormed _ _ w (server_inserted given created updated id a b h) =
    insert_server-IsWellFormed given created updated a id b w h
step-IsWellFormed _ _ w (server_updated now id given found a b h) =
    update_server-IsWellFormed now id given a found b w h
step-IsWellFormed _ _ w (server_deleted id a) = delete_server-IsWellFormed id a w
step-IsWellFormed _ _ w (attempt_recorded now id ip a b h) = recorded-IsWellFormed now id ip a b w h
step-IsWellFormed _ _ w (attempts_cleared id ip a) =
    unfold clear_failed_attempts in fewer-IsWellFormed (is_of id ip) a w
step-IsWellFormed _ _ w (attempts_deleted id a) =
    unfold delete_server_attempts in fewer-IsWellFormed _ a w
step-IsWellFormed _ _ w (attempts_cleaned now a) =
    unfold cleanup_old_failed_attempts in fewer-IsWellFormed _ a w
step-IsWellFormed _ _ w (dashboard_created now given made a b h) =
    create-IsWellFormed now given a made b w h
step-IsWellFormed _ _ w (dashboard_updated now id given a) = update-IsWellFormed now id given a w
step-IsWellFormed _ _ w (dashboard_deleted id a) = delete_dashboard-IsWellFormed id a w
step-IsWellFormed _ _ w (default_set now id a) = set_default-IsWellFormed now id a w
step-IsWellFormed _ _ w (servers_imported strategy day now servers a) =
    servers-IsWellFormed strategy day now servers a w
step-IsWellFormed _ _ w (dashboards_imported strategy now dashboards a) =
    (import_dashboards-IsTaken strategy now dashboards a w).kept

empty-IsWellFormed : IsWellFormed empty
unfolding count
empty-IsWellFormed = record {
  servers = record { ids = tt; names = tt; hosts = tt; fresh = tt };
  dashboards = record { ids = tt; fresh = tt; owned = tt; one_default = λ s. omega arith };
  attempts = tt;
}

-- Whatever statements and imports have run, one after another, on the database that the schema creates,
-- the database is well formed: the identifiers, the names and the hosts of the servers are distinct, so are
-- the identifiers of the dashboards, every dashboard and every failed attempt belongs to a server that is
-- there, and no server has two default dashboards.
pub Reach-IsWellFormed : (db : Db) → Reach empty db → IsWellFormed db
Reach-IsWellFormed db reached = go empty db empty-IsWellFormed reached
  where
    go : (a b : Db) → IsWellFormed a → Reach a b → IsWellFormed b
    go _ _ w (here a) = w
    go _ _ w (then_step a b c earlier step) = step-IsWellFormed b c (go a b w earlier) step
