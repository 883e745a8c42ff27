-- ===== src/Servers/Deletion.antt =====
-- The deletion of a server keeps what the schema's constraints promise.
use lo_ra_dbase.Common.{ℕ, ◌<◌, arith, ◌==◌, nat_eq, string_eq, All-zip}
use lo_ra_dbase.Table.{delete}
use lo_ra_dbase.Table.Laws.{count-delete-le, All-delete_not, All-delete}
use lo_ra_dbase.Table.Keys.{Distinct-delete}
use lo_ra_dbase.Db.{Db, Server, Dashboard, FailedAttempt}
use lo_ra_dbase.Db.WellFormed.{IsWellFormed, Refers, is_default_of}
use lo_ra_dbase.Servers.{delete_server}
use lo_ra_dbase.Servers.Constraints.{Refers-delete}

-- A DELETE of a server, with its cascades, keeps a database well formed.
pub delete_server-IsWellFormed :
    (id : ℕ) (db : Db) → IsWellFormed db → IsWellFormed (delete_server id db).1
unfolding delete_server
delete_server-IsWellFormed id db w = record {
  servers = record {
    ids = Distinct-delete (λ (s : Server). s.id) (λ s. s.id == id) db.servers w.servers.ids;
    names = Distinct-delete (λ (s : Server). s.name) (λ s. s.id == id) db.servers w.servers.names;
    hosts = Distinct-delete (λ (s : Server). s.host) (λ s. s.id == id) db.servers w.servers.hosts;
    fresh =
        All-delete (λ (s : Server). s.id < db.next_server) (λ s. s.id == id) db.servers
          w.servers.fresh;
  };
  dashboards = record {
    ids =
        Distinct-delete (λ (d : Dashboard). d.id) (λ d. d.server_id == id) db.dashboards
          w.dashboards.ids;
    fresh =
        All-delete (λ (d : Dashboard). d.id < db.next_dashboard) (λ d. d.server_id == id)
          db.dashboards w.dashboards.fresh;
    owned =
        All-zip (λ (d : Dashboard) r apart. Refers-delete db.servers id d.server_id apart r)
          (delete (λ d. d.server_id == id) db.dashboards)
          (All-delete (λ (d : Dashboard). Refers db.servers d.server_id) (λ d. d.server_id == id)
            db.dashboards w.dashboards.owned)
          (All-delete_not (λ (d : Dashboard). d.server_id == id) db.dashboards);
    one_default = λ k. omega (
      arith,
      w.dashboards.one_default k,
      count-delete-le (λ (d : Dashboard). d.server_id == id) (is_default_of k) db.dashboards,
    );
  };
  attempts =
      All-zip (λ (a : FailedAttempt) r apart. Refers-delete db.servers id a.server_id apart r)
        (delete (λ a. a.server_id == id) db.failed_attempts)
        (All-delete (λ (a : FailedAttempt). Refers db.servers a.server_id) (λ a. a.server_id == id)
          db.failed_attempts w.attempts)
        (All-delete_not (λ (a : FailedAttempt). a.server_id == id) db.failed_attempts);
}
