-- ===== src/Db/WellFormed.antt =====
-- What the constraints of the schema promise of a database, and that each dashboard's server has at
-- most one default dashboard.
use lo_ra_dbase.Common.{
  ℕ, ◌<◌, ◌≢◌, Bool, ◌&&◌, Option, none, List, ◌==◌, nat_eq, string_eq, All, Distinct,
}
use lo_ra_dbase.Db.{Db, Server, FailedAttempt, Dashboard}
use lo_ra_dbase.Table.{count}
use lo_ra_dbase.Table.Keys.{by_key}

abbrev pub server_by_id : ℕ → List Server → Option Server
server_by_id k = by_key (λ (s : Server). s.id) k

-- PRIMARY KEY, UNIQUE (name), UNIQUE (host) and AUTOINCREMENT of the servers table.
pub record ServersAreKeyed (servers : List Server) (next : ℕ) : Type 0 where
  pub ids : Distinct (λ (s : Server). s.id) servers
  pub names : Distinct (λ (s : Server). s.name) servers
  pub hosts : Distinct (λ (s : Server). s.host) servers
  pub fresh : All (λ (s : Server). s.id < next) servers

-- FOREIGN KEY (server_id) REFERENCES servers(id)
abbrev pub Refers : List Server → ℕ → Type 0
Refers servers k = server_by_id k servers ≢ none

abbrev pub is_default_of : ℕ → Dashboard → Bool
is_default_of server_id d = d.server_id == server_id && d.is_default == 1

abbrev pub OneDefault : List Dashboard → Type 0
OneDefault dashboards = (server_id : ℕ) → count (is_default_of server_id) dashboards < 2

pub record DashboardsAreKeyed (servers : List Server) (dashboards : List Dashboard) (next : ℕ)
    : Type 0 where
  pub ids : Distinct (λ (d : Dashboard). d.id) dashboards
  pub fresh : All (λ (d : Dashboard). d.id < next) dashboards
  pub owned : All (λ (d : Dashboard). Refers servers d.server_id) dashboards
  pub one_default : OneDefault dashboards

pub record IsWellFormed (db : Db) : Type 0 where
  pub servers : ServersAreKeyed db.servers db.next_server
  pub dashboards : DashboardsAreKeyed db.servers db.dashboards db.next_dashboard
  pub attempts : All (λ (a : FailedAttempt). Refers db.servers a.server_id) db.failed_attempts
