-- ===== src/Backup/Boards.antt =====
-- The dashboards of LoRaDB-UI/backend/src/db/repositories/backupRepository.ts: export and import. A field
-- of a dashboard in a backup has its declared type, `none` where it is missing; a column that holds JSON
-- is held as its value. The readings of the clock in one import are all `now`.
pub mod Import
use lo_ra_dbase.Common.{
  ℕ, zero, suc, ◌+◌, ◌-◌, ◌*◌, ◌/◌, ◌%◌, ◌≤◌, ◌<◌, Char, code, String, ◌≡◌, refl, sym, ap, ◌∙◌, ◌≢◌,
  ◌↔◌, ◌⊎◌, inl, inr, Bool, true, false, not, ◌&&◌, ◌||◌, Option, none, some, List, [], ◌∷◌, ◌++◌,
  map, arith, eq_iff, ltb, leb, nat_beq, nat_beq_iff, Eq, ◌==◌, nat_eq, string_eq, if◌then◌else◌,
  Bool-cases, Option-cases, false_of_not_true, beq_refl, ne_of_beq, beq_of_ne, length,
  length-append, All, All-append, All-concat, All-map, All-image, All-zip, All-every, Distinct,
  Distinct-concat,
}
use lo_ra_dbase.Dashboards.{
  CreateDashboardData, DashboardPublic, name_or, get_default, create, set_default,
}
use lo_ra_dbase.Db.{Db, Result, Server, Dashboard}
use lo_ra_dbase.Json.{Json, arr, nil}
use lo_ra_dbase.Backup.{
  Strategy, ImportResult, is_merge, nothing, skip, invalid_dashboard, missing_server_name,
  server_not_found, default_exists, merge, throw, dashboard_failed, replace, ok, count_imported,
}
use lo_ra_dbase.Table.Sort.{order_by}
use lo_ra_dbase.Http.{given?, text_of}
use lo_ra_dbase.Common.TextOrder.{text_leb}
use lo_ra_dbase.Dashboards.Routes.{number_or, json_or, lg_only}
use lo_ra_dbase.Servers
use lo_ra_dbase.Servers.{find_by_name}

pub record BackupDashboard : Type 0 where
  pub server_name : Option String
  pub name : Option String
  pub is_default : Option Bool
  pub version : Option String
  pub time_range : Option String
  pub auto_refresh : Option Bool
  pub refresh_interval : Option ℕ
  pub widgets : Option Json
  pub layouts : Option Json
  pub created_at : Option String
  pub updated_at : Option String

abbrev dashboard_of : Server → Dashboard → BackupDashboard
dashboard_of s d = record {
  server_name = some s.name;
  name = some d.name;
  is_default = some (d.is_default == 1);
  version = some d.version;
  time_range = some d.time_range;
  auto_refresh = some (d.auto_refresh == 1);
  refresh_interval = some d.refresh_interval;
  widgets = some d.widgets;
  layouts = some d.layouts;
  created_at = some d.created_at;
  updated_at = some d.updated_at;
}

-- JOIN servers s ON d.server_id = s.id
unfoldable pub joined : Db → List Dashboard → List (Server × Dashboard)
joined db [] = []
joined db (d ∷ rows) =
    let rest = joined db rows in
    elim (Servers.find_by_id d.server_id db) [ none ↦ rest | some s ↦ (s, d) ∷ rest ]

-- ORDER BY s.name, d.is_default DESC, d.created_at DESC
abbrev by_server_and_default : Server × Dashboard → Server × Dashboard → Bool
by_server_and_default (s, a) (t, b) =
    not (text_leb t.name s.name)
    || s.name == t.name
      && (ltb b.is_default a.is_default
          || a.is_default == b.is_default && text_leb b.created_at a.created_at)

unfoldable pub export_dashboards : Db → List BackupDashboard
unfolding joined
export_dashboards db =
    map (λ (s, d). dashboard_of s d) (order_by by_server_and_default (joined db db.dashboards))

abbrev pub is_set : Option Bool → Bool
is_set none = false
is_set (some b) = b

-- what `create` is called with
abbrev pub stored_dashboard : ℕ → BackupDashboard → CreateDashboardData
stored_dashboard server_id b = record {
  server_id = server_id;
  name = some (name_or "Imported Dashboard" b.name);
  version = text_of b.version;
  time_range = text_of b.time_range;
  auto_refresh = elim b.auto_refresh [ none ↦ true | some on ↦ on ];
  refresh_interval = number_or b.refresh_interval 60;
  widgets = json_or b.widgets (arr nil);
  layouts = json_or b.layouts lg_only;
}

-- after `create`: the row is there, and becomes the default where it was one
abbrev pub settle_dashboard :
    String
    → BackupDashboard
    → Result (Option DashboardPublic × Db)
    → Db
    → ImportResult
    → Db × ImportResult
settle_dashboard now b (throw e) db r = (db, skip (dashboard_failed (some e)) r)
settle_dashboard now b (ok (none, db')) db r =
    if is_set b.is_default then (db', skip (dashboard_failed none) r) else (db', count_imported r)
settle_dashboard now b (ok (some created, db')) db r =
    if is_set b.is_default
    then ((set_default now created.id db').1, count_imported r)
    else (db', count_imported r)

abbrev pub refuses_default : Strategy → BackupDashboard → Option DashboardPublic → Bool
refuses_default strategy b none = false
refuses_default strategy b (some existing) = is_merge strategy && is_set b.is_default

-- one turn of the loop over the dashboards
unfoldable pub import_dashboard :
    Strategy → String → BackupDashboard → Db → ImportResult → Db × ImportResult
import_dashboard strategy now b db r =
    if not (given? b.version && given? b.time_range)
    then (db, skip invalid_dashboard r)
    else if not (given? b.server_name)
    then (db, skip missing_server_name r)
    else elim (find_by_name (text_of b.server_name) db) [
      | none ↦ (db, skip (server_not_found (text_of b.server_name)) r)
      | some server ↦
          if refuses_default strategy b (get_default server.id db)
          then (db, skip (default_exists (text_of b.server_name)) r)
          else settle_dashboard now b (create now (stored_dashboard server.id b) db) db r
    ]

unfoldable pub import_each :
    Strategy → String → List BackupDashboard → Db → ImportResult → Db × ImportResult
unfolding import_dashboard
import_each strategy now [] db r = (db, r)
import_each strategy now (b ∷ dashboards) db r =
    let (db', r') = import_dashboard strategy now b db r in
    import_each strategy now dashboards db' r'

-- DELETE FROM dashboards
abbrev pub without_dashboards : Db → Db
without_dashboards db = record db { dashboards = [] }

unfoldable pub import_dashboards : Strategy → String → List BackupDashboard → Db → Db × ImportResult
unfolding import_each
import_dashboards strategy now [] db = (db, nothing)
import_dashboards merge now dashboards db = import_each merge now dashboards db nothing
import_dashboards replace now dashboards db =
    import_each replace now dashboards (without_dashboards db) nothing
