-- ===== src/Dashboards/Tests.antt =====
-- The theorems on the dashboards at a concrete database.
use lo_ra_dbase.Common.{ℕ, ◌≡◌, refl, ◌≢◌, true, false, none, some, nat_eq, string_eq}
use lo_ra_dbase.Samples.{db, spare, db-IsWellFormed}
use lo_ra_dbase.Table.{first}
use lo_ra_dbase.Db.{Db, ok}
use lo_ra_dbase.Db.WellFormed.{IsWellFormed}
use lo_ra_dbase.Servers
use lo_ra_dbase.Dashboards.{
  DashboardPublic, UpdateDashboardData, to_public, default_dashboard, dashboard_row, with_dashboard,
  find_row, create, get_default, set_default, ensure_default_exists,
}
use lo_ra_dbase.Dashboards.Router.{handle, IsOwn, delete_one}
use lo_ra_dbase.Dashboards.Isolation.{IsIsolated}
use lo_ra_dbase.Dashboards.Handlers.{handle-isolates}
use lo_ra_dbase.Dashboards.Defaults.{set_default_lem}
use lo_ra_dbase.Dashboards.Ensure.{
  IsEnsured, ensure_default_exists-IsEnsured, ensure_default_exists_stale,
}

spare-found : find_row 2 db ≡ some spare
unfolding find_row first
spare-found = refl

set_default_lem_example :
    ((set_default "2025-02-01" 2 db).0 ≡ true)
    × (get_default 1 (set_default "2025-02-01" 2 db).1
        ≡ some (record (to_public spare) { is_default = true; updated_at = "2025-02-01" }))
    × ((s : ℕ) → s ≢ 1 → get_default s (set_default "2025-02-01" 2 db).1 ≡ get_default s db)
    × IsWellFormed (set_default "2025-02-01" 2 db).1
set_default_lem_example = set_default_lem "2025-02-01" 2 db spare db-IsWellFormed spare-found

beta-there : Servers.find_by_id 2 db ≢ none
unfolding Servers.find_by_id first
beta-there = λ absent. cc

beta-without : get_default 2 db ≡ none
unfolding get_default first
beta-without = refl

ensure_default_exists-IsEnsured_example : IsEnsured "2025-02-01" "2025-02-02" 2 db
ensure_default_exists-IsEnsured_example =
    ensure_default_exists-IsEnsured "2025-02-01" "2025-02-02" 2 db db-IsWellFormed beta-there

ensure_default_exists_stale_example :
    (d : DashboardPublic) × (after : Db) × (ensure_default_exists "2025-02-01" "2025-02-02" 2 db
      ≡ ok (some d, after))
    × (d.is_default ≡ false)
    × (d.updated_at ≡ "2025-02-01")
    × (get_default 2 after ≡ some (record d { is_default = true; updated_at = "2025-02-02" }))
ensure_default_exists_stale_example =
    ensure_default_exists_stale "2025-02-01" "2025-02-02" 2 db db-IsWellFormed beta-there
      beta-without

create-run :
    create "2025-02-01" (default_dashboard 2) db
    ≡ ok (
      some (to_public (dashboard_row 3 "2025-02-01" (default_dashboard 2))),
      with_dashboard "2025-02-01" (default_dashboard 2) db,
    )
unfolding create Servers.find_by_id first find_row
create-run = refl

abbrev renaming : UpdateDashboardData
renaming = record {
  name = some "Overview";
  time_range = none;
  auto_refresh = none;
  refresh_interval = none;
  widgets = none;
  layouts = none;
}

handle-isolates_example :
    IsOwn 2 (handle (λ e. "error") "2025-02-01" "2025-02-02" 2 (delete_one (some 1)) db).0
    × IsIsolated 2 db (handle (λ e. "error") "2025-02-01" "2025-02-02" 2 (delete_one (some 1)) db).1
handle-isolates_example =
    handle-isolates (λ e. "error") "2025-02-01" "2025-02-02" 2 (delete_one (some 1)) db
      db-IsWellFormed
