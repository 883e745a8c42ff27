-- ===== src/Dashboards/Created.antt =====
-- What `create`, `ensureDefaultExists` and `update` return, and that they keep to one server.
use lo_ra_dbase.Common.{
  ℕ, String, ◌≡◌, refl, ◌≢◌, inl, inr, Option, none, some, arith, ◌==◌, nat_eq, string_eq,
  Option-cases,
}
use lo_ra_dbase.Db.{Db, Dashboard, ok, throw, foreign_key_violation}
use lo_ra_dbase.Db.WellFormed.{IsWellFormed}
use lo_ra_dbase.Servers
use lo_ra_dbase.Table.Keys.{by_key-eq-some, by_key-update}
use lo_ra_dbase.Dashboards.{
  DashboardPublic, CreateDashboardData, UpdateDashboardData, to_public, with_dashboard,
  dashboard_row, find_row, find_by_id, create, update, set_default, get_default, create_as_default,
  ensure_default_exists, default_dashboard, assign,
}
use lo_ra_dbase.Dashboards.Ensure.{created-row}
use lo_ra_dbase.Dashboards.Isolation.{
  IsIsolated, unchanged, then-IsIsolated, set_default-IsIsolated, create-IsIsolated,
}

pub create-there :
    (now : String) (given : CreateDashboardData) (db : Db)
    → IsWellFormed db
    → Servers.find_by_id given.server_id db ≢ none
    → create now given db
      ≡ ok (
        some (to_public (dashboard_row db.next_dashboard now given)),
        with_dashboard now given db,
      )
unfolding create find_by_id
create-there now given db w there = elim (Option-cases (Servers.find_by_id given.server_id db)) [
  | inl absent ↦ absurd (there absent)
  | inr (s, found) ↦ ground (arith, created-row now given db w)
]

create-absent :
    (now : String) (given : CreateDashboardData) (db : Db)
    → Servers.find_by_id given.server_id db ≡ none
    → create now given db ≡ throw foreign_key_violation
unfolding create
create-absent now given db absent = rw absent refl

create-absent_as_default :
    (now marked : String) (given : CreateDashboardData) (db : Db)
    → Servers.find_by_id given.server_id db ≡ none
    → create_as_default now marked given db ≡ throw foreign_key_violation
unfolding create_as_default
create-absent_as_default now marked given db absent = rw (create-absent now given db absent) refl

as_default-run :
    (now marked : String) (given : CreateDashboardData) (db : Db)
    → IsWellFormed db
    → Servers.find_by_id given.server_id db ≢ none
    → create_as_default now marked given db
      ≡ ok (
        some (to_public (dashboard_row db.next_dashboard now given)),
        (set_default marked db.next_dashboard (with_dashboard now given db)).1,
      )
unfolding create_as_default
as_default-run now marked given db w there =
    rw (create-there now given db w there, create_as_default) refl

-- Both return the row that they have inserted, as it was inserted.
pub create-returns :
    (now : String) (given : CreateDashboardData) (db : Db) (d : Option DashboardPublic) (db' : Db)
    → IsWellFormed db
    → create now given db ≡ ok (d, db')
    → some (to_public (dashboard_row db.next_dashboard now given)) ≡ d
create-returns now given db d db' w h =
    elim (Option-cases (Servers.find_by_id given.server_id db)) [
      | inl absent ↦ absurd (cc (h, create-absent now given db absent))
      | inr (s, found) ↦ cc (h, create-there now given db w (λ a. cc (a, found)))
    ]

pub as_default-returns :
    (now marked : String) (given : CreateDashboardData) (db : Db) (d : Option DashboardPublic)
    (db' : Db)
    → IsWellFormed db
    → create_as_default now marked given db ≡ ok (d, db')
    → some (to_public (dashboard_row db.next_dashboard now given)) ≡ d
as_default-returns now marked given db d db' w h =
    elim (Option-cases (Servers.find_by_id given.server_id db)) [
      | inl absent ↦ absurd (cc (h, create-absent_as_default now marked given db absent))
      | inr (s, found) ↦ cc (h, as_default-run now marked given db w (λ a. cc (a, found)))
    ]

pub create_as_default-IsIsolated :
    (now marked : String) (given : CreateDashboardData) (db : Db) (d : Option DashboardPublic)
    (db' : Db)
    → IsWellFormed db
    → create_as_default now marked given db ≡ ok (d, db')
    → IsIsolated given.server_id db db'
create_as_default-IsIsolated now marked given db d db' w h =
    elim (Option-cases (Servers.find_by_id given.server_id db)) [
      | inl absent ↦ absurd (cc (h, create-absent_as_default now marked given db absent))
      | inr (s, found) ↦
          let grown = with_dashboard now given db in
          let made = dashboard_row db.next_dashboard now given in
          let there : Servers.find_by_id given.server_id db ≢ none = λ a. cc (a, found) in
          let first_step =
            create-IsIsolated now given db (some (to_public made)) grown w
              (create-there now given db w there) in
          let same : (set_default marked db.next_dashboard grown).1 ≡ db' =
            cc (h, as_default-run now marked given db w there) in
          rw (← same) (
            then-IsIsolated given.server_id db grown (set_default marked db.next_dashboard grown).1
              first_step
              (set_default-IsIsolated marked db.next_dashboard grown first_step.kept made
                (created-row now given db w)))
    ]

pub ensure-IsIsolated :
    (now marked : String) (server_id : ℕ) (db : Db) (d : Option DashboardPublic) (db' : Db)
    → IsWellFormed db
    → ensure_default_exists now marked server_id db ≡ ok (d, db')
    → IsIsolated server_id db db'
unfolding ensure_default_exists
ensure-IsIsolated now marked server_id db d db' w h =
    elim (Option-cases (get_default server_id db)) [
      | inr (x, found) ↦
          let same : db ≡ db' = ground arith in rw (← same) (unchanged server_id db w)
      | inl absent ↦
          create_as_default-IsIsolated now marked (default_dashboard server_id) db d db' w
            (ground arith)
    ]

-- `update` returns the row that it has written.
pub update-result :
    (now : String) (id : ℕ) (given : UpdateDashboardData) (db : Db) (row : Dashboard)
    → find_row id db ≡ some row
    → (update now id given db).0 ≡ some (to_public (assign now given row))
unfolding update find_by_id find_row
update-result now id given db row found = ground (
  arith,
  by_key-eq-some (λ (d : Dashboard). d.id) id db.dashboards row found,
  by_key-update (λ (d : Dashboard). d.id) (λ (d : Dashboard). d.id == id) (assign now given) id
      db.dashboards (λ d t. refl),
)
