-- ===== src/Dashboards.antt =====
-- LoRaDB-UI/backend/src/db/repositories/dashboardRepository.ts. `now` is the text of
-- `new Date().toISOString()`. A JSON column is held as its value, so `toPublic` parses nothing; a
-- `refreshInterval` is a natural number. `none` is `null`, or a field that is `undefined`.
pub mod Rows
pub mod Defaults
pub mod Ensure
pub mod Routes
pub mod Isolation
pub mod Router
pub mod Created
pub mod Handlers
mod Tests
use lo_ra_dbase.Common.{
  ℕ, zero, suc, ◌+◌, ◌-◌, ◌*◌, ◌/◌, ◌%◌, ◌≤◌, ◌<◌, Char, code, String, ◌≡◌, refl, sym, ap, ◌∙◌, ◌≢◌,
  ◌↔◌, ◌⊎◌, inl, inr, Bool, true, false, not, ◌&&◌, ◌||◌, Option, none, some, List, [], ◌∷◌, ◌++◌,
  map, arith, eq_iff, ltb, leb, nat_beq, nat_beq_iff, Eq, ◌==◌, nat_eq, string_eq, if◌then◌else◌,
  Bool-cases, Option-cases, false_of_not_true, beq_refl, ne_of_beq, beq_of_ne, length,
  length-append, All, All-append, All-concat, All-map, All-image, All-zip, All-every, Distinct,
  Distinct-concat,
}
use lo_ra_dbase.Common.TextOrder.{text_leb}
use lo_ra_dbase.Json.{Json, arr, obj, nil, end, field}
use lo_ra_dbase.Table
use lo_ra_dbase.Table.{select, first, count, insert, delete}
use lo_ra_dbase.Table.Keys.{by_key}
use lo_ra_dbase.Table.Sort.{order_by}
use lo_ra_dbase.Db.{Db, Dashboard, Result, ok, throw, ◌>>=◌, foreign_key_violation}
use lo_ra_dbase.Db.WellFormed.{is_default_of}
use lo_ra_dbase.Servers

pub record DashboardPublic : Type 0 where
  pub id : ℕ
  pub server_id : ℕ
  pub name : String
  pub is_default : Bool
  pub version : String
  pub time_range : String
  pub auto_refresh : Bool
  pub refresh_interval : ℕ
  pub widgets : Json
  pub layouts : Json
  pub created_at : String
  pub updated_at : String

pub record CreateDashboardData : Type 0 where
  pub server_id : ℕ
  pub name : Option String
  pub version : String
  pub time_range : String
  pub auto_refresh : Bool
  pub refresh_interval : ℕ
  pub widgets : Json
  pub layouts : Json

pub record UpdateDashboardData : Type 0 where
  pub name : Option String
  pub time_range : Option String
  pub auto_refresh : Option Bool
  pub refresh_interval : Option ℕ
  pub widgets : Option Json
  pub layouts : Option Json

abbrev pub to_public : Dashboard → DashboardPublic
to_public row = record {
  id = row.id;
  server_id = row.server_id;
  name = row.name;
  is_default = row.is_default == 1;
  version = row.version;
  time_range = row.time_range;
  auto_refresh = row.auto_refresh == 1;
  refresh_interval = row.refresh_interval;
  widgets = row.widgets;
  layouts = row.layouts;
  created_at = row.created_at;
  updated_at = row.updated_at;
}

abbrev pub flag : Bool → ℕ
flag b = if b then 1 else 0

-- `name || 'Default Dashboard'`
abbrev pub name_or : String → Option String → String
name_or default none = default
name_or default (some name) = if name == "" then default else name

abbrev pub dashboard_row : ℕ → String → CreateDashboardData → Dashboard
dashboard_row id now given = record {
  id = id;
  server_id = given.server_id;
  name = name_or "Default Dashboard" given.name;
  is_default = 0;
  version = given.version;
  time_range = given.time_range;
  auto_refresh = flag given.auto_refresh;
  refresh_interval = given.refresh_interval;
  widgets = given.widgets;
  layouts = given.layouts;
  created_at = now;
  updated_at = now;
}

unfoldable pub find_row : ℕ → Db → Option Dashboard
find_row id db = by_key (λ (d : Dashboard). d.id) id db.dashboards

abbrev pub public_of : Option Dashboard → Option DashboardPublic
public_of none = none
public_of (some row) = some (to_public row)

unfoldable pub find_by_id : ℕ → Db → Option DashboardPublic
unfolding find_row
find_by_id id db = public_of (find_row id db)

-- the database with one more dashboard
abbrev pub with_dashboard : String → CreateDashboardData → Db → Db
with_dashboard now given db = record db {
  dashboards = insert (dashboard_row db.next_dashboard now given) db.dashboards;
  next_dashboard = suc db.next_dashboard;
}

-- INSERT INTO dashboards, which throws where the server is not there
unfoldable pub create : String → CreateDashboardData → Db → Result (Option DashboardPublic × Db)
unfolding find_by_id
create now given db =
    if Servers.is_some (Servers.find_by_id given.server_id db)
    then ok
        (find_by_id db.next_dashboard (with_dashboard now given db), with_dashboard now given db)
    else throw foreign_key_violation

unfoldable pub get_default : ℕ → Db → Option DashboardPublic
get_default server_id db = public_of (first (is_default_of server_id) db.dashboards)

-- ORDER BY is_default DESC, created_at DESC
abbrev default_and_newest_first : Dashboard → Dashboard → Bool
default_and_newest_first a b =
    ltb b.is_default a.is_default
    || a.is_default == b.is_default && text_leb b.created_at a.created_at

unfoldable pub list_all : ℕ → Db → List DashboardPublic
list_all server_id db =
    map to_public
      (order_by default_and_newest_first (select (λ d. d.server_id == server_id) db.dashboards))

abbrev or_kept {ℓ} : {A : Type ℓ} → Option A → A → A
or_kept none kept = kept
or_kept (some given) kept = given

-- the assignments that `update` joins into its SET clause
abbrev pub assign : String → UpdateDashboardData → Dashboard → Dashboard
assign now given d = record d {
  name = or_kept given.name d.name;
  time_range = or_kept given.time_range d.time_range;
  auto_refresh = elim given.auto_refresh [ none ↦ d.auto_refresh | some b ↦ flag b ];
  refresh_interval = or_kept given.refresh_interval d.refresh_interval;
  widgets = or_kept given.widgets d.widgets;
  layouts = or_kept given.layouts d.layouts;
  updated_at = now;
}

unfoldable pub update : String → ℕ → UpdateDashboardData → Db → Option DashboardPublic × Db
unfolding find_by_id
update now id given db = elim (find_by_id id db) [
  | none ↦ (none, db)
  | some dashboard ↦
      let db' : Db = record db {
        dashboards = Table.update (λ (d : Dashboard). d.id == id) (assign now given) db.dashboards;
      } in
      (find_by_id id db', db')
]

unfoldable pub delete_dashboard : ℕ → Db → Bool × Db
delete_dashboard id db = (
  ltb 0 (count (λ (d : Dashboard). d.id == id) db.dashboards),
  record db { dashboards = delete (λ d. d.id == id) db.dashboards },
)

-- the two UPDATEs of the transaction
abbrev pub unset : Dashboard → Dashboard
unset d = record d { is_default = 0 }

abbrev pub mark : String → Dashboard → Dashboard
mark now d = record d { is_default = 1; updated_at = now }

abbrev pub set_default_rows : String → ℕ → ℕ → List Dashboard → List Dashboard
set_default_rows now server_id id rows =
    Table.update (λ d. d.id == id) (mark now)
      (Table.update (λ d. d.server_id == server_id) unset rows)

unfoldable pub set_default : String → ℕ → Db → Bool × Db
unfolding find_by_id
set_default now id db = elim (find_by_id id db) [
  | none ↦ (false, db)
  | some dashboard ↦
      (true, record db { dashboards = set_default_rows now dashboard.server_id id db.dashboards })
]

unfoldable pub exists : ℕ → Db → Bool
exists id db = ltb 0 (count (λ (d : Dashboard). d.id == id) db.dashboards)

unfoldable pub count_of : ℕ → Db → ℕ
count_of server_id db = count (λ (d : Dashboard). d.server_id == server_id) db.dashboards

abbrev pub default_dashboard : ℕ → CreateDashboardData
default_dashboard server_id = record {
  server_id = server_id;
  name = some "Default Dashboard";
  version = "2.0";
  time_range = "24h";
  auto_refresh = true;
  refresh_interval = 60;
  widgets = arr nil;
  layouts = obj (field "lg" (arr nil) end);
}

-- create at `now`, then setDefault at `marked`: each reads the clock. The created dashboard is returned as
-- it was before `setDefault`.
unfoldable pub create_as_default :
    String → String → CreateDashboardData → Db → Result (Option DashboardPublic × Db)
unfolding create set_default
create_as_default now marked given db = do
  created ← create now given db
  elim created.0 [
    | none ↦ ok created
    | some dashboard ↦ ok (some dashboard, (set_default marked dashboard.id created.1).1)
  ]

unfoldable pub ensure_default_exists :
    String → String → ℕ → Db → Result (Option DashboardPublic × Db)
unfolding get_default create_as_default
ensure_default_exists now marked server_id db = elim (get_default server_id db) [
  | some dashboard ↦ ok (some dashboard, db)
  | none ↦ create_as_default now marked (default_dashboard server_id) db
]
