-- ===== src/Dashboards/Routes.antt =====
-- LoRaDB-UI/backend/src/routes/dashboards.ts: what each handler answers to a client of the server
-- `server_id` (`req.server!.id`), and the database that it leaves. A body's fields have the types that
-- the source declares for them, `none` where they are `undefined`; `req.params.id` is what `parseInt`
-- makes of it. `describe` gives the `message` of what a statement throws.
use lo_ra_dbase.Common.{
  ℕ, String, Bool, true, false, not, ◌&&◌, Option, none, some, List, ◌==◌, nat_eq, string_eq,
  if◌then◌else◌,
}
use lo_ra_dbase.Json.{
  Json, arr, obj, field, nil, end, null, get, is_truthy, is_truthy?, is_array, has_items,
}
use lo_ra_dbase.Db.{Db, DbError, Result, ok, throw}
use lo_ra_dbase.Http.{Reply, fail, reply, given?, text_of, validation_error}
use lo_ra_dbase.Dashboards.{
  DashboardPublic, CreateDashboardData, UpdateDashboardData, find_by_id, create, update,
  delete_dashboard, set_default, get_default, list_all, create_as_default, ensure_default_exists,
}

-- what makes a handler's `try` block fail
pub data Thrown : Type 0 where
  by_database : DbError → Thrown
  type_error : Thrown

pub data Body : Type 0 where
  dashboards : List DashboardPublic → Body
  dashboard : Option DashboardPublic → Body
  done : (message : String) → Body
  conflict : DashboardPublic → Body

pub record DashboardBody : Type 0 where
  pub name : Option String
  pub version : Option String
  pub time_range : Option String
  pub auto_refresh : Option Bool
  pub refresh_interval : Option ℕ
  pub widgets : Option Json
  pub layouts : Option Json

-- the `dashboard` of POST /migrate
pub record LocalDashboard : Type 0 where
  pub version : Option String
  pub time_range : Option String
  pub auto_refresh : Option Bool
  pub refresh_interval : Option ℕ
  pub widgets : Option Json
  pub layouts : Option Json

abbrev pub or_else : Option String → String → String
or_else text default = if given? text then text_of text else default

-- `value || default` of a number and of a JSON value
abbrev pub number_or : Option ℕ → ℕ → ℕ
number_or none default = default
number_or (some n) default = if n == 0 then default else n

abbrev pub json_or : Option Json → Json → Json
json_or none default = default
json_or (some v) default = if is_truthy v then v else default

abbrev pub lg_only : Json
lg_only = obj (field "lg" (arr nil) end)

-- `layouts && layouts.lg`
abbrev has_lg : Option Json → Bool
has_lg none = false
has_lg (some v) = is_truthy v && is_truthy? (get "lg" v)

-- `widgets && Array.isArray(widgets)`
abbrev has_widgets : Option Json → Bool
has_widgets none = false
has_widgets (some v) = is_array v

abbrev pub is_null : Json → Bool
is_null null = true
is_null _ = false

abbrev present {ℓ} : {A : Type ℓ} → Option A → Bool
present none = false
present (some _) = true

abbrev pub bool_or : Option Bool → Bool → Bool
bool_or none default = default
bool_or (some b) default = b

abbrev missing_fields {ℓ} : {A : Type ℓ} → Reply A
missing_fields =
    validation_error "Missing required fields: version, timeRange, autoRefresh, refreshInterval"

abbrev invalid_dashboard_id {ℓ} : {A : Type ℓ} → Reply A
invalid_dashboard_id = validation_error "Invalid dashboard ID"

abbrev dashboard_not_found {ℓ} : {A : Type ℓ} → Reply A
dashboard_not_found = fail 404 "NotFoundError" "Dashboard not found"

abbrev forbidden {ℓ} : {A : Type ℓ} → Reply A
forbidden = fail 403 "Forbidden" "Dashboard does not belong to this server"

-- the checks of POST / on the body
unfoldable pub check_body : DashboardBody → Option (Reply Body)
check_body body =
    if not (
      given? body.version
      && given? body.time_range
      && present body.auto_refresh
      && not (number_or body.refresh_interval 0 == 0))
    then some missing_fields
    else if not (has_widgets body.widgets)
    then some (validation_error "widgets must be an array")
    else if not (has_lg body.layouts)
    then some (validation_error "layouts must include lg layout")
    else none

-- `{ ...req.body, serverId }` of a body that passed the checks
abbrev pub create_data : ℕ → DashboardBody → CreateDashboardData
create_data server_id body = record {
  server_id = server_id;
  name = body.name;
  version = text_of body.version;
  time_range = text_of body.time_range;
  auto_refresh = bool_or body.auto_refresh false;
  refresh_interval = number_or body.refresh_interval 0;
  widgets = json_or body.widgets (arr nil);
  layouts = json_or body.layouts lg_only;
}

abbrev pub update_data : DashboardBody → UpdateDashboardData
update_data body = record {
  name = body.name;
  time_range = body.time_range;
  auto_refresh = body.auto_refresh;
  refresh_interval = body.refresh_interval;
  widgets = body.widgets;
  layouts = body.layouts;
}

-- the row that POST /migrate makes of the given dashboard
abbrev pub migrated : ℕ → LocalDashboard → CreateDashboardData
migrated server_id given = record {
  server_id = server_id;
  name = some "Migrated Dashboard";
  version = or_else given.version "2.0";
  time_range = or_else given.time_range "24h";
  auto_refresh = bool_or given.auto_refresh true;
  refresh_interval = number_or given.refresh_interval 60;
  widgets = json_or given.widgets (arr nil);
  layouts = json_or given.layouts lg_only;
}

abbrev pub as_update : CreateDashboardData → UpdateDashboardData
as_update given = record {
  name = given.name;
  time_range = some given.time_range;
  auto_refresh = some given.auto_refresh;
  refresh_interval = some given.refresh_interval;
  widgets = some given.widgets;
  layouts = some given.layouts;
}

module _ (describe : Thrown → String) where
  abbrev failed : Thrown → String → Reply Body
  failed thrown default =
      fail 500 "DatabaseError" (if describe thrown == "" then default else describe thrown)

  -- GET /
  unfoldable pub get_dashboards : ℕ → Db → Reply Body
  get_dashboards server_id db = reply 200 (dashboards (list_all server_id db))

  unfoldable pub settle : ℕ → String → Result (Option DashboardPublic × Db) → Db → Reply Body × Db
  settle status default (throw e) db = (failed (by_database e) default, db)
  settle status default (ok (d, db')) db = (reply status (dashboard d), db')

  -- GET /default
  unfoldable pub get_default_dashboard : String → String → ℕ → Db → Reply Body × Db
  unfolding settle
  get_default_dashboard now marked server_id db =
      settle 200 "Failed to get default dashboard" (ensure_default_exists now marked server_id db)
        db

  -- the checks of the routes that name a dashboard: it is there and belongs to the server
  unfoldable pub owned :
      ℕ → Option ℕ → Db → (ℕ → DashboardPublic → Reply Body × Db) → Reply Body × Db
  owned server_id none db go = (invalid_dashboard_id, db)
  owned server_id (some id) db go = elim (find_by_id id db) [
    | none ↦ (dashboard_not_found, db)
    | some existing ↦ if existing.server_id == server_id then go id existing else (forbidden, db)
  ]

  -- GET /:id
  unfoldable pub get_dashboard : ℕ → Option ℕ → Db → Reply Body × Db
  unfolding owned
  get_dashboard server_id id db =
      owned server_id id db (λ id existing. (reply 200 (dashboard (some existing)), db))

  -- POST /
  unfoldable pub post_dashboard : String → ℕ → DashboardBody → Db → Reply Body × Db
  unfolding settle
  post_dashboard now server_id body db = elim (check_body body) [
    | some answer ↦ (answer, db)
    | none ↦ settle 201 "Failed to create dashboard" (create now (create_data server_id body) db) db
  ]

  unfoldable pub updated : Option DashboardPublic × Db → Reply Body × Db
  updated (d, db) = (reply 200 (dashboard d), db)

  -- `!data.layouts.lg` reads a property of `null`
  unfoldable pub check_layouts : Option Json → Option (Reply Body)
  check_layouts none = none
  check_layouts (some null) = some (failed type_error "Failed to update dashboard")
  check_layouts (some v) =
      if is_truthy? (get "lg" v)
      then none
      else some (validation_error "layouts must include lg layout")

  -- the checks of PUT /:id on the body
  unfoldable pub check_update : DashboardBody → Option (Reply Body)
  unfolding check_layouts
  check_update body =
      if present body.widgets && not (has_widgets body.widgets)
      then some (validation_error "widgets must be an array")
      else check_layouts body.layouts

  -- PUT /:id
  unfoldable pub put_dashboard : String → ℕ → Option ℕ → DashboardBody → Db → Reply Body × Db
  unfolding owned updated
  put_dashboard now server_id id body db = owned server_id id db (λ id existing.
      elim (check_update body) [
        | some answer ↦ (answer, db)
        | none ↦ updated (update now id (update_data body) db)
      ])

  -- DELETE /:id
  unfoldable pub delete_dashboard_route : ℕ → Option ℕ → Db → Reply Body × Db
  unfolding owned
  delete_dashboard_route server_id id db = owned server_id id db (λ id existing.
      (reply 200 (done "Dashboard deleted successfully"), (delete_dashboard id db).1))

  -- POST /:id/set-default
  unfoldable pub post_set_default : String → ℕ → Option ℕ → Db → Reply Body × Db
  unfolding owned
  post_set_default now server_id id db =
      owned server_id id db
        (λ id existing. (reply 200 (done "Dashboard set as default"), (set_default now id db).1))

  -- POST /migrate
  unfoldable pub migrate : String → String → ℕ → Option LocalDashboard → Db → Reply Body × Db
  unfolding settle updated
  migrate now marked server_id none db = (validation_error "Dashboard data required", db)
  migrate now marked server_id (some given) db =
      let create_data = migrated server_id given in
      elim (get_default server_id db) [
        | none ↦
            settle 200 "Failed to migrate dashboard" (create_as_default now marked create_data db)
              db
        | some existing ↦
            if is_null existing.widgets
            then (failed type_error "Failed to migrate dashboard", db)
            else if has_items existing.widgets
            then (reply 409 (conflict existing), db)
            else updated (update now existing.id (as_update create_data) db)
      ]
