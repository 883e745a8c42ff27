-- ===== src/Dashboards/Router.antt =====
-- The routes of LoRaDB-UI/backend/src/routes/dashboards.ts as one function of a request.
use lo_ra_dbase.Common.{
  ℕ, String, ◌≡◌, Bool, true, false, Option, none, some, nat_eq, string_eq, All,
}
use lo_ra_dbase.Db.{Db}
use lo_ra_dbase.Http.{Reply, reply, fail}
use lo_ra_dbase.Config.{Env}
use lo_ra_dbase.Servers.Routes.{Stage, stop, go_on}
use lo_ra_dbase.Encryption.Cache.{Cache}
use lo_ra_dbase.Session.{Context, server_context}
use lo_ra_dbase.Dashboards.{DashboardPublic}
use lo_ra_dbase.Dashboards.Routes.{
  Thrown, Body, dashboard, DashboardBody, LocalDashboard, get_dashboards, get_default_dashboard,
  get_dashboard, post_dashboard, put_dashboard, delete_dashboard_route, post_set_default, migrate,
  dashboards, done, conflict,
}

pub data Request : Type 0 where
  list_dashboards : Request
  the_default : Request
  get_one : (id : Option ℕ) → Request
  post_one : DashboardBody → Request
  put_one : (id : Option ℕ) → DashboardBody → Request
  delete_one : (id : Option ℕ) → Request
  make_default : (id : Option ℕ) → Request
  migrate_local : Option LocalDashboard → Request

-- the router: the handler of the route that a request names
unfoldable pub handle : (Thrown → String) → String → String → ℕ → Request → Db → Reply Body × Db
handle describe now marked k list_dashboards db = (get_dashboards describe k db, db)
handle describe now marked k the_default db = get_default_dashboard describe now marked k db
handle describe now marked k (get_one id) db = get_dashboard describe k id db
handle describe now marked k (post_one body) db = post_dashboard describe now k body db
handle describe now marked k (put_one id body) db = put_dashboard describe now k id body db
handle describe now marked k (delete_one id) db = delete_dashboard_route describe k id db
handle describe now marked k (make_default id) db = post_set_default describe now k id db
handle describe now marked k (migrate_local given) db = migrate describe now marked k given db

through :
    (Thrown → String)
    → String
    → String
    → Request
    → Db
    → Stage Body Context × Cache
    → Reply Body × Db × Cache
unfolding handle
through describe at marked request db (stop answer, cache) = (answer, db, cache)
through describe at marked request db (go_on context, cache) =
    let (answer, db') = handle describe at marked context.server_id request db in
    (answer, db', cache)

-- a request to the router with its middleware, which gives the handlers the server of the session;
-- `now` is `Date.now()` in milliseconds, `at` and `marked` are texts of times
unfoldable pub serve :
    Env
    → ℕ
    → Option String
    → (Thrown → String)
    → String
    → String
    → Request
    → Db
    → Cache
    → Reply Body × Db × Cache
unfolding through
serve env now header describe at marked request db cache =
    through describe at marked request db (server_context env now header db cache)

-- an answer that shows dashboards of `k` alone
IsOwnBody : ℕ → Body → Type 0
IsOwnBody k (dashboards ds) = All (λ (d : DashboardPublic). d.server_id ≡ k) ds
IsOwnBody k (dashboard none) = Unit
IsOwnBody k (dashboard (some d)) = d.server_id ≡ k
IsOwnBody k (done message) = Unit
IsOwnBody k (conflict d) = d.server_id ≡ k

unfoldable pub IsOwn : ℕ → Reply Body → Type 0
unfolding IsOwnBody
IsOwn k (fail status error message) = Unit
IsOwn k (reply status body) = IsOwnBody k body

abbrev pub is_refusal : Reply Body → Bool
is_refusal (fail _ _ _) = true
is_refusal (reply _ _) = false

pub refusal-IsOwn : (k : ℕ) (answer : Reply Body) → is_refusal answer ≡ true → IsOwn k answer
unfolding IsOwn
refusal-IsOwn k (fail status error message) h = tt
refusal-IsOwn k (reply status body) h = absurd (cc)
