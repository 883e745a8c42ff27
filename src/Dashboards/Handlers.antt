-- ===== src/Dashboards/Handlers.antt =====
-- No route of routes/dashboards.ts shows or changes the dashboards of another server.
use lo_ra_dbase.Common.{
  ℕ, String, ◌≡◌, refl, inl, inr, true, Option, none, some, arith, ◌==◌, nat_eq, string_eq,
  Bool-cases, Option-cases, All, All-map, All-image,
}
use lo_ra_dbase.Json.{Json, null, bool, num, str, arr, obj, has_items}
use lo_ra_dbase.Db.{Db, Dashboard, Result, ok, throw}
use lo_ra_dbase.Db.WellFormed.{IsWellFormed, is_default_of}
use lo_ra_dbase.Http.{Reply, reply}
use lo_ra_dbase.Table.{first}
use lo_ra_dbase.Table.Sort.{order_by-All}
use lo_ra_dbase.Table.Apart.{by_key-of_first}
use lo_ra_dbase.Table.Laws.{All-select_test, first-eq-some}
use lo_ra_dbase.Dashboards.{
  DashboardPublic, CreateDashboardData, UpdateDashboardData, to_public, find_row, find_by_id,
  create, update, get_default, create_as_default, ensure_default_exists, default_dashboard, arr,
  obj, list_all,
}
use lo_ra_dbase.Dashboards.Routes.{
  Thrown, Body, dashboard, DashboardBody, LocalDashboard, get_dashboards, get_default_dashboard,
  owned, get_dashboard, post_dashboard, put_dashboard, delete_dashboard_route, post_set_default,
  migrate, settle, check_update, check_layouts, updated, update_data, check_body, migrated,
  create_data, is_null, as_update,
}
use lo_ra_dbase.Dashboards.Router.{
  Request, list_dashboards, the_default, get_one, post_one, put_one, delete_one, make_default,
  migrate_local, handle, IsOwn, is_refusal, refusal-IsOwn,
}
use lo_ra_dbase.Dashboards.Created.{
  create-returns, as_default-returns, create_as_default-IsIsolated, ensure-IsIsolated,
  update-result,
}
use lo_ra_dbase.Dashboards.Isolation.{
  IsIsolated, unchanged, row_of_public, delete-IsIsolated, update-IsIsolated,
  set_default-IsIsolated, create-IsIsolated,
}

check_body-refuses :
    (body : DashboardBody) (answer : Reply Body)
    → check_body body ≡ some answer
    → is_refusal answer ≡ true
unfolding check_body
check_body-refuses body answer h = ground arith

module _ (describe : Thrown → String) (now marked : String) (k : ℕ) (db : Db)
    (w : IsWellFormed db) where
  abbrev IsSound : Reply Body × Db → Type 0
  IsSound run = IsOwn k run.0 × IsIsolated k db run.1

  owned-IsSound :
      (id : Option ℕ) (go : ℕ → DashboardPublic → Reply Body × Db)
      → ((i : ℕ) (row : Dashboard)
          → find_row i db ≡ some row
          → row.server_id ≡ k
          → IsSound (go i (to_public row)))
      → IsSound (owned describe k id db go)
  unfolding owned IsOwn
  owned-IsSound none go h = (tt, unchanged k db w)
  owned-IsSound (some i) go h = elim (Option-cases (find_by_id i db)) [
    | inl absent ↦ rw (absent, owned) (tt, unchanged k db w)
    | inr (d, there) ↦
        let (row, found, same) = row_of_public i db d there in
        elim (Bool-cases (row.server_id == k)) [
          | inl t ↦
              let mine : row.server_id ≡ k = ground arith in
              rw (there, owned) (rw (← same, t) (h i row found mine))
          | inr f ↦ rw (there, owned) (rw (← same, f) (tt, unchanged k db w))
        ]
  ]

  get_dashboard-IsSound : (id : Option ℕ) → IsSound (get_dashboard describe k id db)
  unfolding get_dashboard IsOwn
  get_dashboard-IsSound id = owned-IsSound id _ (λ i row found mine. (mine, unchanged k db w))

  delete-IsSound : (id : Option ℕ) → IsSound (delete_dashboard_route describe k id db)
  unfolding delete_dashboard_route IsOwn
  delete-IsSound id =
      owned-IsSound id _
        (λ i row found mine. (tt, rw (← mine) (delete-IsIsolated now i db w row found)))

  make_default-IsSound : (id : Option ℕ) → IsSound (post_set_default describe now k id db)
  unfolding post_set_default IsOwn
  make_default-IsSound id =
      owned-IsSound id _
        (λ i row found mine. (tt, rw (← mine) (set_default-IsIsolated now i db w row found)))

  updated-IsSound :
      (i : ℕ) (row : Dashboard) (given : UpdateDashboardData)
      → find_row i db ≡ some row
      → row.server_id ≡ k
      → IsSound (reply 200 (dashboard (update now i given db).0), (update now i given db).1)
  unfolding IsOwn
  updated-IsSound i row given found mine =
      rw (update-result now i given db row found)
        (mine, rw (← mine) (update-IsIsolated now i db w row found given))

  check_layouts-refuses :
      (layouts : Option Json) (answer : Reply Body)
      → check_layouts describe layouts ≡ some answer
      → is_refusal answer ≡ true
  unfolding check_layouts
  check_layouts-refuses none answer h = absurd (cc)
  check_layouts-refuses (some null) answer h = ground arith
  check_layouts-refuses (some (bool b)) answer h = ground arith
  check_layouts-refuses (some (num n)) answer h = ground arith
  check_layouts-refuses (some (str s)) answer h = ground arith
  check_layouts-refuses (some (arr items)) answer h = ground arith
  check_layouts-refuses (some (obj fields)) answer h = ground arith

  check_update-refuses :
      (body : DashboardBody) (answer : Reply Body)
      → check_update describe body ≡ some answer
      → is_refusal answer ≡ true
  unfolding check_update
  check_update-refuses body answer h = ground (arith, check_layouts-refuses body.layouts answer)

  put-IsSound :
      (id : Option ℕ) (body : DashboardBody) → IsSound (put_dashboard describe now k id body db)
  unfolding put_dashboard updated
  put-IsSound id body = owned-IsSound id _ (λ i row found mine.
      elim (Option-cases (check_update describe body)) [
        | inl passed ↦ rw passed (updated-IsSound i row (update_data body) found mine)
        | inr (answer, stopped) ↦
            rw stopped
              (refusal-IsOwn k answer (check_update-refuses body answer stopped), unchanged k db w)
      ])

  settle-IsSound :
      (status : ℕ) (default : String) (r : Result (Option DashboardPublic × Db))
      → ((d : Option DashboardPublic) (db' : Db)
          → r ≡ ok (d, db')
          → IsOwn k (reply status (dashboard d)) × IsIsolated k db db')
      → IsSound (settle describe status default r db)
  unfolding settle IsOwn
  settle-IsSound status default (throw e) h = (tt, unchanged k db w)
  settle-IsSound status default (ok (d, db')) h = h d db' refl

  created-IsSound :
      (status : ℕ) (given : CreateDashboardData) (d : Option DashboardPublic) (db' : Db)
      → given.server_id ≡ k
      → create now given db ≡ ok (d, db')
      → IsOwn k (reply status (dashboard d)) × IsIsolated k db db'
  unfolding IsOwn
  created-IsSound status given d db' mine h = (
    rw (← create-returns now given db d db' w h) mine,
    rw (← mine) (create-IsIsolated now given db d db' w h),
  )

  as_default-IsSound :
      (status : ℕ) (given : CreateDashboardData) (d : Option DashboardPublic) (db' : Db)
      → given.server_id ≡ k
      → create_as_default now marked given db ≡ ok (d, db')
      → IsOwn k (reply status (dashboard d)) × IsIsolated k db db'
  unfolding IsOwn
  as_default-IsSound status given d db' mine h = (
    rw (← as_default-returns now marked given db d db' w h) mine,
    rw (← mine) (create_as_default-IsIsolated now marked given db d db' w h),
  )

  post-IsSound : (body : DashboardBody) → IsSound (post_dashboard describe now k body db)
  unfolding post_dashboard IsOwn
  post-IsSound body = elim (Option-cases (check_body body)) [
    | inr (answer, stopped) ↦
        rw (stopped, post_dashboard)
          (refusal-IsOwn k answer (check_body-refuses body answer stopped), unchanged k db w)
    | inl passed ↦
        rw (passed, post_dashboard)
          (settle-IsSound 201 "Failed to create dashboard" (create now (create_data k body) db)
            (λ d db' h. created-IsSound 201 (create_data k body) d db' refl h))
  ]

  list_all-own : All (λ (d : DashboardPublic). d.server_id ≡ k) (list_all k db)
  unfolding list_all
  list_all-own =
      All-image (λ (d : DashboardPublic). d.server_id ≡ k) to_public _
        (order_by-All _ (λ (d : Dashboard). d.server_id ≡ k) _
          (All-map {Q = λ (d : Dashboard). d.server_id ≡ k} (λ d t. ground arith) _
            (All-select_test (λ (d : Dashboard). d.server_id == k) db.dashboards)))

  get_default-own : (d : DashboardPublic) → get_default k db ≡ some d → d.server_id ≡ k
  unfolding get_default
  get_default-own d h = elim (Option-cases (first (is_default_of k) db.dashboards)) [
    | inl absent ↦ absurd (ground arith)
    | inr (row, found) ↦
        let test = first-eq-some (is_default_of k) db.dashboards row found in ground (arith, test)
  ]

  ensured-IsOwn :
      (d : Option DashboardPublic) (db' : Db)
      → ensure_default_exists now marked k db ≡ ok (d, db')
      → IsOwn k (reply 200 (dashboard d))
  unfolding ensure_default_exists IsOwn
  ensured-IsOwn d db' h = elim (Option-cases (get_default k db)) [
    | inr (x, found) ↦ let same : some x ≡ d = ground arith in rw (← same) (get_default-own x found)
    | inl absent ↦ (as_default-IsSound 200 (default_dashboard k) d db' refl (ground arith)).0
  ]

  default-IsSound : IsSound (get_default_dashboard describe now marked k db)
  unfolding get_default_dashboard
  default-IsSound =
      settle-IsSound 200 "Failed to get default dashboard" (ensure_default_exists now marked k db)
        (λ d db' h. (ensured-IsOwn d db' h, ensure-IsIsolated now marked k db d db' w h))

  list-IsSound : IsSound (get_dashboards describe k db, db)
  unfolding get_dashboards IsOwn
  list-IsSound = (list_all-own, unchanged k db w)

  default_row :
      (d : DashboardPublic)
      → get_default k db ≡ some d
      → (row : Dashboard) × (find_row d.id db ≡ some row) × (row.server_id ≡ k)
  unfolding get_default find_row
  default_row d h = elim (Option-cases (first (is_default_of k) db.dashboards)) [
    | inl absent ↦ absurd (ground arith)
    | inr (row, found) ↦
        let test = first-eq-some (is_default_of k) db.dashboards row found in
        let same : row.id ≡ d.id = ground arith in
        (
          row,
          rw (← same) (
              by_key-of_first (λ (x : Dashboard). x.id) (is_default_of k) db.dashboards row
                w.dashboards.ids found),
          ground (arith, test),
        )
  ]

  migrate-IsSound :
      (given : Option LocalDashboard) → IsSound (migrate describe now marked k given db)
  unfolding migrate IsOwn updated
  migrate-IsSound none = (tt, unchanged k db w)
  migrate-IsSound (some given) = elim (Option-cases (get_default k db)) [
    | inl absent ↦
        rw (absent, migrate)
          (settle-IsSound 200 "Failed to migrate dashboard"
            (create_as_default now marked (migrated k given) db)
            (λ d db' h. as_default-IsSound 200 (migrated k given) d db' refl h))
    | inr (existing, found) ↦
        let (row, row_found, mine) = default_row existing found in
        elim (Bool-cases (is_null existing.widgets)) [
          | inl t ↦ rw (found, migrate) (rw t (tt, unchanged k db w))
          | inr f ↦ elim (Bool-cases (has_items existing.widgets)) [
            | inl t ↦
                rw (found, migrate) (rw (f, t) (get_default-own existing found, unchanged k db w))
            | inr g ↦
                rw (found, migrate)
                  (rw (f, g)
                    (updated-IsSound existing.id row (as_update (migrated k given)) row_found mine))
          ]
        ]
  ]

-- The routes of dashboards.ts, each to whatever request, in a session of the server `k` on a
-- well-formed database: the answer shows no dashboard of another server; the dashboards of every other
-- server, all servers and all failed attempts are as they were; and the database stays well formed.
pub handle-isolates :
    (describe : Thrown → String) (now marked : String) (k : ℕ) (request : Request) (db : Db)
    → IsWellFormed db
    → IsOwn k (handle describe now marked k request db).0
      × IsIsolated k db (handle describe now marked k request db).1
unfolding handle
handle-isolates describe now marked k list_dashboards db w = list-IsSound describe now marked k db w
handle-isolates describe now marked k the_default db w = default-IsSound describe now marked k db w
handle-isolates describe now marked k (get_one id) db w =
    get_dashboard-IsSound describe now marked k db w id
handle-isolates describe now marked k (post_one body) db w =
    post-IsSound describe now marked k db w body
handle-isolates describe now marked k (put_one id body) db w =
    put-IsSound describe now marked k db w id body
handle-isolates describe now marked k (delete_one id) db w =
    delete-IsSound describe now marked k db w id
handle-isolates describe now marked k (make_default id) db w =
    make_default-IsSound describe now marked k db w id
handle-isolates describe now marked k (migrate_local given) db w =
    migrate-IsSound describe now marked k db w given
