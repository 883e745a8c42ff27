-- ===== src/Dashboards/Rows.antt =====
-- The statements of the dashboard repository keep the keys, the owners and the single default.
use lo_ra_dbase.Common.{
  ℕ, suc, ◌<◌, String, ◌≡◌, refl, inl, inr, Bool, Option, List, arith, ◌==◌, nat_eq, string_eq,
  Option-cases, All-concat, All-map, All-every,
}
use lo_ra_dbase.Table
use lo_ra_dbase.Table.{first, count, insert, delete}
use lo_ra_dbase.Table.Laws.{
  All-update, All-delete, count-insert, count-delete-le, count-update_kept,
}
use lo_ra_dbase.Table.Keys.{Distinct-insert, Distinct-delete, Distinct-update, absent_of_All-ne}
use lo_ra_dbase.Db.{Db, Server, Dashboard, ok}
use lo_ra_dbase.Db.WellFormed.{IsWellFormed, DashboardsAreKeyed, Refers, is_default_of, OneDefault}
use lo_ra_dbase.Servers
use lo_ra_dbase.Dashboards.{
  CreateDashboardData, UpdateDashboardData, DashboardPublic, dashboard_row, with_dashboard,
  find_by_id, create, assign, update, delete_dashboard,
}

-- a well-formed database with other dashboards
pub change-dashboards :
    (db : Db) (dashboards : List Dashboard) (next : ℕ)
    → IsWellFormed db
    → DashboardsAreKeyed db.servers dashboards next
    → IsWellFormed (record db { dashboards = dashboards; next_dashboard = next })
change-dashboards db dashboards next w k = record {
  servers = w.servers;
  dashboards = k;
  attempts = w.attempts;
}

module _ (servers : List Server) (rows : List Dashboard) (next : ℕ)
    (k : DashboardsAreKeyed servers rows next) where
  insert-keyed :
      (now : String) (given : CreateDashboardData)
      → Refers servers given.server_id
      → DashboardsAreKeyed servers (insert (dashboard_row next now given) rows) (suc next)
  insert-keyed now given owner =
      let row = dashboard_row next now given in
      record {
        ids =
            Distinct-insert (λ (d : Dashboard). d.id) rows row k.ids
              (absent_of_All-ne (λ (d : Dashboard). d.id) next rows
                (All-map (λ d lt c. omega arith) rows k.fresh));
        fresh =
            All-concat (λ (d : Dashboard). d.id < suc next) rows row
              (All-map (λ d lt. omega arith) rows k.fresh) (omega arith);
        owned = All-concat (λ (d : Dashboard). Refers servers d.server_id) rows row k.owned owner;
        one_default = λ s. ground (arith, count-insert (is_default_of s) rows row, k.one_default s);
      }

  delete-keyed : (p : Dashboard → Bool) → DashboardsAreKeyed servers (delete p rows) next
  delete-keyed p = record {
    ids = Distinct-delete (λ (d : Dashboard). d.id) p rows k.ids;
    fresh = All-delete (λ (d : Dashboard). d.id < next) p rows k.fresh;
    owned = All-delete (λ (d : Dashboard). Refers servers d.server_id) p rows k.owned;
    one_default = λ s. omega (arith, k.one_default s, count-delete-le p (is_default_of s) rows);
  }

  -- an UPDATE that keeps the identifier and the server of a row
  pub update-keyed :
      (p : Dashboard → Bool) (f : Dashboard → Dashboard)
      → ((d : Dashboard) → (f d).id ≡ d.id)
      → ((d : Dashboard) → (f d).server_id ≡ d.server_id)
      → OneDefault (Table.update p f rows)
      → DashboardsAreKeyed servers (Table.update p f rows) next
  update-keyed p f same_id same_server one = record {
    ids = Distinct-update (λ (d : Dashboard). d.id) p f rows (λ d t. same_id d) k.ids;
    fresh =
        All-update (λ (d : Dashboard). d.id < next) p f rows (λ d lt t. rw (same_id d) lt) k.fresh;
    owned =
        All-update (λ (d : Dashboard). Refers servers d.server_id) p f rows
          (λ d r t. rw (same_server d) r) k.owned;
    one_default = one;
  }

-- `create` keeps a database well formed.
pub create-IsWellFormed :
    (now : String) (given : CreateDashboardData) (db : Db) (made : Option DashboardPublic)
    (db' : Db)
    → IsWellFormed db
    → create now given db ≡ ok (made, db')
    → IsWellFormed db'
unfolding create Servers.find_by_id
create-IsWellFormed now given db made db' w h =
    elim (Option-cases (Servers.find_by_id given.server_id db)) [
      | inl absent ↦ absurd (ground arith)
      | inr (s, found) ↦
          let shape : db' ≡ with_dashboard now given db = ground arith in
          rw shape (
            change-dashboards db _ _ w (
              insert-keyed db.servers db.dashboards db.next_dashboard w.dashboards now given
                (λ absent. cc)))
    ]

-- `update` keeps a database well formed.
pub update-IsWellFormed :
    (now : String) (id : ℕ) (given : UpdateDashboardData) (db : Db)
    → IsWellFormed db
    → IsWellFormed (update now id given db).1
update-IsWellFormed now id given db w = elim (Option-cases (find_by_id id db)) [
  | inl absent ↦
      let run : (update now id given db).1 ≡ db = unfold update in ground arith in rw run w
  | inr (d, found) ↦
      let rows = Table.update (λ (d : Dashboard). d.id == id) (assign now given) db.dashboards in
      let run : (update now id given db).1 ≡ record db { dashboards = rows } =
        unfold update in ground arith in
      rw run (
        change-dashboards db rows db.next_dashboard w (
          update-keyed db.servers db.dashboards db.next_dashboard w.dashboards (λ d. d.id == id)
            (assign now given) (λ d. refl) (λ d. refl)
            (λ s.
              rw
                (count-update_kept (λ (d : Dashboard). d.id == id) (is_default_of s)
                  (assign now given) db.dashboards (All-every (λ d t. refl) db.dashboards))
                (w.dashboards.one_default s))))
]

-- `delete` keeps a database well formed.
pub delete_dashboard-IsWellFormed :
    (id : ℕ) (db : Db) → IsWellFormed db → IsWellFormed (delete_dashboard id db).1
unfolding delete_dashboard
delete_dashboard-IsWellFormed id db w =
    change-dashboards db _ db.next_dashboard w
      (delete-keyed db.servers db.dashboards db.next_dashboard w.dashboards (λ d. d.id == id))
