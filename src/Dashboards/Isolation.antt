-- ===== src/Dashboards/Isolation.antt =====
-- What a session of one server can do to the dashboards of another.
use lo_ra_dbase.Common.{
  ℕ, String, ◌≡◌, refl, sym, ◌∙◌, ◌≢◌, inl, inr, true, false, Option, some, arith, ◌==◌, nat_eq,
  string_eq, Option-cases, beq_of_ne, All, All-map, All-every,
}
use lo_ra_dbase.Table
use lo_ra_dbase.Table.{select, first, count, insert, delete}
use lo_ra_dbase.Table.Laws.{All-update}
use lo_ra_dbase.Table.Apart.{select-insert_apart, select-delete_apart, select-update_apart}
use lo_ra_dbase.Db.{Db, Dashboard, ok}
use lo_ra_dbase.Db.WellFormed.{IsWellFormed}
use lo_ra_dbase.Servers
use lo_ra_dbase.Dashboards.{
  DashboardPublic, CreateDashboardData, UpdateDashboardData, to_public, assign, unset, mark,
  with_dashboard, dashboard_row, find_row, find_by_id, create, update, delete_dashboard,
  set_default,
}
use lo_ra_dbase.Dashboards.Rows.{
  create-IsWellFormed, update-IsWellFormed, delete_dashboard-IsWellFormed,
}
use lo_ra_dbase.Dashboards.Defaults.{owner-rows, set_default-run, marked-IsWellFormed}

-- Nothing but dashboards of `server_id` has changed.
pub record IsIsolated (server_id : ℕ) (db db' : Db) : Type 0 where
  pub others :
      (j : ℕ)
      → j ≢ server_id
      → select (λ (d : Dashboard). d.server_id == j) db'.dashboards
        ≡ select (λ (d : Dashboard). d.server_id == j) db.dashboards
  pub servers : db'.servers ≡ db.servers
  pub attempts : db'.failed_attempts ≡ db.failed_attempts
  pub kept : IsWellFormed db'

pub unchanged : (server_id : ℕ) (db : Db) → IsWellFormed db → IsIsolated server_id db db
unchanged server_id db w = record {
  others = λ j n. refl;
  servers = refl;
  attempts = refl;
  kept = w;
}

pub then-IsIsolated :
    (server_id : ℕ) (a b c : Db)
    → IsIsolated server_id a b
    → IsIsolated server_id b c
    → IsIsolated server_id a c
then-IsIsolated server_id a b c h k = record {
  others = λ j n. k.others j n ∙ h.others j n;
  servers = k.servers ∙ h.servers;
  attempts = k.attempts ∙ h.attempts;
  kept = k.kept;
}

pub row_of_public :
    (id : ℕ) (db : Db) (d : DashboardPublic)
    → find_by_id id db ≡ some d
    → (row : Dashboard) × (find_row id db ≡ some row) × (to_public row ≡ d)
unfolding find_by_id
row_of_public id db d h = elim (Option-cases (find_row id db)) [
  | inl absent ↦ absurd (ground arith)
  | inr (row, found) ↦ (row, found, ground arith)
]

module _ (now : String) (id : ℕ) (db : Db) (w : IsWellFormed db) (row : Dashboard)
    (found : find_row id db ≡ some row) where
  of_other :
      (j : ℕ)
      → j ≢ row.server_id
      → All (λ (d : Dashboard). (d.id == id) ≡ true → (d.server_id == j) ≡ false) db.dashboards
  of_other j n =
      All-map {Q = λ (d : Dashboard). (d.id == id) ≡ true → (d.server_id == j) ≡ false}
        (λ d same t. beq_of_ne d.server_id j (λ e. n (sym e ∙ same t))) db.dashboards
        (owner-rows now id db w row found)

  pub delete-IsIsolated : IsIsolated row.server_id db (delete_dashboard id db).1
  unfolding delete_dashboard
  delete-IsIsolated = record {
    others = λ j n.
        select-delete_apart (λ (d : Dashboard). d.server_id == j) (λ (d : Dashboard). d.id == id)
          db.dashboards (of_other j n);
    servers = refl;
    attempts = refl;
    kept = unfold delete_dashboard in delete_dashboard-IsWellFormed id db w;
  }

  pub update-run :
      (given : UpdateDashboardData)
      → (update now id given db).1 ≡ record db {
        dashboards = Table.update (λ (d : Dashboard). d.id == id) (assign now given) db.dashboards;
      }
  unfolding update find_by_id
  update-run given = ground (arith, found)

  pub update-IsIsolated :
      (given : UpdateDashboardData) → IsIsolated row.server_id db (update now id given db).1
  update-IsIsolated given = record {
    others = λ j n. rw (update-run given) (
        select-update_apart (λ (d : Dashboard). d.server_id == j) (λ (d : Dashboard). d.id == id)
          (assign now given) db.dashboards
          (All-map
            {Q = λ (d : Dashboard).
              (d.id == id) ≡ true
              → ((d.server_id == j) ≡ false) × (((assign now given d).server_id == j) ≡ false)}
            (λ d apart t. (apart t, apart t)) db.dashboards (of_other j n)));
    servers = rw (update-run given) refl;
    attempts = rw (update-run given) refl;
    kept = update-IsWellFormed now id given db w;
  }

  pub set_default-IsIsolated : IsIsolated row.server_id db (set_default now id db).1
  set_default-IsIsolated = rw (set_default-run now id db w row found) (record {
    others = λ j n.
        select-update_apart (λ (d : Dashboard). d.server_id == j) (λ (d : Dashboard). d.id == id)
          (mark now)
          (Table.update (λ (d : Dashboard). d.server_id == row.server_id) unset db.dashboards)
          (All-update
            (λ (d : Dashboard).
              (d.id == id) ≡ true
              → ((d.server_id == j) ≡ false) × (((mark now d).server_id == j) ≡ false))
            (λ (d : Dashboard). d.server_id == row.server_id) unset db.dashboards (λ d h t. h)
            (All-map
              {Q = λ (d : Dashboard).
                (d.id == id) ≡ true
                → ((d.server_id == j) ≡ false) × (((mark now d).server_id == j) ≡ false)}
              (λ d apart t. (apart t, apart t)) db.dashboards (of_other j n)))
        ∙ select-update_apart (λ (d : Dashboard). d.server_id == j)
            (λ (d : Dashboard). d.server_id == row.server_id) unset db.dashboards
            (All-every
              {P = λ (d : Dashboard).
                (d.server_id == row.server_id) ≡ true
                → ((d.server_id == j) ≡ false) × (((unset d).server_id == j) ≡ false)}
              (λ d t. ground arith) db.dashboards);
    servers = refl;
    attempts = refl;
    kept = marked-IsWellFormed now id db w row found;
  })

pub create-IsIsolated :
    (now : String) (given : CreateDashboardData) (db : Db) (d : Option DashboardPublic) (db' : Db)
    → IsWellFormed db
    → create now given db ≡ ok (d, db')
    → IsIsolated given.server_id db db'
create-IsIsolated now given db d db' w h =
    let shape : db' ≡ with_dashboard now given db =
      unfold create in
      elim (Option-cases (Servers.find_by_id given.server_id db)) [
        | inl absent ↦ absurd (ground arith)
        | inr (s, found) ↦ ground arith
      ] in
    record {
      others = λ j n. rw shape (
          select-insert_apart (λ (x : Dashboard). x.server_id == j) db.dashboards
            (dashboard_row db.next_dashboard now given)
            (beq_of_ne given.server_id j (λ e. n (sym e))));
      servers = rw shape refl;
      attempts = rw shape refl;
      kept = create-IsWellFormed now given db d db' w h;
    }
