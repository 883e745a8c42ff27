-- ===== src/Dashboards/Ensure.antt =====
-- `ensureDefaultExists` of LoRaDB-UI/backend/src/db/repositories/dashboardRepository.ts.
use lo_ra_dbase.Common.{
  ℕ, String, ◌≡◌, refl, sym, ap, ◌∙◌, ◌≢◌, ◌⊎◌, inl, inr, true, false, none, some, arith, ◌==◌,
  nat_eq, string_eq, Option-cases, beq_refl, All-map,
}
use lo_ra_dbase.Table.{first}
use lo_ra_dbase.Table.Laws.{first-insert_new, first-eq-some}
use lo_ra_dbase.Table.Keys.{absent_of_All-ne}
use lo_ra_dbase.Db.{Db, Dashboard, ok}
use lo_ra_dbase.Db.WellFormed.{IsWellFormed, is_default_of}
use lo_ra_dbase.Servers
use lo_ra_dbase.Dashboards.{
  CreateDashboardData, DashboardPublic, to_public, dashboard_row, with_dashboard, find_row, create,
  get_default, set_default, default_dashboard, create_as_default, ensure_default_exists,
}
use lo_ra_dbase.Dashboards.Rows.{create-IsWellFormed}
use lo_ra_dbase.Dashboards.Defaults.{set_default_lem}

-- the result of `ensureDefaultExists`; `stamp` is the time of the stored row's last change
pub record IsEnsured (now marked : String) (server_id : ℕ) (db : Db) : Type 0 where
  pub returned : DashboardPublic
  pub stamp : String
  pub after : Db
  pub run : ensure_default_exists now marked server_id db ≡ ok (some returned, after)
  pub kept : IsWellFormed after
  pub stored :
      get_default server_id after ≡ some (record returned { is_default = true; updated_at = stamp })
  pub stamped : (stamp ≡ returned.updated_at) ⊎ (stamp ≡ marked)
  pub again :
      (later after_it : String)
      → ensure_default_exists later after_it server_id after
        ≡ ok (some (record returned { is_default = true; updated_at = stamp }), after)

pub created-row :
    (now : String) (given : CreateDashboardData) (db : Db)
    → IsWellFormed db
    → find_row db.next_dashboard (with_dashboard now given db)
      ≡ some (dashboard_row db.next_dashboard now given)
unfolding find_row
created-row now given db w =
    first-insert_new (λ (d : Dashboard). d.id == db.next_dashboard) db.dashboards
      (dashboard_row db.next_dashboard now given)
      (absent_of_All-ne (λ (d : Dashboard). d.id) db.next_dashboard db.dashboards
        (All-map {Q = λ (d : Dashboard). d.id ≢ db.next_dashboard} (λ d lt c. omega arith)
          db.dashboards w.dashboards.fresh))
      (beq_refl db.next_dashboard)

ensure-found :
    (now marked : String) (server_id : ℕ) (db : Db) (d : DashboardPublic)
    → get_default server_id db ≡ some d
    → ensure_default_exists now marked server_id db ≡ ok (some d, db)
unfolding ensure_default_exists
ensure-found now marked server_id db d h = rw (h, ensure_default_exists)

default-is_default :
    (server_id : ℕ) (db : Db) (d : DashboardPublic)
    → get_default server_id db ≡ some d
    → record d { is_default = true } ≡ d
unfolding get_default
default-is_default server_id db d h =
    elim (Option-cases (first (is_default_of server_id) db.dashboards)) [
      | inl absent ↦ absurd (ground arith)
      | inr (row, found) ↦
          let test = first-eq-some (is_default_of server_id) db.dashboards row found in
          ground (arith, test)
    ]

module _ (now marked : String) (server_id : ℕ) (db : Db) (w : IsWellFormed db)
    (there : Servers.find_by_id server_id db ≢ none) where
  abbrev made : Dashboard
  made = dashboard_row db.next_dashboard now (default_dashboard server_id)

  abbrev grown : Db
  grown = with_dashboard now (default_dashboard server_id) db

  create-grown : create now (default_dashboard server_id) db ≡ ok (some (to_public made), grown)
  unfolding create
  create-grown = elim (Option-cases (Servers.find_by_id server_id db)) [
    | inl absent ↦ absurd (there absent)
    | inr (s, found) ↦ ground (arith, created-row now (default_dashboard server_id) db w)
  ]

  grown-IsWellFormed : IsWellFormed grown
  grown-IsWellFormed =
      create-IsWellFormed now (default_dashboard server_id) db (some (to_public made)) grown w
        create-grown

  abbrev settled : Db
  settled = (set_default marked db.next_dashboard grown).1

  -- what `setDefault` leaves of it
  marked_lem :
      (get_default server_id settled
        ≡ some (record (to_public made) { is_default = true; updated_at = marked }))
      × IsWellFormed settled
  marked_lem =
      let facts =
        set_default_lem marked db.next_dashboard grown made grown-IsWellFormed
          (created-row now (default_dashboard server_id) db w) in
      (facts.1, facts.3)

  ensure-made :
      get_default server_id db ≡ none
      → ensure_default_exists now marked server_id db ≡ ok (some (to_public made), settled)
  unfolding ensure_default_exists create_as_default
  ensure-made h = rw (h, ensure_default_exists) (rw (create-grown, create_as_default) refl)

-- For a server that exists, `ensureDefaultExists` returns a dashboard and leaves a well-formed database
-- in which it is the server's default, up to the flag and the time of the last change that the returned
-- copy may lack; a second call returns the stored default and changes nothing. `now` and `marked` are
-- the times at which the dashboard is created and marked as the default, if it has to be created.
pub ensure_default_exists-IsEnsured :
    (now marked : String) (server_id : ℕ) (db : Db)
    → IsWellFormed db
    → Servers.find_by_id server_id db ≢ none
    → IsEnsured now marked server_id db
ensure_default_exists-IsEnsured now marked server_id db w there =
    elim (Option-cases (get_default server_id db)) [
      | inr (d, found) ↦
          let same = found ∙ ap some (sym (default-is_default server_id db d found)) in
          record {
            returned = d;
            stamp = d.updated_at;
            after = db;
            run = ensure-found now marked server_id db d found;
            kept = w;
            stored = same;
            stamped = inl refl;
            again = λ later after_it. ensure-found later after_it server_id db _ same;
          }
      | inl absent ↦
          let facts = marked_lem now marked server_id db w there in
          record {
            returned = to_public (made now marked server_id db w there);
            stamp = marked;
            after = settled now marked server_id db w there;
            run = ensure-made now marked server_id db w there absent;
            kept = facts.1;
            stored = facts.0;
            stamped = inr refl;
            again = λ later after_it.
                ensure-found later after_it server_id (settled now marked server_id db w there) _
                  facts.0;
          }
    ]

-- A default dashboard that had to be created, at `now`, and marked as the default, at `marked`, is
-- returned with `isDefault` false and the time `now` of its last change, though it is stored as the
-- default, with the time `marked`.
pub ensure_default_exists_stale :
    (now marked : String) (server_id : ℕ) (db : Db)
    → IsWellFormed db
    → Servers.find_by_id server_id db ≢ none
    → get_default server_id db ≡ none
    → (d : DashboardPublic) × (after : Db) × (ensure_default_exists now marked server_id db
        ≡ ok (some d, after))
      × (d.is_default ≡ false)
      × (d.updated_at ≡ now)
      × (get_default server_id after ≡ some (record d { is_default = true; updated_at = marked }))
ensure_default_exists_stale now marked server_id db w there absent = (
  to_public (made now marked server_id db w there),
  settled now marked server_id db w there,
  ensure-made now marked server_id db w there absent,
  refl,
  refl,
  (marked_lem now marked server_id db w there).0,
)
