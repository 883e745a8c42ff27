-- ===== src/Dashboards/Defaults.antt =====
-- The default dashboard of a server: `setDefault` and `ensureDefaultExists`.
use lo_ra_dbase.Common.{
  ℕ, String, ◌≡◌, refl, ap, ◌∙◌, ◌≢◌, inl, inr, true, false, some, List, arith, ◌==◌, nat_eq,
  string_eq, Bool-cases, All, All-map, All-zip, All-every, Distinct,
}
use lo_ra_dbase.Table
use lo_ra_dbase.Table.{first, count, insert, delete}
use lo_ra_dbase.Table.Laws.{
  All-update_to, first-agree, first-update_apart, count-update_kept, count-update-le,
  count-update_none,
}
use lo_ra_dbase.Table.Keys.{
  by_key-update, by_key-eq-some, count-by_key-le, All-same_of_key, Distinct-update,
}
use lo_ra_dbase.Db.{Db, Dashboard}
use lo_ra_dbase.Db.WellFormed.{IsWellFormed, is_default_of, OneDefault}
use lo_ra_dbase.Dashboards.{
  to_public, public_of, find_row, get_default, unset, mark, set_default_rows, set_default,
}
use lo_ra_dbase.Dashboards.Rows.{change-dashboards, update-keyed}

module _ (now : String) (server_id id : ℕ) (rows : List Dashboard)
    (ids : Distinct (λ (d : Dashboard). d.id) rows)
    (owner : All (λ (d : Dashboard). (d.id == id) ≡ true → d.server_id ≡ server_id) rows) where
  abbrev cleared : List Dashboard
  cleared = Table.update (λ d. d.server_id == server_id) unset rows

  cleared-owner : All (λ (d : Dashboard). (d.id == id) ≡ true → d.server_id ≡ server_id) cleared
  cleared-owner =
      All-update_to (λ (d : Dashboard). (d.id == id) ≡ true → d.server_id ≡ server_id)
        (λ d. d.server_id == server_id) unset rows (λ d h t. h) (λ d h f. h) owner

  cleared-ids : Distinct (λ (d : Dashboard). d.id) cleared
  cleared-ids =
      Distinct-update (λ (d : Dashboard). d.id) (λ d. d.server_id == server_id) unset rows
        (λ d t. refl) ids

  -- The row that is marked is the server's only default.
  marked-only :
      All
        (λ (d : Dashboard). is_default_of server_id d ≡ (d.id == id))
        (set_default_rows now server_id id rows)
  marked-only =
      All-update_to
        {P = λ (d : Dashboard).
          ((d.id == id) ≡ true → d.server_id ≡ server_id)
          × ((d.server_id == server_id) ≡ true → d.is_default ≡ 0)}
        (λ (d : Dashboard). is_default_of server_id d ≡ (d.id == id)) (λ d. d.id == id) (mark now)
        cleared (λ d h t. ground (arith, h.0 t)) (λ d h f. ground arith)
        (All-zip (λ (d : Dashboard) a b. (a, b)) cleared cleared-owner
          (All-update_to (λ (d : Dashboard). (d.server_id == server_id) ≡ true → d.is_default ≡ 0)
            (λ d. d.server_id == server_id) unset rows (λ d h t s. refl) (λ d h f t. cc) owner))

  other-default :
      (s : ℕ)
      → s ≢ server_id
      → first (is_default_of s) (set_default_rows now server_id id rows)
        ≡ first (is_default_of s) rows
  other-default s other =
      first-update_apart (λ d. d.id == id) (is_default_of s) (mark now) cleared
        (All-map
          {Q = λ (d : Dashboard).
            (d.id == id) ≡ true
            → (is_default_of s d ≡ false) × (is_default_of s (mark now d) ≡ false)}
          (λ d h t. ground (arith, h t)) cleared cleared-owner)
      ∙ first-update_apart (λ d. d.server_id == server_id) (is_default_of s) unset rows
          (All-every
            {P = λ (d : Dashboard).
              (d.server_id == server_id) ≡ true
              → (is_default_of s d ≡ false) × (is_default_of s (unset d) ≡ false)}
            (λ d t. ground arith) rows)

  marked-OneDefault : OneDefault rows → OneDefault (set_default_rows now server_id id rows)
  marked-OneDefault one s = elim (Bool-cases (s == server_id)) [
    | inl t ↦
        let same : s ≡ server_id = ground arith in
        rw same (
          omega (
            arith,
            count-update_none (λ d. d.server_id == server_id) (is_default_of server_id) unset rows
                (λ d h. ground arith) (λ d h. ground arith),
            count-update-le (λ d. d.id == id) (is_default_of server_id) (mark now) cleared,
            count-by_key-le (λ (d : Dashboard). d.id) id cleared cleared-ids,
          ))
    | inr f ↦
        let other : s ≢ server_id = ground arith in
        omega (
          arith,
          one s,
          count-update_kept (λ d. d.server_id == server_id) (is_default_of s) unset rows
              (All-every
                {P = λ (d : Dashboard).
                  (d.server_id == server_id) ≡ true → is_default_of s (unset d) ≡ is_default_of s d}
                (λ d h. ground arith) rows),
          count-update_kept (λ d. d.id == id) (is_default_of s) (mark now) cleared
              (All-map
                {Q = λ (d : Dashboard).
                  (d.id == id) ≡ true → is_default_of s (mark now d) ≡ is_default_of s d}
                (λ d h t. ground (arith, h t)) cleared cleared-owner),
        )
  ]

  cleared-OneDefault : OneDefault rows → OneDefault cleared
  cleared-OneDefault one s = elim (Bool-cases (s == server_id)) [
    | inl t ↦
        let same : s ≡ server_id = ground arith in
        rw same (
          omega (
            arith,
            count-update_none (λ d. d.server_id == server_id) (is_default_of server_id) unset rows
                (λ d h. ground arith) (λ d h. ground arith),
          ))
    | inr f ↦
        let other : s ≢ server_id = ground arith in
        omega (
          arith,
          one s,
          count-update_kept (λ d. d.server_id == server_id) (is_default_of s) unset rows
              (All-every
                {P = λ (d : Dashboard).
                  (d.server_id == server_id) ≡ true → is_default_of s (unset d) ≡ is_default_of s d}
                (λ d h. ground arith) rows),
        )
  ]

module _ (now : String) (id : ℕ) (db : Db) (w : IsWellFormed db) (row : Dashboard)
    (found : find_row id db ≡ some row) where
  row-id : row.id ≡ id
  row-id = by_key-eq-some (λ (d : Dashboard). d.id) id db.dashboards row (unfold find_row in found)

  pub owner-rows :
      All (λ (d : Dashboard). (d.id == id) ≡ true → d.server_id ≡ row.server_id) db.dashboards
  owner-rows =
      All-map {Q = λ (d : Dashboard). (d.id == id) ≡ true → d.server_id ≡ row.server_id}
        (λ d same t. ap (λ (x : Dashboard). x.server_id) (same t)) db.dashboards
        (All-same_of_key (λ (d : Dashboard). d.id) id db.dashboards row w.dashboards.ids
          (unfold find_row in found))

  abbrev marked_db : Db
  marked_db = record db { dashboards = set_default_rows now row.server_id id db.dashboards }

  pub set_default-run : set_default now id db ≡ (true, marked_db)
  unfolding set_default
  set_default-run = ground arith

  pub marked-IsWellFormed : IsWellFormed marked_db
  marked-IsWellFormed =
      let k = w.dashboards in
      let rows = cleared now row.server_id id db.dashboards k.ids owner-rows in
      change-dashboards db (set_default_rows now row.server_id id db.dashboards) db.next_dashboard w
        (update-keyed db.servers rows db.next_dashboard
          (update-keyed db.servers db.dashboards db.next_dashboard k
            (λ d. d.server_id == row.server_id) unset (λ d. refl) (λ d. refl)
            (cleared-OneDefault now row.server_id id db.dashboards k.ids owner-rows k.one_default))
          (λ d. d.id == id) (mark now) (λ d. refl) (λ d. refl)
          (marked-OneDefault now row.server_id id db.dashboards k.ids owner-rows k.one_default))

  marked-row : find_row id marked_db ≡ some (mark now (unset row))
  unfolding find_row
  marked-row =
      let rows = cleared now row.server_id id db.dashboards w.dashboards.ids owner-rows in
      ground (
        arith,
        row-id,
        by_key-update (λ (d : Dashboard). d.id) (λ d. d.id == id) (mark now) id rows (λ d t. refl),
        by_key-update (λ (d : Dashboard). d.id) (λ d. d.server_id == row.server_id) unset id
            db.dashboards (λ d t. refl),
      )

  marked-default : get_default row.server_id marked_db ≡ some (to_public (mark now (unset row)))
  unfolding get_default find_row
  marked-default =
      let rows = set_default_rows now row.server_id id db.dashboards in
      ap public_of (
        first-agree (is_default_of row.server_id) (λ d. d.id == id) rows
          (marked-only now row.server_id id db.dashboards w.dashboards.ids owner-rows)
        ∙ marked-row)

  other-get_default : (s : ℕ) → s ≢ row.server_id → get_default s marked_db ≡ get_default s db
  unfolding get_default
  other-get_default s other =
      ap public_of
        (other-default now row.server_id id db.dashboards w.dashboards.ids owner-rows s other)

-- `setDefault` of a dashboard that exists: it returns true, the server's default is then that
-- dashboard, stamped with the time and otherwise as it was, the default of every other server is as
-- it was, and the database stays well formed.
pub set_default_lem :
    (now : String) (id : ℕ) (db : Db) (row : Dashboard)
    → IsWellFormed db
    → find_row id db ≡ some row
    → ((set_default now id db).0 ≡ true)
      × (get_default row.server_id (set_default now id db).1
          ≡ some (record (to_public row) { is_default = true; updated_at = now }))
      × ((s : ℕ) → s ≢ row.server_id → get_default s (set_default now id db).1 ≡ get_default s db)
      × IsWellFormed (set_default now id db).1
set_default_lem now id db row w found = rw (set_default-run now id db w row found) (
  refl,
  marked-default now id db w row found,
  other-get_default now id db w row found,
  marked-IsWellFormed now id db w row found,
)
