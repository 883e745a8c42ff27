-- ===== src/Backup/Boards/Import.antt =====
-- What an import of dashboards does to the rows that are there, and what it counts.
use lo_ra_dbase.Common.{
  ℕ, suc, ◌+◌, String, ◌≡◌, refl, ap, ◌∙◌, ◌≢◌, inl, inr, Bool, true, false, ◌&&◌, none, some, List,
  [], ◌∷◌, ◌++◌, arith, ◌==◌, nat_eq, string_eq, Bool-cases, Option-cases, beq_refl, length,
  length-append,
}
use lo_ra_dbase.Servers
use lo_ra_dbase.Table
use lo_ra_dbase.Backup.{
  Strategy, Db, ImportError, ImportResult, Server, is_merge, invalid_dashboard, ok,
  missing_server_name, server_not_found, default_exists, merge, nothing, replace,
}
use lo_ra_dbase.Db.WellFormed.{IsWellFormed, is_default_of}
use lo_ra_dbase.Dashboards.Rows.{create-IsWellFormed}
use lo_ra_dbase.Dashboards.{
  set_default_rows, with_dashboard, dashboard_row, mark, to_public, unset, DashboardPublic,
  CreateDashboardData, get_default, set_default, public_of,
}
use lo_ra_dbase.Dashboards.Defaults.{set_default-run, set_default_lem}
use lo_ra_dbase.Dashboards.Created.{create-there}
use lo_ra_dbase.Dashboards.Ensure.{created-row}
use lo_ra_dbase.Backup.Boards.{
  BackupDashboard, import_dashboard, create, refuses_default, settle_dashboard, stored_dashboard,
  is_set, import_dashboards, import_each, without_dashboards,
}
use lo_ra_dbase.Db.{Dashboard}
use lo_ra_dbase.Http.{given?, text_of}
use lo_ra_dbase.Table.Laws.{first-insert_other, first_there}
use lo_ra_dbase.Table.{count}

-- `n` dashboards of a backup were taken from one state to the next: one row is added for each that counts
-- as imported, each other one counts as skipped and has a message, no server and no failed attempt
-- changes, and in a merge every default dashboard stays the default.
pub record IsTaken (strategy : Strategy) (n : ℕ) (db : Db) (r : ImportResult) (db' : Db)
    (r' : ImportResult) : Type 0 where
  pub rows : length db'.dashboards + r.imported ≡ length db.dashboards + r'.imported
  pub all : r'.imported + r'.skipped ≡ r.imported + r.skipped + n
  pub messages : length r'.errors + r.skipped ≡ length r.errors + r'.skipped
  pub servers : db'.servers ≡ db.servers
  pub attempts : db'.failed_attempts ≡ db.failed_attempts
  pub defaults :
      is_merge strategy ≡ true
      → (s : ℕ) (d : DashboardPublic) → get_default s db ≡ some d
      → get_default s db' ≡ some d
  pub kept : IsWellFormed db'

length-update :
    {A : Type 0} (p : A → Bool) (f : A → A) (rows : List A)
    → length (Table.update p f rows) ≡ length rows
unfolding Table.update
length-update p f [] = refl
length-update p f (x ∷ rows) = omega (arith, length-update p f rows)

skipped-IsTaken :
    (strategy : Strategy) (e : ImportError) (db : Db) (r : ImportResult)
    → IsWellFormed db
    → IsTaken strategy 1 db r db (record r { skipped = suc r.skipped; errors = r.errors ++ e ∷ [] })
skipped-IsTaken strategy e db r w = record {
  rows = refl;
  all = omega arith;
  messages = rw (length-append r.errors (e ∷ [])) (omega arith);
  servers = refl;
  attempts = refl;
  defaults = λ m s d h. h;
  kept = w;
}

then-IsTaken :
    (strategy : Strategy) (m : ℕ) (a b c : Db) (r s t : ImportResult)
    → IsTaken strategy 1 a r b s
    → IsTaken strategy m b s c t
    → IsTaken strategy (suc m) a r c t
then-IsTaken strategy m a b c r s t h k = record {
  rows = omega (arith, h.rows, k.rows);
  all = omega (arith, h.all, k.all);
  messages = omega (arith, h.messages, k.messages);
  servers = k.servers ∙ h.servers;
  attempts = k.attempts ∙ h.attempts;
  defaults = λ e s d there. k.defaults e s d (h.defaults e s d there);
  kept = k.kept;
}

module _ (strategy : Strategy) (now : String) (b : BackupDashboard) (server : Server) (db : Db)
    (r : ImportResult) (w : IsWellFormed db) (there : Servers.find_by_id server.id db ≢ none) where
  abbrev given : CreateDashboardData
  given = stored_dashboard server.id b

  abbrev grown : Db
  grown = with_dashboard now given db

  abbrev made : Dashboard
  made = dashboard_row db.next_dashboard now given

  created : create now given db ≡ ok (some (to_public made), grown)
  created = create-there now given db w there

  grown-IsWellFormed : IsWellFormed grown
  grown-IsWellFormed = create-IsWellFormed now given db (some (to_public made)) grown w created

  grown-default : (s : ℕ) → get_default s grown ≡ get_default s db
  unfolding get_default
  grown-default s =
      ap public_of (first-insert_other (is_default_of s) db.dashboards made (ground arith))

  added-IsTaken : IsTaken strategy 1 db r grown (record r { imported = suc r.imported })
  added-IsTaken = record {
    rows = rw (length-append db.dashboards (made ∷ [])) (omega arith);
    all = omega arith;
    messages = refl;
    servers = refl;
    attempts = refl;
    defaults = λ m s d h. grown-default s ∙ h;
    kept = grown-IsWellFormed;
  }

  abbrev marked : Db
  marked = (set_default now db.next_dashboard grown).1

  marked-shape : marked ≡ record grown {
    dashboards = set_default_rows now server.id db.next_dashboard grown.dashboards;
  }
  marked-shape =
      ap (λ (x : Bool × Db). x.1)
        (set_default-run now db.next_dashboard grown grown-IsWellFormed made
          (created-row now given db w))

  marked-length : length marked.dashboards ≡ length grown.dashboards
  marked-length = rw marked-shape (
      length-update (λ (d : Dashboard). d.id == db.next_dashboard) (mark now) _
      ∙ length-update (λ (d : Dashboard). d.server_id == server.id) unset grown.dashboards)

  marked-IsTaken :
      (is_merge strategy ≡ true → get_default server.id db ≡ none)
      → IsTaken strategy 1 db r marked (record r { imported = suc r.imported })
  marked-IsTaken free =
      let facts =
        set_default_lem now db.next_dashboard grown made grown-IsWellFormed
          (created-row now given db w) in
      record {
        rows = omega (arith, marked-length, length-append db.dashboards (made ∷ []));
        all = omega arith;
        messages = refl;
        servers = rw marked-shape refl;
        attempts = rw marked-shape refl;
        defaults = λ m s d h. elim (Bool-cases (s == server.id)) [
          | inl t ↦ let same : s ≡ server.id = ground arith in absurd (cc (h, free m, same))
          | inr f ↦ facts.2 s (ground arith) ∙ grown-default s ∙ h
        ];
        kept = facts.3;
      }

  settled-IsTaken :
      refuses_default strategy b (get_default server.id db) ≡ false
      → IsTaken strategy 1 db r
          (settle_dashboard now b (create now given db) db r).0
          (settle_dashboard now b (create now given db) db r).1
  settled-IsTaken free = elim (Bool-cases (is_set b.is_default)) [
    | inr plain ↦ rw (created, plain) added-IsTaken
    | inl default ↦
        rw (created, default)
          (marked-IsTaken (λ m. elim (Option-cases (get_default server.id db)) [
            | inl absent ↦ absent
            | inr (d, found) ↦ absurd (ground arith)
          ]))
  ]

named-there :
    (name : String) (db : Db) (server : Server)
    → Servers.find_by_name name db ≡ some server
    → Servers.find_by_id server.id db ≢ none
unfolding Servers.find_by_name Servers.find_by_id
named-there name db server found =
    first_there (λ (s : Server). s.name == name) (λ (s : Server). s.id == server.id) db.servers
      server (λ _. beq_refl server.id) found

turn-IsTaken :
    (strategy : Strategy) (now : String) (b : BackupDashboard) (db : Db) (r : ImportResult)
    → IsWellFormed db
    → IsTaken strategy 1 db r
        (import_dashboard strategy now b db r).0
        (import_dashboard strategy now b db r).1
unfolding import_dashboard
turn-IsTaken strategy now b db r w = elim (Bool-cases (given? b.version && given? b.time_range)) [
  | inr wrong ↦ rw wrong (skipped-IsTaken strategy invalid_dashboard db r w)
  | inl valid ↦ elim (Bool-cases (given? b.server_name)) [
    | inr missing ↦ rw (valid, missing) (skipped-IsTaken strategy missing_server_name db r w)
    | inl named ↦ elim (Option-cases (Servers.find_by_name (text_of b.server_name) db)) [
      | inl absent ↦
          rw (valid, named, absent, import_dashboard)
            (skipped-IsTaken strategy (server_not_found (text_of b.server_name)) db r w)
      | inr (server, found) ↦
          elim (Bool-cases (refuses_default strategy b (get_default server.id db))) [
            | inl refused ↦
                rw (valid, named, found, import_dashboard, refused)
                  (skipped-IsTaken strategy (default_exists (text_of b.server_name)) db r w)
            | inr free ↦
                rw (valid, named, found, import_dashboard, free)
                  (settled-IsTaken strategy now b server db r w
                    (named-there (text_of b.server_name) db server found) free)
          ]
    ]
  ]
]

each-IsTaken :
    (strategy : Strategy) (now : String) (dashboards : List BackupDashboard) (db : Db)
    (r : ImportResult)
    → IsWellFormed db
    → IsTaken strategy
        (length dashboards)
        db
        r
        (import_each strategy now dashboards db r).0
        (import_each strategy now dashboards db r).1
unfolding import_each
each-IsTaken strategy now [] db r w = record {
  rows = refl;
  all = omega arith;
  messages = refl;
  servers = refl;
  attempts = refl;
  defaults = λ m s d h. h;
  kept = w;
}
each-IsTaken strategy now (b ∷ dashboards) db r w =
    let run = import_dashboard strategy now b db r in
    let turn = turn-IsTaken strategy now b db r w in
    then-IsTaken strategy (length dashboards) db run.0 _ r run.1 _ turn
      (each-IsTaken strategy now dashboards run.0 run.1 turn.kept)

emptied-IsWellFormed : (db : Db) → IsWellFormed db → IsWellFormed (without_dashboards db)
unfolding count
emptied-IsWellFormed db w = record {
  servers = w.servers;
  dashboards = record { ids = tt; fresh = tt; owned = tt; one_default = λ s. omega arith };
  attempts = w.attempts;
}

-- the database in which the loop starts: a replacement by no dashboards removes none
abbrev pub at_start : Strategy → List BackupDashboard → Db → Db
at_start merge dashboards db = db
at_start replace [] db = db
at_start replace (b ∷ dashboards) db = without_dashboards db

-- An import of dashboards into a well-formed database, for either strategy: each dashboard is either
-- imported, as one new row, or skipped with one message; the servers and the failed attempts are as they
-- were; a merge leaves to every server the default dashboard that it had; and the database stays well
-- formed, with at most one default for each server. A replacement starts from no dashboards, unless the
-- backup has none.
pub import_dashboards-IsTaken :
    (strategy : Strategy) (now : String) (dashboards : List BackupDashboard) (db : Db)
    → IsWellFormed db
    → IsTaken strategy
        (length dashboards)
        (at_start strategy dashboards db)
        nothing
        (import_dashboards strategy now dashboards db).0
        (import_dashboards strategy now dashboards db).1
unfolding import_dashboards import_each
import_dashboards-IsTaken merge now [] db w = each-IsTaken merge now [] db nothing w
import_dashboards-IsTaken replace now [] db w = each-IsTaken replace now [] db nothing w
import_dashboards-IsTaken merge now (b ∷ dashboards) db w =
    each-IsTaken merge now (b ∷ dashboards) db nothing w
import_dashboards-IsTaken replace now (b ∷ dashboards) db w =
    each-IsTaken replace now (b ∷ dashboards) (without_dashboards db) nothing
      (emptied-IsWellFormed db w)
