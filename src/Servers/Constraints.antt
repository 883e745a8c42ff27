-- ===== src/Servers/Constraints.antt =====
-- The statements of the server repository keep what the schema's constraints promise.
use lo_ra_dbase.Common.{
  ℕ, suc, ◌<◌, String, ◌≡◌, refl, ◌≢◌, inl, inr, Bool, true, false, not, ◌&&◌, Option, none, some,
  List, [], ◌∷◌, arith, eq_iff, ◌==◌, nat_eq, string_eq, Bool-cases, Option-cases, All, All-concat,
  All-map, Distinct,
}
use lo_ra_dbase.Table.{first, insert, update, delete}
use lo_ra_dbase.Table.Laws.{first-append, All-update, first-eq-none}
use lo_ra_dbase.Table.Keys.{
  by_key, Distinct-set, Distinct-insert, Distinct-update, by_key-update, by_key-delete_ne,
  absent_of_All-ne,
}
use lo_ra_dbase.Db.{Db, Server, Dashboard, FailedAttempt, ok}
use lo_ra_dbase.Db.WellFormed.{ServersAreKeyed, IsWellFormed, Refers, server_by_id}
use lo_ra_dbase.Servers.{
  CreateServerData, UpdateServerData, find_by_id, find_by_name, find_by_host, server_row,
  insert_server, update_server, assign, name_taken, host_taken, is_some,
}

Refers-insert :
    (servers : List Server) (r : Server) (k : ℕ) → Refers servers k → Refers (insert r servers) k
Refers-insert servers r k h e =
    h (ground (arith, first-append (λ (s : Server). s.id == k) servers (r ∷ [])))

Refers-update :
    (servers : List Server) (p : Server → Bool) (f : Server → Server) (k : ℕ)
    → ((s : Server) → p s ≡ true → (f s).id ≡ s.id)
    → Refers servers k
    → Refers (update p f servers) k
Refers-update servers p f k same h e =
    h (ground (arith, by_key-update (λ (s : Server). s.id) p f k servers same))

pub Refers-delete :
    (servers : List Server) (id k : ℕ)
    → (k == id) ≡ false
    → Refers servers k
    → Refers (delete (λ s. s.id == id) servers) k
Refers-delete servers id k other h =
    rw (by_key-delete_ne (λ (s : Server). s.id) id k servers (λ c. ground arith)) h

absent_fresh :
    (servers : List Server) (next : ℕ)
    → All (λ s. s.id < next) servers
    → server_by_id next servers ≡ none
absent_fresh servers next h =
    absent_of_All-ne (λ (s : Server). s.id) next servers (All-map (λ s lt c. omega arith) servers h)

insert-ServersAreKeyed :
    (servers : List Server) (next : ℕ) (given : CreateServerData) (created updated : String)
    → ServersAreKeyed servers next
    → by_key (λ s. s.name) given.name servers ≡ none
    → by_key (λ s. s.host) given.host servers ≡ none
    → ServersAreKeyed (insert (server_row next given created updated) servers) (suc next)
insert-ServersAreKeyed servers next given created updated keyed no_name no_host =
    let row = server_row next given created updated in
    record {
      ids =
          Distinct-insert (λ (s : Server). s.id) servers row keyed.ids
            (absent_fresh servers next keyed.fresh);
      names = Distinct-insert (λ (s : Server). s.name) servers row keyed.names no_name;
      hosts = Distinct-insert (λ (s : Server). s.host) servers row keyed.hosts no_host;
      fresh =
          All-concat (λ (s : Server). s.id < suc next) servers row
            (All-map (λ s lt. omega arith) servers keyed.fresh) (omega arith);
    }

-- An INSERT that does not throw keeps a database well formed.
pub insert_server-IsWellFormed :
    (given : CreateServerData) (created updated : String) (db : Db) (id : ℕ) (db' : Db)
    → IsWellFormed db
    → insert_server given created updated db ≡ ok (id, db')
    → IsWellFormed db'
unfolding insert_server
insert_server-IsWellFormed given created updated db id db' w h =
    elim (Option-cases (find_by_name given.name db)) [
      | inr (s, found) ↦ absurd (ground arith)
      | inl no_name ↦ elim (Option-cases (find_by_host given.host db)) [
        | inr (s, found) ↦ absurd (ground arith)
        | inl no_host ↦
            let row = server_row db.next_server given created updated in
            let shape : db'
                ≡ record db { servers = insert row db.servers; next_server = suc db.next_server } =
              ground arith in
            rw shape (record {
              servers =
                  insert-ServersAreKeyed db.servers db.next_server given created updated w.servers
                    no_name no_host;
              dashboards = record {
                ids = w.dashboards.ids;
                fresh = w.dashboards.fresh;
                owned =
                    All-map (λ (d : Dashboard) r. Refers-insert db.servers row d.server_id r)
                      db.dashboards w.dashboards.owned;
                one_default = w.dashboards.one_default;
              };
              attempts =
                  All-map (λ (a : FailedAttempt) r. Refers-insert db.servers row a.server_id r)
                    db.failed_attempts w.attempts;
            })
      ]
    ]

-- What an UPDATE asks of a UNIQUE column.
untaken_of_test :
    (col : Server → String) (id : ℕ) (v : String) (servers : List Server)
    → is_some (first (λ (s : Server). col s == v && not (s.id == id)) servers) ≡ false
    → All (λ (s : Server). (s.id == id) ≡ false → col s ≢ v) servers
untaken_of_test col id v servers h =
    elim (Option-cases (first (λ (s : Server). col s == v && not (s.id == id)) servers)) [
      | inr (s, found) ↦ absurd (cc)
      | inl absent ↦
          All-map (λ s out other same. ground (arith, eq_iff (col s) v)) servers
            (first-eq-none (λ (s : Server). col s == v && not (s.id == id)) servers absent)
    ]

assign-Distinct :
    (col : Server → String) (now : String) (id : ℕ) (given : UpdateServerData)
    (choice : Option String) (servers : List Server)
    → ((s : Server) → col (assign now given s) ≡ elim choice [ none ↦ col s | some v ↦ v ])
    → elim choice [
      | none ↦ false
      | some v ↦ is_some (first (λ (s : Server). col s == v && not (s.id == id)) servers)
    ]
      ≡ false
    → Distinct (λ (s : Server). s.id) servers
    → Distinct col servers
    → Distinct col (update (λ s. s.id == id) (assign now given) servers)
assign-Distinct col now id given none servers sets h ids d =
    Distinct-update col (λ s. s.id == id) (assign now given) servers (λ s t. sets s) d
assign-Distinct col now id given (some v) servers sets h ids d =
    Distinct-set col (λ (s : Server). s.id) id v (assign now given) (λ s t. sets s) servers ids
      (untaken_of_test col id v servers h) d

module _ (now : String) (id : ℕ) (given : UpdateServerData) (db : Db) (w : IsWellFormed db)
    (free_name : elim given.name [ none ↦ false | some n ↦ name_taken id n db.servers ] ≡ false)
    (free_host : elim given.host [ none ↦ false | some v ↦ host_taken id v db.servers ]
      ≡ false) where
  written-ServersAreKeyed :
      ServersAreKeyed (update (λ s. s.id == id) (assign now given) db.servers) db.next_server
  written-ServersAreKeyed = record {
    ids =
        Distinct-update (λ (s : Server). s.id) (λ s. s.id == id) (assign now given) db.servers
          (λ s t. refl) w.servers.ids;
    names =
        assign-Distinct (λ (s : Server). s.name) now id given given.name db.servers
          (λ s. ground arith) free_name w.servers.ids w.servers.names;
    hosts =
        assign-Distinct (λ (s : Server). s.host) now id given given.host db.servers
          (λ s. ground arith) free_host w.servers.ids w.servers.hosts;
    fresh =
        All-update (λ (s : Server). s.id < db.next_server) (λ s. s.id == id) (assign now given)
          db.servers (λ s lt t. lt) w.servers.fresh;
  }

  written-IsWellFormed :
      IsWellFormed (record db { servers = update (λ s. s.id == id) (assign now given) db.servers })
  written-IsWellFormed = record {
    servers = written-ServersAreKeyed;
    dashboards = record {
      ids = w.dashboards.ids;
      fresh = w.dashboards.fresh;
      owned =
          All-map
            (λ (d : Dashboard) r.
              Refers-update db.servers (λ s. s.id == id) (assign now given) d.server_id
                (λ s t. refl) r)
            db.dashboards w.dashboards.owned;
      one_default = w.dashboards.one_default;
    };
    attempts =
        All-map
          (λ (a : FailedAttempt) r.
            Refers-update db.servers (λ s. s.id == id) (assign now given) a.server_id (λ s t. refl)
              r)
          db.failed_attempts w.attempts;
  }

-- An UPDATE of a server that does not throw keeps a database well formed.
pub update_server-IsWellFormed :
    (now : String) (id : ℕ) (given : UpdateServerData) (db : Db) (result : Option Server) (db' : Db)
    → IsWellFormed db
    → update_server now id given db ≡ ok (result, db')
    → IsWellFormed db'
unfolding update_server
update_server-IsWellFormed now id given db result db' w h = elim (Option-cases (find_by_id id db)) [
  | inl absent ↦ let same : db' ≡ db = ground arith in rw same w
  | inr (s, found) ↦
      elim (Bool-cases (elim given.name [ none ↦ false | some n ↦ name_taken id n db.servers ])) [
        | inl taken ↦ absurd (ground arith)
        | inr free_name ↦
            elim (Bool-cases
              (elim given.host [ none ↦ false | some v ↦ host_taken id v db.servers ])) [
                | inl taken ↦ absurd (ground arith)
                | inr free_host ↦
                    let shape : db' ≡ record db {
                      servers = update (λ s. s.id == id) (assign now given) db.servers;
                    } =
                      ground arith in
                    rw shape (written-IsWellFormed now id given db w free_name free_host)
              ]
      ]
]
