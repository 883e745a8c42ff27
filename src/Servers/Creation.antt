-- ===== src/Servers/Creation.antt =====
-- What POST /api/servers does on every branch, and when other requests run during its `await`.
use lo_ra_dbase.Common.{
  suc, String, ◌≡◌, refl, ◌≢◌, ◌↔◌, ◌⊎◌, inl, inr, true, false, ◌||◌, none, some, arith, eq_iff,
  ◌==◌, nat_eq, string_eq, Option-cases, All-map,
}
use lo_ra_dbase.Table.{insert}
use lo_ra_dbase.Table.Laws.{count-zero_iff, first-insert_new}
use lo_ra_dbase.Table.Keys.{absent_of_All-ne}
use lo_ra_dbase.Db.{Db, Server, ok, throw, unique_violation}
use lo_ra_dbase.Db.WellFormed.{IsWellFormed, ServersAreKeyed}
use lo_ra_dbase.Config.{Env}
use lo_ra_dbase.Http.{Reply, reply, given?, text_of, status_of}
use lo_ra_dbase.Passwords.{validate_password}
use lo_ra_dbase.Servers.{
  ServerPublic, CreateServerData, find_by_name, find_by_host, create, insert_server, name_exists,
  host_exists, is_some, server_row,
}
use lo_ra_dbase.Servers.Validation.{is_valid_server_name, is_valid_host}
use lo_ra_dbase.Servers.Constraints.{insert_server-IsWellFormed}
use lo_ra_dbase.Servers.Routes.{
  CreateBody, Stage, stop, go_on, NewServer, Draws, stored_data, public_view, creation_failed,
  create_check, create_commit, create_server,
}

name_exists_iff :
    (name : String) (db : Db) → (name_exists name 0 db ≡ false) ↔ (find_by_name name db ≡ none)
unfolding name_exists find_by_name
name_exists_iff name db = ground (arith, count-zero_iff (λ (s : Server). s.name == name) db.servers)

host_exists_iff :
    (host : String) (db : Db) → (host_exists host 0 db ≡ false) ↔ (find_by_host host db ≡ none)
unfolding host_exists find_by_host
host_exists_iff host db = ground (arith, count-zero_iff (λ (s : Server). s.host == host) db.servers)

-- the database with one more server
abbrev pub with_server : CreateServerData → String → Db → Db
with_server given now db = record db {
  servers = insert (server_row db.next_server given now now) db.servers;
  next_server = suc db.next_server;
}

create-fresh :
    (now : String) (given : CreateServerData) (db : Db)
    → ServersAreKeyed db.servers db.next_server
    → find_by_name given.name db ≡ none
    → find_by_host given.host db ≡ none
    → create now given db
      ≡ ok (some (server_row db.next_server given now now), with_server given now db)
unfolding create
create-fresh now given db keyed no_name no_host =
    let new_id =
      absent_of_All-ne (λ (s : Server). s.id) db.next_server db.servers
        (All-map (λ s lt c. omega arith) db.servers keyed.fresh) in
    ground (
      arith,
      first-insert_new (λ (s : Server). s.id == db.next_server) db.servers
          (server_row db.next_server given now now) new_id,
    )

create-taken :
    (now : String) (given : CreateServerData) (db : Db)
    → (is_some (find_by_name given.name db) || is_some (find_by_host given.host db)) ≡ true
    → create now given db ≡ throw unique_violation
unfolding create
create-taken now given db taken = ground arith

module _ (env : Env) (draws : Draws) (now : String) (new : NewServer) (db : Db) where
  commit-fresh :
      ServersAreKeyed db.servers db.next_server
      → find_by_name new.name db ≡ none
      → find_by_host new.host db ≡ none
      → create_commit env draws now new db ≡ (
        reply 201 (public_view (server_row db.next_server (stored_data env draws new) now now)),
        with_server (stored_data env draws new) now db,
      )
  unfolding create_commit
  commit-fresh keyed no_name no_host =
      rw (create-fresh now (stored_data env draws new) db keyed no_name no_host)

  commit-taken :
      (is_some (find_by_name new.name db) || is_some (find_by_host new.host db)) ≡ true
      → create_commit env draws now new db ≡ (creation_failed, db)
  unfolding create_commit
  commit-taken taken = rw (create-taken now (stored_data env draws new) db taken)

-- what POST / asks of its body and of the stored servers
pub record IsCreatable (env : Env) (body : CreateBody) (db : Db) : Type 0 where
  pub api_key : given? body.api_key ≡ true
  pub confirm : given? body.password_confirm ≡ true
  pub name : given? body.name ≡ true
  pub host : given? body.host ≡ true
  pub password : given? body.password ≡ true
  pub name_form : is_valid_server_name (text_of body.name) ≡ true
  pub host_form : is_valid_host env (text_of body.host) ≡ true
  pub password_form : validate_password (text_of body.password) ≡ none
  pub confirmed : text_of body.password ≡ text_of body.password_confirm
  pub new_name : find_by_name (text_of body.name) db ≡ none
  pub new_host : find_by_host (text_of body.host) db ≡ none

abbrev pub request_of : CreateBody → NewServer
request_of body = record {
  name = text_of body.name;
  host = text_of body.host;
  api_key = text_of body.api_key;
  password = text_of body.password;
}

module _ (env : Env) (body : CreateBody) (db : Db) where
  facts :
      (name_exists (text_of body.name) 0 db ≡ false ↔ find_by_name (text_of body.name) db ≡ none)
      × (host_exists (text_of body.host) 0 db ≡ false ↔ find_by_host (text_of body.host) db ≡ none)
      × (((text_of body.password == text_of body.password_confirm) ≡ true)
          ↔ (text_of body.password ≡ text_of body.password_confirm))
  facts = (
    name_exists_iff (text_of body.name) db,
    host_exists_iff (text_of body.host) db,
    eq_iff (text_of body.password) (text_of body.password_confirm),
  )

  check_passes : IsCreatable env body db → create_check env body db ≡ go_on (request_of body)
  unfolding create_check
  check_passes c = ground (arith, facts)

  check_passed :
      (new : NewServer)
      → create_check env body db ≡ go_on new
      → IsCreatable env body db × (new ≡ request_of body)
  unfolding create_check
  check_passed new h = ground (arith, facts)

  check_refused :
      (answer : Reply ServerPublic)
      → create_check env body db ≡ stop answer
      → (status_of answer ≡ 400) ⊎ (status_of answer ≡ 409)
  unfolding create_check
  check_refused answer h = ground arith

module _ (env : Env) (draws : Draws) (now : String) (body : CreateBody) (db : Db)
    (w : IsWellFormed db) where
  pub creatable_run :
      IsCreatable env body db
      → create_server env draws now body db ≡ (
        reply 201 (
            public_view
              (server_row db.next_server (stored_data env draws (request_of body)) now now)),
        with_server (stored_data env draws (request_of body)) now db,
      )
  unfolding create_server
  creatable_run c =
      rw (check_passes env body db c, create_server)
        (commit-fresh env draws now (request_of body) db w.servers c.new_name c.new_host)

  -- answered 201 with the public fields of the new row, and exactly that row is added
  abbrev pub IsCreated : Type 0
  IsCreated = create_server env draws now body db ≡ (
    reply 201
        (public_view (server_row db.next_server (stored_data env draws (request_of body)) now now)),
    with_server (stored_data env draws (request_of body)) now db,
  )

  -- answered 400 or 409, and nothing is written
  abbrev pub IsRefused : Type 0
  IsRefused =
      ((status_of (create_server env draws now body db).0 ≡ 400)
        ⊎ (status_of (create_server env draws now body db).0 ≡ 409))
      × ((create_server env draws now body db).1 ≡ db)

  -- POST /api/servers on a well-formed database, with a body whose fields are texts or absent. A request that passes all checks (`IsCreatable`)
  -- gets 201 with the public fields of the new row, whose identifier is the next one, and exactly
  -- that row is added; any other gets 400 or 409 and the database stays as it was.
  pub create_server_branches :
      (IsCreatable env body db × IsCreated) ⊎ ((¬ IsCreatable env body db) × IsRefused)
  create_server_branches = go (create_check env body db) refl
    where
      go :
          (stage : Stage ServerPublic NewServer)
          → create_check env body db ≡ stage
          → (IsCreatable env body db × IsCreated) ⊎ ((¬ IsCreatable env body db) × IsRefused)
      go (go_on new) e = let c = (check_passed env body db new e).0 in inl (c, creatable_run c)
      go (stop answer) e =
          let run : create_server env draws now body db ≡ (answer, db) =
            unfold create_server in (rw (e, create_server)) in
          inr (
            (λ c. cc (check_passes env body db c)),
            rw run (check_refused env body db answer e, refl),
          )

-- However the database has changed while POST /api/servers waited for the password hash, its INSERT
-- keeps the database well formed: the request is answered 201 and its row is added, or the name or
-- the host is taken by then, the answer is 500, and nothing is written.
pub create_commit_races :
    (env : Env) (draws : Draws) (now : String) (new : NewServer) (db : Db)
    → IsWellFormed db
    → IsWellFormed (create_commit env draws now new db).1
      × (((status_of (create_commit env draws now new db).0 ≡ 201)
            × ((create_commit env draws now new db).1
                ≡ with_server (stored_data env draws new) now db))
          ⊎ ((status_of (create_commit env draws now new db).0 ≡ 500)
              × ((find_by_name new.name db ≢ none) ⊎ (find_by_host new.host db ≢ none))
              × ((create_commit env draws now new db).1 ≡ db)))
create_commit_races env draws now new db w = elim (Option-cases (find_by_name new.name db)) [
  | inr (s, found) ↦
      rw (commit-taken env draws now new db (rw found)) (w, inr (refl, inl (λ absent. cc), refl))
  | inl no_name ↦ elim (Option-cases (find_by_host new.host db)) [
    | inr (s, found) ↦
        rw (commit-taken env draws now new db (rw (no_name, found)))
          (w, inr (refl, inr (λ absent. cc), refl))
    | inl no_host ↦
        let given = stored_data env draws new in
        let inserted : insert_server given now now db
            ≡ ok (db.next_server, with_server given now db) =
          unfold insert_server in (rw (no_name, no_host)) in
        rw (commit-fresh env draws now new db w.servers no_name no_host) (
          insert_server-IsWellFormed given now now db db.next_server (with_server given now db) w
              inserted,
          inl (refl, refl),
        )
  ]
]
