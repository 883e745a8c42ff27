-- ===== src/Servers/Renaming.antt =====
-- What PUT /api/servers/:id does on every branch.
use lo_ra_dbase.Common.{
  ℕ, String, ◌≡◌, refl, ◌↔◌, ◌⊎◌, inl, inr, Bool, true, false, not, ◌&&◌, none, some, List, [], ◌∷◌,
  map, arith, ltb, ◌==◌, nat_eq, string_eq, Bool-cases, Option-cases,
}
use lo_ra_dbase.Table
use lo_ra_dbase.Table.{first, count}
use lo_ra_dbase.Table.Laws.{count-zero_iff}
use lo_ra_dbase.Table.Sort.{order_by, count-order_by}
use lo_ra_dbase.Table.Keys.{by_key-update, by_key-eq-some}
use lo_ra_dbase.Db.{Db, Server, ok}
use lo_ra_dbase.Db.WellFormed.{IsWellFormed}
use lo_ra_dbase.Config.{Env}
use lo_ra_dbase.Http.{reply, given?, text_of, status_of}
use lo_ra_dbase.Servers.{
  ServerPublic, UpdateServerData, to_public, newest_first, find_by_id, list_all, assign, name_taken,
  host_taken, update_server, is_some,
}
use lo_ra_dbase.Servers.Validation.{is_valid_server_name, is_valid_host}
use lo_ra_dbase.Servers.Constraints.{update_server-IsWellFormed}
use lo_ra_dbase.Servers.Routes.{UpdateBody, other_has, update_route}

count-map :
    {A B : Type 0} (f : A → B) (p : B → Bool) (xs : List A)
    → count p (map f xs) ≡ count (λ a. p (f a)) xs
unfolding count
count-map f p [] = refl
count-map f p (x ∷ xs) = ground (arith, count-map f p xs)

is_some-first :
    {A : Type 0} (p : A → Bool) (rows : List A) → is_some (first p rows) ≡ ltb 0 (count p rows)
is_some-first p rows = elim (Option-cases (first p rows)) [
  | inl absent ↦ ground (arith, absent, count-zero_iff p rows)
  | inr (r, found) ↦ ground (arith, found, count-zero_iff p rows)
]

-- The route's own test and that of the UNIQUE constraint agree.
other_has-name :
    (id : ℕ) (name : String) (db : Db)
    → other_has (λ (s : ServerPublic). s.name == name) id db ≡ name_taken id name db.servers
unfolding list_all
other_has-name id name db =
    let test : ServerPublic → Bool = λ s. s.name == name && not (s.id == id) in
    rw
      (
        is_some-first test (order_by newest_first (map to_public db.servers)),
        count-order_by newest_first test (map to_public db.servers),
        count-map to_public test db.servers,
        is_some-first (λ (s : Server). s.name == name && not (s.id == id)) db.servers,
      )
      refl

other_has-host :
    (id : ℕ) (host : String) (db : Db)
    → other_has (λ (s : ServerPublic). s.host == host) id db ≡ host_taken id host db.servers
unfolding list_all
other_has-host id host db =
    let test : ServerPublic → Bool = λ s. s.host == host && not (s.id == id) in
    rw
      (
        is_some-first test (order_by newest_first (map to_public db.servers)),
        count-order_by newest_first test (map to_public db.servers),
        count-map to_public test db.servers,
        is_some-first (λ (s : Server). s.host == host && not (s.id == id)) db.servers,
      )
      refl

abbrev pub renaming_of : UpdateBody → UpdateServerData
renaming_of body = record {
  name = some (text_of body.name);
  host = some (text_of body.host);
  encrypted_api_key = none;
  password_hash = none;
}

-- what PUT /:id asks of its body and of the stored servers
pub record IsRenamable (env : Env) (id : ℕ) (body : UpdateBody) (db : Db) : Type 0 where
  pub name : given? body.name ≡ true
  pub host : given? body.host ≡ true
  pub name_form : is_valid_server_name (text_of body.name) ≡ true
  pub host_form : is_valid_host env (text_of body.host) ≡ true
  pub new_name : name_taken id (text_of body.name) db.servers ≡ false
  pub new_host : host_taken id (text_of body.host) db.servers ≡ false

-- a row under the name and the host of the body; all else but the time of the change is as it was
abbrev pub renamed_row : String → UpdateBody → Server → Server
renamed_row now body s = record s {
  name = text_of body.name;
  host = text_of body.host;
  updated_at = now;
}

-- the database with the server renamed_row
abbrev pub with_renaming : String → ℕ → UpdateBody → Db → Db
with_renaming now id body db = record db {
  servers = Table.update (λ (s : Server). s.id == id) (renamed_row now body) db.servers;
}

-- the server of a row as a client sees it
abbrev pub shown : Server → ServerPublic
shown s = record { id = s.id; name = s.name; host = s.host; created_at = s.created_at }

module _ (env : Env) (now : String) (id : ℕ) (body : UpdateBody) (db : Db) (row : Server)
    (found : find_by_id id db ≡ some row) where
  update-free :
      name_taken id (text_of body.name) db.servers ≡ false
      → host_taken id (text_of body.host) db.servers ≡ false
      → update_server now id (renaming_of body) db
        ≡ ok (some (renamed_row now body row), with_renaming now id body db)
  unfolding update_server find_by_id
  update-free n h = ground (
    arith,
    by_key-eq-some (λ (s : Server). s.id) id db.servers row (unfold find_by_id in found),
    by_key-update (λ (s : Server). s.id) (λ (s : Server). s.id == id)
        (assign now (renaming_of body)) id db.servers (λ s t. refl),
  )

  renamable-run :
      IsRenamable env id body db
      → update_route env now (some id) body db
        ≡ (reply 200 (shown (renamed_row now body row)), with_renaming now id body db)
  unfolding update_route
  renamable-run c =
      rw
        (
          found,
          c.name,
          c.host,
          c.name_form,
          c.host_form,
          other_has-name id (text_of body.name) db,
          other_has-host id (text_of body.host) db,
          c.new_name,
          c.new_host,
          update-free c.new_name c.new_host,
        )
        refl

  abbrev is_renamable : Bool
  is_renamable =
      given? body.name
      && given? body.host
      && is_valid_server_name (text_of body.name)
      && is_valid_host env (text_of body.host)
      && not (name_taken id (text_of body.name) db.servers)
      && not (host_taken id (text_of body.host) db.servers)

  renamable-refused :
      is_renamable ≡ false
      → ((status_of (update_route env now (some id) body db).0 ≡ 400)
          ⊎ (status_of (update_route env now (some id) body db).0 ≡ 409))
        × ((update_route env now (some id) body db).1 ≡ db)
  unfolding update_route
  renamable-refused h = ground (
    arith,
    found,
    other_has-name id (text_of body.name) db,
    other_has-host id (text_of body.host) db,
  )

  IsRenamable-iff : (is_renamable ≡ true) ↔ IsRenamable env id body db
  IsRenamable-iff = (
    λ h. record {
      name = ground arith;
      host = ground arith;
      name_form = ground arith;
      host_form = ground arith;
      new_name = ground arith;
      new_host = ground arith;
    },
    λ c. rw (c.name, c.host, c.name_form, c.host_form, c.new_name, c.new_host) refl,
  )

  -- PUT /api/servers/:id of a server that exists, on a well-formed database, with a body whose fields are texts or absent. A request with a valid name
  -- and host that no other server has gets 200 with the server under them, only the name, the host and
  -- the time of its row change, and the database stays well formed; any other request gets 400 or 409
  -- and the database stays as it was.
  pub update_route_branches :
      IsWellFormed db
      → (IsRenamable env id body db
          × (update_route env now (some id) body db
              ≡ (reply 200 (shown (renamed_row now body row)), with_renaming now id body db))
          × IsWellFormed (with_renaming now id body db))
        ⊎ ((¬ IsRenamable env id body db)
            × ((status_of (update_route env now (some id) body db).0 ≡ 400)
                ⊎ (status_of (update_route env now (some id) body db).0 ≡ 409))
            × ((update_route env now (some id) body db).1 ≡ db))
  update_route_branches w = elim (Bool-cases is_renamable) [
    | inl t ↦
        let c = IsRenamable-iff.0 t in
        inl (
          c,
          renamable-run c,
          update_server-IsWellFormed now id (renaming_of body) db _ _ w
              (update-free c.new_name c.new_host),
        )
    | inr f ↦
        let refusal = renamable-refused f in
        inr ((λ c. cc (IsRenamable-iff.1 c, f)), refusal.0, refusal.1)
  ]
