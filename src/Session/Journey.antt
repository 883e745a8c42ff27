-- ===== src/Session/Journey.antt =====
-- From the creation of a server over a login to the client that the proxy is given.
use lo_ra_dbase.Common.{
  ℕ, ◌+◌, ◌*◌, ◌/◌, ◌≤◌, ◌<◌, String, ◌≡◌, refl, ap, ◌≢◌, inl, inr, Bool, false, ◌&&◌, Option, none,
  some, arith, ◌==◌, nat_eq, string_eq, Option-cases, beq_refl, beq_of_ne, All, All-map,
}
use lo_ra_dbase.Table.{count}
use lo_ra_dbase.Table.Laws.{first-insert_new, count-zero_iff, first-none, All-first}
use lo_ra_dbase.Table.Keys.{by_key, absent_of_All-ne, by_key-eq-some}
use lo_ra_dbase.Db.{Db, Server, FailedAttempt}
use lo_ra_dbase.Db.WellFormed.{IsWellFormed}
use lo_ra_dbase.Crypto.{Bytes, Laws}
use lo_ra_dbase.Config.{Env}
use lo_ra_dbase.Http.{Reply, reply, text_of}
use lo_ra_dbase.Servers.{ServerPublic, find_by_id, server_row}
use lo_ra_dbase.Servers.Routes.{go_on, CreateBody, Draws, stored_data, create_server}
use lo_ra_dbase.Servers.Creation.{IsCreatable, request_of, with_server, creatable_run}
use lo_ra_dbase.Encryption.Codec.{decrypt_api_key, decrypt-encrypt}
use lo_ra_dbase.Encryption.Cache.{Cache, CacheEntry, get}
use lo_ra_dbase.Encryption.Cache.Laws.{IsCache, IsCoherent}
use lo_ra_dbase.Lockout.{
  is_of, is_recent, clear_failed_attempts, is_locked_out, get_recent_failed_attempts,
}
use lo_ra_dbase.Auth.{
  Client, Pending, session, session_claims, expiration_hours, max_failed_attempts,
  failed_attempt_window_minutes, get_client_ip, authenticate_check, authenticate_finish,
  authenticate,
}
use lo_ra_dbase.Session.{server_context, base_url}
use lo_ra_dbase.Session.Tokens.{bearer, session_token}
use lo_ra_dbase.Session.Login.{credentials, token-opens}

no_attempts :
    (db : Db)
    → IsWellFormed db
    → All (λ (a : FailedAttempt). a.server_id ≢ db.next_server) db.failed_attempts
no_attempts db w =
    All-map {Q = λ (a : FailedAttempt). a.server_id ≢ db.next_server}
      (λ (a : FailedAttempt) there e.
        elim (Option-cases (by_key (λ (s : Server). s.id) a.server_id db.servers)) [
          | inl absent ↦ there absent
          | inr (s, found) ↦
              let same = by_key-eq-some (λ (s : Server). s.id) a.server_id db.servers s found in
              let lt =
                All-first (λ (s : Server). s.id < db.next_server)
                  (λ (s : Server). s.id == a.server_id) db.servers s w.servers.fresh found in
              omega (arith, same, lt, e)
        ])
      db.failed_attempts w.attempts

not_locked :
    (now : ℕ) (ip_address : String) (db db' : Db)
    → IsWellFormed db
    → db'.failed_attempts ≡ db.failed_attempts
    → (is_locked_out now db.next_server ip_address max_failed_attempts failed_attempt_window_minutes
        db').is_locked
      ≡ false
unfolding is_locked_out get_recent_failed_attempts
not_locked now ip_address db db' w same =
    let test : FailedAttempt → Bool =
      λ a. is_of db.next_server ip_address a && is_recent now failed_attempt_window_minutes a in
    let zero_count : count test db.failed_attempts ≡ 0 =
      (count-zero_iff test db.failed_attempts).1 (
        first-none test db.failed_attempts (
          All-map {Q = λ (a : FailedAttempt). test a ≡ false}
            (λ (a : FailedAttempt) n. rw (beq_of_ne a.server_id db.next_server n) refl)
            db.failed_attempts (no_attempts db w))) in
    rw (same, zero_count) refl

module _ (env : Env) (laws : Laws env.crypto) (draws : Draws) (stamp : String) (body : CreateBody)
    (db : Db) (w : IsWellFormed db) (c : IsCreatable env body db) where
  -- the database and the row that POST /api/servers leaves
  abbrev made : Db
  made = with_server (stored_data env draws (request_of body)) stamp db

  abbrev row : Server
  row = server_row db.next_server (stored_data env draws (request_of body)) stamp stamp

  create-made : (create_server env draws stamp body db).1 ≡ made
  create-made =
      ap (λ (x : Reply ServerPublic × Db). x.1) (creatable_run env draws stamp body db w c)

  row-found : find_by_id db.next_server made ≡ some row
  unfolding find_by_id
  row-found =
      first-insert_new (λ (s : Server). s.id == db.next_server) db.servers row
        (absent_of_All-ne (λ (s : Server). s.id) db.next_server db.servers
          (All-map {Q = λ (s : Server). s.id ≢ db.next_server} (λ s lt e. omega arith) db.servers
            w.servers.fresh))
        (beq_refl db.next_server)

  row-opens :
      decrypt_api_key env.crypto (credentials row) row.password_hash ≡ some (text_of body.api_key)
  row-opens =
      decrypt-encrypt env.crypto laws draws.salt draws.iv (text_of body.api_key) row.password_hash

  abbrev login : Client → Pending
  login client = record {
    server = row;
    server_id = db.next_server;
    ip_address = get_client_ip client;
    password = text_of body.password;
  }

  check-login :
      (now : ℕ) (client : Client)
      → authenticate_check now client (some db.next_server) body.password made
        ≡ go_on (login client)
  unfolding authenticate_check
  check-login now client =
      rw (c.password, row-found, not_locked now (get_client_ip client) db made w refl) refl

  finish-login :
      (later : ℕ) (random : Bytes) (client : Client)
      → authenticate_finish env later random (login client) made ≡ (
        reply 200 (
            session
              (session_token env later (env.crypto.to_hex random) db.next_server)
              ((session_claims env later (env.crypto.to_hex random) db.next_server).exp * 1000)
              db.next_server
              (text_of body.name)
              (text_of body.host)),
        clear_failed_attempts db.next_server (get_client_ip client) made,
      )
  unfolding authenticate_finish
  finish-login later random client =
      rw (laws.compare-hash draws.bcrypt_salt (text_of body.password)) refl

  login-run :
      (now later : ℕ) (random : Bytes) (client : Client)
      → authenticate env now later random client (some db.next_server) body.password made
        ≡ authenticate_finish env later random (login client) made
  unfolding authenticate
  login-run now later random client = rw (check-login now client, authenticate) refl

-- the keys that a cache holds, and a default where it holds none
keys_of : Cache → String → ℕ → Option String
keys_of cache default k = elim (get k cache) [ none ↦ some default | some e ↦ some e.api_key ]

keys_of-IsCoherent : (cache : Cache) (default : String) → IsCoherent (keys_of cache default) cache
unfolding keys_of
keys_of-IsCoherent cache default k e found = rw (found, keys_of) refl

keys_of-own :
    (cache : Cache) (default : String) (k : ℕ)
    → ((e : CacheEntry) → get k cache ≡ some e → e.api_key ≡ default)
    → keys_of cache default k ≡ some default
unfolding keys_of
keys_of-own cache default k own = elim (Option-cases (get k cache)) [
  | inl absent ↦ rw (absent, keys_of) refl
  | inr (e, found) ↦ rw (found, keys_of) (ap some (own e found))
]

-- With packages that keep their `Laws`, on a well-formed database whose next identifier is at least 1:
-- a server that POST /api/servers accepts can be used. A login with the password that it was created
-- with answers 200 with a session token, whoever logs in, and until the token's hours are over the
-- middleware that reads it sets up a client of the given host with the given API key, whatever the
-- cache of API keys holds by then for other servers, if it is within its bound and holds no other key
-- for this one.
pub created_server-opens :
    (env : Env) (draws : Draws) (stamp : String) (body : CreateBody) (db : Db) (client : Client)
    (now later after : ℕ) (random : Bytes) (cache : Cache)
    → Laws env.crypto
    → IsWellFormed db
    → 1 ≤ db.next_server
    → IsCreatable env body db
    → after / 1000 < later / 1000 + expiration_hours env * 60 * 60
    → IsCache cache
    → ((e : CacheEntry) → get db.next_server cache ≡ some e → e.api_key ≡ text_of body.api_key)
    → (let made = (create_server env draws stamp body db).1 in
        let run =
          authenticate env now later random client (some db.next_server) body.password made in
        (token : String) × (expires_at : ℕ) × (run.0
          ≡ reply 200
              (session token expires_at db.next_server (text_of body.name) (text_of body.host)))
        × ((server_context {A = String} env after (some (bearer token)) run.1 cache).0
            ≡ go_on (record {
              base_url = base_url (text_of body.host);
              api_key = text_of body.api_key;
              server_id = db.next_server;
              name = text_of body.name;
              host = text_of body.host;
              session_token = some (env.crypto.to_hex random);
            })))
created_server-opens env draws stamp body db client now later after random cache laws w pos c lasts
      bounded own =
    let id = db.next_server in
    let new_row = row env laws draws stamp body db w c in
    let cleared =
      clear_failed_attempts id (get_client_ip client) (made env laws draws stamp body db w c) in
    rw
      (
        create-made env laws draws stamp body db w c,
        login-run env laws draws stamp body db w c now later random client,
        finish-login env laws draws stamp body db w c later random client,
      )
      (
        session_token env later (env.crypto.to_hex random) id,
        (session_claims env later (env.crypto.to_hex random) id).exp * 1000,
        refl,
        token-opens env laws (keys_of cache (text_of body.api_key)) cleared cache bounded
            (keys_of-IsCoherent cache (text_of body.api_key)) id new_row (text_of body.api_key)
            (unfold clear_failed_attempts find_by_id in row-found env laws draws stamp body db w c)
            (row-opens env laws draws stamp body db w c)
            (keys_of-own cache (text_of body.api_key) id own) pos (env.crypto.to_hex random) later
            after lasts,
      )
