-- ===== src/Session/Tests.antt =====
-- The theorems on tokens at concrete requests.
use lo_ra_dbase.Common.{
  ℕ, ◌+◌, ◌*◌, ◌/◌, ◌≤◌, ◌<◌, String, ◌≡◌, refl, ◌≢◌, ◌⊎◌, true, Option, none, some, [], ◌∷◌, arith,
  nat_eq, string_eq,
}
use lo_ra_dbase.Text
use lo_ra_dbase.Samples.{env, db, gamma, draws, db-IsWellFormed}
use lo_ra_dbase.Table.{first}
use lo_ra_dbase.Crypto.Sample.{sample-Laws}
use lo_ra_dbase.Config.{is_protected}
use lo_ra_dbase.Http.{Reply, reply, fail, status_of}
use lo_ra_dbase.Passwords.{validate_password}
use lo_ra_dbase.Servers.{find_by_name, find_by_host}
use lo_ra_dbase.Servers.Validation.{is_valid_server_name, is_valid_host, base_url}
use lo_ra_dbase.Servers.Routes.{UpdateBody, stop, go_on, create_server}
use lo_ra_dbase.Servers.Creation.{IsCreatable}
use lo_ra_dbase.Auth.{Client, session, authenticate}
use lo_ra_dbase.Session.{
  MasterSession, server_context, require_master_auth, verify_master_password, post_server,
  put_server, delete_server,
}
use lo_ra_dbase.Session.Tokens.{bearer, session_token, session_token-refused}
use lo_ra_dbase.Session.Master.{master_header, master_token-refused}
use lo_ra_dbase.Proxy.{LoRaDb, proxy, rejected, other, tokens}
use lo_ra_dbase.Dashboards.Router.{serve, make_default}
use lo_ra_dbase.Encryption.Cache.{Cache, CacheEntry, get}
use lo_ra_dbase.Session.Login.{master_session_lem}
use lo_ra_dbase.Servers.{find_by_id}
use lo_ra_dbase.Servers.Routes.{delete_route}
use lo_ra_dbase.Encryption.Cache.Laws.{IsCache}
use lo_ra_dbase.Session.Deleted.{deleted_server-refused}
use lo_ra_dbase.Session.Journey.{created_server-opens}

protected : is_protected env.config ≡ true
unfolding Text.length
protected = refl

abbrev update : UpdateBody
update = record { name = some "delta"; host = some "d.example:3000" }

session_token-refused_example :
    (let token = some (session_token env 0 "r" 1) in
      ((status_of (post_server env 9000 token draws "2025-02-01" gamma db).0 ≡ 401)
        × ((post_server env 9000 token draws "2025-02-01" gamma db).1 ≡ db))
      × ((status_of (put_server env 9000 token "2025-02-01" (some 1) update db).0 ≡ 401)
          × ((put_server env 9000 token "2025-02-01" (some 1) update db).1 ≡ db))
      × ((status_of (delete_server env 9000 token (some 1) db []).0 ≡ 401)
          × ((delete_server env 9000 token (some 1) db []).1 ≡ db)
          × ((delete_server env 9000 token (some 1) db []).2 ≡ [])))
session_token-refused_example =
    session_token-refused env 0 9000 "r" 1 draws "2025-02-01" gamma update (some 1) db []
      sample-Laws protected

abbrev unreachable : LoRaDb ℕ
unreachable context call calls = (rejected other, calls + 1)

master_token-refused_example :
    (let proxied = proxy env unreachable 9000 (master_header env 0) tokens db [] 0 in
      let served =
        serve env 9000
          (master_header env 0)
          (λ e. "error")
          "2025-02-01"
          "2025-02-01"
          (make_default (some 1))
          db
          [] in
      ((status_of proxied.0 ≡ 401) × (proxied.1 ≡ []) × (proxied.2 ≡ 0))
      × ((status_of served.0 ≡ 401) × (served.1 ≡ db) × (served.2 ≡ [])))
master_token-refused_example =
    master_token-refused env 0 9000 db [] unreachable 0 tokens (λ e. "error") "2025-02-01"
      "2025-02-01" (make_default (some 1)) sample-Laws

abbrev attempt : Option String
attempt = some "open sesame"

master_session_lem_example :
    ((attempt ≡ some env.config.master_password)
      × (s : MasterSession) × (verify_master_password env 5000 attempt ≡ reply 200 s)
      × ((later : ℕ)
          → later / 1000 < 5000 / 1000 + 24 * 60 * 60
          → require_master_auth {A = String} env later (some s.token) ≡ none)
      × ((later : ℕ)
          → 5000 / 1000 + 24 * 60 * 60 ≤ later / 1000
          → require_master_auth {A = String} env later (some s.token)
            ≡ some (fail 401 "MasterTokenExpired" "Master session has expired")))
    ⊎ ((attempt ≢ some env.config.master_password)
        × ((status_of (verify_master_password env 5000 attempt) ≡ 400)
            ⊎ (status_of (verify_master_password env 5000 attempt) ≡ 401)))
master_session_lem_example = master_session_lem env 5000 attempt sample-Laws protected

gamma-IsCreatable : IsCreatable env gamma db
unfolding is_valid_server_name is_valid_host validate_password Text.length find_by_name find_by_host
    first
gamma-IsCreatable = record {
  api_key = refl;
  confirm = refl;
  name = refl;
  host = refl;
  password = refl;
  name_form = refl;
  host_form = refl;
  password_form = refl;
  confirmed = refl;
  new_name = refl;
  new_host = refl;
}

abbrev client : Client
client = record { forwarded_for = none; remote_address = some "10.0.0.1" }

-- the key of another server is in the cache
abbrev warm : Cache
warm = (1, record { api_key = "key of alpha"; timestamp = 590000 }) ∷ []

warm-IsCache : IsCache warm
warm-IsCache = record { keys = (tt, tt); bound = omega arith }

not_warm : (e : CacheEntry) → get 3 warm ≡ some e → e.api_key ≡ "key of gamma"
not_warm e found = absurd (unfold get in cc)

created_server-opens_example :
    (let made = (create_server env draws "2025-02-01" gamma db).1 in
      let run = authenticate env 5000 5100 (7 ∷ []) client (some 3) (some "long enough") made in
      (token : String) × (expires_at : ℕ) × (run.0
        ≡ reply 200 (session token expires_at 3 "gamma" "c.example:3000"))
      × ((server_context {A = String} env 600000 (some (bearer token)) run.1 warm).0
          ≡ go_on (record {
            base_url = base_url "c.example:3000";
            api_key = "key of gamma";
            server_id = 3;
            name = "gamma";
            host = "c.example:3000";
            session_token = some (env.crypto.to_hex (7 ∷ []));
          })))
created_server-opens_example =
    created_server-opens env draws "2025-02-01" gamma db client 5000 5100 600000 (7 ∷ []) warm
      sample-Laws db-IsWellFormed (omega arith) gamma-IsCreatable (omega arith) warm-IsCache
      not_warm

alpha-there : find_by_id 1 db ≢ none
unfolding find_by_id first
alpha-there = λ absent. cc

no_keys : IsCache []
no_keys = record { keys = tt; bound = omega arith }

deleted_server-refused_example :
    (let run = delete_route (some 1) db [] in
      (answer : Reply String) × (server_context env 9000
          (some (bearer (session_token env 5000 "r" 1)))
          run.1
          run.2
        ≡ (stop answer, run.2))
      × ((status_of answer ≡ 401) ⊎ (status_of answer ≡ 404)))
deleted_server-refused_example =
    deleted_server-refused env 5000 9000 "r" 1 db [] sample-Laws db-IsWellFormed no_keys alpha-there
