-- ===== src/Samples.antt =====
-- Concrete values that the tests share: settings, two servers, and a well-formed database with a
-- default dashboard and five failed attempts.
use lo_ra_dbase.Common.{
  ℕ, ◌<◌, ◌≡◌, refl, ◌≢◌, none, some, [], ◌∷◌, arith, nat_eq, string_eq, ne_of_beq,
}
use lo_ra_dbase.Table.{first, count}
use lo_ra_dbase.Table.Keys.{by_key}
use lo_ra_dbase.Json.{arr, nil, obj, end}
use lo_ra_dbase.Db.{Db, Server, Dashboard, FailedAttempt}
use lo_ra_dbase.Db.WellFormed.{IsWellFormed, is_default_of}
use lo_ra_dbase.Config.{Env}
use lo_ra_dbase.Servers.Routes.{CreateBody, Draws}
use lo_ra_dbase.Crypto.Sample.{sample}
use lo_ra_dbase.Servers.{find_by_id}

abbrev pub env : Env
env = record {
  crypto = sample;
  config = record {
    jwt_secret = "a secret of at least 32 characters";
    jwt_expiration_hours = 1;
    master_password = "open sesame";
    master_session_hours = 24;
  };
  url_hostname = λ host. some host;
}

abbrev pub alpha : Server
alpha = record {
  id = 1;
  name = "alpha";
  host = "a.example:3000";
  api_key = "c1";
  api_key_iv = "i1";
  api_key_auth_tag = "t1";
  api_key_salt = "s1";
  password_hash = "correct horse";
  created_at = "2025-01-01";
  updated_at = "2025-01-01";
}

abbrev pub beta : Server
beta = record alpha { id = 2; name = "beta"; host = "b.example:3000"; created_at = "2025-01-02" }

abbrev pub board : Dashboard
board = record {
  id = 1;
  server_id = 1;
  name = "Main";
  is_default = 1;
  version = "2.0";
  time_range = "24h";
  auto_refresh = 1;
  refresh_interval = 60;
  widgets = arr nil;
  layouts = obj end;
  created_at = "2025-01-03";
  updated_at = "2025-01-03";
}

abbrev pub spare : Dashboard
spare = record board { id = 2; name = "Spare"; is_default = 0 }

abbrev attempt : ℕ → ℕ → FailedAttempt
attempt id at = record { id = id; server_id = 1; ip_address = "10.0.0.1"; attempted_at = at }

abbrev pub db : Db
db = record {
  servers = alpha ∷ beta ∷ [];
  failed_attempts =
      attempt 1 1000 ∷ attempt 2 2000 ∷ attempt 3 3000 ∷ attempt 4 4000 ∷ attempt 5 5000 ∷ [];
  dashboards = board ∷ spare ∷ [];
  next_server = 3;
  next_attempt = 6;
  next_dashboard = 3;
}

-- the same without failed attempts
abbrev pub calm : Db
calm = record db { failed_attempts = [] }

pub alpha-found : find_by_id 1 db ≡ some alpha
unfolding find_by_id first
alpha-found = refl

one-default : (k : ℕ) → count (is_default_of k) db.dashboards < 2
unfolding count
one-default k = ground arith

pub db-IsWellFormed : IsWellFormed db
unfolding first
db-IsWellFormed =
    let there : by_key (λ (s : Server). s.id) 1 db.servers ≢ none = λ absent. cc in
    record {
      servers = record {
        ids = ((λ e. omega arith, tt), (tt, tt));
        names = ((ne_of_beq "alpha" "beta" refl, tt), (tt, tt));
        hosts = ((ne_of_beq "a.example:3000" "b.example:3000" refl, tt), (tt, tt));
        fresh = (omega arith, (omega arith, tt));
      };
      dashboards = record {
        ids = ((λ e. omega arith, tt), (tt, tt));
        fresh = (omega arith, (omega arith, tt));
        owned = (there, (there, tt));
        one_default = one-default;
      };
      attempts = (there, (there, (there, (there, (there, tt)))));
    }

pub calm-IsWellFormed : IsWellFormed calm
calm-IsWellFormed = record {
  servers = db-IsWellFormed.servers;
  dashboards = db-IsWellFormed.dashboards;
  attempts = tt;
}

-- a request for a third server
abbrev pub draws : Draws
draws = record { bcrypt_salt = 7 ∷ []; salt = 8 ∷ []; iv = 9 ∷ [] }

abbrev pub gamma : CreateBody
gamma = record {
  name = some "gamma";
  host = some "c.example:3000";
  api_key = some "key of gamma";
  password = some "long enough";
  password_confirm = some "long enough";
}
