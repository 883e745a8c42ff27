-- ===== src/Session/Master.antt =====
-- What a master token opens of the routes that stand behind the server context.
use lo_ra_dbase.Common.{ℕ, String, ◌≡◌, refl, Option, some, nat_eq, string_eq}
use lo_ra_dbase.Db.{Db}
use lo_ra_dbase.Crypto.{Laws}
use lo_ra_dbase.Config.{Env}
use lo_ra_dbase.Http.{status_of}
use lo_ra_dbase.Json.{Json}
use lo_ra_dbase.Encryption.Cache.{Cache}
use lo_ra_dbase.Session.{master_claims}
use lo_ra_dbase.Session.Tokens.{bearer, serverless-refused}
use lo_ra_dbase.Dashboards.Routes.{Thrown, Body}
use lo_ra_dbase.Dashboards.Router
use lo_ra_dbase.Dashboards.Router.{serve}
use lo_ra_dbase.Proxy
use lo_ra_dbase.Proxy.{LoRaDb, proxy}

-- the Authorization header of a client that holds a master token
abbrev pub master_header : Env → ℕ → Option String
master_header env issued =
    some (bearer (env.crypto.jwt_sign (master_claims env issued) env.config.jwt_secret))

-- With packages that keep their `Laws`, a master token opens no server: whenever it was issued, every
-- request to the proxy with it gets 401 and no call reaches a LoRaDB server, and every request to the
-- dashboards gets 401 and leaves the database as it is. Neither changes the cache of API keys.
pub master_token-refused :
    {S : Type 0} (env : Env) (issued now : ℕ) (db : Db) (cache : Cache) (loradb : LoRaDb S) (s : S)
    (call : Proxy.Request) (describe : Thrown → String) (at marked : String)
    (request : Router.Request)
    → Laws env.crypto
    → (let proxied = proxy env loradb now (master_header env issued) call db cache s in
        let served = serve env now (master_header env issued) describe at marked request db cache in
        ((status_of proxied.0 ≡ 401) × (proxied.1 ≡ cache) × (proxied.2 ≡ s))
        × ((status_of served.0 ≡ 401) × (served.1 ≡ db) × (served.2 ≡ cache)))
unfolding proxy serve
master_token-refused env issued now db cache loradb s call describe at marked request laws =
    let (a, e, p) =
      serverless-refused env laws now (master_claims env issued) {A = Json} db cache refl in
    let (b, f, q) =
      serverless-refused env laws now (master_claims env issued) {A = Body} db cache refl in
    (rw (e, proxy) (p, refl, refl), rw (f, serve) (q, refl, refl))
