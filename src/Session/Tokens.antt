-- ===== src/Session/Tokens.antt =====
-- Which tokens the two middlewares refuse: requireMasterAuth those that are no master token, and
-- serverContextMiddleware those without a server.
use lo_ra_dbase.Common.{
  ℕ, ◌/◌, String, ◌≡◌, refl, inl, inr, true, Option, none, some, arith, eq_iff, ltb, nat_eq,
  string_eq, Bool-cases,
}
use Prim.Native.String.{◌++◌ as append_text}
use lo_ra_dbase.Db.{Db}
use lo_ra_dbase.Crypto.{Claims, Laws}
use lo_ra_dbase.Config.{Env, is_protected}
use lo_ra_dbase.Http.{Reply, status_of, given?}
use lo_ra_dbase.Servers.{ServerPublic}
use lo_ra_dbase.Servers.Routes.{stop, CreateBody, UpdateBody, Draws}
use lo_ra_dbase.Encryption.Cache.{Cache}
use lo_ra_dbase.Auth.{session_claims}
use lo_ra_dbase.Session.{
  require_master_auth, after_prefix, server_context, post_server, put_server, delete_server,
}
use lo_ra_dbase.Text.Prefix.{after_prefix-append}

-- the Authorization header of a client that holds the token
abbrev pub bearer : String → String
bearer token = append_text "Bearer " token

pub bearer_lem : (token : String) → after_prefix "Bearer " (bearer token) ≡ some token
bearer_lem token = after_prefix-append "Bearer " token

module _ (env : Env) (laws : Laws env.crypto) (now : ℕ) (c : Claims) where
  abbrev signed : String
  signed = env.crypto.jwt_sign c env.config.jwt_secret

  pub signed-given : given? (some signed) ≡ true
  signed-given = ground (arith, laws.sign_not_empty c env.config.jwt_secret, eq_iff signed "")

  -- A token that is no master token is refused, expired or not.
  other_token-refused :
      {A : Type 0}
      → is_protected env.config ≡ true
      → c.type ≡ none
      → (answer : Reply A) × (require_master_auth env now (some signed) ≡ some answer)
        × (status_of answer ≡ 401)
  unfolding require_master_auth
  other_token-refused protected none_type = elim (Bool-cases (ltb (now / 1000) c.exp)) [
    | inl valid ↦
        let v = laws.verify-sign (now / 1000) c env.config.jwt_secret (ground (arith, valid)) in
        rw (protected, signed-given, v, none_type) (_, refl, refl)
    | inr late ↦
        let v =
          laws.verify-sign_expired (now / 1000) c env.config.jwt_secret (ground (arith, late)) in
        rw (protected, signed-given, v) (_, refl, refl)
  ]

  -- A token without a server opens no server.
  pub serverless-refused :
      {A : Type 0} (db : Db) (cache : Cache)
      → c.server_id ≡ none
      → (answer : Reply A) × (server_context env now (some (bearer signed)) db cache
          ≡ (stop answer, cache))
        × (status_of answer ≡ 401)
  unfolding server_context
  serverless-refused db cache without = elim (Bool-cases (ltb (now / 1000) c.exp)) [
    | inl valid ↦
        let v = laws.verify-sign (now / 1000) c env.config.jwt_secret (ground (arith, valid)) in
        rw (bearer_lem signed, server_context, v, without) (_, refl, refl)
    | inr late ↦
        let v =
          laws.verify-sign_expired (now / 1000) c env.config.jwt_secret (ground (arith, late)) in
        rw (bearer_lem signed, server_context, v) (_, refl, refl)
  ]

abbrev pub session_token : Env → ℕ → String → ℕ → String
session_token env issued random server_id =
    env.crypto.jwt_sign (session_claims env issued random server_id) env.config.jwt_secret

-- With packages that keep their `Laws` and a master password set, a session token opens none of the routes that change servers: creation,
-- update and deletion answer 401 and change neither the database nor the cache, whenever the token
-- was issued and for whichever server.
pub session_token-refused :
    (env : Env) (issued now : ℕ) (random : String) (server_id : ℕ) (draws : Draws) (stamp : String)
    (body : CreateBody) (update : UpdateBody) (id : Option ℕ) (db : Db) (cache : Cache)
    → Laws env.crypto
    → is_protected env.config ≡ true
    → (let token = some (session_token env issued random server_id) in
        ((status_of (post_server env now token draws stamp body db).0 ≡ 401)
          × ((post_server env now token draws stamp body db).1 ≡ db))
        × ((status_of (put_server env now token stamp id update db).0 ≡ 401)
            × ((put_server env now token stamp id update db).1 ≡ db))
        × ((status_of (delete_server env now token id db cache).0 ≡ 401)
            × ((delete_server env now token id db cache).1 ≡ db)
            × ((delete_server env now token id db cache).2 ≡ cache)))
unfolding post_server put_server delete_server
session_token-refused env issued now random server_id draws stamp body update id db cache laws on =
    let c = session_claims env issued random server_id in
    let (a, e, s) = other_token-refused env laws now c {A = ServerPublic} on refl in
    let (b, f, t) = other_token-refused env laws now c {A = String} on refl in
    (
      rw (e, post_server) (s, refl),
      rw (e, put_server) (s, refl),
      rw (f, delete_server) (t, refl, refl),
    )
