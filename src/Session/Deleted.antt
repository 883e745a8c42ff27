-- ===== src/Session/Deleted.antt =====
-- What becomes of the sessions of a server that is deleted.
use lo_ra_dbase.Common.{
  ℕ, ◌/◌, String, ◌≡◌, refl, ◌≢◌, ◌⊎◌, inl, inr, none, some, arith, ltb, ◌==◌, nat_eq, string_eq,
  Bool-cases,
}
use lo_ra_dbase.Db.{Db}
use lo_ra_dbase.Db.WellFormed.{IsWellFormed}
use lo_ra_dbase.Crypto.{Laws}
use lo_ra_dbase.Config.{Env}
use lo_ra_dbase.Http.{Reply, status_of}
use lo_ra_dbase.Servers.{find_by_id}
use lo_ra_dbase.Servers.Routes.{stop, delete_route}
use lo_ra_dbase.Servers.Removal.{delete_route_lem}
use lo_ra_dbase.Encryption.Cache.{Cache}
use lo_ra_dbase.Encryption.Cache.Laws.{IsCache}
use lo_ra_dbase.Auth.{session_claims}
use lo_ra_dbase.Session.{server_context}
use lo_ra_dbase.Session.Tokens.{bearer, bearer_lem, session_token}

-- With packages that keep their `Laws`, on a well-formed database and a cache with one entry for a
-- server: once DELETE /api/servers/:id has deleted a server, its session tokens are refused, whenever
-- they were issued and also while they last.
pub deleted_server-refused :
    (env : Env) (issued now : ℕ) (random : String) (server_id : ℕ) (db : Db) (cache : Cache)
    → Laws env.crypto
    → IsWellFormed db
    → IsCache cache
    → find_by_id server_id db ≢ none
    → (let run = delete_route (some server_id) db cache in
        (answer : Reply String) × (server_context env now
            (some (bearer (session_token env issued random server_id)))
            run.1
            run.2
          ≡ (stop answer, run.2))
        × ((status_of answer ≡ 401) ⊎ (status_of answer ≡ 404)))
unfolding server_context
deleted_server-refused env issued now random server_id db cache laws w k there =
    let c = session_claims env issued random server_id in
    let token = session_token env issued random server_id in
    let gone = (delete_route_lem server_id db cache w k there).1.gone in
    elim (Bool-cases (ltb (now / 1000) c.exp)) [
      | inr late ↦
          let v =
            laws.verify-sign_expired (now / 1000) c env.config.jwt_secret (ground (arith, late)) in
          rw (bearer_lem token, server_context, v) (_, refl, inl refl)
      | inl valid ↦
          let v = laws.verify-sign (now / 1000) c env.config.jwt_secret (ground (arith, valid)) in
          elim (Bool-cases (server_id == 0)) [
            | inl t ↦ rw (bearer_lem token, server_context, v, t) (_, refl, inl refl)
            | inr f ↦ rw (bearer_lem token, server_context, v, f, gone) (_, refl, inr refl)
          ]
    ]
