-- ===== src/Session/Login.antt =====
-- What a login gives: the way of an API key from the creation of a server to its client, and the life
-- of a master session.
use lo_ra_dbase.Common.{
  ℕ, ◌+◌, ◌*◌, ◌/◌, ◌≤◌, ◌<◌, String, ◌≡◌, refl, sym, ◌∙◌, ◌≢◌, ◌⊎◌, inl, inr, true, false, Option,
  none, some, arith, eq_iff, ◌==◌, nat_eq, string_eq, Bool-cases, beq_refl, ne_of_beq, beq_of_ne,
}
use Prim.Native.String.{len}
use lo_ra_dbase.Db.{Db, Server, EncryptedData}
use lo_ra_dbase.Crypto.{Laws}
use lo_ra_dbase.Config.{Env, is_protected}
use lo_ra_dbase.Http.{reply, fail, status_of}
use lo_ra_dbase.Servers.{find_by_id, get_encrypted_api_key}
use lo_ra_dbase.Servers.Validation.{base_url}
use lo_ra_dbase.Servers.Routes.{go_on}
use lo_ra_dbase.Encryption.Codec.{decrypt_api_key}
use lo_ra_dbase.Encryption.Cache.{Cache, get_decrypted_api_key}
use lo_ra_dbase.Encryption.Cache.Laws.{IsCache, IsCoherent, get_decrypted_api_key-transparent}
use lo_ra_dbase.Auth.{session_claims}
use lo_ra_dbase.Session.{
  require_master_auth, Context, server_context, verify_master_password, is_same_password,
  MasterSession, master_claims,
}
use lo_ra_dbase.Session.Tokens.{bearer, bearer_lem, session_token, signed-given}

-- the credentials in a server's row
abbrev pub credentials : Server → EncryptedData
credentials s = record {
  ciphertext = s.api_key;
  iv = s.api_key_iv;
  auth_tag = s.api_key_auth_tag;
  salt = s.api_key_salt;
}

pub credentials_lem :
    (id : ℕ) (db : Db) (s : Server)
    → find_by_id id db ≡ some s
    → get_encrypted_api_key id db ≡ some (credentials s)
unfolding get_encrypted_api_key
credentials_lem id db s found = rw (found, get_encrypted_api_key) refl

abbrev pub client_of : Server → String → Option String → Context
client_of s key token = record {
  base_url = base_url s.host;
  api_key = key;
  server_id = s.id;
  name = s.name;
  host = s.host;
  session_token = token;
}

module _ (env : Env) (laws : Laws env.crypto) (truth : ℕ → Option String) (db : Db) (cache : Cache)
    (k : IsCache cache) (h : IsCoherent truth cache) (server_id : ℕ) (s : Server) (key : String)
    (found : find_by_id server_id db ≡ some s)
    (opens : decrypt_api_key env.crypto (credentials s) s.password_hash ≡ some key)
    (right : truth server_id ≡ some key) (positive : 1 ≤ server_id) where
  got :
      (now : ℕ)
      → (get_decrypted_api_key env.crypto now server_id (credentials s) s.password_hash cache).0
        ≡ some key
  got now =
      (get_decrypted_api_key-transparent env.crypto truth now server_id (credentials s)
        s.password_hash cache k h (opens ∙ sym right)).0
      ∙ right

  -- While it lasts, a session token opens its server.
  pub token-opens :
      (random : String) (issued now : ℕ)
      → now / 1000 < (session_claims env issued random server_id).exp
      → (server_context {A = String} env now
          (some (bearer (session_token env issued random server_id)))
          db
          cache).0
        ≡ go_on (client_of s key (some random))
  unfolding server_context
  token-opens random issued now valid =
      let c = session_claims env issued random server_id in
      let v = laws.verify-sign (now / 1000) c env.config.jwt_secret valid in
      rw (bearer_lem (session_token env issued random server_id), server_context, v)
        (ground (
          arith,
          found,
          credentials_lem server_id db s found,
          got now,
          beq_of_ne server_id 0 (λ e. omega arith),
        ))

is_same_password-beq : (p q : String) → is_same_password p q ≡ (p == q)
unfolding is_same_password
is_same_password-beq p q = elim (Bool-cases (p == q)) [
  | inr other ↦ ground arith
  | inl same ↦
      let e : p ≡ q = ground (arith, eq_iff p q) in rw (e, beq_refl q, beq_refl (len q)) refl
]

module _ (env : Env) (laws : Laws env.crypto) (now : ℕ) (on : is_protected env.config ≡ true) where
  abbrev issued : MasterSession
  issued = record {
    token = env.crypto.jwt_sign (master_claims env now) env.config.jwt_secret;
    expires_at = (master_claims env now).exp * 1000;
  }

  verify-right : verify_master_password env now (some env.config.master_password) ≡ reply 200 issued
  unfolding verify_master_password
  verify-right = ground (
    arith,
    is_same_password-beq env.config.master_password env.config.master_password,
    beq_refl env.config.master_password,
  )

  verify-wrong :
      (password : String)
      → (password == env.config.master_password) ≡ false
      → (status_of (verify_master_password env now (some password)) ≡ 400)
        ⊎ (status_of (verify_master_password env now (some password)) ≡ 401)
  unfolding verify_master_password
  verify-wrong password wrong =
      ground (arith, is_same_password-beq password env.config.master_password)

  issued-accepted :
      (later : ℕ)
      → later / 1000 < (master_claims env now).exp
      → require_master_auth {A = String} env later (some issued.token) ≡ none
  unfolding require_master_auth
  issued-accepted later valid =
      let c = master_claims env now in
      rw
        (
          on,
          signed-given env laws later c,
          laws.verify-sign (later / 1000) c env.config.jwt_secret valid,
        )
        refl

  issued-expired :
      (later : ℕ)
      → (master_claims env now).exp ≤ later / 1000
      → require_master_auth {A = String} env later (some issued.token)
        ≡ some (fail 401 "MasterTokenExpired" "Master session has expired")
  unfolding require_master_auth
  issued-expired later late =
      let c = master_claims env now in
      rw
        (
          on,
          signed-given env laws later c,
          laws.verify-sign_expired (later / 1000) c env.config.jwt_secret late,
        )
        refl

-- The life of a master session, with packages that keep their `Laws` and a master password set: `verify-master-password` answers 200 exactly
-- to that password, and its token opens the master routes until the session's hours are over.
pub master_session_lem :
    (env : Env) (now : ℕ) (password : Option String)
    → Laws env.crypto
    → is_protected env.config ≡ true
    → ((password ≡ some env.config.master_password)
        × (s : MasterSession) × (verify_master_password env now password ≡ reply 200 s)
        × ((later : ℕ)
            → later / 1000 < now / 1000 + env.config.master_session_hours * 60 * 60
            → require_master_auth {A = String} env later (some s.token) ≡ none)
        × ((later : ℕ)
            → now / 1000 + env.config.master_session_hours * 60 * 60 ≤ later / 1000
            → require_master_auth {A = String} env later (some s.token)
              ≡ some (fail 401 "MasterTokenExpired" "Master session has expired")))
      ⊎ ((password ≢ some env.config.master_password)
          × ((status_of (verify_master_password env now password) ≡ 400)
              ⊎ (status_of (verify_master_password env now password) ≡ 401)))
unfolding verify_master_password
master_session_lem env now none laws on = inr (λ e. cc, inl (ground arith))
master_session_lem env now (some password) laws on =
    elim (Bool-cases (password == env.config.master_password)) [
      | inr wrong ↦ inr (
        (λ e.
            let same : password ≡ env.config.master_password = cc in
            ne_of_beq password env.config.master_password wrong same),
        verify-wrong env laws now on password wrong,
      )
      | inl right ↦
          let same : password ≡ env.config.master_password =
            ground (arith, eq_iff password env.config.master_password) in
          rw same (
            inl (
              refl,
              issued env laws now on,
              verify-right env laws now on,
              issued-accepted env laws now on,
              issued-expired env laws now on,
            ))
    ]
