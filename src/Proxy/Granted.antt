-- ===== src/Proxy/Granted.antt =====
-- Which client the middleware gives to the proxy: LoRaDB-UI/backend/src/middleware/serverContext.ts.
use lo_ra_dbase.Common.{
  ℕ, String, ◌≡◌, refl, sym, ap, ◌∙◌, inl, inr, Bool, true, ◌||◌, Option, none, some, ◌==◌, nat_eq,
  string_eq, Bool-cases, Option-cases,
}
use lo_ra_dbase.Servers.{find_by_id}
use lo_ra_dbase.Servers.Validation.{base_url}
use lo_ra_dbase.Session.{Context, server_context, enter, setup, verify, context_of, decrypted}
use lo_ra_dbase.Session.Login.{credentials, credentials_lem}
use lo_ra_dbase.Config.{Env}
use lo_ra_dbase.Http.{Reply, status_of}
use lo_ra_dbase.Db.{Db, Server}
use lo_ra_dbase.Json.{Json}
use lo_ra_dbase.Encryption.Cache.{Cache, CacheEntry, get, get_decrypted_api_key}
use lo_ra_dbase.Encryption.Cache.Laws.{IsCache, IsCoherent, get_decrypted_api_key-transparent}
use lo_ra_dbase.Encryption.Codec.{decrypt_api_key}
use lo_ra_dbase.Crypto.{
  Claims, Verified, claims, token_expired, json_web_token_error, not_before_error, other_error,
}
use lo_ra_dbase.Servers.Routes.{Stage, stop, go_on}
use lo_ra_dbase.Text.{after_prefix}

-- what the proxy answers by itself
abbrev pub is_refusal : Reply Json → Bool
is_refusal answer =
    status_of answer == 400
    || status_of answer == 401
    || status_of answer == 404
    || status_of answer == 500

-- every key in the cache that belongs to a stored server is the one that its row decrypts to
abbrev pub KeysAgree : Env → Db → Cache → Type 0
KeysAgree env db cache =
    (id : ℕ) (server : Server) (e : CacheEntry)
    → find_by_id id db ≡ some server
    → get id cache ≡ some e
    → decrypt_api_key env.crypto (credentials server) server.password_hash ≡ some e.api_key

-- the token of the header is valid, its server is stored, and the client goes to that server's host and
-- holds the decrypted key of its row; the cache stays right
pub record IsGranted (env : Env) (now : ℕ) (header : Option String) (db : Db) (context : Context)
    (cache' : Cache) : Type 0 where
  pub token : String
  pub token_claims : Claims
  pub id : ℕ
  pub server : Server
  pub sent : (text : String) × (header ≡ some text) × (after_prefix "Bearer " text ≡ some token)
  pub valid : verify env now token ≡ claims token_claims
  pub named : token_claims.server_id ≡ some id
  pub stored : find_by_id id db ≡ some server
  pub opened :
      decrypt_api_key env.crypto (credentials server) server.password_hash ≡ some context.api_key
  pub address : context.base_url ≡ base_url server.host
  pub identifier : context.server_id ≡ server.id
  pub kept : IsCache cache' × KeysAgree env db cache'

-- the key of a stored server, and of any other the cached one
key_of : Env → Db → Cache → ℕ → Option String
key_of env db cache id = elim (find_by_id id db) [
  | none ↦ elim (get id cache) [ none ↦ none | some e ↦ some e.api_key ]
  | some server ↦ decrypt_api_key env.crypto (credentials server) server.password_hash
]

key_of-IsCoherent :
    (env : Env) (db : Db) (cache : Cache)
    → KeysAgree env db cache
    → IsCoherent (key_of env db cache) cache
unfolding key_of
key_of-IsCoherent env db cache agree id e cached = elim (Option-cases (find_by_id id db)) [
  | inl absent ↦ rw (key_of, absent, cached) refl
  | inr (server, found) ↦ rw (key_of, found) (agree id server e found cached)
]

key_of-found :
    (env : Env) (db : Db) (cache : Cache) (id : ℕ) (server : Server)
    → find_by_id id db ≡ some server
    → key_of env db cache id ≡ decrypt_api_key env.crypto (credentials server) server.password_hash
unfolding key_of
key_of-found env db cache id server found = rw (found, key_of) refl

-- what the middleware hands on
unfoldable pub Entry : Env → ℕ → Option String → Db → Stage Json Context × Cache → Type 0
Entry env now header db (stop answer, cache') = is_refusal answer ≡ true
Entry env now header db (go_on context, cache') = IsGranted env now header db context cache'

module _ (env : Env) (now : ℕ) (text token : String) (db : Db) (cache : Cache)
    (bounded : IsCache cache) (agree : KeysAgree env db cache)
    (sent : after_prefix "Bearer " text ≡ some token) where
  decrypted-Entry :
      (c : Claims) (id : ℕ) (server : Server) (r : Option String × Cache)
      → verify env now token ≡ claims c
      → c.server_id ≡ some id
      → find_by_id id db ≡ some server
      → get_decrypted_api_key env.crypto now id (credentials server) server.password_hash cache ≡ r
      → Entry env now (some text) db (decrypted server c.sub r)
  unfolding Entry context_of
  decrypted-Entry c id server (none, cache') valid named stored run = refl
  decrypted-Entry c id server (some api_key, cache') valid named stored run =
      let own = key_of-found env db cache id server stored in
      let (same, bounded', coherent) =
        get_decrypted_api_key-transparent env.crypto (key_of env db cache) now id
          (credentials server) server.password_hash cache bounded
          (key_of-IsCoherent env db cache agree) (sym own) in
      record {
        token = token;
        token_claims = c;
        id = id;
        server = server;
        sent = (text, refl, sent);
        valid = valid;
        named = named;
        stored = stored;
        opened = sym own ∙ sym same ∙ ap (λ (x : Option String × Cache). x.0) run;
        address = refl;
        identifier = refl;
        kept = (
          rw run at bounded',
          λ k s e there cached.
              sym (key_of-found env db cache k s there) ∙ (rw run at coherent) k e cached,
        );
      }

  setup-Entry :
      (c : Claims) (server_id : Option ℕ)
      → verify env now token ≡ claims c
      → c.server_id ≡ server_id
      → Entry env now (some text) db (setup env now server_id c.sub db cache)
  unfolding setup Entry
  setup-Entry c none valid named = refl
  setup-Entry c (some id) valid named = elim (Bool-cases (id == 0)) [
    | inl zero_id ↦ rw (zero_id) refl
    | inr other_id ↦ elim (Option-cases (find_by_id id db)) [
      | inl absent ↦ rw (other_id, absent) refl
      | inr (server, stored) ↦
          rw (other_id, stored, credentials_lem id db server stored)
            (decrypted-Entry c id server
              (get_decrypted_api_key env.crypto now id (credentials server) server.password_hash
                cache)
              valid named stored refl)
    ]
  ]

  enter-Entry :
      (v : Verified)
      → verify env now token ≡ v
      → Entry env now (some text) db (enter env now db cache v)
  unfolding enter Entry
  enter-Entry (claims c) valid = setup-Entry c c.server_id valid refl
  enter-Entry token_expired valid = refl
  enter-Entry json_web_token_error valid = refl
  enter-Entry not_before_error valid = refl
  enter-Entry other_error valid = refl

pub server_context-Entry :
    (env : Env) (now : ℕ) (header : Option String) (db : Db) (cache : Cache)
    → IsCache cache
    → KeysAgree env db cache
    → Entry env now header db (server_context env now header db cache)
unfolding server_context Entry
server_context-Entry env now none db cache bounded agree = refl
server_context-Entry env now (some text) db cache bounded agree =
    elim (Option-cases (after_prefix "Bearer " text)) [
      | inl without ↦ rw (Entry, server_context, without) refl
      | inr (token, sent) ↦
          rw (Entry, server_context, sent)
            (enter-Entry env now text token db cache bounded agree sent (verify env now token) refl)
    ]
