-- ===== src/Proxy.antt =====
-- The proxy to the LoRaDB servers: LoRaDB-UI/backend/src/routes/proxy.ts. `loradb` is axios with the
-- LoRaDB server behind it: it takes the client that the middleware made and a call, and changes the
-- state `S` of that server. A parameter of a path is the text that Express decodes.
pub mod Calls
pub mod Granted
pub mod DevEui
mod Tests
use lo_ra_dbase.Common.{
  ℕ, zero, suc, ◌+◌, ◌-◌, ◌*◌, ◌/◌, ◌%◌, ◌≤◌, ◌<◌, Char, code, String, ◌≡◌, refl, sym, ap, ◌∙◌, ◌≢◌,
  ◌↔◌, ◌⊎◌, inl, inr, Bool, true, false, not, ◌&&◌, ◌||◌, Option, none, some, List, [], ◌∷◌, ◌++◌,
  map, arith, eq_iff, ltb, leb, nat_beq, nat_beq_iff, Eq, ◌==◌, nat_eq, string_eq, if◌then◌else◌,
  Bool-cases, Option-cases, false_of_not_true, beq_refl, ne_of_beq, beq_of_ne, length,
  length-append, All, All-append, All-concat, All-map, All-image, All-zip, All-every, Distinct,
  Distinct-concat,
}
use Prim.Native.String.{◌++◌ as append_text, len}
use lo_ra_dbase.Json.{Json}
use lo_ra_dbase.Text.{all_chars, is_digit}
use lo_ra_dbase.Http.{Reply, fail, reply, validation_error}
use lo_ra_dbase.Db.{Db}
use lo_ra_dbase.Config.{Env}
use lo_ra_dbase.Servers.Routes.{Stage, stop, go_on}
use lo_ra_dbase.Encryption.Cache.{Cache}
use lo_ra_dbase.Session.{Context, server_context}

-- what a promise of axios is rejected with: a response of the server, an error of axios with its
-- `code`, or any other error
pub data Failure : Type 0 where
  response : (status : ℕ) (content : Json) → Failure
  no_response : (name : Option String) → Failure
  other : Failure

pub data Outcome : Type 0 where
  resolved : (content : Json) → Outcome
  rejected : Failure → Outcome

pub data Method : Type 0 where
  get : Method
  post : Method
  put : Method
  delete : Method

pub record Call : Type 0 where
  pub method : Method
  pub path : String
  pub body : Option Json

-- the routes of the router, each with its parameter and its body
pub data Request : Type 0 where
  health : Request
  query : Json → Request
  devices : Request
  device : (dev_eui : String) → Request
  create_token : Json → Request
  tokens : Request
  revoke_token : (id : String) → Request
  policies : Request
  global_policy : Request
  set_global_policy : Json → Request
  policy : (application_id : String) → Request
  set_policy : (application_id : String) → Json → Request
  remove_policy : (application_id : String) → Request
  enforce : Json → Request

abbrev is_hex : ℕ → Bool
is_hex c = is_digit c || leb b'A' c && leb c b'F' || leb b'a' c && leb c b'f'

-- /^[0-9A-Fa-f]{16}$/
unfoldable pub is_valid_dev_eui : String → Bool
is_valid_dev_eui dev_eui = all_chars is_hex dev_eui && len dev_eui == 16

-- the answers to an error of axios that comes without a response
code_error : String → Reply Json
code_error name =
    if name == "ECONNREFUSED"
    then fail 503 "ServiceUnavailable" "LoRaDB API is not available"
    else if name == "ETIMEDOUT"
    then fail 504 "Timeout" "Request to LoRaDB API timed out"
    else if name == "EAI_AGAIN" || name == "ENOTFOUND" || name == "EAIAGAIN"
    then fail 503 "DNSResolutionFailed" "Cannot resolve LoRaDB API hostname"
    else if name == "ECONNRESET" || name == "ECONNABORTED"
    then fail 503 "ConnectionError" "Connection to LoRaDB API was interrupted"
    else fail 500 "InternalError" "An unexpected error occurred"

unfoldable pub handle_loradb_error : Failure → Reply Json
unfolding code_error
handle_loradb_error (response status content) = reply status content
handle_loradb_error (no_response none) = fail 500 "InternalError" "An unexpected error occurred"
handle_loradb_error (no_response (some name)) = code_error name
handle_loradb_error other = fail 500 "InternalError" "An unexpected error occurred"

-- the end of a handler: `res.json(response.data)`, or its `catch`
abbrev pub answer_of : Outcome → Reply Json
answer_of (resolved content) = reply 200 content
answer_of (rejected failure) = handle_loradb_error failure

abbrev answered : {S : Type 0} → Outcome × S → Reply Json × S
answered (outcome, s) = (answer_of outcome, s)

abbrev bare : Method → String → Call
bare method path = record { method = method; path = path; body = none }

abbrev with_body : Method → String → Json → Call
with_body method path body = record { method = method; path = path; body = some body }

-- the call that a handler makes
unfoldable pub call_of : Request → Call
call_of health = bare get "/health"
call_of (query body) = with_body post "/query" body
call_of devices = bare get "/devices"
call_of (device dev_eui) = bare get (append_text "/devices/" dev_eui)
call_of (create_token body) = with_body post "/tokens" body
call_of tokens = bare get "/tokens"
call_of (revoke_token id) = bare delete (append_text "/tokens/" id)
call_of policies = bare get "/retention/policies"
call_of global_policy = bare get "/retention/policies/global"
call_of (set_global_policy body) = with_body put "/retention/policies/global" body
call_of (policy application_id) = bare get (append_text "/retention/policies/" application_id)
call_of (set_policy application_id body) =
    with_body put (append_text "/retention/policies/" application_id) body
call_of (remove_policy application_id) =
    bare delete (append_text "/retention/policies/" application_id)
call_of (enforce body) = with_body post "/retention/enforce" body

-- the guard of GET /devices/:dev_eui; the other handlers have none
abbrev pub check : Request → Option (Reply Json)
check (device dev_eui) =
    if not (is_valid_dev_eui dev_eui)
    then some (validation_error "Invalid DevEUI format. Must be 16 hexadecimal characters")
    else none
check _ = none

abbrev pub LoRaDb : Type 0 → Type 0
LoRaDb S = Context → Call → S → Outcome × S

-- the handler of a route, with the client of its server
unfoldable pub handle : {S : Type 0} → LoRaDb S → Context → Request → S → Reply Json × S
unfolding call_of
handle loradb context request s = elim (check request) [
  | some answer ↦ (answer, s)
  | none ↦ answered (loradb context (call_of request) s)
]

unfoldable pub pass :
    {S : Type 0} → LoRaDb S → Request → S → Stage Json Context × Cache → Reply Json × Cache × S
unfolding handle
pass loradb request s (stop answer, cache) = (answer, cache, s)
pass loradb request s (go_on context, cache) =
    let (answer, s') = handle loradb context request s in (answer, cache, s')

-- a request to the router, with its middleware
unfoldable pub proxy :
    {S : Type 0}
    → Env
    → LoRaDb S
    → ℕ
    → Option String
    → Request
    → Db
    → Cache
    → S
    → Reply Json × Cache × S
unfolding pass
proxy env loradb now header request db cache s =
    pass loradb request s (server_context env now header db cache)
