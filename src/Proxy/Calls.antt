-- ===== src/Proxy/Calls.antt =====
-- Which calls reach a LoRaDB server.
use Prim.Native.String.{◌++◌ as append, len}
use lo_ra_dbase.Proxy.DevEui.{AreHexDigits, is_valid_dev_eui_lem}
use lo_ra_dbase.Common.{
  ℕ, String, ◌≡◌, refl, sym, ◌⊎◌, inl, inr, Bool, true, ◌||◌, Option, none, some, List, ◌∷◌, arith,
  ◌==◌, nat_eq, string_eq, Bool-cases,
}
use lo_ra_dbase.Session.{Context, server_context}
use lo_ra_dbase.Config.{Env}
use lo_ra_dbase.Http.{Reply, reply, status_of}
use lo_ra_dbase.Proxy.{
  Call, Outcome, LoRaDb, Request, proxy, check, pass, call_of, handle, answer_of, is_valid_dev_eui,
  handle_loradb_error, resolved, rejected, response, no_response, other, get, post, put, delete,
  health, query, devices, device, create_token, tokens, revoke_token, policies, global_policy,
  set_global_policy, policy, set_policy, remove_policy, enforce,
}
use lo_ra_dbase.Proxy.Granted.{KeysAgree, IsGranted, Entry, server_context-Entry, is_refusal}
use lo_ra_dbase.Db.{Db}
use lo_ra_dbase.Text.Prefix.{append_texts_assoc}
use lo_ra_dbase.Json.{Json}
use lo_ra_dbase.Encryption.Cache.{Cache}
use lo_ra_dbase.Encryption.Cache.Laws.{IsCache}
use lo_ra_dbase.Servers.Routes.{Stage, stop, go_on}

-- axios with a server that keeps the calls that reach it, the last one first
abbrev pub recorded : (Context → Call → Outcome) → LoRaDb (List (Context × Call))
recorded reply_to context call calls = (reply_to context call, (context, call) ∷ calls)

-- a guard of a handler refuses, if it answers
refuses : Option (Reply Json) → Bool
refuses none = true
refuses (some answer) = is_refusal answer

check-refuses : (request : Request) → refuses (check request) ≡ true
unfolding refuses
check-refuses (device dev_eui) = elim (Bool-cases (is_valid_dev_eui dev_eui)) [
  | inl valid ↦ rw (valid) refl
  | inr invalid ↦ rw (invalid) refl
]
check-refuses _ = refl

-- the DevEUI that a request carries consists of 16 hexadecimal digits
abbrev pub HasDevEui : Request → Type 0
HasDevEui (device dev_eui) = (len dev_eui ≡ 16) × AreHexDigits dev_eui
HasDevEui _ = Unit

check-none : (request : Request) → check request ≡ none → HasDevEui request
check-none (device dev_eui) unguarded = is_valid_dev_eui_lem dev_eui (ground arith)
check-none _ unguarded = tt

-- the request that a client sends to the proxy, its parameter decoded
abbrev pub incoming : Request → Call
incoming health = record { method = get; path = "/api/health"; body = none }
incoming (query body) = record { method = post; path = "/api/query"; body = some body }
incoming devices = record { method = get; path = "/api/devices"; body = none }
incoming (device id) = record { method = get; path = append "/api/devices/" id; body = none }
incoming (create_token body) = record { method = post; path = "/api/tokens"; body = some body }
incoming tokens = record { method = get; path = "/api/tokens"; body = none }
incoming (revoke_token id) = record {
  method = delete;
  path = append "/api/tokens/" id;
  body = none;
}
incoming policies = record { method = get; path = "/api/retention/policies"; body = none }
incoming global_policy = record {
  method = get;
  path = "/api/retention/policies/global";
  body = none;
}
incoming (set_global_policy body) = record {
  method = put;
  path = "/api/retention/policies/global";
  body = some body;
}
incoming (policy id) = record {
  method = get;
  path = append "/api/retention/policies/" id;
  body = none;
}
incoming (set_policy id body) = record {
  method = put;
  path = append "/api/retention/policies/" id;
  body = some body;
}
incoming (remove_policy id) = record {
  method = delete;
  path = append "/api/retention/policies/" id;
  body = none;
}
incoming (enforce body) = record {
  method = post;
  path = "/api/retention/enforce";
  body = some body;
}

-- the call is the client's request, but for the `/api` in front of its path
abbrev pub IsForwarded : Request → Call → Type 0
IsForwarded request call =
    (call.method ≡ (incoming request).method)
    × (append "/api" call.path ≡ (incoming request).path)
    × (call.body ≡ (incoming request).body)

below_api : (path id : String) → append "/api" (append path id) ≡ append (append "/api" path) id
below_api path id = sym (append_texts_assoc "/api" path id)

call_of-IsForwarded : (request : Request) → IsForwarded request (call_of request)
unfolding call_of
call_of-IsForwarded health = (refl, refl, refl)
call_of-IsForwarded (query body) = (refl, refl, refl)
call_of-IsForwarded devices = (refl, refl, refl)
call_of-IsForwarded (device id) = (refl, below_api "/devices/" id, refl)
call_of-IsForwarded (create_token body) = (refl, refl, refl)
call_of-IsForwarded tokens = (refl, refl, refl)
call_of-IsForwarded (revoke_token id) = (refl, below_api "/tokens/" id, refl)
call_of-IsForwarded policies = (refl, refl, refl)
call_of-IsForwarded global_policy = (refl, refl, refl)
call_of-IsForwarded (set_global_policy body) = (refl, refl, refl)
call_of-IsForwarded (policy id) = (refl, below_api "/retention/policies/" id, refl)
call_of-IsForwarded (set_policy id body) = (refl, below_api "/retention/policies/" id, refl)
call_of-IsForwarded (remove_policy id) = (refl, below_api "/retention/policies/" id, refl)
call_of-IsForwarded (enforce body) = (refl, refl, refl)

abbrev is_unavailable : Reply Json → Bool
is_unavailable answer =
    status_of answer == 500 || status_of answer == 503 || status_of answer == 504

-- the answer that an outcome gets: the content with 200, the server's own status and content, or one of
-- the proxy's own errors where there was no response
abbrev pub IsAnswer : Outcome → Reply Json → Type 0
IsAnswer (resolved content) answer = answer ≡ reply 200 content
IsAnswer (rejected (response status content)) answer = answer ≡ reply status content
IsAnswer (rejected (no_response name)) answer = is_unavailable answer ≡ true
IsAnswer (rejected other) answer = is_unavailable answer ≡ true

answer_of-IsAnswer : (outcome : Outcome) → IsAnswer outcome (answer_of outcome)
unfolding handle_loradb_error
answer_of-IsAnswer (resolved content) = refl
answer_of-IsAnswer (rejected (response status content)) = refl
answer_of-IsAnswer (rejected (no_response none)) = refl
answer_of-IsAnswer (rejected (no_response (some name))) = ground arith
answer_of-IsAnswer (rejected other) = refl

module _ (env : Env) (reply_to : Context → Call → Outcome) (now : ℕ) (header : Option String)
    (request : Request) (db : Db) (calls : List (Context × Call)) where
  abbrev Turn : Reply Json × Cache × List (Context × Call) → Type 0
  Turn (answer, cache', calls') =
      ((is_refusal answer ≡ true) × (calls' ≡ calls))
      ⊎ ((context : Context) × (call : Call) × (IsGranted env now header db context cache')
          × (HasDevEui request)
          × (IsForwarded request call)
          × (calls' ≡ (context, call) ∷ calls)
          × (IsAnswer (reply_to context call) answer))

  checked-Turn :
      (context : Context) (cache' : Cache) (r : Option (Reply Json))
      → IsGranted env now header db context cache'
      → check request ≡ r
      → refuses r ≡ true
      → Turn (pass (recorded reply_to) request calls (go_on context, cache'))
  unfolding pass refuses handle
  checked-Turn context cache' none granted unguarded refused =
      rw (pass, handle, unguarded)
        (inr (
          context,
          call_of request,
          granted,
          check-none request unguarded,
          call_of-IsForwarded request,
          refl,
          answer_of-IsAnswer (reply_to context (call_of request)),
        ))
  checked-Turn context cache' (some answer) granted found refused =
      rw (pass, handle, found) (inl (refused, refl))

  pass-Turn :
      (r : Stage Json Context × Cache)
      → Entry env now header db r
      → Turn (pass (recorded reply_to) request calls r)
  unfolding pass Entry
  pass-Turn (stop answer, cache') refused = inl (refused, refl)
  pass-Turn (go_on context, cache') granted =
      checked-Turn context cache' (check request) granted refl (check-refuses request)

-- With a cache that is within its bound and agrees with the rows of the stored servers, a request to the
-- proxy either gets a refusal of the proxy's own, with the status 400, 401, 404 or 500, and no call
-- reaches a LoRaDB server; or it makes exactly one call, which has the method, the body and, but for
-- `/api`, the path of the request, with the client of the stored server that a valid token of its
-- header names: that client goes to the server's host and holds the API key that the server's row
-- decrypts to. The answer is then the content of the response with 200, the status and content of the
-- server's own error, or 500, 503 or 504 where there was no response; the DevEUI of a device's request
-- consists of 16 hexadecimal digits, and the cache is still within its bound and agrees.
pub proxy_calls :
    (env : Env) (reply_to : Context → Call → Outcome) (now : ℕ) (header : Option String)
    (request : Request) (db : Db) (cache : Cache) (calls : List (Context × Call))
    → IsCache cache
    → KeysAgree env db cache
    → (let (answer, cache', calls') =
          proxy env (recorded reply_to) now header request db cache calls in
        ((is_refusal answer ≡ true) × (calls' ≡ calls))
        ⊎ ((context : Context) × (call : Call) × (IsGranted env now header db context cache')
            × (HasDevEui request)
            × (IsForwarded request call)
            × (calls' ≡ (context, call) ∷ calls)
            × (IsAnswer (reply_to context call) answer)))
unfolding proxy
proxy_calls env reply_to now header request db cache calls bounded agree =
    pass-Turn env reply_to now header request db calls (server_context env now header db cache)
      (server_context-Entry env now header db cache bounded agree)
