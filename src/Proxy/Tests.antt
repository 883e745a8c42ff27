-- ===== src/Proxy/Tests.antt =====
-- Concrete requests to the proxy.
use lo_ra_dbase.Http.{status_of, validation_error}
use lo_ra_dbase.Common.{
  arith, String, ◌≡◌, refl, ◌⊎◌, true, Option, some, [], ◌∷◌, nat_eq, string_eq,
}
use lo_ra_dbase.Session.{Context}
use lo_ra_dbase.Db.{Db}
use lo_ra_dbase.Session.Tokens.{bearer, session_token}
use lo_ra_dbase.Proxy.{
  device, proxy, Call, Outcome, rejected, no_response, handle, is_valid_dev_eui,
  handle_loradb_error,
}
use lo_ra_dbase.Servers.Routes.{create_server}
use lo_ra_dbase.Samples.{env, draws, db, gamma}
use lo_ra_dbase.Proxy.Calls.{recorded, proxy_calls, HasDevEui, IsForwarded, IsAnswer}
use lo_ra_dbase.Proxy.Granted.{KeysAgree, IsGranted, is_refusal}
use lo_ra_dbase.Encryption.Cache.{get}
use lo_ra_dbase.Encryption.Cache.Laws.{IsCache}
use lo_ra_dbase.Text.{all_chars}

abbrev reply_to : Context → Call → Outcome
reply_to context call = rejected (no_response (some "ETIMEDOUT"))

abbrev made : Db
made = (create_server env draws "2025-02-01" gamma db).1

abbrev header : Option String
header = some (bearer (session_token env 0 "r" 3))

abbrev dev_eui : String
dev_eui = "0123456789abcdEF"

no_keys : IsCache []
no_keys = record { keys = tt; bound = omega arith }

no-KeysAgree : KeysAgree env made []
no-KeysAgree id server e found cached = absurd (unfold get in cc)

proxy_calls_example :
    (let (answer, cache', calls') =
        proxy env (recorded reply_to) 9000 header (device dev_eui) made [] [] in
      ((is_refusal answer ≡ true) × (calls' ≡ []))
      ⊎ ((context : Context) × (call : Call) × (IsGranted env 9000 header made context cache')
          × (HasDevEui (device dev_eui))
          × (IsForwarded (device dev_eui) call)
          × (calls' ≡ (context, call) ∷ [])
          × (IsAnswer (reply_to context call) answer)))
proxy_calls_example =
    proxy_calls env reply_to 9000 header (device dev_eui) made [] [] no_keys no-KeysAgree

timed_out :
    (context : Context) → status_of (handle (recorded reply_to) context (device dev_eui) []).0 ≡ 504
unfolding handle is_valid_dev_eui all_chars handle_loradb_error
timed_out context = refl

not_hex :
    (context : Context)
    → handle (recorded reply_to) context (device "../tokens/123456") []
      ≡ (validation_error "Invalid DevEUI format. Must be 16 hexadecimal characters", [])
unfolding handle is_valid_dev_eui all_chars
not_hex context = refl
