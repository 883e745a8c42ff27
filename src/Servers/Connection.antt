-- ===== src/Servers/Connection.antt =====
-- POST /api/servers/:id/test-connection of LoRaDB-UI/backend/src/routes/servers.ts. What `axios.get`
-- answers for an address is a parameter.
use lo_ra_dbase.Common.{
  ℕ, String, Bool, true, false, Option, none, some, ◌==◌, nat_eq, string_eq, if◌then◌else◌,
}
use Prim.Native.String.{◌++◌ as append_text}
use lo_ra_dbase.Json.{Json}
use lo_ra_dbase.Text.Decimal.{decimal}
use lo_ra_dbase.Db.{Db}
use lo_ra_dbase.Http.{Reply, reply, validation_error, not_found}
use lo_ra_dbase.Servers.{find_by_id}
use lo_ra_dbase.Servers.Validation.{base_url}

-- a response, or an error with the `code` and the `message` that it has
pub data Got : Type 0 where
  response : (status : ℕ) (content : Json) → Got
  failed : (error : Option String) (message : Option String) → Got

pub record Connection : Type 0 where
  pub success : Bool
  pub message : String
  pub content : Option Json

abbrev unconnected : String → Connection
unconnected message = record { success = false; message = message; content = none }

-- `error.message || "Connection failed"`
abbrev message_or_default : Option String → String
message_or_default none = "Connection failed"
message_or_default (some message) = if message == "" then "Connection failed" else message

failure_message : Option String → Option String → String
failure_message none message = message_or_default message
failure_message (some error) message =
    if error == "ECONNREFUSED"
    then "Connection refused - server may be offline"
    else if error == "ETIMEDOUT"
    then "Connection timed out"
    else if error == "ENOTFOUND"
    then "Host not found - check the hostname/IP"
    else message_or_default message

connection : Got → Connection
unfolding failure_message
connection (response status content) =
    if status == 200
    then record { success = true; message = "Connection successful"; content = some content }
    else unconnected (append_text "Unexpected status code: " (decimal status))
connection (failed error message) = unconnected (failure_message error message)

unfoldable pub test_connection : (String → Got) → Option ℕ → Db → Reply Connection
unfolding connection
test_connection axios_get none db = validation_error "Invalid server ID"
test_connection axios_get (some server_id) db = elim (find_by_id server_id db) [
  | none ↦ not_found
  | some server ↦ reply 200 (connection (axios_get (append_text (base_url server.host) "/health")))
]
