-- ===== src/Http.antt =====
-- What a handler of LoRaDB-UI/backend/src/routes answers: `res.status(status).json({ error, message })`
-- of a refusal, or the status and the body of the handler's own.
use lo_ra_dbase.Common.{ℕ, String, Bool, false, not, Option, none, some, ◌==◌, string_eq}

pub data Reply {ℓ} (A : Type ℓ) : Type ℓ where
  fail : (status : ℕ) (error : String) (message : String) → Reply A
  reply : (status : ℕ) → A → Reply A

abbrev pub status_of {ℓ} : {A : Type ℓ} → Reply A → ℕ
status_of (fail status _ _) = status
status_of (reply status _) = status

-- `value` of a text field of a body, as a condition: it is there and not empty
abbrev pub given? : Option String → Bool
given? none = false
given? (some s) = not (s == "")

-- the text of a field that `given?` accepts
abbrev pub text_of : Option String → String
text_of none = ""
text_of (some s) = s

abbrev pub validation_error {ℓ} : {A : Type ℓ} → String → Reply A
validation_error message = fail 400 "ValidationError" message

abbrev pub not_found {ℓ} : {A : Type ℓ} → Reply A
not_found = fail 404 "NotFound" "Server not found"
