-- ===== src/Passwords.antt =====
-- LoRaDB-UI/backend/src/utils/password.ts: the checks on a password's form. Hashing is bcrypt's, and
-- stands in `Crypto`.
use lo_ra_dbase.Common.{
  String, Bool, ◌||◌, Option, none, some, ltb, ◌==◌, nat_eq, string_eq, if◌then◌else◌,
}
use lo_ra_dbase.Text

-- `none` is `isValid: true`, and a text is the `error` beside `isValid: false`.
unfoldable pub validate_password : String → Option String
validate_password password =
    if password == "" || ltb (Text.length password) 8
    then some "Password must be at least 8 characters long"
    else if ltb 72 (Text.length password)
    then some "Password must be 72 characters or less"
    else none

abbrev pub passwords_match : String → String → Bool
passwords_match password password_confirm = password == password_confirm
