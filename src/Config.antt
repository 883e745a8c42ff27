-- ===== src/Config.antt =====
-- LoRaDB-UI/backend/src/config/env.ts: the settings that the handlers read, and the checks at start.
use lo_ra_dbase.Common.{
  ℕ, String, Bool, true, false, not, ◌&&◌, ◌||◌, Option, ltb, ◌==◌, nat_eq, string_eq,
  if◌then◌else◌,
}
use lo_ra_dbase.Text
use lo_ra_dbase.Crypto.{Crypto}

pub record Config : Type 0 where
  pub jwt_secret : String
  pub jwt_expiration_hours : ℕ
  pub master_password : String
  pub master_session_hours : ℕ

-- What the handlers take from outside: the packages, the settings, and the hostname that
-- `new URL(host)` finds, `none` where it throws.
pub record Env : Type 0 where
  pub crypto : Crypto
  pub config : Config
  pub url_hostname : String → Option String

-- `config.masterPassword && config.masterPassword.length > 0`
abbrev pub is_protected : Config → Bool
is_protected config =
    not (config.master_password == "") && ltb 0 (Text.length config.master_password)

-- false where the process exits
unfoldable pub is_valid_config : Config → Bool
is_valid_config config =
    if config.jwt_secret == "" || ltb (Text.length config.jwt_secret) 32
    then false
    else if is_protected config
    then not (ltb (Text.length config.master_password) 8)
      && not (ltb 72 (Text.length config.master_password))
    else true
