-- ===== src/Crypto.antt =====
-- What the program takes from node's `crypto`, from bcrypt and from jsonwebtoken. `Laws` is what the
-- documentation of these packages promises.
pub mod Sample
use lo_ra_dbase.Common.{
  ℕ, ◌≤◌, ◌<◌, String, ◌≡◌, ◌≢◌, Bool, true, Option, some, List, nat_eq, string_eq,
}

abbrev pub Bytes : Type 0
Bytes = List ℕ

-- the claims of the tokens that the program signs or reads
pub record Claims : Type 0 where
  pub type : Option String
  pub sub : Option String
  pub server_id : Option ℕ
  pub iat : ℕ
  pub exp : ℕ

-- what jwt.verify returns or throws
pub data Verified : Type 0 where
  claims : Claims → Verified
  token_expired : Verified
  json_web_token_error : Verified
  not_before_error : Verified
  other_error : Verified

pub record Crypto : Type 0 where
  -- crypto.pbkdf2Sync with the constants of encryption.ts: password, salt
  pub pbkdf2 : String → Bytes → Bytes
  -- createCipheriv('aes-256-gcm', key, iv), update, final, getAuthTag
  pub seal : Bytes → Bytes → String → Bytes × Bytes
  -- createDecipheriv, setAuthTag, update, final: `none` is the error of `final`
  pub unseal : Bytes → Bytes → Bytes → Bytes → Option String
  pub to_hex : Bytes → String
  pub from_hex : String → Bytes
  -- bcrypt.hash, with the random salt that it draws, and bcrypt.compare
  pub bcrypt_hash : Bytes → String → String
  pub bcrypt_compare : String → String → Bool
  -- jwt.sign, and jwt.verify at a time in seconds
  pub jwt_sign : Claims → String → String
  pub jwt_verify : ℕ → String → String → Verified

pub record Laws (c : Crypto) : Type 0 where
  pub unseal-seal :
      (key iv : Bytes) (text : String)
      → c.unseal key iv (c.seal key iv text).0 (c.seal key iv text).1 ≡ some text
  pub from_hex-to_hex : (bytes : Bytes) → c.from_hex (c.to_hex bytes) ≡ bytes
  pub compare-hash :
      (salt : Bytes) (password : String)
      → c.bcrypt_compare password (c.bcrypt_hash salt password) ≡ true
  pub verify-sign :
      (now : ℕ) (payload : Claims) (secret : String)
      → now < payload.exp
      → c.jwt_verify now (c.jwt_sign payload secret) secret ≡ claims payload
  pub verify-sign_expired :
      (now : ℕ) (payload : Claims) (secret : String)
      → payload.exp ≤ now
      → c.jwt_verify now (c.jwt_sign payload secret) secret ≡ token_expired
  -- a JSON Web Token has its two dots
  pub sign_not_empty : (payload : Claims) (secret : String) → c.jwt_sign payload secret ≢ ""
