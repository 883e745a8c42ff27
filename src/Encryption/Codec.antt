-- ===== src/Encryption/Codec.antt =====
-- LoRaDB-UI/backend/src/utils/encryption.ts: `salt` and `iv` are the random bytes that it draws.

use lo_ra_dbase.Common.{String, ◌≡◌, Option, some, nat_eq, string_eq}
use lo_ra_dbase.Crypto.{Bytes, Crypto, Laws}
use lo_ra_dbase.Db.{EncryptedData}

module _ (c : Crypto) where
  unfoldable pub encrypt_api_key : Bytes → Bytes → String → String → EncryptedData
  encrypt_api_key salt iv api_key password_hash =
      let key = c.pbkdf2 password_hash salt in
      let (encrypted, auth_tag) = c.seal key iv api_key in
      record {
        ciphertext = c.to_hex encrypted;
        iv = c.to_hex iv;
        auth_tag = c.to_hex auth_tag;
        salt = c.to_hex salt;
      }

  -- `none` is the error "Decryption failed: Invalid password or corrupted data"
  unfoldable pub decrypt_api_key : EncryptedData → String → Option String
  decrypt_api_key encrypted_data password_hash =
      let salt = c.from_hex encrypted_data.salt in
      let iv = c.from_hex encrypted_data.iv in
      let auth_tag = c.from_hex encrypted_data.auth_tag in
      let key = c.pbkdf2 password_hash salt in
      c.unseal key iv (c.from_hex encrypted_data.ciphertext) auth_tag

  -- With packages that keep their `Laws`, an encrypted API key decrypts to itself under the password hash that it was encrypted with,
  -- whatever salt and iv were drawn.
  pub decrypt-encrypt :
      Laws c
      → (salt iv : Bytes) (api_key password_hash : String)
      → decrypt_api_key (encrypt_api_key salt iv api_key password_hash) password_hash ≡ some api_key
  unfolding decrypt_api_key encrypt_api_key
  decrypt-encrypt laws salt iv api_key password_hash =
      let key = c.pbkdf2 password_hash salt in
      let sealed = c.seal key iv api_key in
      cc (
        laws.from_hex-to_hex salt,
        laws.from_hex-to_hex iv,
        laws.from_hex-to_hex sealed.0,
        laws.from_hex-to_hex sealed.1,
        laws.unseal-seal key iv api_key,
      )
