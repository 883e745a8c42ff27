-- ===== src/Encryption.antt =====
-- LoRaDB-UI/backend/src/utils/encryption.ts: the encryption of API keys and the cache of decrypted ones.
pub mod Codec
pub mod Cache
