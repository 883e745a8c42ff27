-- ===== src/Encryption/Cache.antt =====
-- LoRaDB-UI/backend/src/utils/encryption.ts: the cache of decrypted API keys. The JavaScript `Map` is
-- its list of entries in the order of insertion: `set` of a key that is there keeps its place.
pub mod Laws
mod Tests
use lo_ra_dbase.Common.{
  ℕ, zero, suc, ◌+◌, ◌-◌, ◌*◌, ◌/◌, ◌%◌, ◌≤◌, ◌<◌, Char, code, String, ◌≡◌, refl, sym, ap, ◌∙◌, ◌≢◌,
  ◌↔◌, ◌⊎◌, inl, inr, Bool, true, false, not, ◌&&◌, ◌||◌, Option, none, some, List, [], ◌∷◌, ◌++◌,
  map, arith, eq_iff, ltb, leb, nat_beq, nat_beq_iff, Eq, ◌==◌, nat_eq, string_eq, if◌then◌else◌,
  Bool-cases, Option-cases, false_of_not_true, beq_refl, ne_of_beq, beq_of_ne, length,
  length-append, All, All-append, All-concat, All-map, All-image, All-zip, Distinct,
  Distinct-concat,
}
use lo_ra_dbase.Crypto.{Crypto}
use lo_ra_dbase.Db.{EncryptedData}
use lo_ra_dbase.Encryption.Codec.{decrypt_api_key}

pub record CacheEntry : Type 0 where
  pub api_key : String
  pub timestamp : ℕ

abbrev pub Cache : Type 0
Cache = List (ℕ × CacheEntry)

-- 5 * 60 * 1000
abbrev pub cache_ttl : ℕ
cache_ttl = 300000

abbrev pub max_cache_size : ℕ
max_cache_size = 100

unfoldable pub get : ℕ → Cache → Option CacheEntry
get k [] = none
get k ((j, e) ∷ m) = if j == k then some e else get k m

unfoldable pub set : ℕ → CacheEntry → Cache → Cache
set k e [] = (k, e) ∷ []
set k e ((j, f) ∷ m) = if j == k then (k, e) ∷ m else (j, f) ∷ set k e m

unfoldable pub delete : ℕ → Cache → Cache
delete k [] = []
delete k ((j, e) ∷ m) = if j == k then m else (j, e) ∷ delete k m

-- `Map.keys().next().value`, and `Map.delete` of it
unfoldable pub evict : Cache → Cache
unfolding delete
evict [] = []
evict ((k, e) ∷ m) = delete k ((k, e) ∷ m)

-- a full cache loses an entry before the new one is set
unfoldable pub store : ℕ → ℕ → String → Cache → Cache
unfolding set evict
store now server_id api_key cache =
    set server_id (record { api_key = api_key; timestamp = now })
      (if leb max_cache_size (length cache) then evict cache else cache)

-- `Date.now() - cached.timestamp < CACHE_TTL`; the clock does not run backwards
abbrev pub is_fresh : ℕ → CacheEntry → Bool
is_fresh now e = ltb (now - e.timestamp) cache_ttl

module _ (c : Crypto) where
  decrypt_and_store : ℕ → ℕ → EncryptedData → String → Cache → Option String × Cache
  decrypt_and_store now server_id encrypted_data password_hash cache =
      elim (decrypt_api_key c encrypted_data password_hash) [
        | none ↦ (none, cache)
        | some api_key ↦ (some api_key, store now server_id api_key cache)
      ]

  -- `none` is the error that `decryptApiKey` throws
  unfoldable pub get_decrypted_api_key :
      ℕ → ℕ → EncryptedData → String → Cache → Option String × Cache
  unfolding decrypt_and_store
  get_decrypted_api_key now server_id encrypted_data password_hash cache =
      elim (get server_id cache) [
        | none ↦ decrypt_and_store now server_id encrypted_data password_hash cache
        | some cached ↦
            if is_fresh now cached
            then (some cached.api_key, cache)
            else decrypt_and_store now server_id encrypted_data password_hash cache
      ]

unfoldable pub clear_cached_api_key : ℕ → Cache → Cache
unfolding delete
clear_cached_api_key server_id cache = delete server_id cache

abbrev pub clear_all_cached_api_keys : Cache → Cache
clear_all_cached_api_keys cache = []
