-- ===== src/Encryption/Cache/Tests.antt =====
-- The theorems on the API keys and their cache at concrete entries.
use lo_ra_dbase.Common.{
  ℕ, String, ◌≡◌, refl, Option, none, some, [], ◌∷◌, arith, ◌==◌, nat_eq, string_eq, if◌then◌else◌,
}
use lo_ra_dbase.Crypto.Sample.{sample, sample-Laws}
use lo_ra_dbase.Db.{EncryptedData}
use lo_ra_dbase.Encryption.Codec.{encrypt_api_key, decrypt_api_key, decrypt-encrypt}
use lo_ra_dbase.Encryption.Cache
use lo_ra_dbase.Encryption.Cache.{
  CacheEntry, max_cache_size, get, store, evict, get_decrypted_api_key, clear_cached_api_key,
}
use lo_ra_dbase.Encryption.Cache.Laws.{
  IsCache, IsCoherent, get_decrypted_api_key-transparent, get_decrypted_api_key_stale,
  get_decrypted_api_key_again, refreshed_is_evicted,
}

abbrev stored : EncryptedData
stored = encrypt_api_key sample (1 ∷ []) (2 ∷ []) "the key" "hash"

decrypt-encrypt_example : decrypt_api_key sample stored "hash" ≡ some "the key"
decrypt-encrypt_example = decrypt-encrypt sample sample-Laws (1 ∷ []) (2 ∷ []) "the key" "hash"

abbrev cache : Cache.Cache
cache =
    (4, record { api_key = "the key"; timestamp = 1000 })
    ∷ (5, record { api_key = "other"; timestamp = 2000 })
    ∷ []

abbrev truth : ℕ → Option String
truth k =
    if k == 4
    then some "the key"
    else if k == 5
    then some "other"
    else if k == 6
    then some "the key"
    else none

cache-IsCache : IsCache cache
cache-IsCache = record { keys = (((λ e. omega arith), tt), (tt, tt)); bound = omega arith }

cache-IsCoherent : IsCoherent truth cache
unfolding get
cache-IsCoherent k e found = ground arith

get_decrypted_api_key-transparent_example :
    ((get_decrypted_api_key sample 9000 6 stored "hash" cache).0 ≡ truth 6)
    × IsCache (get_decrypted_api_key sample 9000 6 stored "hash" cache).1
    × IsCoherent truth (get_decrypted_api_key sample 9000 6 stored "hash" cache).1
get_decrypted_api_key-transparent_example =
    get_decrypted_api_key-transparent sample truth 9000 6 stored "hash" cache cache-IsCache
      cache-IsCoherent decrypt-encrypt_example

abbrev stale : CacheEntry
stale = record { api_key = "the key"; timestamp = 1000 }

stale-found : get 4 cache ≡ some stale
unfolding get
stale-found = refl

get_decrypted_api_key_stale_example :
    (get_decrypted_api_key sample 301000 4 stored "hash" cache).0
    ≡ decrypt_api_key sample stored "hash"
get_decrypted_api_key_stale_example =
    get_decrypted_api_key_stale sample 301000 4 stored "hash" cache stale stale-found (omega arith)

six-absent : get 6 cache ≡ none
unfolding get
six-absent = refl

abbrev changed : EncryptedData
changed = encrypt_api_key sample (3 ∷ []) (4 ∷ []) "a new key" "new hash"

get_decrypted_api_key_again_example :
    (get_decrypted_api_key sample 10000 6 changed "new hash"
      (get_decrypted_api_key sample 9000 6 stored "hash" cache).1).0
    ≡ some "the key"
get_decrypted_api_key_again_example =
    get_decrypted_api_key_again sample 9000 6 stored "hash" cache "the key" 10000 changed "new hash"
      six-absent decrypt-encrypt_example (omega arith) (omega arith)

refreshed_is_evicted_example :
    evict (store 9000 4 "the key" cache) ≡ (5, record { api_key = "other"; timestamp = 2000 }) ∷ []
refreshed_is_evicted_example =
    refreshed_is_evicted 9000 4 stale "the key"
      ((5, record { api_key = "other"; timestamp = 2000 }) ∷ []) (omega arith)
