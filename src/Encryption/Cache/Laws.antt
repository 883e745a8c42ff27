-- ===== src/Encryption/Cache/Laws.antt =====
-- The cache is bounded, keeps one entry for a server, and gives back what a decryption would give.
use lo_ra_dbase.Common.{
  ℕ, ◌+◌, ◌-◌, ◌≤◌, ◌<◌, String, ◌≡◌, refl, sym, ◌≢◌, inl, inr, Option, none, some, [], ◌∷◌, arith,
  leb, ◌==◌, nat_eq, string_eq, if◌then◌else◌, Bool-cases, Option-cases, length, All, Distinct,
}
use lo_ra_dbase.Crypto.{Crypto}
use lo_ra_dbase.Db.{EncryptedData}
use lo_ra_dbase.Encryption.Codec.{decrypt_api_key}
use lo_ra_dbase.Encryption.Cache
use lo_ra_dbase.Encryption.Cache.{
  CacheEntry, cache_ttl, max_cache_size, get, set, delete, evict, store, is_fresh,
  get_decrypted_api_key, clear_cached_api_key,
}

pub record IsCache (m : Cache.Cache) : Type 0 where
  pub keys : Distinct (λ (b : ℕ × CacheEntry). b.0) m
  pub bound : length m ≤ max_cache_size

-- every entry holds the key that the credentials of its server decrypt to
abbrev pub IsCoherent : (ℕ → Option String) → Cache.Cache → Type 0
IsCoherent truth m = (k : ℕ) (e : CacheEntry) → get k m ≡ some e → truth k ≡ some e.api_key

pub get-set :
    (k j : ℕ) (e : CacheEntry) (m : Cache.Cache)
    → get j (set k e m) ≡ (if k == j then some e else get j m)
unfolding get set
get-set k j e [] = refl
get-set k j e ((i, f) ∷ m) = ground (arith, get-set k j e m)

length-set-le : (k : ℕ) (e : CacheEntry) (m : Cache.Cache) → length (set k e m) ≤ length m + 1
unfolding set
length-set-le k e [] = omega arith
length-set-le k e ((i, f) ∷ m) = ground (arith, length-set-le k e m)

All-set :
    (k j : ℕ) (e : CacheEntry) (m : Cache.Cache)
    → j ≢ k
    → All (λ (b : ℕ × CacheEntry). j ≢ b.0) m
    → All (λ (b : ℕ × CacheEntry). j ≢ b.0) (set k e m)
unfolding set
All-set k j e [] n h = (n, tt)
All-set k j e ((i, f) ∷ m) n (q, h) = elim (Bool-cases (i == k)) [
  | inl t ↦ rw t (n, h)
  | inr o ↦ rw o (q, All-set k j e m n h)
]

Distinct-set :
    (k : ℕ) (e : CacheEntry) (m : Cache.Cache)
    → Distinct (λ (b : ℕ × CacheEntry). b.0) m
    → Distinct (λ (b : ℕ × CacheEntry). b.0) (set k e m)
unfolding set
Distinct-set k e [] d = (tt, tt)
Distinct-set k e ((i, f) ∷ m) (q, d) = elim (Bool-cases (i == k)) [
  | inl t ↦ let same : i ≡ k = ground arith in rw t (rw same at q, d)
  | inr o ↦ let other : i ≢ k = ground arith in rw o (All-set k i e m other q, Distinct-set k e m d)
]

get_absent : (k : ℕ) (m : Cache.Cache) → All (λ (b : ℕ × CacheEntry). k ≢ b.0) m → get k m ≡ none
unfolding get
get_absent k [] h = refl
get_absent k ((i, f) ∷ m) (q, h) = ground (arith, get_absent k m h)

evict_first : (k : ℕ) (e : CacheEntry) (m : Cache.Cache) → evict ((k, e) ∷ m) ≡ m
unfolding evict
evict_first k e m = ground arith

get-evict :
    (j : ℕ) (e : CacheEntry) (m : Cache.Cache)
    → Distinct (λ (b : ℕ × CacheEntry). b.0) m
    → get j (evict m) ≡ some e
    → get j m ≡ some e
unfolding get
get-evict j e [] d h = unfold evict in h
get-evict j e ((k, f) ∷ m) (q, d) h = ground (arith, evict_first k f m, get_absent k m q)

evict-IsCache : (m : Cache.Cache) → IsCache m → IsCache (evict m)
evict-IsCache [] c = unfold evict in c
evict-IsCache ((k, e) ∷ m) c =
    rw evict_first (record { keys = c.keys.1; bound = omega (arith, c.bound) })

length-evict : (m : Cache.Cache) → length (evict m) ≤ length m - 1
length-evict [] = unfold evict in omega arith
length-evict ((k, e) ∷ m) = rw evict_first (omega arith)

-- Storing a key keeps the cache within its bound and keeps one entry for each server.
store-IsCache :
    (now server_id : ℕ) (api_key : String) (m : Cache.Cache)
    → IsCache m
    → IsCache (store now server_id api_key m)
unfolding store
store-IsCache now server_id api_key m c =
    let e : CacheEntry = record { api_key = api_key; timestamp = now } in
    elim (Bool-cases (leb max_cache_size (length m))) [
      | inl full ↦
          let kept = evict-IsCache m c in
          rw full (record {
            keys = Distinct-set server_id e (evict m) kept.keys;
            bound = omega (arith, length-set-le server_id e (evict m), length-evict m, c.bound);
          })
      | inr room ↦ rw room (record {
        keys = Distinct-set server_id e m c.keys;
        bound = ground (arith, length-set-le server_id e m);
      })
    ]

store-IsCoherent :
    (truth : ℕ → Option String) (now server_id : ℕ) (api_key : String) (m : Cache.Cache)
    → IsCache m
    → IsCoherent truth m
    → truth server_id ≡ some api_key
    → IsCoherent truth (store now server_id api_key m)
unfolding store
store-IsCoherent truth now server_id api_key m c h right k e found =
    let new : CacheEntry = record { api_key = api_key; timestamp = now } in
    elim (Bool-cases (leb max_cache_size (length m))) [
      | inl full ↦ ground (arith, get-set server_id k new (evict m), get-evict k e m c.keys, h k e)
      | inr room ↦ ground (arith, get-set server_id k new m, h k e)
    ]

module _ (c : Crypto) (truth : ℕ → Option String) (now server_id : ℕ) (given : EncryptedData)
    (password_hash : String) (m : Cache.Cache) where
  -- With a cache that agrees with the stored credentials, `getDecryptedApiKey` returns what a
  -- decryption returns, fails exactly when it fails, and leaves a cache that is within its bound,
  -- has one entry for a server, and agrees with the credentials.
  pub get_decrypted_api_key-transparent :
      IsCache m
      → IsCoherent truth m
      → decrypt_api_key c given password_hash ≡ truth server_id
      → ((get_decrypted_api_key c now server_id given password_hash m).0 ≡ truth server_id)
        × IsCache (get_decrypted_api_key c now server_id given password_hash m).1
        × IsCoherent truth (get_decrypted_api_key c now server_id given password_hash m).1
  unfolding get_decrypted_api_key
  get_decrypted_api_key-transparent k h right =
      elim (Option-cases (decrypt_api_key c given password_hash)) [
        | inl failed ↦ elim (Option-cases (get server_id m)) [
          | inl miss ↦
              let step : get_decrypted_api_key c now server_id given password_hash m ≡ (none, m) =
                ground arith in
              rw step (cc, k, h)
          | inr (e, hit) ↦ absurd (cc (h server_id e hit))
        ]
        | inr (key, decrypted) ↦ elim (Option-cases (get server_id m)) [
          | inl miss ↦
              let step : get_decrypted_api_key c now server_id given password_hash m
                  ≡ (some key, store now server_id key m) =
                ground arith in
              rw step (stored key decrypted)
          | inr (e, hit) ↦ elim (Bool-cases (is_fresh now e)) [
            | inl fresh ↦
                let step : get_decrypted_api_key c now server_id given password_hash m
                    ≡ (some e.api_key, m) =
                  ground arith in
                rw step (sym (h server_id e hit), k, h)
            | inr stale ↦
                let step : get_decrypted_api_key c now server_id given password_hash m
                    ≡ (some key, store now server_id key m) =
                  ground arith in
                rw step (stored key decrypted)
          ]
        ]
      ]
    where
      stored :
          (key : String)
          → decrypt_api_key c given password_hash ≡ some key
          → (some key ≡ truth server_id)
            × IsCache (store now server_id key m)
            × IsCoherent truth (store now server_id key m)
      stored key e = (
        cc,
        store-IsCache now server_id key m k,
        store-IsCoherent truth now server_id key m k h (cc),
      )

module _ (c : Crypto) (now server_id : ℕ) (given : EncryptedData) (password_hash : String)
    (m : Cache.Cache) where
  -- An entry that is five minutes old or older is not used: the answer is the decryption's.
  pub get_decrypted_api_key_stale :
      (e : CacheEntry)
      → get server_id m ≡ some e
      → e.timestamp + cache_ttl ≤ now
      → (get_decrypted_api_key c now server_id given password_hash m).0
        ≡ decrypt_api_key c given password_hash
  unfolding get_decrypted_api_key
  get_decrypted_api_key_stale e found old = ground arith

  -- A key that was decrypted because the cache had none is returned again for five minutes, whatever the
  -- credentials have become.
  pub get_decrypted_api_key_again :
      (api_key : String) (later : ℕ) (other : EncryptedData) (other_hash : String)
      → get server_id m ≡ none
      → decrypt_api_key c given password_hash ≡ some api_key
      → now ≤ later
      → later < now + cache_ttl
      → (get_decrypted_api_key c later server_id other other_hash
          (get_decrypted_api_key c now server_id given password_hash m).1).0
        ≡ some api_key
  unfolding get_decrypted_api_key store
  get_decrypted_api_key_again api_key later other other_hash absent right after soon =
      let new : CacheEntry = record { api_key = api_key; timestamp = now } in
      ground (arith, get-set server_id server_id new m, get-set server_id server_id new (evict m))

-- Clearing a server's key leaves no entry for it and every other entry as it was.
pub get-clear :
    (k j : ℕ) (m : Cache.Cache)
    → IsCache m
    → get j (clear_cached_api_key k m) ≡ (if k == j then none else get j m)
unfolding clear_cached_api_key get
get-clear k j m c = go m c.keys
  where
    go :
        (m : Cache.Cache)
        → Distinct (λ (b : ℕ × CacheEntry). b.0) m
        → get j (delete k m) ≡ (if k == j then none else get j m)
    go [] d = ground arith
    go ((i, f) ∷ m) (q, d) = ground (arith, go m d, get_absent i m q)

-- The entry that stands first in a cache with room is the one that is evicted first, also after it has
-- been stored anew.
pub refreshed_is_evicted :
    (now k : ℕ) (e : CacheEntry) (api_key : String) (m : Cache.Cache)
    → length ((k, e) ∷ m) < max_cache_size
    → evict (store now k api_key ((k, e) ∷ m)) ≡ m
unfolding store set
refreshed_is_evicted now k e api_key m room =
    ground (arith, evict_first k (record { api_key = api_key; timestamp = now }) m)
