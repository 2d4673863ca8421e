-- ===== src/Dns/Cache/Spec.antt =====
-- What package/zebrafish-dns/src/cache.rs promises, without the LRU list: a partial map from keys
-- to entries that may forget any of them at any call, and never serves one beyond its time.
use zebrafish.Prelude.{
  ℕ, ◌-◌, ◌≤◌, List, [], ◌∷◌, Option, none, some, Bytes, ◌≡◌, ◌≢◌, ◌⊎◌, if◌then◌else◌, ltb,
}
use zebrafish.Dns.Hickory.{Hickory}
use zebrafish.Dns.Lru.{Lru}
use zebrafish.Dns.Cache.{CacheEntry, from_secs, as_secs, cache_key, adjust_ttls}

abbrev pub View : Type 0
View = Bytes → Option CacheEntry

abbrev pub nothing : View
nothing k = none

abbrev pub Forgets : View → View → Type 0
Forgets m n = (k : Bytes) → (n k ≡ m k) ⊎ (n k ≡ none)

-- A call with its time.
pub data Call (M : Type 0) : Type 0 where
  get : ℕ → M → Call M
  put : ℕ → M → Bytes → Call M

module _ (H : Hickory) (L : Lru CacheEntry) where
  abbrev pub alive : ℕ → Option CacheEntry → Option Bytes
  alive now none = none
  alive now (some e) =
      if ltb (now - e.inserted_at) e.ttl
      then some (adjust_ttls H L e.response (as_secs (e.ttl - (now - e.inserted_at))))
      else none

  abbrev pub served : ℕ → Option Bytes → View → Option Bytes
  served now none m = none
  served now (some k) m = alive now (m k)

module _ (H : Hickory) (L : Lru CacheEntry) (lo hi : ℕ) where
  -- Kept under its key, for a time that is left open between the bounds.
  abbrev pub IsStored : ℕ → Option Bytes → Bytes → View → View → Type 0
  IsStored now none response m n = Forgets m n
  IsStored now (some k) response m n =
      ((ttl : ℕ) × (lo ≤ ttl)
        × (ttl ≤ hi)
        × (n k ≡ some (record { response = response; inserted_at = now; ttl = from_secs ttl })))
      × ((j : Bytes) → k ≢ j → (n j ≡ m j) ⊎ (n j ≡ none))

  -- The answers to the `get` calls that are allowed.
  pub data Allows : View → List (Call H.Message) → List (Option Bytes) → Type 0 where
    finished : {m : View} → Allows m [] []
    got :
        {m n : View} {cs : List (Call H.Message)} {os : List (Option Bytes)} (now : ℕ)
        (query : H.Message)
        → Forgets m n
        → Allows n cs os
        → Allows m (get now query ∷ cs) (served H L now (cache_key H L query) m ∷ os)
    stored :
        {m n : View} {cs : List (Call H.Message)} {os : List (Option Bytes)} (now : ℕ)
        (query : H.Message) (response : Bytes)
        → IsStored now (cache_key H L query) response m n
        → Allows n cs os
        → Allows m (put now query response ∷ cs) os
