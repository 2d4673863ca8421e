-- ===== src/Dns/Cache/History.antt =====
-- package/zebrafish-dns/src/cache.rs: what stands in the cache after any sequence of calls. The
-- mutex puts the calls of all tasks in one order, so a run is a sequence of `get` and `put`.
use zebrafish.Prelude.{ℕ, ◌≤◌, List, [], ◌∷◌, Option, none, some, Bytes, ◌≡◌, Contains}
use zebrafish.Dns.Hickory.{Hickory}
use zebrafish.Dns.Lru.{Lru}
use zebrafish.Dns.Cache.{
  CacheEntry, DnsCache, from_secs, clamp, extract_min_ttl, cache_key, new, get, put,
}

module _ (H : Hickory) (L : Lru CacheEntry) (max_entries lo hi : ℕ) where
  -- The calls made so far, the time of the last one, and the cache after it.
  pub data Reaches : List (ℕ × H.Message × Bytes) → ℕ → DnsCache L → Type 0 where
    started : {t : ℕ} → Reaches [] t (new H L max_entries lo hi)
    got :
        {h : List (ℕ × H.Message × Bytes)} {t : ℕ} {c : DnsCache L} (now : ℕ) (query : H.Message)
        → Reaches h t c
        → t ≤ now
        → Reaches h now (get H L now c query).1
    stored :
        {h : List (ℕ × H.Message × Bytes)} {t : ℕ} {c d : DnsCache L} (now : ℕ) (query : H.Message)
        (response : Bytes)
        → Reaches h t c
        → t ≤ now
        → put H L now c query response ≡ some d
        → Reaches ((now, query, response) ∷ h) now d

  -- The seconds that a response is kept for.
  abbrev pub kept_for : Bytes → Option ℕ
  kept_for response = clamp (extract_min_ttl H L (new H L max_entries lo hi) response) lo hi

  -- An entry that stands under a key was put by a query with that key, for the time of its response.
  abbrev pub IsEntry : List (ℕ × H.Message × Bytes) → Bytes → CacheEntry → Type 0
  IsEntry h k e =
      (query : H.Message) × Contains (e.inserted_at, query, e.response) h
      × (cache_key H L query ≡ some k)
      × ((seconds : ℕ) × (kept_for e.response ≡ some seconds)
          × (e.ttl ≡ from_secs seconds)
          × (lo ≤ seconds)
          × (seconds ≤ hi))

  abbrev pub AllEntries : List (ℕ × H.Message × Bytes) → L.LruCache → Type 0
  AllEntries h lru = (k : Bytes) (e : CacheEntry) → L.peek lru k ≡ some e → IsEntry h k e

  abbrev pub AllCached : List (ℕ × H.Message × Bytes) → Option L.LruCache → Type 0
  AllCached h none = Unit {0}
  AllCached h (some lru) = AllEntries h lru

  abbrev pub IsFilled : List (ℕ × H.Message × Bytes) → DnsCache L → Type 0
  IsFilled h c = (c.min_ttl ≡ lo) × (c.max_ttl ≡ hi) × AllCached h c.cache
