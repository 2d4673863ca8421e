-- ===== src/Dns/Cache.antt =====
-- package/zebrafish-dns/src/cache.rs. Times are nanoseconds of the monotonic clock; `now` is what
-- `Instant::now()` reads. The mutex is `none` when it is poisoned. DNS messages and the LRU list
-- are the crates hickory-proto and lru, parameters of the model.
pub mod History
pub mod Filled
pub mod Served
pub mod Keys
pub mod Ttl
pub mod Aged
pub mod Spec
pub mod Refinement
use zebrafish.Prelude.{
  ℕ, ◌+◌, ◌-◌, ◌*◌, ◌/◌, ◌%◌, Bool, true, false, not, ◌&&◌, List, [], ◌∷◌, ◌++◌, Option, none, some,
  Bytes, Option-cases, if◌then◌else◌, ltb, leb, ◌==◌, is_empty, length, map, ◌>>=◌, min, max,
}
use zebrafish.Dns.Hickory.{Hickory}
use zebrafish.Dns.Lru.{Lru}

pub record CacheEntry : Type 0 where
  pub response : Bytes
  pub inserted_at : ℕ
  pub ttl : ℕ

-- `Duration::from_secs`.
abbrev pub from_secs : ℕ → ℕ
from_secs s = s * 1000000000

-- `as_secs() as u32`.
abbrev pub as_secs : ℕ → ℕ
as_secs d = d / 1000000000 % 4294967296

-- `to_be_bytes` of a `u16`.
abbrev pub be_bytes : ℕ → Bytes
be_bytes n = n / 256 % 256 ∷ n % 256 ∷ []

-- `clamp`, which panics if the bounds are in the wrong order.
unfoldable pub clamp : ℕ → ℕ → ℕ → Option ℕ
clamp n low high =
    if ltb high low
    then none
    else if ltb n low
    then some low
    else if ltb high n
    then some high
    else some n

pub record DnsCache (L : Lru CacheEntry) : Type 0 where
  pub cache : Option L.LruCache
  pub min_ttl : ℕ
  pub max_ttl : ℕ

module _ (H : Hickory) (L : Lru CacheEntry) where
  open H use {Message, Query, Record}

  unfoldable pub new : ℕ → ℕ → ℕ → DnsCache L
  new max_entries lo hi = record {
    cache = some (L.new (max max_entries 1));
    min_ttl = lo;
    max_ttl = hi;
  }

  abbrev pub with_cache : DnsCache L → L.LruCache → DnsCache L
  with_cache c lru = record { cache = some lru; min_ttl = c.min_ttl; max_ttl = c.max_ttl }

  unfoldable pub question_key : Query → Bytes
  question_key q =
      H.lowercase_name q
      ++ ((b'|' ∷ be_bytes (H.query_type q)) ++ (b'|' ∷ be_bytes (H.query_class q)))

  unfoldable pub cache_key : Message → Option Bytes
  cache_key query = elim (H.queries query) [ [] ↦ none | q ∷ qs ↦ some (question_key q) ]

  -- The loop over the answers, and the one over the additional records without OPT.
  unfoldable pub min_answers : ℕ → List Record → ℕ
  min_answers m [] = m
  min_answers m (r ∷ rs) = min_answers (min m (H.ttl r)) rs

  unfoldable pub min_additionals : ℕ → List Record → ℕ
  min_additionals m [] = m
  min_additionals m (r ∷ rs) =
      if not (H.is_opt r) then min_additionals (min m (H.ttl r)) rs else min_additionals m rs

  unfoldable pub message_ttl : ℕ → ℕ → Message → ℕ
  message_ttl lo hi msg =
      let m = min_additionals (min_answers hi (H.answers msg)) (H.additionals msg) in
      if m == hi && not (is_empty (H.answers msg)) then lo else m

  unfoldable pub extract_min_ttl : DnsCache L → Bytes → ℕ
  extract_min_ttl c response = elim (H.from_vec response) [
    | none ↦ c.min_ttl
    | some msg ↦ message_ttl c.min_ttl c.max_ttl msg
  ]

  unfoldable pub rewritten : Bytes → Option Bytes → Bytes
  rewritten response none = response
  rewritten response (some bytes) = if length bytes == length response then bytes else response

  unfoldable pub adjust_ttls : Bytes → ℕ → Bytes
  adjust_ttls response remaining = elim (H.from_vec response) [
    | none ↦ response
    | some msg ↦
        rewritten response
          (H.to_vec (H.with_answers msg (map (H.set_ttl remaining) (H.answers msg))))
  ]

  -- What `get` does with the entry it finds: the response, and the cache left behind.
  unfoldable pub read_entry :
      ℕ → DnsCache L → L.LruCache → Bytes → CacheEntry → Option Bytes × DnsCache L
  read_entry now c lru key entry =
      let elapsed = now - entry.inserted_at in
      if leb entry.ttl elapsed then (none, with_cache c (L.pop (L.promote lru key) key)) else (
        some (adjust_ttls entry.response (as_secs (entry.ttl - elapsed))),
        with_cache c (L.promote lru key),
      )

  unfoldable pub get_key : ℕ → DnsCache L → L.LruCache → Bytes → Option Bytes × DnsCache L
  get_key now c lru key = elim (L.peek lru key) [
    | none ↦ (none, with_cache c (L.promote lru key))
    | some entry ↦ read_entry now c lru key entry
  ]

  unfoldable pub get : ℕ → DnsCache L → Message → Option Bytes × DnsCache L
  get now c query = elim (cache_key query) [
    | none ↦ (none, c)
    | some key ↦ elim c.cache [ none ↦ (none, c) | some lru ↦ get_key now c lru key ]
  ]

  unfoldable pub put_entry : DnsCache L → Bytes → CacheEntry → DnsCache L
  put_entry c key entry = elim c.cache [ none ↦ c | some lru ↦ with_cache c (L.put lru key entry) ]

  -- `none` when `clamp` panics.
  unfoldable pub put : ℕ → DnsCache L → Message → Bytes → Option (DnsCache L)
  put now c query response = elim (cache_key query) [
    | none ↦ some c
    | some key ↦ clamp (extract_min_ttl c response) c.min_ttl c.max_ttl >>= λ ttl.
        some
          (put_entry c key (record { response = response; inserted_at = now; ttl = from_secs ttl }))
  ]
