-- ===== src/Dns/Cache/Served.antt =====
-- package/zebrafish-dns/src/cache.rs: what `get` returns.
use zebrafish.Prelude.{
  ℕ, ◌-◌, ◌≤◌, ◌<◌, List, none, some, Bytes, ◌≡◌, refl, sym, ◌∙◌, arith, inl, inr, Contains,
  Bool-cases, Option-cases, leb, ltb, if◌then◌else◌, true, false, lt→ltb,
}
use mathlib.Core.Option.{some-injective}
use zebrafish.Dns.Hickory.{Hickory}
use zebrafish.Dns.Lru
use zebrafish.Dns.Lru.{Lru}
use zebrafish.Dns.Cache.{
  CacheEntry, DnsCache, from_secs, as_secs, cache_key, with_cache, adjust_ttls, read_entry, get_key,
  get, put, extract_min_ttl,
}
use zebrafish.Dns.Cache.History.{Reaches, kept_for}
use zebrafish.Dns.Cache.Aged.{IsAged, adjust_ttls-IsAged}
use zebrafish.Dns.Hickory
use zebrafish.Dns.Cache.Filled.{
  IsFilled-Reaches, clamp_range, clamp-some, put_keyed, put_entry_held,
}

as_secs_fits : (d : ℕ) → as_secs d < 4294967296
as_secs_fits d = omega arith

module _ (H : Hickory) (L : Lru CacheEntry) (now : ℕ) (c : DnsCache L) (query : H.Message) where
  -- An entry that is found and has time left.
  abbrev IsAlive : Bytes → L.LruCache → CacheEntry → Type 0
  IsAlive k lru e =
      (cache_key H L query ≡ some k)
      × (c.cache ≡ some lru)
      × (L.peek lru k ≡ some e)
      × (now - e.inserted_at < e.ttl)

  get_missing :
      {k : Bytes} {lru : L.LruCache}
      → cache_key H L query ≡ some k
      → c.cache ≡ some lru
      → L.peek lru k ≡ none
      → (get H L now c query).0 ≡ none
  unfolding get get_key
  get_missing keyed held missing = rw (get, keyed, held, get_key, missing)

  get_found :
      {k : Bytes} {lru : L.LruCache} {e : CacheEntry}
      → cache_key H L query ≡ some k
      → c.cache ≡ some lru
      → L.peek lru k ≡ some e
      → get H L now c query ≡ read_entry H L now c lru k e
  unfolding get get_key read_entry
  get_found keyed held found = rw (get, keyed, held, get_key, found)

  read_entry-eq-some :
      (k : Bytes) (lru : L.LruCache) (e : CacheEntry) {r : Bytes}
      → (read_entry H L now c lru k e).0 ≡ some r
      → (now - e.inserted_at < e.ttl)
        × (r ≡ adjust_ttls H L e.response (as_secs (e.ttl - (now - e.inserted_at))))
  unfolding read_entry
  read_entry-eq-some k lru e {r} eq = elim (Bool-cases (leb e.ttl (now - e.inserted_at))) [
    | inl expired ↦ absurd (ground (arith, expired))
    | inr alive ↦ (ground arith, sym (some-injective _ r (rw alive at eq)))
  ]

  get-eq-some :
      {r : Bytes}
      → (get H L now c query).0 ≡ some r
      → (k : Bytes) × (lru : L.LruCache) × (e : CacheEntry) × IsAlive k lru e
        × (r ≡ adjust_ttls H L e.response (as_secs (e.ttl - (now - e.inserted_at))))
  get-eq-some {r} eq = elim (Option-cases (cache_key H L query)) [
    | inl no_query ↦
        let nothing : (get H L now c query).0 ≡ none = unfold get in rw (get, no_query) in
        absurd (ground (arith, eq, nothing))
    | inr (k, keyed) ↦ elim (Option-cases c.cache) [
      | inl poisoned ↦
          let nothing : (get H L now c query).0 ≡ none = unfold get in rw (get, keyed, poisoned) in
          absurd (ground (arith, eq, nothing))
      | inr (lru, held) ↦ elim (Option-cases (L.peek lru k)) [
        | inl missing ↦ absurd (ground (arith, eq, get_missing keyed held missing))
        | inr (e, found) ↦
            let (alive, shape) =
              read_entry-eq-some k lru e {r = r} (rw (get_found keyed held found) at eq) in
            (k, lru, e, (keyed, held, found, alive), shape)
      ]
    ]
  ]

module _ (H : Hickory) (hickory : Hickory.Laws H) (L : Lru CacheEntry) (laws : Lru.Laws L)
    (max_entries lo hi : ℕ) where
  -- With the laws of hickory and lru: whatever `get` and `put` calls came before, a response that
  -- `get` returns was put earlier, for a query with the same cache key, and the time that such a
  -- response is kept for, which is between `min_ttl` and `max_ttl` seconds, is not over. It is read
  -- as the same message, but that the TTL of every answer is the number of seconds, as a `u32`,
  -- that is left of this time; or it is the response that was put, if that cannot be rewritten in
  -- its length.
  pub get-Reaches :
      (h : List (ℕ × H.Message × Bytes)) (t : ℕ) (c : DnsCache L) (now : ℕ) (query : H.Message)
      (r : Bytes)
      → Reaches H L max_entries lo hi h t c
      → (get H L now c query).0 ≡ some r
      → (time : ℕ) × (asked : H.Message) × (response : Bytes) × (seconds : ℕ) × Contains
          (time, asked, response)
          h
        × (cache_key H L asked ≡ cache_key H L query)
        × (kept_for H L max_entries lo hi response ≡ some seconds)
        × (lo ≤ seconds)
        × (seconds ≤ hi)
        × (now - time < from_secs seconds)
        × IsAged H (as_secs (from_secs seconds - (now - time))) response r
  get-Reaches h t c now query r reached eq =
      let (k, lru, e, (keyed, held, found, alive), shape) =
        get-eq-some H L now c query {r = r} eq in
      let (asked, was_put, asked_key, (seconds, kept, lasts, low, high)) =
        (rw held at (IsFilled-Reaches H L laws max_entries lo hi {h = h} {t = t} {c = c} reached).2)
          k e found in
      (
        e.inserted_at,
        asked,
        e.response,
        seconds,
        was_put,
        asked_key ∙ sym keyed,
        kept,
        low,
        high,
        rw lasts at alive,
        rw shape (
            rw lasts (
              adjust_ttls-IsAged H hickory L e.response
                (as_secs (from_secs seconds - (now - e.inserted_at)))
                (as_secs_fits (from_secs seconds - (now - e.inserted_at))))),
      )

module _ (H : Hickory) (L : Lru CacheEntry) (laws : Lru.Laws L) where
  get_entry_age :
      (c : DnsCache L) (lru : L.LruCache) (k : Bytes) (e : CacheEntry) (now : ℕ) (query : H.Message)
      → cache_key H L query ≡ some k
      → c.cache ≡ some lru
      → L.peek lru k ≡ some e
      → (get H L now c query).0 ≡ (
          if ltb (now - e.inserted_at) e.ttl
          then some (adjust_ttls H L e.response (as_secs (e.ttl - (now - e.inserted_at))))
          else none)
  get_entry_age c lru k e now query keyed held found =
      rw (get_found H L now c query keyed held found)
        (elim (Bool-cases (leb e.ttl (now - e.inserted_at))) [
          | inl expired ↦
              let late : ltb (now - e.inserted_at) e.ttl ≡ false = ground arith in
              unfold read_entry in rw (expired, late)
          | inr alive ↦
              let young : ltb (now - e.inserted_at) e.ttl ≡ true = ground arith in
              unfold read_entry in rw (alive, young)
        ])

  -- What `get` does at `later` with an entry that was put at `now` for some seconds.
  abbrev pub IsServed : H.Message → ℕ → ℕ → ℕ → Bytes → DnsCache L → Type 0
  IsServed asked now later seconds response d =
      ((later - now < from_secs seconds)
        → (r : Bytes) × ((get H L later d asked).0 ≡ some r)
          × IsAged H (as_secs (from_secs seconds - (later - now))) response r)
      × ((from_secs seconds ≤ later - now) → (get H L later d asked).0 ≡ none)

module _ (H : Hickory) (hickory : Hickory.Laws H) (L : Lru CacheEntry) (laws : Lru.Laws L) where
  get-IsServed :
      (c : DnsCache L) (lru : L.LruCache) (k response : Bytes) (now seconds later : ℕ)
      (asked : H.Message)
      → cache_key H L asked ≡ some k
      → c.cache ≡ some lru
      → L.peek lru k
        ≡ some (record { response = response; inserted_at = now; ttl = from_secs seconds })
      → IsServed H L laws asked now later seconds response c
  get-IsServed c lru k response now seconds later asked keyed held found =
      let e : CacheEntry = record {
        response = response;
        inserted_at = now;
        ttl = from_secs seconds;
      } in
      let outcome = get_entry_age H L laws c lru k e later asked keyed held found in
      (
        λ young. (
          adjust_ttls H L response (as_secs (from_secs seconds - (later - now))),
          outcome ∙ rw (lt→ltb (later - now) (from_secs seconds) young) refl,
          adjust_ttls-IsAged H hickory L response (as_secs (from_secs seconds - (later - now)))
              (as_secs_fits (from_secs seconds - (later - now))),
        ),
        λ old.
            let late : ltb (later - now) (from_secs seconds) ≡ false = ground (arith, old) in
            outcome ∙ rw late refl,
      )

  -- With the laws of hickory and lru: if the cache's lock is not poisoned and `min_ttl` is at most
  -- `max_ttl`, then `put` of a response for a query with a question does not panic, and the
  -- response is kept for a number of seconds between the two: until then every `get` with the same
  -- cache key returns it, read as the same message but that the TTL of every answer is the seconds,
  -- as a `u32`, that are left, or as it was put if it cannot be rewritten in its length; and from
  -- then on none does.
  pub get-put :
      (now : ℕ) (c : DnsCache L) (lru : L.LruCache) (query : H.Message) (response k : Bytes)
      → c.cache ≡ some lru
      → c.min_ttl ≤ c.max_ttl
      → cache_key H L query ≡ some k
      → (d : DnsCache L) × (seconds : ℕ) × (put H L now c query response ≡ some d)
        × (c.min_ttl ≤ seconds)
        × (seconds ≤ c.max_ttl)
        × ((later : ℕ) (asked : H.Message)
            → cache_key H L asked ≡ some k
            → IsServed H L laws asked now later seconds response d)
  get-put now c lru query response k held ordered keyed =
      let (ttl, clamped) =
        clamp-some (extract_min_ttl H L c response) c.min_ttl c.max_ttl ordered in
      let (low, high) =
        clamp_range (extract_min_ttl H L c response) c.min_ttl c.max_ttl {m = ttl} clamped in
      let e : CacheEntry = record { response = response; inserted_at = now; ttl = from_secs ttl } in
      (
        with_cache H L c (L.put lru k e),
        ttl,
        put_keyed H L laws 0 0 0 now c query response k keyed
            ∙ rw (clamped, put_entry_held H L laws 0 0 0 c k e lru held),
        low,
        high,
        λ later asked asked_key.
            get-IsServed (with_cache H L c (L.put lru k e)) (L.put lru k e) k response now ttl later
              asked asked_key refl (laws.peek-put lru k e),
      )
