-- ===== src/Dns/Doh/Again.antt =====
-- package/zebrafish-dns/src/doh.rs: a query that is asked a second time.
use zebrafish.Prelude.{ℕ, ◌-◌, ◌≤◌, ◌<◌, true, false, none, some, Option, Bytes, ◌≡◌, ap, refl, ◌∙◌}
use zebrafish.Prelude.Results.{ok}
use zebrafish.Dns.Hickory.{Hickory}
use zebrafish.Dns.Lru
use zebrafish.Dns.Lru.{Lru}
use zebrafish.Dns.Cache.{CacheEntry, DnsCache, get, put, cache_key, as_secs, from_secs}
use zebrafish.Dns.Hickory
use zebrafish.Dns.Cache.Aged.{IsAged}
use zebrafish.Dns.Cache.Served.{get-put}
use zebrafish.Dns.Doh.{
  Answer, DnsResult, is_success, rewrite_id, finish, collect, receive, proceed, resolve,
}
use zebrafish.Dns.Doh.Steps.{resolve_read}

module _ (H : Hickory) (L : Lru CacheEntry) where
  abbrev pub result_of : H.Message → Bytes → Answer → DnsResult
  result_of msg body answer = record {
    response = rewrite_id (H.header msg).header_id body;
    cached = false;
    upstream_status = some answer.status;
    upstream_latency_ms = some answer.latency_ms;
  }

  abbrev pub result_again : H.Message → Bytes → DnsResult
  result_again msg hit = record {
    response = rewrite_id (H.header msg).header_id hit;
    cached = true;
    upstream_status = none;
    upstream_latency_ms = none;
  }

  resolve_miss :
      (upstream : Bytes → Option Answer) (meanwhile : DnsCache L → DnsCache L) (now later : ℕ)
      (c d : DnsCache L) (query : Bytes) (msg : H.Message) (answer : Answer) (body : Bytes)
      → H.from_vec query ≡ some msg
      → (get H L now c msg).0 ≡ none
      → upstream query ≡ some answer
      → is_success answer.status ≡ true
      → answer.body ≡ some body
      → put H L later (meanwhile (get H L now c msg).1) msg body ≡ some d
      → resolve H L upstream meanwhile now later c query ≡ (ok (result_of msg body answer), d)
  unfolding proceed receive collect finish
  resolve_miss upstream meanwhile now later c d query msg answer body read missed answered success
        whole kept =
      resolve_read H L now later c query msg none upstream meanwhile read missed
      ∙ rw (answered, success, whole, kept) refl

  resolve_hit :
      (upstream : Bytes → Option Answer) (meanwhile : DnsCache L → DnsCache L) (now later : ℕ)
      (c : DnsCache L) (query : Bytes) (msg : H.Message) (hit : Bytes)
      → H.from_vec query ≡ some msg
      → (get H L now c msg).0 ≡ some hit
      → (resolve H L upstream meanwhile now later c query).0 ≡ ok (result_again msg hit)
  unfolding proceed
  resolve_hit upstream meanwhile now later c query msg hit read looked =
      ap (λ o. o.0)
        (resolve_read H L now later c query msg (some hit) upstream meanwhile read looked)

module _ (H : Hickory) (hickory : Hickory.Laws H) (L : Lru CacheEntry) (laws : Lru.Laws L) where
  -- With the laws of hickory and lru: a query with a question that is not cached is resolved, at
  -- `later`, with the body that the upstream server sent with success, whatever the other tasks did
  -- meanwhile, as long as the lock is not poisoned and `min_ttl` is at most `max_ttl`. For a time
  -- between the two from then on, a query with the same cache key is answered from the cache this
  -- leaves, under its own id, whatever the upstream server would answer: with the body read as the
  -- same message but that the TTL of every answer is the seconds, as a `u32`, that are left, or
  -- with the body itself if it cannot be rewritten in its length.
  pub resolve-resolve :
      (upstream : Bytes → Option Answer) (meanwhile : DnsCache L → DnsCache L) (now later : ℕ)
      (c : DnsCache L) (lru : L.LruCache) (query : Bytes) (msg : H.Message) (answer : Answer)
      (body k : Bytes)
      → H.from_vec query ≡ some msg
      → cache_key H L msg ≡ some k
      → (get H L now c msg).0 ≡ none
      → (meanwhile (get H L now c msg).1).cache ≡ some lru
      → (meanwhile (get H L now c msg).1).min_ttl ≤ (meanwhile (get H L now c msg).1).max_ttl
      → upstream query ≡ some answer
      → is_success answer.status ≡ true
      → answer.body ≡ some body
      → (d : DnsCache L) × (ttl : ℕ) × (resolve H L upstream meanwhile now later c query
          ≡ (ok (result_of H L msg body answer), d))
        × ((meanwhile (get H L now c msg).1).min_ttl ≤ ttl)
        × (ttl ≤ (meanwhile (get H L now c msg).1).max_ttl)
        × ((upstream_then : Bytes → Option Answer) (meanwhile_then : DnsCache L → DnsCache L)
              (time after : ℕ) (again : Bytes) (asked : H.Message)
            → H.from_vec again ≡ some asked
            → cache_key H L asked ≡ some k
            → time - later < from_secs ttl
            → (hit : Bytes) × ((resolve H L upstream_then meanwhile_then time after d again).0
                ≡ ok (result_again H L asked hit))
              × IsAged H (as_secs (from_secs ttl - (time - later))) body hit)
  resolve-resolve upstream meanwhile now later c lru query msg answer body k read keyed missed held
        ordered answered success whole =
      let (d, ttl, kept, low, high, served) =
        get-put H hickory L laws later (meanwhile (get H L now c msg).1) lru msg body k held ordered
          keyed in
      (
        d,
        ttl,
        resolve_miss H L upstream meanwhile now later c d query msg answer body read missed answered
            success whole kept,
        low,
        high,
        λ upstream_then meanwhile_then time after again asked read_again keyed_again young.
            let (hit, looked, shape) = (served time asked keyed_again).0 young in
            (
              hit,
              resolve_hit H L upstream_then meanwhile_then time after d again asked hit read_again
                  looked,
              shape,
            ),
      )
