-- ===== src/Dns/Doh/Steps.antt =====
-- package/zebrafish-dns/src/doh.rs: `resolve` by whether the query is read and what `get` returns.
use zebrafish.Prelude.{ℕ, Option, none, some, Bytes, ◌≡◌, refl}
use zebrafish.Prelude.Results.{err}
use zebrafish.Dns.Hickory.{Hickory}
use zebrafish.Dns.Lru.{Lru}
use zebrafish.Dns.Cache.{CacheEntry, DnsCache, get}
use zebrafish.Dns.Doh.{Answer, unparsed, proceed, resolve, resolve_message}

module _ (H : Hickory) (L : Lru CacheEntry) where
  pub resolve_unread :
      (now next : ℕ) (c : DnsCache L) (query : Bytes) (upstream : Bytes → Option Answer)
      (meanwhile : DnsCache L → DnsCache L)
      → H.from_vec query ≡ none
      → (resolve H L upstream meanwhile now next c query).0 ≡ err unparsed
  unfolding resolve resolve_message
  resolve_unread now next c query upstream meanwhile read = rw read refl

  pub resolve_read :
      (now next : ℕ) (c : DnsCache L) (query : Bytes) (msg : H.Message) (hit : Option Bytes)
      (upstream : Bytes → Option Answer) (meanwhile : DnsCache L → DnsCache L)
      → H.from_vec query ≡ some msg
      → (get H L now c msg).0 ≡ hit
      → resolve H L upstream meanwhile now next c query
        ≡ proceed H L next msg hit
            (upstream query)
            (get H L now c msg).1
            (meanwhile (get H L now c msg).1)
  unfolding resolve resolve_message
  resolve_read now next c query msg hit upstream meanwhile read looked = rw (read, looked) refl
