-- ===== src/Dns/Server/Tasks/Cached.antt =====
-- package/zebrafish-dns/src/server.rs, doh.rs and cache.rs: the replies that a task takes from the
-- cache while others wait.
use zebrafish.Prelude.{
  ℕ, ◌-◌, true, ◌≤◌, ◌<◌, List, ◌∷◌, Option, none, some, Text, Bytes, take, ◌≡◌, refl, arith,
}
use zebrafish.Prelude.Results.{ok}
use zebrafish.Dns.Hickory.{Hickory}
use zebrafish.Dns.Lru
use zebrafish.Dns.Lru.{Lru}
use zebrafish.Dns.Cache.{CacheEntry, get, cache_key, as_secs, from_secs}
use zebrafish.Dns.Hickory
use zebrafish.Dns.Cache.Aged.{IsAged}
use zebrafish.Dns.Cache.History.{kept_for}
use zebrafish.Dns.Cache.Served.{get-Reaches}
use zebrafish.Dns.Doh.{DnsResult, proceed, rewrite_id}
use zebrafish.Dns.QueryLog.Entry.{QueryLogEntry, QueryLogger, Source, Display}
use zebrafish.Dns.Server.Tasks.{
  Clocks, World, Event, arrived, end_of, looked_up, spawn, step, Reach,
}
use zebrafish.Dns.Server.Tasks.Sources.{IsBody}
use zebrafish.Dns.Server.Tasks.Traced.{Reach-IsTraced}

module _ (H : Hickory) where
  -- What a hit is answered with.
  abbrev pub hit_result : H.Message → Bytes → DnsResult
  hit_result msg hit = record {
    response = rewrite_id (H.header msg).header_id hit;
    cached = true;
    upstream_status = none;
    upstream_latency_ms = none;
  }

module _ (H : Hickory) (hickory : Hickory.Laws H) (L : Lru CacheEntry) (laws : Lru.Laws L)
    (display : Display H) (to_json : QueryLogEntry → Option Text) (logger : Option QueryLogger)
    (max_entries lo hi : ℕ) where
  step_hit :
      (w : World H.Message L) (at : Clocks) (bytes : Bytes) (src : Source) (msg : H.Message)
      (hit : Bytes)
      → H.from_vec (take 4096 bytes) ≡ some msg
      → (get H L at.now w.cache msg).0 ≡ some hit
      → (step H L display to_json logger (arrived at bytes src) w).finished
        ≡ end_of H L display to_json logger at (take 4096 bytes) src (ok (hit_result H msg hit))
          ∷ w.finished
  unfolding step spawn looked_up proceed
  step_hit w at bytes src msg hit read looked = rw (read, looked) refl

  -- With the laws of hickory and lru, however the tasks of the datagrams are interleaved: if a
  -- query arrives and `get` returns a response, then its task ends at once with this response,
  -- under the id of the query. The response comes from the body of a successful answer that the
  -- upstream server gave to a query with the same cache key, which had arrived before that, and the
  -- time that the body is kept for, between `min_ttl` and `max_ttl` seconds, is not over. The
  -- response is read as the same message but that the TTL of every answer is the seconds, as a
  -- `u32`, that are left of this time; or it is the body, if that cannot be rewritten in its
  -- length.
  pub step-IsBody :
      {es : List Event} {t : ℕ} {w : World H.Message L} (at : Clocks) (bytes : Bytes) (src : Source)
      (msg : H.Message) (hit : Bytes)
      → Reach H L display to_json logger max_entries lo hi es t w
      → t ≤ at.now
      → H.from_vec (take 4096 bytes) ≡ some msg
      → (get H L at.now w.cache msg).0 ≡ some hit
      → ((step H L display to_json logger (arrived at bytes src) w).finished
          ≡ end_of H L display to_json logger at (take 4096 bytes) src (ok (hit_result H msg hit))
            ∷ w.finished)
        × ((time : ℕ) × (asked : H.Message) × (body : Bytes) × (seconds : ℕ) × IsBody H L es time
              asked body
            × (time ≤ at.now)
            × (cache_key H L asked ≡ cache_key H L msg)
            × (kept_for H L max_entries lo hi body ≡ some seconds)
            × (lo ≤ seconds)
            × (seconds ≤ hi)
            × (at.now - time < from_secs seconds)
            × IsAged H (as_secs (from_secs seconds - (at.now - time))) body hit)
  step-IsBody {es} {t} {w} at bytes src msg hit r le read looked =
      let (h, s, before, reached, bodies, asks) =
        Reach-IsTraced H L display to_json logger max_entries lo hi r in
      let (time, asked, body, seconds, was_put, keyed, kept, low, high, young, shape) =
        get-Reaches H hickory L laws max_entries lo hi h s w.cache at.now msg hit reached looked in
      let (early, is_body) = bodies time asked body was_put in
      (
        step_hit w at bytes src msg hit read looked,
        (
          time,
          asked,
          body,
          seconds,
          is_body,
          omega (arith, early, le),
          keyed,
          kept,
          low,
          high,
          young,
          shape,
        ),
      )
