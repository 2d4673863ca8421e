-- ===== src/Dns/Server/Answered.antt =====
-- package/zebrafish-dns/src/server.rs: the replies to datagrams and their lines in the query log.
use zebrafish.Prelude.{
  ℕ, ◌≤◌, true, List, [], ◌∷◌, ◌++◌, Option, some, Text, text, Bytes, take, length, ◌≡◌, ◌≢◌, refl,
  ap, Contains, here, there,
}
use zebrafish.Prelude.Results.{Result, ok, err}
use zebrafish.Dns.Hickory.{Hickory}
use zebrafish.Dns.Lru.{Lru}
use zebrafish.Dns.Cache.{CacheEntry, DnsCache, be_bytes}
use zebrafish.Dns.Doh.{Answer, DnsResult, Failure, panicked, resolve}
use zebrafish.Dns.Doh.Resolve.{resolve_id}
use zebrafish.Dns.Doh.Steady.{IsSameBounds, resolve-ne-panicked}
use zebrafish.Dns.Server.{build_servfail, servfail_message, servfail_result}
use zebrafish.Dns.Server.Udp.{
  Received, datagram, receive_error, spawned, Handled, answer_with, handle, udp_task,
}
use zebrafish.Dns.QueryLog.Entry.{
  QueryLogEntry, QueryLogger, Source, Display, log, log_entry, log_entry_of,
}

-- What is sent and logged after `resolve`: its result, or the SERVFAIL after an error.
abbrev pub IsGiven : (H : Hickory) → Bytes → Result Failure DnsResult → DnsResult → Type 0
IsGiven H query (ok x) r = r ≡ x
IsGiven H query (err e) r =
    (b : Bytes) × (build_servfail H query ≡ some b) × (r ≡ servfail_result b)

spawned-Contains :
    (rs : List Received) (bytes : Bytes) (src : Source)
    → Contains (datagram bytes src) rs
    → Contains (take 4096 bytes, src) (spawned rs)
unfolding spawned
spawned-Contains [] bytes src c = elim c [ ]
spawned-Contains (datagram b s ∷ rs) bytes src here = here
spawned-Contains (datagram b s ∷ rs) bytes src (there c) = there (spawned-Contains rs bytes src c)
spawned-Contains (receive_error ∷ rs) bytes src (there c) = spawned-Contains rs bytes src c

module _ (H : Hickory) (display : Display H) (to_json : QueryLogEntry → Option Text)
    (logger : Option QueryLogger) (now : Text) (src : Source) (protocol : Text) (query : Bytes)
    (total_ms : ℕ) where
  pub handle-err :
      (e : Failure) (response : Bytes)
      → e ≢ panicked
      → build_servfail H query ≡ some response
      → handle H display to_json logger now src protocol query total_ms (err e)
        ≡ answer_with H display to_json logger now src protocol query total_ms
            (servfail_result response)
  unfolding handle
  handle-err Failure.unparsed response other built = rw built refl
  handle-err Failure.no_answer response other built = rw built refl
  handle-err Failure.no_body response other built = rw built refl
  handle-err Failure.panicked response other built = absurd (other refl)
  handle-err (Failure.upstream_error n) response other built = rw built refl

module _ (H : Hickory) (display : Display H) (to_json : QueryLogEntry → Option Text)
    (logger : QueryLogger) (now : Text) (src : Source) (protocol : Text) (query : Bytes)
    (total_ms : ℕ) where
  -- The one line that is logged for a result.
  abbrev pub line_of : (QueryLogEntry → Text) → DnsResult → Text
  line_of json r =
      json (log_entry_of H display now logger.process src protocol query r total_ms) ++ text "\n"

  log_line :
      (json : QueryLogEntry → Text) (r : DnsResult)
      → ((e : QueryLogEntry) → to_json e ≡ some (json e))
      → logger.enabled ≡ true
      → logger.unlocked ≡ true
      → log H display to_json logger now src protocol query r total_ms ≡ line_of json r ∷ []
  unfolding log log_entry
  log_line json r printed enabled unlocked =
      rw
        (
          enabled,
          unlocked,
          printed (log_entry_of H display now logger.process src protocol query r total_ms),
        )
        refl

  -- One reply, which has the id of the query if it has two bytes or more, and one line about it.
  abbrev pub IsAnswered : (QueryLogEntry → Text) → ℕ → Result Failure DnsResult → Handled → Type 0
  IsAnswered json id outcome done =
      (r : DnsResult) × IsGiven H query outcome r
      × (done.sent ≡ some r.response)
      × ((2 ≤ length r.response) → take 2 r.response ≡ be_bytes id)
      × (done.lines ≡ line_of json r ∷ [])

  pub handle-IsAnswered :
      (json : QueryLogEntry → Text) (id : ℕ) (outcome : Result Failure DnsResult) (response : Bytes)
      → ((e : QueryLogEntry) → to_json e ≡ some (json e))
      → logger.enabled ≡ true
      → logger.unlocked ≡ true
      → outcome ≢ err panicked
      → ((r : DnsResult)
          → outcome ≡ ok r
          → (2 ≤ length r.response)
          → take 2 r.response ≡ be_bytes id)
      → build_servfail H query ≡ some response
      → take 2 response ≡ be_bytes id
      → IsAnswered json id outcome
          (handle H display to_json (some logger) now src protocol query total_ms outcome)
  unfolding handle
  handle-IsAnswered json id (ok r) response printed enabled unlocked calm same built fits =
      (r, refl, refl, same r refl, log_line json r printed enabled unlocked)
  handle-IsAnswered json id (err e) response printed enabled unlocked calm same built fits =
      rw
        (handle-err H display to_json (some logger) now src protocol query total_ms e response
          (λ p. calm (ap err p)) built)
        (
          servfail_result response,
          (response, built, refl),
          refl,
          (λ h. fits),
          log_line json (servfail_result response) printed enabled unlocked,
        )

module _ (H : Hickory) (L : Lru CacheEntry) (display : Display H)
    (to_json : QueryLogEntry → Option Text) (json : QueryLogEntry → Text) where
  -- Let `min_ttl` be at most `max_ttl`, which other tasks do not change, and let hickory encode the
  -- SERVFAIL for the query, with its id in front. Then for every datagram whose first 4096 bytes
  -- hickory reads, a task runs that sends exactly one reply, whatever the cache and the upstream
  -- server do: the result of `resolve` or, after an error, the SERVFAIL, starting with the id of
  -- the query if it has two bytes. An enabled logger whose entries can be printed gets exactly
  -- one line, about this query and reply.
  pub udp_task-IsAnswered :
      (logger : QueryLogger) (stamp : Text) (total_ms : ℕ) (upstream : Bytes → Option Answer)
      (meanwhile : DnsCache L → DnsCache L) (now later : ℕ) (c : DnsCache L)
      (events : List Received) (bytes : Bytes) (src : Source) (msg : H.Message) (response : Bytes)
      → ((e : QueryLogEntry) → to_json e ≡ some (json e))
      → logger.enabled ≡ true
      → logger.unlocked ≡ true
      → c.min_ttl ≤ c.max_ttl
      → ((d : DnsCache L) → IsSameBounds H L d (meanwhile d))
      → Contains (datagram bytes src) events
      → H.from_vec (take 4096 bytes) ≡ some msg
      → H.to_vec (servfail_message H msg) ≡ some response
      → take 2 response ≡ be_bytes (H.header msg).header_id
      → Contains (take 4096 bytes, src) (spawned events)
        × IsAnswered H display to_json logger stamp src
            (text "UDP")
            (take 4096 bytes)
            total_ms
            json
            (H.header msg).header_id
            (resolve H L upstream meanwhile now later c (take 4096 bytes)).0
            (udp_task H L display to_json
              (some logger)
              stamp
              total_ms
              upstream
              meanwhile
              now
              later
              c
              (take 4096 bytes, src))
  unfolding udp_task build_servfail
  udp_task-IsAnswered logger stamp total_ms upstream meanwhile now later c events bytes src msg
        response printed enabled unlocked ordered same received read built fits =
      let query = take 4096 bytes in
      let outcome = (resolve H L upstream meanwhile now later c query).0 in
      let calm : outcome ≢ err panicked =
        resolve-ne-panicked H L upstream meanwhile now later c query msg read ordered same in
      let failed : build_servfail H query ≡ some response = rw read built in
      (
        spawned-Contains events bytes src received,
        handle-IsAnswered H display to_json logger stamp src (text "UDP") query total_ms json
            (H.header msg).header_id outcome response printed enabled unlocked calm
            (λ r done long.
              resolve_id H L upstream meanwhile now later c query msg r read done long)
            failed fits,
      )
