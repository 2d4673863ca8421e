-- ===== src/Dns/Server/Conversation.antt =====
-- package/zebrafish-dns/src/server.rs: a TCP connection whose queries `DohClient::resolve` answers
-- and the query log records.
use zebrafish.Prelude.{
  ℕ, suc, ◌≤◌, ◌<◌, List, [], ◌∷◌, ◌++◌, Option, some, Bytes, Text, text, take, length, ◌≡◌, ◌≢◌,
  refl, sym, ◌∙◌, ap, arith, append-nil, append_assoc,
}
use zebrafish.Prelude.Results.{Result, ok, err}
use zebrafish.Dns.Hickory.{Hickory}
use zebrafish.Dns.Lru.{Lru}
use zebrafish.Dns.Cache.{CacheEntry, DnsCache, be_bytes}
use zebrafish.Dns.Doh.{
  Answer, DnsResult, Failure, unparsed, no_answer, no_body, panicked, upstream_error, resolve,
}
use zebrafish.Dns.Doh.Resolve.{resolve_id}
use zebrafish.Dns.Doh.Steady.{IsSameBounds, resolve-ne-panicked, resolve-IsSameBounds}
use zebrafish.Dns.QueryLog.Entry.{QueryLogEntry, QueryLogger, Source, Display}
use zebrafish.Dns.Server.{
  closed, reply, or_servfail, respond_servfail, servfail_result, build_servfail, servfail_message,
  serve,
}
use zebrafish.Dns.Server.Udp.{logged}
use zebrafish.Dns.Server.Answered.{IsGiven}
use zebrafish.Dns.Server.Frames.{frames, AllFit, Replies, done, next, serve-frames}

-- What a query meets: the upstream server, what other tasks do to the cache, the times of the
-- query and of its answer, the text of the time, and how long it took.
pub record Moment (C : Type 0) : Type 0 where
  pub upstream : Bytes → Option Answer
  pub meanwhile : C → C
  pub now : ℕ
  pub later : ℕ
  pub stamp : Text
  pub total_ms : ℕ

module _ (H : Hickory) (L : Lru CacheEntry) (display : Display H)
    (to_json : QueryLogEntry → Option Text) (logger : Option QueryLogger) (src : Source)
    (moments : ℕ → Moment (DnsCache L)) where
  abbrev pub resolve_at : ℕ → DnsCache L → Bytes → Result Failure DnsResult × DnsCache L
  resolve_at i c query =
      resolve H L (moments i).upstream (moments i).meanwhile (moments i).now (moments i).later c
        query

  abbrev pub lines_at : ℕ → Bytes → DnsResult → List Text
  lines_at i query r =
      logged H display to_json logger (moments i).stamp src (text "TCP") query (moments i).total_ms
        r

  -- The number of queries answered, the cache, and the lines logged.
  abbrev pub State : Type 0
  State = ℕ × DnsCache L × List Text

  abbrev pub client_resolve : State → Bytes → Result Failure DnsResult × State
  client_resolve (i, c, ls) query = ((resolve_at i c query).0, (i, (resolve_at i c query).1, ls))

  abbrev pub client_log : State → Bytes → DnsResult → State
  client_log (i, c, ls) query r = (suc i, c, ls ++ lines_at i query r)

  -- A query that hickory reads, and whose SERVFAIL it encodes with the id in front.
  abbrev pub IsQuery : Bytes → Type 0
  IsQuery query =
      (msg : H.Message) × (response : Bytes) × (H.from_vec query ≡ some msg)
      × (H.to_vec (servfail_message H msg) ≡ some response)
      × (take 2 response ≡ be_bytes (H.header msg).header_id)

  abbrev pub AllQueries : List Bytes → Type 0
  AllQueries [] = Unit {0}
  AllQueries (q ∷ qs) = IsQuery q × AllQueries qs

  abbrev pub IsResponse : Bytes → Bytes → Type 0
  IsResponse q r =
      (msg : H.Message) × (H.from_vec q ≡ some msg)
      × ((2 ≤ length r) → take 2 r ≡ be_bytes (H.header msg).header_id)

  -- A response for each query: the result of `resolve` or the SERVFAIL, with its id if it has two
  -- bytes or more, and what is logged of it; no call panicked.
  pub data AllResponses
      : ℕ → DnsCache L → List Bytes → List Bytes → List Text → DnsCache L → Type 0 where
    ended : {i : ℕ} {c : DnsCache L} → AllResponses i c [] [] [] c
    answered :
        {i : ℕ} {c d : DnsCache L} {q : Bytes} {qs rs : List Bytes} {ls : List Text} (r : DnsResult)
        → (resolve_at i c q).0 ≢ err panicked
        → IsGiven H q (resolve_at i c q).0 r
        → IsResponse q r.response
        → AllResponses (suc i) (resolve_at i c q).1 qs rs ls d
        → AllResponses i c (q ∷ qs) (r.response ∷ rs) (lines_at i q r ++ ls) d

  or_servfail-failed :
      (s : State) (query : Bytes) (e : Failure)
      → e ≢ panicked
      → or_servfail H client_resolve client_log s query (err e)
        ≡ respond_servfail H client_resolve client_log s query (build_servfail H query)
  or_servfail-failed s query unparsed calm = refl
  or_servfail-failed s query no_answer calm = refl
  or_servfail-failed s query no_body calm = refl
  or_servfail-failed s query panicked calm = absurd (calm refl)
  or_servfail-failed s query (upstream_error status) calm = refl

  or_servfail-IsResponse :
      (s : State) (query : Bytes) (outcome : Result Failure DnsResult) (msg : H.Message)
      (response : Bytes)
      → H.from_vec query ≡ some msg
      → outcome ≢ err panicked
      → ((r : DnsResult)
          → outcome ≡ ok r
          → (2 ≤ length r.response)
          → take 2 r.response ≡ be_bytes (H.header msg).header_id)
      → build_servfail H query ≡ some response
      → take 2 response ≡ be_bytes (H.header msg).header_id
      → (r : DnsResult) × (or_servfail H client_resolve client_log s query outcome
          ≡ (ok r.response, client_log s query r))
        × IsGiven H query outcome r
        × IsResponse query r.response
  or_servfail-IsResponse s query (ok r) msg response read calm same built fits =
      (r, refl, refl, (msg, read, same r refl))
  or_servfail-IsResponse s query (err e) msg response read calm same built fits = (
    servfail_result response,
    or_servfail-failed s query e (λ same. calm (ap err same))
        ∙ ap (respond_servfail H client_resolve client_log s query) built,
    (response, built, refl),
    (msg, read, λ h. fits),
  )

  module _ (same : (i : ℕ) (d : DnsCache L) → IsSameBounds H L d ((moments i).meanwhile d)) where
    conversation :
        (i : ℕ) (c : DnsCache L) (before : List Text) (qs : List Bytes)
        → c.min_ttl ≤ c.max_ttl
        → AllQueries qs
        → (rs : List Bytes) × (ls : List Text) × (j : ℕ) × (d : DnsCache L) × (after : List Text)
          × (after ≡ before ++ ls)
          × AllResponses i c qs rs ls d
          × Replies H client_resolve client_log (i, c, before) qs rs (j, d, after)
    unfolding reply build_servfail
    conversation i c before [] ordered all =
        ([], [], i, c, before, sym (append-nil before), ended, done)
    conversation i c before (q ∷ qs) ordered all =
        let (msg, response, read, built, fits) = all.0 in
        let m = moments i in
        let calm =
          resolve-ne-panicked H L m.upstream m.meanwhile m.now m.later c q msg read ordered
            (same i) in
        let kept =
          resolve-IsSameBounds H L m.upstream m.meanwhile m.now m.later c q msg read (same i) in
        let failed : build_servfail H q ≡ some response = rw read built in
        let (r, replied, given, right) =
          or_servfail-IsResponse (i, (resolve_at i c q).1, before) q (resolve_at i c q).0 msg
            response read calm
            (λ r e long. resolve_id H L m.upstream m.meanwhile m.now m.later c q msg r read e long)
            failed fits in
        let (rs, ls, j, d, after, lines, rest, replies) =
          conversation (suc i) (resolve_at i c q).1 (before ++ lines_at i q r) qs
            (omega (arith, kept)) all.1 in
        (
          r.response ∷ rs,
          lines_at i q r ++ ls,
          j,
          d,
          after,
          lines ∙ append_assoc before (lines_at i q r) ls,
          answered r calm given right rest,
          next replied replies,
        )

    -- On a connection with queries that fit their length prefix, that hickory reads and whose SERVFAIL
    -- it encodes with their id, every query is answered, in order, whatever the upstream server
    -- and the other tasks do, if `min_ttl` is at most `max_ttl`, which these do not change: the
    -- response is the result of `resolve` or, after an error, the SERVFAIL, starts with the id
    -- of its query if it has two bytes, stands behind the low 16 bits of its length, and is
    -- logged as the logger does. No call panics, and the connection ends without an error.
    pub serve-AllResponses :
        (c : DnsCache L) (qs : List Bytes)
        → c.min_ttl ≤ c.max_ttl
        → AllFit qs
        → AllQueries qs
        → (f : ℕ) → length qs < f
        → (rs : List Bytes) × (ls : List Text) × (j : ℕ) × (d : DnsCache L) × AllResponses 0 c qs rs
            ls d
          × (serve H client_resolve client_log f (0, c, []) (frames qs)
              ≡ some (record { written = frames rs; ending = closed; client = (j, d, ls) }))
    serve-AllResponses c qs ordered fit all f enough =
        let (rs, ls, j, d, after, lines, right, replies) = conversation 0 c [] qs ordered all in
        (
          rs,
          ls,
          j,
          d,
          right,
          serve-frames H client_resolve client_log replies fit f enough
              ∙ ap (λ x. some (record { written = frames rs; ending = closed; client = (j, d, x) }))
                  lines,
        )
