-- ===== src/Dns/Server/Udp.antt =====
-- package/zebrafish-dns/src/server.rs: `serve_udp`. A task is a function from its datagram and
-- the result of `resolve` to the reply that it sends and the lines that it logs; the tasks share
-- the cache, and what the others do to it is a parameter of `resolve`.
use zebrafish.Prelude.{ℕ, List, [], ◌∷◌, Option, none, some, Text, text, Bytes, take}
use zebrafish.Prelude.Results.{Result, ok, err}
use zebrafish.Dns.Hickory.{Hickory}
use zebrafish.Dns.Lru.{Lru}
use zebrafish.Dns.Cache.{CacheEntry, DnsCache}
use zebrafish.Dns.Doh.{Answer, DnsResult, Failure, panicked, resolve}
use zebrafish.Dns.Server.{build_servfail, servfail_result}
use zebrafish.Dns.QueryLog.Entry.{QueryLogEntry, QueryLogger, Source, Display, log}

-- What `recv_from` returns: a datagram with its source, or an error.
pub data Received : Type 0 where
  datagram : Bytes → Source → Received
  receive_error : Received

-- The loop of `serve_udp`: a task for each datagram, with the part that fits the buffer.
unfoldable pub spawned : List Received → List (Bytes × Source)
spawned [] = []
spawned (datagram bytes src ∷ rs) = (take 4096 bytes, src) ∷ spawned rs
spawned (receive_error ∷ rs) = spawned rs

-- What a task sends, if anything, and the lines that it logs.
pub record Handled : Type 0 where
  pub sent : Option Bytes
  pub lines : List Text

module _ (H : Hickory) (display : Display H) (to_json : QueryLogEntry → Option Text)
    (logger : Option QueryLogger) (now : Text) (src : Source) (protocol : Text) (query : Bytes)
    (total_ms : ℕ) where
  abbrev pub logged : DnsResult → List Text
  logged r = elim logger [
    | none ↦ []
    | some l ↦ log H display to_json l now src protocol query r total_ms
  ]

  abbrev pub answer_with : DnsResult → Handled
  answer_with r = record { sent = some r.response; lines = logged r }

  abbrev pub answer_servfail : Option Bytes → Handled
  answer_servfail none = record { sent = none; lines = [] }
  answer_servfail (some response) = answer_with (servfail_result response)

  -- After `resolve`; a task that panics there sends nothing.
  unfoldable pub handle : Result Failure DnsResult → Handled
  handle (ok r) = answer_with r
  handle (err panicked) = record { sent = none; lines = [] }
  handle (err e) = answer_servfail (build_servfail H query)

module _ (H : Hickory) (L : Lru CacheEntry) (display : Display H)
    (to_json : QueryLogEntry → Option Text) where
  -- The task of a datagram.
  unfoldable pub udp_task :
      Option QueryLogger
      → Text
      → ℕ
      → (Bytes → Option Answer)
      → (DnsCache L → DnsCache L)
      → ℕ
      → ℕ
      → DnsCache L
      → Bytes × Source
      → Handled
  udp_task logger stamp total_ms upstream meanwhile now later c (query, src) =
      handle H display to_json logger stamp src (text "UDP") query total_ms
        (resolve H L upstream meanwhile now later c query).0
