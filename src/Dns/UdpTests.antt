-- ===== src/Dns/UdpTests.antt =====
-- Tests of the cache's specification, the query log and the UDP side, and their theorems at
-- concrete inputs.
use zebrafish.Prelude.{
  ℕ, zero, suc, true, false, List, [], ◌∷◌, ◌++◌, Option, none, some, Bytes, Text, text, ◌≡◌, refl,
  arith, text_eq,
}
use zebrafish.Dns.Lru.Bounded
use zebrafish.Dns.Lru.Bounded.{bounded-Laws}
use zebrafish.Dns.Cache.{
  DnsCache, from_secs, clamp, new, cache_key, question_key, get, get_key, read_entry, put,
  put_entry, extract_min_ttl, message_ttl, min_answers, min_additionals, adjust_ttls, rewritten,
}
use zebrafish.Dns.Cache.Spec.{Call, Allows, nothing}
use zebrafish.Dns.Cache.Refinement.{answers, new-Allows}
use zebrafish.Dns.Doh.{rewrite_id, finish, collect, receive, proceed, resolve_message, resolve}
use zebrafish.Dns.Server.{build_servfail, serve, closed}
use zebrafish.Dns.Server.Udp.{Received, datagram, receive_error, spawned, handle, udp_task}
use zebrafish.Dns.QueryLog.Entry.{
  QueryLogEntry, QueryLogger, Source, Display, log, log_entry, log_entry_of, new_logger, disabled,
  stdout,
}
use zebrafish.Dns.Doh.Steady.{IsSameBounds}
use zebrafish.Dns.Server.Frames.{frames}
use zebrafish.Dns.Server.Conversation.{
  Moment, client_resolve, client_log, AllResponses, serve-AllResponses,
}
use zebrafish.Dns.ServerTests.{toy, lru, question, response, upstream, empty_cache}

tasks : Unit {0}
unfolding new cache_key question_key get get_key read_entry put put_entry clamp extract_min_ttl
    message_ttl min_answers min_additionals adjust_ttls rewritten Bounded.find Bounded.erase
    Bounded.put_front Bounded.move_front text_eq rewrite_id finish collect receive proceed
    resolve_message resolve build_servfail answers spawned handle udp_task log log_entry
    log_entry_of new_logger
tasks = tt

-- Kept for 15 seconds, and served with what is left of them.
abbrev history : List (Call Bytes)
history =
    Call.get 0 question
    ∷ Call.put 0 question response
    ∷ Call.get (from_secs 3) question
    ∷ Call.get (from_secs 15) question
    ∷ []

history_answers :
    answers toy lru history (new toy lru 2 10 20) ≡ some (none ∷ some (1 ∷ 2 ∷ 12 ∷ []) ∷ none ∷ [])
unfolding tasks
history_answers = refl

new-Allows_example :
    (os : List (Option Bytes)) × (answers toy lru history (new toy lru 2 10 20) ≡ some os)
    × Allows toy lru 10 20 nothing history os
new-Allows_example = new-Allows toy lru bounded-Laws 2 10 20 (omega arith) history

abbrev pub display : Display toy
display = record {
  name_text = λ q. q;
  type_text = λ q. text "A";
  class_text = λ q. text "IN";
  code_text = λ n. text "No Error";
}

abbrev pub json : QueryLogEntry → Text
json e = e.qname ++ (b' ' ∷ e.qtype)

abbrev pub logger : QueryLogger
logger = record { enabled = true; output = stdout; unlocked = true; process = 1 }

abbrev pub client : Source
client = record { ip = text "10.0.0.9"; port = 5353 }

abbrev received : List Received
received = receive_error ∷ datagram question client ∷ []

-- With an answer from upstream, and without one and with a logger that is off.
task_runs :
    (udp_task toy lru display
        (λ e. some (json e))
        (some logger)
        (text "now")
        5
        upstream
        (λ c. c)
        0
        0
        empty_cache
        (question, client)
      ≡ record { sent = some (1 ∷ 2 ∷ 15 ∷ []); lines = text "M A\n" ∷ [] })
    × (udp_task toy lru display
          (λ e. some (json e))
          (some disabled)
          (text "now")
          5
          (λ q. none)
          (λ c. c)
          0
          0
          empty_cache
          (question, client)
        ≡ record { sent = some (1 ∷ 2 ∷ []); lines = [] })
unfolding tasks
task_runs = (refl, refl)

loggers :
    (new_logger (λ p. false) 1 none ≡ some logger)
    × (new_logger (λ p. false) 1 (some (text "-")) ≡ some logger)
    × (new_logger (λ p. false) 1 (some (text "/log")) ≡ none)
unfolding tasks
loggers = (refl, refl, refl)

-- Two queries in one connection: upstream answers the first, and is gone for the second.
abbrev moments : ℕ → Moment (DnsCache lru)
moments zero = record {
  upstream = upstream;
  meanwhile = λ c. c;
  now = 0;
  later = 0;
  stamp = text "then";
  total_ms = 4;
}
moments (suc i) = record {
  upstream = λ q. none;
  meanwhile = λ c. c;
  now = 9;
  later = 9;
  stamp = text "now";
  total_ms = 3;
}

moments-IsSameBounds : (i : ℕ) (d : DnsCache lru) → IsSameBounds toy lru d ((moments i).meanwhile d)
moments-IsSameBounds zero d = (refl, refl)
moments-IsSameBounds (suc i) d = (refl, refl)

abbrev second : Bytes
second = 3 ∷ 4 ∷ 78 ∷ []

abbrev pub printer : QueryLogEntry → Option Text
printer e = some (json e)

serve-AllResponses_example :
    (rs : List Bytes) × (ls : List Text) × (j : ℕ) × (d : DnsCache lru) × AllResponses toy lru
      display printer
      (some logger)
      client
      moments
      0
      empty_cache
      (question ∷ second ∷ [])
      rs
      ls
      d
    × (serve toy
          (client_resolve toy lru display printer (some logger) client moments)
          (client_log toy lru display printer (some logger) client moments)
          3
          (0, empty_cache, [])
          (frames (question ∷ second ∷ []))
        ≡ some (record { written = frames rs; ending = closed; client = (j, d, ls) }))
serve-AllResponses_example =
    serve-AllResponses toy lru display printer (some logger) client moments moments-IsSameBounds
      empty_cache (question ∷ second ∷ []) (omega arith)
      (omega arith, omega arith, (omega arith, omega arith, tt))
      ((question, 1 ∷ 2 ∷ [], refl, refl, refl), ((second, 3 ∷ 4 ∷ [], refl, refl, refl), tt)) 3
      (omega arith)
