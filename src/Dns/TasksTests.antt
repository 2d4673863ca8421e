-- ===== src/Dns/TasksTests.antt =====
-- Tests of the interleaved tasks, and their theorems at a concrete interleaving.
use zebrafish.Prelude.{
  ℕ, ◌-◌, ◌≤◌, ◌<◌, false, List, [], ◌∷◌, true, ◌≢◌, Option, none, some, Bytes, Text, text, ◌≡◌,
  refl, arith, text_eq, map, take,
}
use mathlib.Core.List.{Perm}
use zebrafish.Prelude.Results.{ok}
use zebrafish.Dns.Lru.Bounded
use zebrafish.Dns.Lru.Bounded.{bounded-Laws}
use zebrafish.Dns.Cache.{
  DnsCache, be_bytes, as_secs, from_secs, clamp, new, cache_key, question_key, get, get_key,
  read_entry, put, put_entry, extract_min_ttl, message_ttl, min_answers, min_additionals,
  adjust_ttls, rewritten,
}
use zebrafish.Dns.Doh.{Answer, rewrite_id, finish, collect, receive, proceed, resolve}
use zebrafish.Dns.Server.{build_servfail, servfail_message}
use zebrafish.Dns.Server.Udp.{Handled, handle}
use zebrafish.Dns.QueryLog.Entry.{QueryLogger, Source, log, log_entry, log_entry_of}
use zebrafish.Dns.Server.Tasks.{
  Clocks, World, Event, arrived, answered, begun, end_of, looked_up, spawn, resume, step, run,
  Reach, begin, later,
}
use zebrafish.Dns.Config.{Config}
use zebrafish.Dns.Startup.{Started, config_path, load, main}
use zebrafish.Dns.Startup.Serving.{main-AllServed}
use zebrafish.Dns.Doh.Again.{result_of, result_again, resolve-resolve}
use zebrafish.Dns.Server.Tasks.Kept.{arrivals, held}
use zebrafish.Dns.Server.Tasks.Served.{AllServed}
use zebrafish.Dns.Server.Tasks.Sources.{IsBody}
use zebrafish.Dns.Server.Tasks.Cached.{hit_result, step-IsBody}
use zebrafish.Dns.Cache.Aged.{IsAged}
use zebrafish.Dns.Cache.History.{kept_for}
use zebrafish.Dns.ServerTests.{toy, toy-Laws, lru, question, response, empty_cache}
use zebrafish.Dns.UdpTests.{display, json, printer, logger, client}

interleavings : Unit {0}
unfolding new cache_key question_key get get_key read_entry put put_entry clamp extract_min_ttl
    message_ttl min_answers min_additionals adjust_ttls rewritten Bounded.find Bounded.erase
    Bounded.put_front Bounded.move_front text_eq rewrite_id finish collect receive proceed
    build_servfail handle log log_entry log_entry_of looked_up spawn resume step run
interleavings = tt

abbrev at : ℕ → Clocks
at n = record { now = from_secs n; stamp = text "now"; total_ms = 5 }

-- The same question under another id, from another client.
abbrev again : Bytes
again = 3 ∷ 4 ∷ 77 ∷ []

abbrev other : Source
other = record { ip = text "10.0.0.8"; port = 5354 }

abbrev answer : Answer
answer = record { status = 200; body = some response; latency_ms = 7 }

-- Both queries miss. The request of the first one is answered, that of the second one fails.
abbrev schedule : List Event
schedule =
    arrived (at 1) question client
    ∷ arrived (at 2) again other
    ∷ answered (at 3) 1 (some answer)
    ∷ answered (at 4) 0 none
    ∷ []

abbrev start : World Bytes lru
start = begun toy lru display printer (some logger) (new toy lru 2 10 20)

abbrev handled_of : World Bytes lru → List Handled
handled_of w = map (λ f. f.handled) w.finished

schedule_runs :
    handled_of (run toy lru display printer (some logger) schedule start)
    ≡ record { sent = some (3 ∷ 4 ∷ []); lines = text "M A\n" ∷ [] }
      ∷ record { sent = some (1 ∷ 2 ∷ 15 ∷ []); lines = text "M A\n" ∷ [] }
      ∷ []
unfolding interleavings
schedule_runs = refl

-- The world after the first three events, in which a query with the same key is a hit.
abbrev middle : World Bytes lru
middle =
    run toy lru display printer (some logger)
      (arrived (at 1) question client
        ∷ arrived (at 2) again other
        ∷ answered (at 3) 1 (some answer)
        ∷ [])
      start

abbrev so_far : List Event
so_far =
    answered (at 3) 1 (some answer)
    ∷ arrived (at 2) again other
    ∷ arrived (at 1) question client
    ∷ []

middle-Reach : Reach toy lru display printer (some logger) 2 10 20 so_far (from_secs 3) middle
unfolding run
middle-Reach =
    later (answered (at 3) 1 (some answer))
      (later (arrived (at 2) again other)
        (later (arrived (at 1) question client) (begin {t = 0}) (omega arith)) (omega arith))
      (omega arith)

hit_again : (get toy lru (from_secs 6) middle.cache again).0 ≡ some (1 ∷ 2 ∷ 12 ∷ [])
unfolding interleavings
hit_again = refl

able : (l : QueryLogger) → some logger ≡ some l → (l.enabled ≡ true) × (l.unlocked ≡ true)
able l e = ground (arith, e)

fails :
    (query msg : Bytes)
    → toy.from_vec query ≡ some msg
    → (reply : Bytes) × (toy.to_vec (servfail_message toy msg) ≡ some reply)
      × (take 2 reply ≡ be_bytes (toy.header msg).header_id)
fails query msg read = (servfail_message toy msg, refl, refl)

step-IsBody_example :
    ((step toy lru display printer (some logger) (arrived (at 6) again other) middle).finished
      ≡ end_of toy lru display printer
          (some logger)
          (at 6)
          again
          other
          (ok (hit_result toy again (1 ∷ 2 ∷ 12 ∷ [])))
        ∷ middle.finished)
    × ((time : ℕ) × (asked : Bytes) × (body : Bytes) × (seconds : ℕ) × IsBody toy lru so_far time
          asked body
        × (time ≤ from_secs 6)
        × (cache_key toy lru asked ≡ cache_key toy lru again)
        × (kept_for toy lru 2 10 20 body ≡ some seconds)
        × (10 ≤ seconds)
        × (seconds ≤ 20)
        × (from_secs 6 - time < from_secs seconds)
        × IsAged toy (as_secs (from_secs seconds - (from_secs 6 - time))) body (1 ∷ 2 ∷ 12 ∷ []))
step-IsBody_example =
    step-IsBody toy toy-Laws lru bounded-Laws display printer (some logger) 2 10 20 (at 6) again
      other again (1 ∷ 2 ∷ 12 ∷ []) middle-Reach (omega arith) refl hit_again

abbrev upstream : Bytes → Option Answer
upstream q = some answer

abbrev KeptFor : DnsCache lru → ℕ → Type 0
KeptFor d ttl =
    (upstream_then : Bytes → Option Answer) (meanwhile_then : DnsCache lru → DnsCache lru)
    (time after : ℕ) (twice asked : Bytes)
    → toy.from_vec twice ≡ some asked
    → cache_key toy lru asked ≡ some (77 ∷ 124 ∷ 0 ∷ 1 ∷ 124 ∷ 0 ∷ 1 ∷ [])
    → time - 9 < from_secs ttl
    → (hit : Bytes) × ((resolve toy lru upstream_then meanwhile_then time after d twice).0
        ≡ ok (result_again toy lru asked hit))
      × IsAged toy (as_secs (from_secs ttl - (time - 9))) response hit

keyed : cache_key toy lru question ≡ some (77 ∷ 124 ∷ 0 ∷ 1 ∷ 124 ∷ 0 ∷ 1 ∷ [])
unfolding interleavings
keyed = refl

missed : (get toy lru 0 empty_cache question).0 ≡ none
unfolding interleavings
missed = refl

unlocked : (get toy lru 0 empty_cache question).1.cache ≡ empty_cache.cache
unfolding interleavings
unlocked = refl

bounded_ttl :
    (get toy lru 0 empty_cache question).1.min_ttl ≤ (get toy lru 0 empty_cache question).1.max_ttl
unfolding interleavings
bounded_ttl = omega arith

resolve-resolve_example :
    (d : DnsCache lru) × (ttl : ℕ) × (resolve toy lru upstream (λ c. c) 0 9 empty_cache question
      ≡ (ok (result_of toy lru question response answer), d))
    × ((get toy lru 0 empty_cache question).1.min_ttl ≤ ttl)
    × (ttl ≤ (get toy lru 0 empty_cache question).1.max_ttl)
    × KeptFor d ttl
resolve-resolve_example =
    resolve-resolve toy toy-Laws lru bounded-Laws upstream (λ c. c) 0 9 empty_cache
      (record { others = 1; entries = [] }) question question answer response
      (77 ∷ 124 ∷ 0 ∷ 1 ∷ 124 ∷ 0 ∷ 1 ∷ []) refl keyed missed unlocked bounded_ttl refl refl refl

-- A program without a configuration file.
abbrev no_file : Text → Option Text
no_file path = none

abbrev no_config : Text → Option Config
no_config s = none

abbrev program : Started lru Text Text Text
program =
    main toy lru (λ s. some s) [] none (λ p. false) 1 (λ s. some s) (λ s. some s) (λ t a. true)
      no_file no_config []

no_load : (c : Config) → load no_file no_config (config_path []) ≢ some c
unfolding load
no_load c e = ground (arith, e)

main-AllServed_example :
    Perm (arrivals schedule) (
      held (
        run toy lru display printer program.logger schedule
          (begun toy lru display printer program.logger program.dns_cache)))
    × AllServed toy display printer json program.logger
        (run toy lru display printer program.logger schedule
          (begun toy lru display printer program.logger program.dns_cache)).finished
main-AllServed_example =
    main-AllServed toy lru display printer json (λ s. some s) [] none (λ p. false) 1 (λ s. some s)
      (λ s. some s) (λ t a. true) no_file no_config [] schedule (λ e. refl) fails
      (λ c e. absurd (no_load c e)) (omega arith, (omega arith, (omega arith, (omega arith, tt))))
