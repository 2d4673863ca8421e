-- ===== src/Dns/LookupTests.antt =====
-- Tests of a lookup that the forwarder answers, and its theorem at a concrete input.
use zebrafish.Prelude.{false, [], ◌∷◌, none, some, ◌≡◌, refl, text, text_eq}
use zebrafish.Prelude.Results.{ok}
use zebrafish.Dns.Lru.Bounded
use zebrafish.Dns.Cache.{
  clamp, new, cache_key, question_key, get, get_key, read_entry, put, put_entry, extract_min_ttl,
  message_ttl, min_answers, min_additionals, adjust_ttls, rewritten,
}
use zebrafish.Dns.Doh.{
  rewrite_id, finish, collect, receive, proceed, resolve_message, resolve, DnsResult,
}
use zebrafish.Dns.Server.Udp.{handle, udp_task}
use zebrafish.Dns.QueryLog.Entry.{Display, Source}
use zebrafish.Dns.Nss.{a, a_data, v4, addresses, query_local_dns}
use zebrafish.Dns.Nss.Lookup.{
  Lookups, rand_id, wire_of, answers_in, exchange, forwarder, IsFound, query_local_dns-udp_task,
}
use zebrafish.Dns.ServerTests.{toy, lru, upstream, empty_cache}

looks_up : Unit {0}
unfolding new cache_key question_key get get_key read_entry put put_entry clamp extract_min_ttl
    message_ttl min_answers min_additionals adjust_ttls rewritten Bounded.find Bounded.erase
    Bounded.put_front Bounded.move_front text_eq rewrite_id finish collect receive proceed
    resolve_message resolve handle udp_task rand_id wire_of answers_in exchange query_local_dns
    addresses
looks_up = tt

-- Each TTL stands for an address.
abbrev lookups : Lookups toy
lookups = record { question = λ name t. some name; data_of = λ r. a_data (r ∷ r ∷ r ∷ r ∷ []) }

abbrev show : Display toy
show = record { name_text = λ q. q; type_text = λ q. []; class_text = λ q. []; code_text = λ n. [] }

abbrev local : Source
local = record { ip = text "127.0.0.1"; port = 40000 }

ids : (rand_id 5000000003 ≡ 6) × (rand_id 999999999 ≡ 51711)
unfolding looks_up
ids = (refl, refl)

found_through :
    query_local_dns
      (exchange toy lookups
        (forwarder toy lru lookups show
          (λ e. none)
          none
          []
          1
          upstream
          (λ c. c)
          0
          0
          empty_cache
          local)
        0)
      (text "nas")
      a
    ≡ some (v4 (15 ∷ 15 ∷ 15 ∷ 15 ∷ []) ∷ [])
unfolding looks_up
found_through = refl

abbrev given : DnsResult
given = record {
  response = 0 ∷ 0 ∷ 15 ∷ [];
  cached = false;
  upstream_status = some 200;
  upstream_latency_ms = some 4;
}

wire_sent : wire_of toy lookups (rand_id 0) (text "nas") a ≡ some (0 ∷ 0 ∷ [])
unfolding looks_up
wire_sent = refl

wire_resolved : (resolve toy lru upstream (λ c. c) 0 0 empty_cache (0 ∷ 0 ∷ [])).0 ≡ ok given
unfolding looks_up
wire_resolved = refl

query_local_dns-udp_task_example : IsFound a (a_data (15 ∷ 15 ∷ 15 ∷ 15 ∷ []) ∷ []) (
    query_local_dns
      (exchange toy lookups
        (forwarder toy lru lookups show
          (λ e. none)
          none
          []
          1
          upstream
          (λ c. c)
          0
          0
          empty_cache
          local)
        0)
      (text "nas")
      a)
query_local_dns-udp_task_example =
    query_local_dns-udp_task toy lru lookups show (λ e. none) none [] 1 upstream (λ c. c) 0 0
      empty_cache local 0 (text "nas") a (0 ∷ 0 ∷ []) given (0 ∷ 0 ∷ 15 ∷ []) wire_sent
      wire_resolved refl
