-- ===== src/Dns/ServerTests.antt =====
-- Tests of the cache, the client and the server, and their theorems at concrete inputs, with
-- messages that are an id of two bytes and the TTLs of the answers, one byte each.
use zebrafish.Prelude.{
  ℕ, ◌+◌, ◌*◌, ◌-◌, ◌≤◌, ◌<◌, true, false, [], ◌∷◌, ◌++◌, Option, none, some, Bytes, ◌≡◌, refl, sym,
  arith, inl, Contains, here, there, length, take, drop, max, text_eq,
}
use mathlib.Core.Option.{some-injective}
use zebrafish.Prelude.Results.{ok}
use zebrafish.Dns.Hickory.{Hickory}
use zebrafish.Dns.Lru.{Lru}
use zebrafish.Dns.Lru.Bounded
use zebrafish.Dns.Lru.Bounded.{bounded, bounded-Laws}
use zebrafish.Dns.Cache.{
  CacheEntry, DnsCache, from_secs, as_secs, clamp, be_bytes, new, cache_key, question_key, get,
  get_key, read_entry, put, put_entry, extract_min_ttl, message_ttl, min_answers, min_additionals,
  adjust_ttls, rewritten,
}
use zebrafish.Dns.Hickory
use zebrafish.Dns.Cache.Aged.{IsAged}
use zebrafish.Dns.Cache.History.{Reaches, kept_for, started, stored}
use zebrafish.Dns.Cache.Served.{IsServed, get-Reaches, get-put}
use zebrafish.Dns.Cache.Keys.{cache_key_injective}
use zebrafish.Dns.Cache.Ttl.{extract_min_ttl-Contains, extract_min_ttl_long}
use zebrafish.Dns.Doh.{
  Answer, DnsResult, rewrite_id, finish, collect, receive, proceed, resolve_message, resolve,
}
use zebrafish.Dns.Doh.Resolve.{IsSource, resolve-eq-ok}
use zebrafish.Dns.Server.{serve, serve_message, serve_reply, reply, build_servfail}

abbrev pub read : Bytes → Option Bytes
read (a ∷ b ∷ rest) = some (a ∷ b ∷ rest)
read _ = none

abbrev pub id_of : Bytes → ℕ
id_of (a ∷ b ∷ rest) = a * 256 + b
id_of _ = 0

abbrev pub toy : Hickory
toy = record {
  Message = Bytes;
  Query = Bytes;
  Record = ℕ;
  from_vec = read;
  to_vec = read;
  header = λ m. record {
    header_id = id_of m;
    is_response = false;
    op_code = 0;
    response_code = 0;
    recursion_desired = true;
    recursion_available = false;
  };
  queries = λ m. drop 2 m ∷ [];
  answers = λ m. drop 2 m;
  additionals = λ m. [];
  name_servers = λ m. [];
  with_answers = λ m rs. take 2 m ++ rs;
  lowercase_name = λ q. q;
  query_type = λ q. 1;
  query_class = λ q. 1;
  ttl = λ r. r;
  set_ttl = λ n r. n;
  is_opt = λ r. false;
  message = λ h qs. be_bytes h.header_id;
}

read-read : (m b : Bytes) → read m ≡ some b → read b ≡ some m
read-read [] b e = absurd (ground (arith, e))
read-read (x ∷ []) b e = absurd (ground (arith, e))
read-read (x ∷ y ∷ rest) b e = let same = some-injective _ b e in rw (sym same) refl

drop-take : (b m rs : Bytes) → read b ≡ some m → drop 2 (take 2 m ++ rs) ≡ rs
drop-take [] m rs e = absurd (ground (arith, e))
drop-take (x ∷ []) m rs e = absurd (ground (arith, e))
drop-take (x ∷ y ∷ rest) m rs e = let same = some-injective _ m e in rw (sym same) refl

pub toy-Laws : Hickory.Laws toy
toy-Laws = record {
  from_vec-to_vec = λ raw b m rs e written. read-read (take 2 m ++ rs) b written;
  answers-with_answers = drop-take;
  ttl-set_ttl = λ n r fits. refl;
}

abbrev pub lru : Lru CacheEntry
lru = bounded

calls : Unit {0}
unfolding new cache_key question_key get get_key read_entry put put_entry clamp extract_min_ttl
    message_ttl min_answers min_additionals adjust_ttls rewritten Bounded.find Bounded.erase
    Bounded.put_front Bounded.move_front text_eq rewrite_id finish collect receive proceed
    resolve_message resolve serve serve_message serve_reply reply build_servfail
calls = tt

abbrev pub question : Bytes
question = 1 ∷ 2 ∷ 77 ∷ []

abbrev pub response : Bytes
response = 1 ∷ 2 ∷ 15 ∷ []

abbrev pub empty_cache : DnsCache lru
empty_cache = record {
  cache = some (record { others = 1; entries = [] });
  min_ttl = 10;
  max_ttl = 20;
}

abbrev entry : CacheEntry
entry = record { response = response; inserted_at = 0; ttl = from_secs 15 }

abbrev key : Bytes
key = 77 ∷ 124 ∷ 0 ∷ 1 ∷ 124 ∷ 0 ∷ 1 ∷ []

abbrev full_cache : DnsCache lru
full_cache = record {
  cache = some (record { others = 1; entries = (key, entry) ∷ [] });
  min_ttl = 10;
  max_ttl = 20;
}

cache_runs :
    (new toy lru 2 10 20 ≡ empty_cache)
    × (put toy lru 0 empty_cache question response ≡ some full_cache)
    × ((get toy lru (from_secs 3) full_cache question).0 ≡ some (1 ∷ 2 ∷ 12 ∷ []))
    × ((get toy lru (from_secs 15) full_cache question).0 ≡ none)
    × (cache_key toy lru question ≡ some key)
unfolding calls
cache_runs = (refl, refl, refl, refl, refl)

reached : Reaches toy lru 2 10 20 ((0, question, response) ∷ []) 0 full_cache
unfolding calls
reached = stored 0 question response (started {t = 0}) (omega arith) cache_runs.1

get-Reaches_example :
    (time : ℕ) × (asked : Bytes) × (raw : Bytes) × (seconds : ℕ) × Contains {A = ℕ × Bytes × Bytes}
      (time, asked, raw)
      ((0, question, response) ∷ [])
    × (cache_key toy lru asked ≡ cache_key toy lru question)
    × (kept_for toy lru 2 10 20 raw ≡ some seconds)
    × (10 ≤ seconds)
    × (seconds ≤ 20)
    × (from_secs 3 - time < from_secs seconds)
    × IsAged toy (as_secs (from_secs seconds - (from_secs 3 - time))) raw (1 ∷ 2 ∷ 12 ∷ [])
get-Reaches_example =
    get-Reaches toy toy-Laws lru bounded-Laws 2 10 20 ((0, question, response) ∷ []) 0 full_cache
      (from_secs 3) question (1 ∷ 2 ∷ 12 ∷ []) reached cache_runs.2

get-put_example :
    (d : DnsCache lru) × (ttl : ℕ) × (put toy lru 0 empty_cache question response ≡ some d)
    × (10 ≤ ttl)
    × (ttl ≤ 20)
    × ((later : ℕ) (asked : Bytes)
        → cache_key toy lru asked ≡ some key
        → IsServed toy lru bounded-Laws asked 0 later ttl response d)
get-put_example =
    get-put toy toy-Laws lru bounded-Laws 0 empty_cache (record { others = 1; entries = [] })
      question response key refl (omega arith) cache_runs.4

same_key : cache_key toy lru question ≡ cache_key toy lru (9 ∷ 9 ∷ 77 ∷ [])
unfolding calls
same_key = refl

cache_key_injective_example :
    ◌≡◌ {A = Bytes} (77 ∷ []) (77 ∷ []) × ◌≡◌ {A = ℕ} 1 1 × ◌≡◌ {A = ℕ} 1 1
cache_key_injective_example =
    cache_key_injective toy lru question (9 ∷ 9 ∷ 77 ∷ []) (77 ∷ []) (77 ∷ []) [] [] refl refl
      (omega arith, omega arith) (omega arith, omega arith) same_key

kept_time : clamp (extract_min_ttl toy lru empty_cache response) 10 20 ≡ some 15
unfolding calls
kept_time = refl

extract_min_ttl-Contains_example : 15 ≤ max 10 15
extract_min_ttl-Contains_example =
    extract_min_ttl-Contains toy lru empty_cache response response 15 15 refl (inl here) kept_time

long_lived : (r : ℕ) → Contains r (30 ∷ []) → 20 ≤ r
long_lived r here = omega arith
long_lived r (there c) = elim c [ ]

nothing_more : (r : ℕ) → Contains r [] → 20 ≤ r
nothing_more r c = elim c [ ]

extract_min_ttl_long_example :
    clamp (extract_min_ttl toy lru empty_cache (1 ∷ 2 ∷ 30 ∷ [])) 10 20 ≡ some 10
extract_min_ttl_long_example =
    extract_min_ttl_long toy lru empty_cache (1 ∷ 2 ∷ 30 ∷ []) (1 ∷ 2 ∷ 30 ∷ []) refl (λ e. cc)
      long_lived nothing_more (omega arith)

abbrev pub upstream : Bytes → Option Answer
upstream q = some (record { status = 200; body = some (0 ∷ 0 ∷ 15 ∷ []); latency_ms = 4 })

abbrev answered : DnsResult
answered = record {
  response = 1 ∷ 2 ∷ 15 ∷ [];
  cached = false;
  upstream_status = some 200;
  upstream_latency_ms = some 4;
}

resolved : (resolve toy lru upstream (λ c. c) 0 0 empty_cache question).0 ≡ ok answered
unfolding calls
resolved = refl

resolve-eq-ok_example :
    (msg : Bytes) × (raw : Bytes) × (read question ≡ some msg)
    × IsSource toy lru upstream (get toy lru 0 empty_cache msg).0 question false raw
    × ((2 ≤ length raw) → (1 ∷ 2 ∷ []) ≡ be_bytes (id_of msg))
    × ((15 ∷ []) ≡ drop 2 raw)
    × (3 ≡ length raw)
resolve-eq-ok_example =
    resolve-eq-ok toy lru upstream (λ c. c) 0 0 empty_cache question answered resolved
