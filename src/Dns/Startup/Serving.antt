-- ===== src/Dns/Startup/Serving.antt =====
-- package/zebrafish-dns/src: the program from its arguments to its replies. main.rs makes the cache
-- and the log from the configuration, and the tasks of server.rs share them.
use zebrafish.Prelude.{
  ℕ, true, ◌≤◌, List, [], ◌∷◌, ◌++◌, Option, none, some, Text, Bytes, take, ◌≡◌, refl, subst,
  Bool-cases, inl, inr, Bool, arith, append-nil,
}
use mathlib.Core.List.{Perm, perm_middle}
use mathlib.Core.List.Perm
use zebrafish.Dns.Hickory.{Hickory}
use zebrafish.Dns.Lru.{Lru}
use zebrafish.Dns.Cache.{CacheEntry, new, be_bytes}
use zebrafish.Dns.Config.{Config, QueryLogConfig}
use zebrafish.Dns.Server.{servfail_message}
use zebrafish.Dns.Server.Listen.{Transport}
use zebrafish.Dns.Server.Tasks.{
  World, Event, arrived, answered, clocks, begun, run, Reach, begin, later,
}
use zebrafish.Dns.Server.Tasks.Kept.{arrivals, held}
use zebrafish.Dns.Server.Tasks.Replies.{Reach-AllServed}
use zebrafish.Dns.Server.Tasks.Served.{AllServed}
use zebrafish.Dns.QueryLog.Entry.{QueryLogEntry, QueryLogger, Display, new_logger}
use zebrafish.Dns.Startup.{config_path, load, or_defaults, query_logger, start, main}

-- The events are in the order of their times.
abbrev pub IsOrdered : ℕ → List Event → Type 0
IsOrdered t [] = Unit {0}
IsOrdered t (e ∷ es) = (t ≤ (clocks e).now) × IsOrdered (clocks e).now es

-- The events in the opposite order, in front of others.
abbrev seen : List Event → List Event → List Event
seen [] before = before
seen (e ∷ es) before = seen es (e ∷ before)

arrivals-seen :
    (es before : List Event) → Perm (arrivals es ++ arrivals before) (arrivals (seen es before))
arrivals-seen [] before = Perm.refl (arrivals before)
arrivals-seen (arrived at bytes src ∷ es) before =
    Perm.trans (Perm.symm (perm_middle (arrivals es) (arrivals before)))
      (arrivals-seen es (arrived at bytes src ∷ before))
arrivals-seen (answered at i answer ∷ es) before = arrivals-seen es (answered at i answer ∷ before)

module _ (H : Hickory) (L : Lru CacheEntry) (display : Display H)
    (to_json : QueryLogEntry → Option Text) (logger : Option QueryLogger)
    (max_entries lo hi : ℕ) where
  run-Reach :
      (es before : List Event) (t : ℕ) (w : World H.Message L)
      → IsOrdered t es
      → Reach H L display to_json logger max_entries lo hi before t w
      → (u : ℕ) × Reach H L display to_json logger max_entries lo hi
          (seen es before)
          u
          (run H L display to_json logger es w)
  unfolding run
  run-Reach [] before t w ordered r = (t, r)
  run-Reach (e ∷ es) before t w (first, rest) r =
      run-Reach es (e ∷ before) (clocks e).now _ rest (later e r first)

logger_able :
    (opens : Text → Bool) (pid : ℕ) (output : Option Text) (l : QueryLogger)
    → new_logger opens pid output ≡ some l
    → (l.enabled ≡ true) × (l.unlocked ≡ true)
unfolding new_logger
logger_able opens pid none l e = ground (arith, e)
logger_able opens pid (some path) l e = ground (arith, e)

query_logger_able :
    (opens : Text → Bool) (pid : ℕ) (c : QueryLogConfig) (l : QueryLogger)
    → query_logger opens pid c ≡ some l
    → (l.enabled ≡ true) × (l.unlocked ≡ true)
unfolding query_logger
query_logger_able opens pid c l e = elim (Bool-cases c.enabled) [
  | inl on ↦ logger_able opens pid c.output l (rw on at e)
  | inr off ↦ absurd (ground (arith, e, off))
]

module _ (H : Hickory) (L : Lru CacheEntry) (display : Display H)
    (to_json : QueryLogEntry → Option Text) (json : QueryLogEntry → Text)
    (logger : Option QueryLogger) (max_entries lo hi : ℕ) where
  run-AllServed :
      (es : List Event)
      → ((e : QueryLogEntry) → to_json e ≡ some (json e))
      → ((l : QueryLogger) → logger ≡ some l → (l.enabled ≡ true) × (l.unlocked ≡ true))
      → ((query : Bytes) (msg : H.Message)
          → H.from_vec query ≡ some msg
          → (response : Bytes) × (H.to_vec (servfail_message H msg) ≡ some response)
            × (take 2 response ≡ be_bytes (H.header msg).header_id))
      → lo ≤ hi
      → IsOrdered 0 es
      → let w =
          run H L display to_json logger es
            (begun H L display to_json logger (new H L max_entries lo hi)) in
        Perm (arrivals es) (held w) × AllServed H display to_json json logger w.finished
  run-AllServed es printed able fails bounds ordered =
      let w = begun H L display to_json logger (new H L max_entries lo hi) in
      let (u, r) = run-Reach H L display to_json logger max_entries lo hi es [] 0 w ordered begin in
      let (kept, served) =
        Reach-AllServed H L display to_json json logger max_entries lo hi printed able fails bounds
          r in
      (
        Perm.trans
            (subst (λ l. Perm l (arrivals es ++ [])) (append-nil (arrivals es)) (Perm.refl _))
            (Perm.trans (arrivals-seen es []) kept),
        served,
      )

module _ (H : Hickory) (L : Lru CacheEntry) (display : Display H)
    (to_json : QueryLogEntry → Option Text) (json : QueryLogEntry → Text) {F I A : Type 0}
    (try_new : Text → Option F) (info : F) (parallelism : Option ℕ) (opens : Text → Bool) (pid : ℕ)
    (parse_ip : Text → Option I) (parse : Text → Option A) (bind : Transport → A → Bool) where
  or_defaults_ordered :
      (o : Option Config)
      → ((c : Config) → o ≡ some c → c.cache.min_ttl ≤ c.cache.max_ttl)
      → (or_defaults o).cache.min_ttl ≤ (or_defaults o).cache.max_ttl
  or_defaults_ordered none ordered = omega arith
  or_defaults_ordered (some c) ordered = ordered c refl

  -- Let the configuration file, if there is one that can be loaded, have a `min_ttl` of at most
  -- its `max_ttl`, let the entries of the query log be printable, and let hickory encode the
  -- SERVFAIL for every query that it reads, with its id in front. Then after any datagrams and
  -- answers of the upstream server, whose times do not run backwards, each query that arrived
  -- belongs to exactly one task of the program, waiting or ended; each ended task whose query
  -- hickory reads has sent exactly one reply, which starts with the id of the query if it has two
  -- bytes, and logged exactly one line about both if the program has a query logger; and the other
  -- ended tasks are silent.
  pub main-AllServed :
      (read : Text → Option Text) (from_toml : Text → Option Config) (args : List Text)
      (es : List Event)
      → ((e : QueryLogEntry) → to_json e ≡ some (json e))
      → ((query : Bytes) (msg : H.Message)
          → H.from_vec query ≡ some msg
          → (response : Bytes) × (H.to_vec (servfail_message H msg) ≡ some response)
            × (take 2 response ≡ be_bytes (H.header msg).header_id))
      → ((c : Config)
          → load read from_toml (config_path args) ≡ some c
          → c.cache.min_ttl ≤ c.cache.max_ttl)
      → IsOrdered 0 es
      → let started =
          main H L try_new info parallelism opens pid parse_ip parse bind read from_toml args in
        let w =
          run H L display to_json started.logger es
            (begun H L display to_json started.logger started.dns_cache) in
        Perm (arrivals es) (held w) × AllServed H display to_json json started.logger w.finished
  unfolding main start
  main-AllServed read from_toml args es printed fails bounds ordered =
      let c = or_defaults (load read from_toml (config_path args)) in
      run-AllServed H L display to_json json (query_logger opens pid c.query_log)
        c.cache.max_entries c.cache.min_ttl c.cache.max_ttl es printed
        (query_logger_able opens pid c.query_log) fails
        (or_defaults_ordered (load read from_toml (config_path args)) bounds) ordered
