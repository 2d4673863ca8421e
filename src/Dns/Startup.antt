-- ===== src/Dns/Startup.antt =====
-- package/zebrafish-dns/src/main.rs: what the program starts with. Reading the file, parsing it,
-- the filter of the log and the number of processors are parameters.
pub mod Serving
use zebrafish.Prelude.{
  ℕ, Bool, ◌==◌, List, [], ◌∷◌, Option, none, some, Text, text, if◌then◌else◌, ◌>>=◌,
}
use zebrafish.Dns.Hickory.{Hickory}
use zebrafish.Dns.Lru.{Lru}
use zebrafish.Dns.Cache.{CacheEntry, DnsCache, new}
use zebrafish.Dns.Config.{Config, QueryLogConfig, default}
use zebrafish.Dns.Doh.Client.{new_client}
use zebrafish.Dns.QueryLog.Entry.{QueryLogger, new_logger}
use zebrafish.Dns.Server.Listen.{Transport, RunError, new_server, run}

-- The first argument, or the default.
unfoldable pub config_path : List Text → Text
config_path [] = text "/etc/zebrafish-dns/zebrafish-dns.toml"
config_path (path ∷ more) = path

-- `Config::load`.
unfoldable pub load : (Text → Option Text) → (Text → Option Config) → Text → Option Config
load read from_toml path = read path >>= from_toml

abbrev pub or_defaults : Option Config → Config
or_defaults none = default
or_defaults (some c) = c

abbrev or_two : Option ℕ → ℕ
or_two none = 2
or_two (some n) = n

unfoldable pub worker_threads : Option ℕ → ℕ → ℕ
worker_threads parallelism workers = if workers == 0 then or_two parallelism else workers

unfoldable pub query_logger : (Text → Bool) → ℕ → QueryLogConfig → Option QueryLogger
query_logger opens pid c = if c.enabled then new_logger opens pid c.output else none

abbrev pub or_info : {F : Type 0} → (Text → Option F) → F → Text → F
or_info try_new info level = elim (try_new level) [ none ↦ info | some f ↦ f ]

-- What `main` makes of a configuration: `F` is a filter of the log, `I` an IP address and `A` a
-- socket address.
pub record Started (L : Lru CacheEntry) (F I A : Type 0) : Type 0 where
  pub filter : F
  pub logger : Option QueryLogger
  pub threads : ℕ
  pub dns_cache : DnsCache L
  pub url : Text
  pub bootstrap_host : Text
  pub addresses : List (I × ℕ)
  pub served : List (Transport × A)
  pub ended : RunError

module _ (H : Hickory) (L : Lru CacheEntry) {F I A : Type 0} (try_new : Text → Option F) (info : F)
    (parallelism : Option ℕ) (opens : Text → Bool) (pid : ℕ) (parse_ip : Text → Option I)
    (parse : Text → Option A) (bind : Transport → A → Bool) where
  unfoldable pub start : Config → Started L F I A
  start c =
      let client = new_client parse_ip c in
      let query_log = query_logger opens pid c.query_log in
      let server =
        new_server c.server.listen_address c.server.listen_address_v6 c.server.listen_port
          query_log in
      let done = run parse bind server in
      record {
        filter = or_info try_new info c.level;
        logger = server.logger;
        threads = worker_threads parallelism c.server.workers;
        dns_cache = new H L c.cache.max_entries c.cache.min_ttl c.cache.max_ttl;
        url = client.url;
        bootstrap_host = client.bootstrap_host;
        addresses = client.addresses;
        served = done.0;
        ended = done.1;
      }

  -- `main`, with the arguments of the program.
  unfoldable pub main : (Text → Option Text) → (Text → Option Config) → List Text → Started L F I A
  main read from_toml args = start (or_defaults (load read from_toml (config_path args)))
