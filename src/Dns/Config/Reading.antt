-- ===== src/Dns/Config/Reading.antt =====
-- package/zebrafish-dns/src/config.rs: how serde reads the structs from a TOML value, with what is
-- filled in for missing fields. The parser of TOML text is a parameter.
use zebrafish.Prelude.{ℕ, false, List, [], ◌∷◌, Option, none, some, Text, text, ◌>>=◌}
use zebrafish.Config.Value.{Value, Entries, table, no_entries, entry, array}
use zebrafish.Config.Schema.Codec.{
  required, optional, or_default, text_codec, bool_codec, unsigned_codec, table_of, decode_items,
}
use zebrafish.Dns.Config.{
  Config, ServerConfig, UpstreamConfig, ProviderConfig, CacheConfig, QueryLogConfig,
}

-- The limits of `usize` and `u32`.
abbrev usize_limit : ℕ
usize_limit = 18446744073709551616

abbrev u32_limit : ℕ
u32_limit = 4294967296

module _ {F D : Type 0} where
  -- A vector without a default.
  abbrev pub texts_of : Option (Value F D) → Option (List Text)
  texts_of (some (array xs)) = decode_items text_codec xs
  texts_of _ = none

  abbrev pub provider_of : (Text → Option (Value F D)) → Option ProviderConfig
  provider_of get = do
    url' ← required text_codec (get (text "url"))
    bootstrap' ← texts_of (get (text "bootstrap"))
    some (record { url = url'; bootstrap = bootstrap' })

  -- The map of providers, from the entries of a table.
  unfoldable pub providers_in : Entries F D → Option (List (Text × ProviderConfig))
  providers_in no_entries = some []
  providers_in (entry name v es) = do
    p ← table_of provider_of v
    ps ← providers_in es
    some ((name, p) ∷ ps)

  abbrev pub providers_of : Option (Value F D) → Option (List (Text × ProviderConfig))
  providers_of none = some []
  providers_of (some (table es)) = providers_in es
  providers_of (some _) = none

  abbrev pub upstream_of : (Text → Option (Value F D)) → Option UpstreamConfig
  upstream_of get = do
    provider' ← required text_codec (get (text "provider"))
    custom_url' ← optional text_codec (get (text "custom_url"))
    providers' ← providers_of (get (text "providers"))
    some (record { provider = provider'; custom_url = custom_url'; providers = providers' })

  abbrev pub server_of : (Text → Option (Value F D)) → Option ServerConfig
  server_of get = do
    listen_address' ← required text_codec (get (text "listen_address"))
    listen_port' ← required (unsigned_codec 65536) (get (text "listen_port"))
    listen_address_v6' ← or_default text_codec (text "::") (get (text "listen_address_v6"))
    workers' ← or_default (unsigned_codec usize_limit) 0 (get (text "workers"))
    some (record {
      listen_address = listen_address';
      listen_port = listen_port';
      listen_address_v6 = listen_address_v6';
      workers = workers';
    })

  abbrev pub cache_of : (Text → Option (Value F D)) → Option CacheConfig
  cache_of get = do
    max_entries' ← or_default (unsigned_codec usize_limit) 10000 (get (text "max_entries"))
    min_ttl' ← or_default (unsigned_codec u32_limit) 60 (get (text "min_ttl"))
    max_ttl' ← or_default (unsigned_codec u32_limit) 86400 (get (text "max_ttl"))
    some (record { max_entries = max_entries'; min_ttl = min_ttl'; max_ttl = max_ttl' })

  abbrev pub level_of : (Text → Option (Value F D)) → Option Text
  level_of get = or_default text_codec (text "info") (get (text "level"))

  abbrev pub query_log_of : (Text → Option (Value F D)) → Option QueryLogConfig
  query_log_of get = do
    enabled' ← or_default bool_codec false (get (text "enabled"))
    output' ← optional text_codec (get (text "output"))
    some (record { enabled = enabled'; output = output' })

  -- A section that must be there, and `[query_log]`, which need not.
  abbrev pub section_of :
      {A : Type 0} → ((Text → Option (Value F D)) → Option A) → Option (Value F D) → Option A
  section_of build none = none
  section_of build (some v) = table_of build v

  abbrev pub query_log_section : Option (Value F D) → Option QueryLogConfig
  query_log_section none = some (record { enabled = false; output = none })
  query_log_section (some v) = table_of query_log_of v

  abbrev pub config_of : (Text → Option (Value F D)) → Option Config
  config_of get = do
    server' ← section_of server_of (get (text "server"))
    upstream' ← section_of upstream_of (get (text "upstream"))
    cache' ← section_of cache_of (get (text "cache"))
    level' ← section_of level_of (get (text "logging"))
    query_log' ← query_log_section (get (text "query_log"))
    some (record {
      server = server';
      upstream = upstream';
      cache = cache';
      level = level';
      query_log = query_log';
    })

  unfoldable pub from_value : Value F D → Option Config
  from_value v = table_of config_of v

  unfoldable pub from_toml : (Text → Option (Value F D)) → Text → Option Config
  from_toml parse_toml s = parse_toml s >>= from_value
