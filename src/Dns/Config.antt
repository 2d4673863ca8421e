-- ===== src/Dns/Config.antt =====
-- package/zebrafish-dns/src/config.rs, after deserialization. The map of providers is an
-- association list in which the first entry of a name counts.
pub mod Reading
use zebrafish.Prelude.{
  ℕ, Bool, false, List, [], ◌∷◌, Option, none, some, Text, text, text_eq, if◌then◌else◌,
}

pub record ServerConfig : Type 0 where
  pub listen_address : Text
  pub listen_port : ℕ
  pub listen_address_v6 : Text
  pub workers : ℕ

pub record ProviderConfig : Type 0 where
  pub url : Text
  pub bootstrap : List Text

pub record UpstreamConfig : Type 0 where
  pub provider : Text
  pub custom_url : Option Text
  pub providers : List (Text × ProviderConfig)

pub record CacheConfig : Type 0 where
  pub max_entries : ℕ
  pub min_ttl : ℕ
  pub max_ttl : ℕ

pub record QueryLogConfig : Type 0 where
  pub enabled : Bool
  pub output : Option Text

pub record Config : Type 0 where
  pub server : ServerConfig
  pub upstream : UpstreamConfig
  pub cache : CacheConfig
  pub level : Text
  pub query_log : QueryLogConfig

abbrev pub default_url : Text
default_url = text "https://cloudflare-dns.com/dns-query"

abbrev pub default_addrs : List Text
default_addrs = text "1.1.1.1" ∷ []

unfoldable pub find_provider : List (Text × ProviderConfig) → Text → Option ProviderConfig
find_provider [] name = none
find_provider ((n, p) ∷ ps) name = if text_eq n name then some p else find_provider ps name

abbrev pub or_default_url : Option Text → Text
or_default_url none = default_url
or_default_url (some u) = u

abbrev pub provider_url : Option ProviderConfig → Text
provider_url none = default_url
provider_url (some p) = p.url

abbrev pub provider_addrs : Option ProviderConfig → List Text
provider_addrs none = default_addrs
provider_addrs (some p) = p.bootstrap

unfoldable pub doh_url : Config → Text
doh_url c =
    if text_eq c.upstream.provider (text "custom")
    then or_default_url c.upstream.custom_url
    else provider_url (find_provider c.upstream.providers c.upstream.provider)

unfoldable pub bootstrap_addrs : Config → List Text
bootstrap_addrs c =
    if text_eq c.upstream.provider (text "custom")
    then default_addrs
    else provider_addrs (find_provider c.upstream.providers c.upstream.provider)

-- `Config::default()`.
abbrev pub default : Config
default = record {
  server = record {
    listen_address = text "0.0.0.0";
    listen_port = 53;
    listen_address_v6 = text "::";
    workers = 0;
  };
  upstream = record {
    provider = text "cloudflare";
    custom_url = none;
    providers =
        (
          text "cloudflare",
          record {
            url = default_url;
            bootstrap =
                text "1.1.1.1"
                ∷ text "1.0.0.1"
                ∷ text "2606:4700:4700::1111"
                ∷ text "2606:4700:4700::1001"
                ∷ [];
          },
        )
        ∷ [];
  };
  cache = record { max_entries = 10000; min_ttl = 60; max_ttl = 86400 };
  level = text "info";
  query_log = record { enabled = false; output = none };
}
