-- ===== src/Dns/StartupTests.antt =====
-- Tests of the start of the program and of timestamps, and their theorems at concrete inputs.
use zebrafish.Prelude.{
  ℕ, not, ◌==◌, all, ◌+◌, ◌*◌, Bool, true, [], ◌∷◌, Option, none, some, Text, text, text_eq, ◌≡◌,
  refl, arith,
}
use zebrafish.Prelude.Decimal.{to_string, show_onto}
use zebrafish.Prelude.Int.{pos}
use zebrafish.Prelude.Padded.{padded}
use zebrafish.Dns.Config.{Config, default, doh_url, bootstrap_addrs, find_provider}
use zebrafish.Dns.Doh.{call, rewritten_uri, original, built_or_original}
use zebrafish.Dns.Doh.Client.{
  without_prefix, before_slash, doh_host, socket_addrs, new_client, First, first, call-new_client,
}
use zebrafish.Dns.Server.Listen.{
  Transport, udp, tcp, listen_on, listeners, new_server, run, all_exited,
}
use zebrafish.Config.Value.{Value, string, integer, table, no_entries, entry, get_entry}
use zebrafish.Dns.Config.Reading.{from_value, providers_in}
use zebrafish.Dns.Startup.{config_path, load, worker_threads, query_logger}
use zebrafish.Dns.QueryLog.{
  days_to_date, year_of_era, day_of_year, month_from_march, day_of_month, month_of, as_i32,
}
use zebrafish.Dns.QueryLog.Timestamp.{rfc3339, rfc3339_at, read_timestamp, read_timestamp-rfc3339}

starts : Unit {0}
unfolding get_entry from_value providers_in to_string show_onto padded text_eq doh_url
    bootstrap_addrs find_provider call without_prefix before_slash doh_host socket_addrs listen_on
    listeners run config_path load worker_threads query_logger days_to_date year_of_era day_of_year
    month_from_march day_of_month month_of as_i32 rfc3339_at
starts = tt

-- The last millisecond of a leap day.
stamped : rfc3339 (some (951868799 * 1000000000 + 999000000)) ≡ text "2000-02-29T23:59:59.999Z"
unfolding starts
stamped = refl

read_timestamp-rfc3339_example :
    read_timestamp (rfc3339 (some (951868799 * 1000000000 + 999000000))) ≡ some 951868799999
read_timestamp-rfc3339_example =
    read_timestamp-rfc3339 (951868799 * 1000000000 + 999000000) (omega arith)

-- Addresses are kept as texts here.
abbrev parse : Text → Option Text
parse s = some s

host_found : doh_host (doh_url default) ≡ text "cloudflare-dns.com"
unfolding starts
host_found = refl

default_url_is : doh_url default ≡ text "https://cloudflare-dns.com/dns-query"
unfolding starts
default_url_is = refl

default-First : First parse (text "1.1.1.1") (bootstrap_addrs default)
unfolding starts
default-First = first refl

-- An address that is printed with a colon needs brackets in a URI.
abbrev builds : Text × ℕ → Text → Bool
builds (a, port) path = all (λ c. not (c == b':')) a

call-new_client_example :
    call builds
      (new_client parse default).bootstrap_host
      (new_client parse default).addresses
      (record {
        host = some (text "cloudflare-dns.com");
        path_and_query = some (text "/dns-query");
      })
    ≡ built_or_original
        (builds (text "1.1.1.1", 443) (text "/dns-query"))
        (text "1.1.1.1", 443)
        (text "/dns-query")
call-new_client_example =
    call-new_client parse builds default (text "cloudflare-dns.com") (text "dns-query")
      (text "/dns-query") (text "1.1.1.1") refl default_url_is default-First

-- A host with a port is not the host of the URI, and the bootstrap addresses are not used.
port_kept : doh_host (text "https://dns.example:8443/q") ≡ text "dns.example:8443"
unfolding starts
port_kept = refl

-- A custom server is looked for at the address of another one.
abbrev custom : Config
custom = record default {
  upstream = record {
    provider = text "custom";
    custom_url = some (text "https://dns.example/q");
    providers = [];
  };
}

custom_misdirected :
    call builds
      (new_client parse custom).bootstrap_host
      (new_client parse custom).addresses
      (record { host = some (text "dns.example"); path_and_query = some (text "/q") })
    ≡ rewritten_uri (text "1.1.1.1", 443) (text "/q")
unfolding starts
custom_misdirected = refl

-- With an IPv6 address first, the system has to resolve the name after all.
unbracketed :
    call builds
      (text "dns.example")
      ((text "2606:4700::1111", 443) ∷ [])
      (record { host = some (text "dns.example"); path_and_query = some (text "/q") })
    ≡ original
unfolding starts
unbracketed = refl

abbrev only_v4 : Transport → Text → Bool
only_v4 t a = text_eq a (text "0.0.0.0:53")

listening :
    run parse only_v4 (
      new_server default.server.listen_address default.server.listen_address_v6
        default.server.listen_port none)
    ≡ ((udp, text "0.0.0.0:53") ∷ (tcp, text "0.0.0.0:53") ∷ [], all_exited)
unfolding starts
listening = refl

starting :
    (config_path [] ≡ text "/etc/zebrafish-dns/zebrafish-dns.toml")
    × (load (λ p. none) (λ s. some default) (text "/missing") ≡ none)
    × (worker_threads none 0 ≡ 2)
    × (worker_threads (some 8) 4 ≡ 4)
    × (query_logger (λ p. true) 1 default.query_log ≡ none)
unfolding starts
starting = (refl, refl, refl, refl, refl)

-- A file without any value that has a default.
abbrev minimal : Value (Unit {0}) (Unit {0})
minimal = table (
    entry (text "server")
      (table (
        entry (text "listen_address") (string (text "0.0.0.0"))
          (entry (text "listen_port") (integer (pos 53)) no_entries)))
      (entry (text "upstream") (table (entry (text "provider") (string (text "quad9")) no_entries))
        (entry (text "cache") (table no_entries)
          (entry (text "logging") (table no_entries) no_entries))))

minimal_read :
    from_value minimal
    ≡ some (record default {
      upstream = record { provider = text "quad9"; custom_url = none; providers = [] };
    })
unfolding starts
minimal_read = refl

-- The four sections must be there.
empty_refused : from_value {F = Unit {0}} {D = Unit {0}} (table no_entries) ≡ none
unfolding starts
empty_refused = refl
