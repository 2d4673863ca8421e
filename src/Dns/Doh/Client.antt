-- ===== src/Dns/Doh/Client.antt =====
-- package/zebrafish-dns/src/doh.rs: `DohClient::new`, and where its requests go. Addresses are
-- parsed by the standard library, and a request's URI by the http crate.
use zebrafish.Prelude.{
  ℕ, Bool, true, false, not, ◌==◌, List, [], ◌∷◌, ◌++◌, Option, none, some, Text, text,
  text_eq_refl, if◌then◌else◌, ◌≡◌, refl, arith, all,
}
use zebrafish.Dns.Config.{Config, doh_url, bootstrap_addrs}
use zebrafish.Dns.Doh.{built_or_original, call}

-- `strip_prefix(..).unwrap_or(..)`.
unfoldable pub without_prefix : Text → Text → Option Text
without_prefix [] s = some s
without_prefix (p ∷ ps) [] = none
without_prefix (p ∷ ps) (c ∷ cs) = let rest = without_prefix ps cs in if p == c then rest else none

abbrev pub or_whole : Text → Option Text → Text
or_whole s none = s
or_whole s (some rest) = rest

-- The first piece of `split('/')`.
unfoldable pub before_slash : Text → Text
before_slash [] = []
before_slash (c ∷ cs) = let rest = before_slash cs in if c == b'/' then [] else c ∷ rest

unfoldable pub doh_host : Text → Text
doh_host url = before_slash (or_whole url (without_prefix (text "https://") url))

module _ {A : Type 0} (parse_ip : Text → Option A) where
  -- The addresses that can be parsed, each with port 443.
  unfoldable pub socket_addrs : List Text → List (A × ℕ)
  socket_addrs [] = []
  socket_addrs (ip ∷ ips) =
      let rest = socket_addrs ips in elim (parse_ip ip) [ none ↦ rest | some a ↦ (a, 443) ∷ rest ]

  pub record DohClient : Type 0 where
    pub url : Text
    pub bootstrap_host : Text
    pub addresses : List (A × ℕ)

  abbrev pub new_client : Config → DohClient
  new_client config = record {
    url = doh_url config;
    bootstrap_host = doh_host (doh_url config);
    addresses = socket_addrs (bootstrap_addrs config);
  }

  -- The first of some texts that is an address.
  pub data First : A → List Text → Type 0 where
    first : {a : A} {ip : Text} {ips : List Text} → parse_ip ip ≡ some a → First a (ip ∷ ips)
    later :
        {a : A} {ip : Text} {ips : List Text}
        → parse_ip ip ≡ none
        → First a ips
        → First a (ip ∷ ips)

  socket_addrs-First :
      {a : A} {ips : List Text}
      → First a ips
      → (rest : List (A × ℕ)) × (socket_addrs ips ≡ (a, 443) ∷ rest)
  unfolding socket_addrs
  socket_addrs-First (first {a} {ip} {ips} e) = (socket_addrs ips, rw (socket_addrs, e) refl)
  socket_addrs-First (later {a} {ip} {ips} e f) =
      let (rest, found) = socket_addrs-First f in (rest, rw (socket_addrs, e) found)

abbrev not_slash : ℕ → Bool
not_slash c = not (c == b'/')

before_slash-append :
    (host rest : Text) → all not_slash host ≡ true → before_slash (host ++ (b'/' ∷ rest)) ≡ host
unfolding before_slash
before_slash-append [] rest h = refl
before_slash-append (c ∷ cs) rest h =
    let other : (c == b'/') ≡ false = ground (arith, h) in
    let ih = before_slash-append cs rest (ground (arith, h)) in rw (other, ih) refl

doh_host-append :
    (host rest : Text)
    → all not_slash host ≡ true
    → doh_host (text "https://" ++ (host ++ (b'/' ∷ rest))) ≡ host
unfolding doh_host without_prefix
doh_host-append host rest h = before_slash-append host rest h

call_rewritten :
    {A : Type 0} (builds : A → Text → Bool) (host path : Text) (a : A) (rest : List A)
    → call builds host (a ∷ rest) (record { host = some host; path_and_query = some path })
      ≡ built_or_original (builds a path) a path
unfolding call
call_rewritten builds host path a rest = rw (text_eq_refl host) refl

-- With an upstream URL of the shape https://host/rest, the connector sends a request for that host
-- to the first bootstrap address of the configuration that can be parsed, at port 443, with its
-- path unchanged, if a URI can be built of these, and else to the URI of the request.
pub call-new_client :
    {A : Type 0} (parse_ip : Text → Option A) (builds : A × ℕ → Text → Bool) (config : Config)
    (host rest path : Text) (a : A)
    → all not_slash host ≡ true
    → doh_url config ≡ text "https://" ++ (host ++ (b'/' ∷ rest))
    → First parse_ip a (bootstrap_addrs config)
    → call builds
        (new_client parse_ip config).bootstrap_host
        (new_client parse_ip config).addresses
        (record { host = some host; path_and_query = some path })
      ≡ built_or_original (builds (a, 443) path) (a, 443) path
call-new_client parse_ip builds config host rest path a plain url found =
    let (more, e) = socket_addrs-First parse_ip found in
    rw (url, doh_host-append host rest plain, e) (call_rewritten builds host path (a, 443) more)
