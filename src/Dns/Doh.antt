-- ===== src/Dns/Doh.antt =====
-- package/zebrafish-dns/src/doh.rs: `DohClient::resolve` and the connector that knows the
-- addresses of the upstream server. The request and its answer are a parameter, and so is what
-- the other tasks do to the shared cache while the answer is awaited.
pub mod Resolve
pub mod Steady
pub mod Steps
pub mod Again
pub mod Client
use zebrafish.Prelude.{
  ℕ, ◌-◌, ◌/◌, ◌%◌, Bool, true, false, not, ◌&&◌, List, [], ◌∷◌, Option, none, some, Bytes, Text,
  text, if◌then◌else◌, leb, is_empty, text_eq, length,
}
use zebrafish.Prelude.Results.{Result, ok, err}
use zebrafish.Dns.Hickory.{Hickory}
use zebrafish.Dns.Lru.{Lru}
use zebrafish.Dns.Cache.{CacheEntry, DnsCache, get, put}

-- What came back from the upstream server: its status, the body if it could be read to the end,
-- and the time it took.
pub record Answer : Type 0 where
  pub status : ℕ
  pub body : Option Bytes
  pub latency_ms : ℕ

pub record DnsResult : Type 0 where
  pub response : Bytes
  pub cached : Bool
  pub upstream_status : Option ℕ
  pub upstream_latency_ms : Option ℕ

pub data Failure : Type 0 where
  unparsed no_answer no_body panicked : Failure
  upstream_error : ℕ → Failure

abbrev pub is_success : ℕ → Bool
is_success status = leb 200 status && leb status 299

-- The first two bytes replaced by a 16-bit id.
unfoldable pub rewrite_id : ℕ → Bytes → Bytes
rewrite_id id (a ∷ b ∷ rest) = id / 256 % 256 ∷ id % 256 ∷ rest
rewrite_id id response = response

-- A URI as the connector sees it: the host, and the path with the query if there is one.
pub record Uri : Type 0 where
  pub host : Option Text
  pub path_and_query : Option Text

pub data Target (A : Type 0) : Type 0 where
  original : Target A
  -- Scheme http, the authority and the path.
  rewritten_uri : A → Text → Target A

abbrev or_empty : Option Text → Text
or_empty none = []
or_empty (some s) = s

abbrev or_slash : Option Text → Text
or_slash none = text "/"
or_slash (some s) = s

-- `match new_uri`: the new URI, or the request's own if the builder made none.
abbrev pub built_or_original : {A : Type 0} → Bool → A → Text → Target A
built_or_original true bootstrap path = rewritten_uri bootstrap path
built_or_original false bootstrap path = original

-- `BootstrapConnector::call`: which URI the inner connector is called with. Whether `Uri::builder`
-- builds a URI with scheme http, the address as it is printed and the path is a parameter.
unfoldable pub call : {A : Type 0} → (A → Text → Bool) → Text → List A → Uri → Target A
call builds bootstrap_host [] uri = original
call builds bootstrap_host (bootstrap ∷ rest) uri =
    let path = or_slash uri.path_and_query in
    if text_eq (or_empty uri.host) bootstrap_host
    then built_or_original (builds bootstrap path) bootstrap path
    else original

module _ (H : Hickory) (L : Lru CacheEntry) where
  -- After the status check: the body is collected, stored and given the id of the query.
  unfoldable pub finish :
      ℕ
      → H.Message
      → Answer
      → DnsCache L
      → Option (DnsCache L)
      → Bytes
      → Result Failure DnsResult × DnsCache L
  finish later msg answer c none body = (err panicked, c)
  finish later msg answer c (some d) body = (
    ok (record {
      response = rewrite_id (H.header msg).header_id body;
      cached = false;
      upstream_status = some answer.status;
      upstream_latency_ms = some answer.latency_ms;
    }),
    d,
  )

  unfoldable pub collect :
      ℕ → H.Message → Answer → DnsCache L → Option Bytes → Result Failure DnsResult × DnsCache L
  collect later msg answer c none = (err no_body, c)
  collect later msg answer c (some body) = finish later msg answer c (put H L later c msg body) body

  unfoldable pub receive :
      ℕ → H.Message → Option Answer → DnsCache L → Result Failure DnsResult × DnsCache L
  receive later msg none c = (err no_answer, c)
  receive later msg (some answer) c =
      if not (is_success answer.status)
      then (err (upstream_error answer.status), c)
      else collect later msg answer c answer.body

  -- A hit, or what follows a miss.
  unfoldable pub proceed :
      ℕ
      → H.Message
      → Option Bytes
      → Option Answer
      → DnsCache L
      → DnsCache L
      → Result Failure DnsResult × DnsCache L
  proceed later msg (some hit) answer c d = (
    ok (record {
      response = rewrite_id (H.header msg).header_id hit;
      cached = true;
      upstream_status = none;
      upstream_latency_ms = none;
    }),
    c,
  )
  proceed later msg none answer c d = receive later msg answer d

  -- The query arrives at `now`, its answer at `later`.
  unfoldable pub resolve_message :
      (Bytes → Option Answer)
      → (DnsCache L → DnsCache L)
      → ℕ
      → ℕ
      → DnsCache L
      → Bytes
      → Option H.Message
      → Result Failure DnsResult × DnsCache L
  resolve_message upstream meanwhile now later c query none = (err unparsed, c)
  resolve_message upstream meanwhile now later c query (some msg) =
      let looked = get H L now c msg in
      proceed later msg looked.0 (upstream query) looked.1 (meanwhile looked.1)

  unfoldable pub resolve :
      (Bytes → Option Answer)
      → (DnsCache L → DnsCache L)
      → ℕ
      → ℕ
      → DnsCache L
      → Bytes
      → Result Failure DnsResult × DnsCache L
  resolve upstream meanwhile now later c query =
      resolve_message upstream meanwhile now later c query (H.from_vec query)
