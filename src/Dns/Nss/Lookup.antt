-- ===== src/Dns/Nss/Lookup.antt =====
-- package/zebrafish-dns/src/nss.rs: the message that `query_local_dns` sends and what it makes of
-- the reply, with the forwarder of server.rs at the other end of the socket.
use zebrafish.Prelude.{
  ℕ, ◌/◌, ◌%◌, true, false, List, [], ◌∷◌, Option, none, some, Bytes, Text, text, ◌≡◌, refl, ap,
  ◌∙◌, inl, inr, Bool-cases, take, map, is_empty, ◌>>=◌, Contains, arith,
}
use Prim.Native.Nat.{bit_xor}
use zebrafish.Prelude.Results.{ok}
use zebrafish.Dns.Hickory.{Hickory, Header}
use zebrafish.Dns.Lru.{Lru}
use zebrafish.Dns.Cache.{CacheEntry, DnsCache}
use zebrafish.Dns.Doh.{Answer, DnsResult, resolve}
use zebrafish.Dns.QueryLog.Entry.{QueryLogEntry, QueryLogger, Source, Display}
use zebrafish.Dns.Server.Udp.{handle, udp_task}
use zebrafish.Dns.Nss.{RecordType, RData, IpAddr, addresses, query_local_dns}
use zebrafish.Dns.Nss.Answers.{answer_of, address_of, addresses-Contains, IsFrom, addresses-IsFrom}

-- `rand_id`, of the nanoseconds since 1970.
unfoldable pub rand_id : ℕ → ℕ
rand_id nanos = bit_xor (nanos % 1000000000) (nanos / 1000000000 % 4294967296) % 65536

-- What hickory does beside reading and writing messages: a question for a name of the right
-- form, and the data of an answer.
pub record Lookups (H : Hickory) : Type 0 where
  pub question : Bytes → RecordType → Option H.Query
  pub data_of : H.Record → RData

module _ (H : Hickory) (lookups : Lookups H) where
  abbrev pub query_header : ℕ → Header
  query_header id = record {
    header_id = id;
    is_response = false;
    op_code = 0;
    response_code = 0;
    recursion_desired = true;
    recursion_available = false;
  }

  -- The bytes that are sent for a name.
  unfoldable pub wire_of : ℕ → Bytes → RecordType → Option Bytes
  wire_of id name t =
      lookups.question name t >>= λ q. H.to_vec (H.message (query_header id) (q ∷ []))

  -- The answers in what the socket receives, of which 4096 bytes fit the buffer.
  unfoldable pub answers_in : Bytes → Option (List RData)
  answers_in reply = H.from_vec (take 4096 reply) >>= λ m. some (map lookups.data_of (H.answers m))

  -- The exchange, over a socket that is sent a message and may receive one.
  unfoldable pub exchange : (Bytes → Option Bytes) → ℕ → Bytes → RecordType → Option (List RData)
  exchange socket clock name t = do
    wire ← wire_of (rand_id clock) name t
    reply ← socket wire
    answers_in reply

-- What a lookup should return for some answers: none if no answer is of the type, and else an
-- address for each answer of the type and no other address.
abbrev pub IsFound : RecordType → List RData → Option (List IpAddr) → Type 0
IsFound t ds none = (o : Bytes) → ¬ Contains (answer_of t o) ds
IsFound t ds (some xs) =
    ((o : Bytes) → Contains (answer_of t o) ds → Contains (address_of t o) xs)
    × ((x : IpAddr) → Contains x xs → IsFrom t ds x)

nothing_in : {A : Type 0} {x : A} (xs : List A) → is_empty xs ≡ true → ¬ Contains x xs
nothing_in [] e m = elim m [ ]
nothing_in (y ∷ ys) e m = absurd (ground (arith, e))

query_local_dns-IsFound :
    (source : Bytes → RecordType → Option (List RData)) (name : Bytes) (t : RecordType)
    (ds : List RData)
    → source name t ≡ some ds
    → IsFound t ds (query_local_dns source name t)
unfolding query_local_dns
query_local_dns-IsFound source name t ds e = elim (Bool-cases (is_empty (addresses t ds))) [
  | inl none_found ↦
      rw (query_local_dns, e, none_found)
        (λ o m. nothing_in (addresses t ds) none_found (addresses-Contains t o ds m))
  | inr some_found ↦
      rw (query_local_dns, e, some_found)
        (λ o m. addresses-Contains t o ds m, λ x m. addresses-IsFrom t ds x m)
]

module _ (H : Hickory) (L : Lru CacheEntry) (lookups : Lookups H) (display : Display H)
    (to_json : QueryLogEntry → Option Text) (logger : Option QueryLogger) (stamp : Text)
    (total_ms : ℕ) (upstream : Bytes → Option Answer) (meanwhile : DnsCache L → DnsCache L)
    (now later : ℕ) (c : DnsCache L) (src : Source) where
  -- The socket, if its peer is the forwarder and no datagram is lost.
  abbrev pub forwarder : Bytes → Option Bytes
  forwarder wire =
      (udp_task H L display to_json logger stamp total_ms upstream meanwhile now later c
        (take 4096 wire, src)).sent

  forwarder_lem :
      (wire : Bytes) (r : DnsResult)
      → (resolve H L upstream meanwhile now later c (take 4096 wire)).0 ≡ ok r
      → forwarder wire ≡ some r.response
  unfolding udp_task handle
  forwarder_lem wire r resolved =
      ap
        (λ o.
          (handle H display to_json logger stamp src (text "UDP") (take 4096 wire) total_ms o).sent)
        resolved

  exchange_answered :
      (clock : ℕ) (name : Bytes) (t : RecordType) (wire : Bytes) (r : DnsResult) (m : H.Message)
      → wire_of H lookups (rand_id clock) name t ≡ some wire
      → (resolve H L upstream meanwhile now later c (take 4096 wire)).0 ≡ ok r
      → H.from_vec (take 4096 r.response) ≡ some m
      → exchange H lookups forwarder clock name t ≡ some (map lookups.data_of (H.answers m))
  unfolding exchange answers_in
  exchange_answered clock name t wire r m sent resolved read = rw (sent) (
      ap (λ o. o >>= λ reply. answers_in H lookups reply) (forwarder_lem wire r resolved)
      ∙ rw read refl)

  -- A lookup that is answered by the forwarder: if `resolve` has a result for the message that is
  -- sent, of which hickory reads the first 4096 bytes, then the lookup finds an address for
  -- each answer of the type asked for, and no other, or fails if there is no such answer.
  pub query_local_dns-udp_task :
      (clock : ℕ) (name : Bytes) (t : RecordType) (wire : Bytes) (r : DnsResult) (m : H.Message)
      → wire_of H lookups (rand_id clock) name t ≡ some wire
      → (resolve H L upstream meanwhile now later c (take 4096 wire)).0 ≡ ok r
      → H.from_vec (take 4096 r.response) ≡ some m
      → IsFound t
          (map lookups.data_of (H.answers m))
          (query_local_dns (exchange H lookups forwarder clock) name t)
  query_local_dns-udp_task clock name t wire r m sent resolved read =
      query_local_dns-IsFound (exchange H lookups forwarder clock) name t
        (map lookups.data_of (H.answers m))
        (exchange_answered clock name t wire r m sent resolved read)
