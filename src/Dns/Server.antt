-- ===== src/Dns/Server.antt =====
-- package/zebrafish-dns/src/server.rs: `build_servfail` and `handle_tcp_connection`. A connection
-- is the bytes that the peer sends until it closes; what is written to it is returned, and
-- writing succeeds. `DohClient::resolve` and the query log are parameters, with one state.
pub mod Frames
pub mod Udp
pub mod Answered
pub mod Conversation
pub mod Listen
pub mod Tasks
use zebrafish.Prelude.{
  ℕ, zero, suc, ◌+◌, ◌*◌, Bool, true, false, not, ◌||◌, List, [], ◌∷◌, ◌++◌, Option, none, some,
  Bytes, if◌then◌else◌, ltb, ◌==◌, length, take, drop, ◌>>=◌,
}
use zebrafish.Prelude.Results.{Result, ok, err}
use zebrafish.Dns.Hickory.{Hickory, Header}
use zebrafish.Dns.Cache.{be_bytes}
use zebrafish.Dns.Doh.{DnsResult, Failure, panicked}

-- `ResponseCode::ServFail` and `OpCode::Query`.
abbrev serv_fail : ℕ
serv_fail = 2

abbrev query_code : ℕ
query_code = 0

module _ (H : Hickory) where
  abbrev pub servfail_message : H.Message → H.Message
  servfail_message query =
      H.message
        (record {
          header_id = (H.header query).header_id;
          is_response = true;
          op_code = query_code;
          response_code = serv_fail;
          recursion_desired = (H.header query).recursion_desired;
          recursion_available = true;
        })
        (H.queries query)

  unfoldable pub build_servfail : Bytes → Option Bytes
  build_servfail query_bytes = H.from_vec query_bytes >>= λ query. H.to_vec (servfail_message query)

-- How the task of a connection ends: `Ok(())`, an error, or a panic.
pub data Ending : Type 0 where
  closed failed aborted : Ending

-- What was written, how it ended, and the state of the client and the log.
pub record Connection (S : Type 0) : Type 0 where
  pub written : Bytes
  pub ending : Ending
  pub client : S

-- What is logged of a SERVFAIL.
abbrev pub servfail_result : Bytes → DnsResult
servfail_result response = record {
  response = response;
  cached = false;
  upstream_status = none;
  upstream_latency_ms = none;
}

module _ (H : Hickory) {S : Type 0} (resolve : S → Bytes → Result Failure DnsResult × S)
    (log : S → Bytes → DnsResult → S) where
  -- A response is logged and returned. The loop ends without a SERVFAIL, and the task with a panic.
  abbrev pub respond : S → Bytes → DnsResult → Result Ending Bytes × S
  respond s query r = (ok r.response, log s query r)

  abbrev pub respond_servfail : S → Bytes → Option Bytes → Result Ending Bytes × S
  respond_servfail s query none = (err closed, s)
  respond_servfail s query (some servfail) = respond s query (servfail_result servfail)

  abbrev pub or_servfail : S → Bytes → Result Failure DnsResult → Result Ending Bytes × S
  or_servfail s query (ok r) = respond s query r
  or_servfail s query (err panicked) = (err aborted, s)
  or_servfail s query (err e) = respond_servfail s query (build_servfail H query)

  unfoldable pub reply : S → Bytes → Result Ending Bytes × S
  reply s query = let result = resolve s query in or_servfail result.1 query result.0

  abbrev pub ends : Ending → S → Connection S
  ends e s = record { written = []; ending = e; client = s }

  -- `response.len() as u16` keeps the low 16 bits.
  abbrev pub write : Bytes → Connection S → Connection S
  write response rest = record {
    written = be_bytes (length response) ++ (response ++ rest.written);
    ending = rest.ending;
    client = rest.client;
  }

  -- A round of the loop from the response on; `more` is the rest of the loop.
  unfoldable pub serve_reply :
      (S → Bytes → Option (Connection S)) → Result Ending Bytes → S → Bytes → Option (Connection S)
  serve_reply more (err e) s input = some (ends e s)
  serve_reply more (ok response) s input = more s input >>= λ rest. some (write response rest)

  unfoldable pub serve_message :
      (S → Bytes → Option (Connection S)) → S → ℕ → Bytes → Option (Connection S)
  serve_message more s msg_len input =
      let answered = reply s (take msg_len input) in
      if msg_len == 0 || ltb 65535 msg_len
      then some (ends closed s)
      else if ltb (length input) msg_len
      then some (ends failed s)
      else serve_reply more answered.0 answered.1 (drop msg_len input)

  -- The loop, on fuel; `none` when the fuel runs out.
  unfoldable pub serve : ℕ → S → Bytes → Option (Connection S)
  serve zero s input = none
  serve (suc f) s [] = some (ends closed s)
  serve (suc f) s (high ∷ []) = some (ends closed s)
  serve (suc f) s (high ∷ low ∷ input) =
      serve_message (λ t rest. serve f t rest) s (high * 256 + low) input
