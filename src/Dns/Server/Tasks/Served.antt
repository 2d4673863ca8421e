-- ===== src/Dns/Server/Tasks/Served.antt =====
-- package/zebrafish-dns/src/server.rs: what one ended task of `serve_udp` has sent and logged.
use zebrafish.Prelude.{
  ℕ, true, ◌≤◌, List, [], ◌∷◌, Option, none, some, Text, text, Bytes, take, length, ◌≡◌, ◌≢◌, refl,
  ap, Contains, here, there,
}
use zebrafish.Prelude.Results.{Result, ok, err}
use zebrafish.Dns.Hickory.{Hickory}
use zebrafish.Dns.Cache.{be_bytes}
use zebrafish.Dns.Doh.{DnsResult, Failure, panicked}
use zebrafish.Dns.Server.{build_servfail, servfail_result}
use zebrafish.Dns.Server.Udp.{Handled, handle}
use zebrafish.Dns.Server.Answered.{IsGiven, IsAnswered, handle-err, handle-IsAnswered}
use zebrafish.Dns.QueryLog.Entry.{QueryLogEntry, QueryLogger, Source, Display}
use zebrafish.Dns.Server.Tasks.{Finished}

-- What is sent and logged after `resolve`, with or without a log: exactly one reply, which has the
-- id of the query if it has two bytes or more, and one line about it if there is a log.
module _ (H : Hickory) (display : Display H) (to_json : QueryLogEntry → Option Text)
    (json : QueryLogEntry → Text) (now : Text) (src : Source) (protocol : Text) (query : Bytes)
    (total_ms id : ℕ) where
  abbrev pub IsReplied : Option QueryLogger → Result Failure DnsResult → Handled → Type 0
  IsReplied none outcome done =
      (r : DnsResult) × IsGiven H query outcome r
      × (done.sent ≡ some r.response)
      × ((2 ≤ length r.response) → take 2 r.response ≡ be_bytes id)
      × (done.lines ≡ [])
  IsReplied (some logger) outcome done =
      IsAnswered H display to_json logger now src protocol query total_ms json id outcome done

  pub handle-IsReplied :
      (logger : Option QueryLogger) (outcome : Result Failure DnsResult) (response : Bytes)
      → ((e : QueryLogEntry) → to_json e ≡ some (json e))
      → ((l : QueryLogger) → logger ≡ some l → (l.enabled ≡ true) × (l.unlocked ≡ true))
      → outcome ≢ err panicked
      → ((r : DnsResult)
          → outcome ≡ ok r
          → (2 ≤ length r.response)
          → take 2 r.response ≡ be_bytes id)
      → build_servfail H query ≡ some response
      → take 2 response ≡ be_bytes id
      → IsReplied logger outcome
          (handle H display to_json logger now src protocol query total_ms outcome)
  unfolding handle
  handle-IsReplied none (ok r) response printed able calm same built fits =
      (r, refl, refl, same r refl, refl)
  handle-IsReplied none (err e) response printed able calm same built fits =
      rw
        (handle-err H display to_json none now src protocol query total_ms e response
          (λ p. calm (ap err p)) built)
        (servfail_result response, (response, built, refl), refl, (λ h. fits), refl)
  handle-IsReplied (some logger) outcome response printed able calm same built fits =
      let (enabled, unlocked) = able logger refl in
      handle-IsAnswered H display to_json logger now src protocol query total_ms json id outcome
        response printed enabled unlocked calm same built fits

module _ (H : Hickory) (display : Display H) (to_json : QueryLogEntry → Option Text)
    (json : QueryLogEntry → Text) (logger : Option QueryLogger) where
  abbrev pub silent : Handled
  silent = record { sent = none; lines = [] }

  -- An ended task has been silent about a query that hickory does not read, and else has sent
  -- exactly one reply, with the id of its query, and logged it.
  abbrev pub IsServed : Finished → Type 0
  IsServed f =
      ((H.from_vec f.query ≡ none) → f.handled ≡ silent)
      × ((msg : H.Message)
          → H.from_vec f.query ≡ some msg
          → (outcome : Result Failure DnsResult) × (outcome ≢ err panicked)
            × IsReplied H display to_json json f.at.stamp f.source (text "UDP") f.query
                f.at.total_ms (H.header msg).header_id logger outcome f.handled)

  abbrev pub AllServed : List Finished → Type 0
  AllServed fs = (f : Finished) → Contains f fs → IsServed f

  pub AllServed-more :
      (f : Finished) (fs : List Finished) → IsServed f → AllServed fs → AllServed (f ∷ fs)
  AllServed-more f fs served all g here = served
  AllServed-more f fs served all g (there c) = all g c
