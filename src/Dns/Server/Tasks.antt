-- ===== src/Dns/Server/Tasks.antt =====
-- package/zebrafish-dns/src/server.rs and doh.rs: the tasks that `serve_udp` spawns, interleaved.
-- They share the cache. A task runs to the request that `resolve` sends to the upstream server,
-- waits there while other tasks run, and goes on when the server answers or the request fails,
-- in any order. The cache is locked within a call, so nothing else comes between.
pub mod Kept
pub mod Served
pub mod Replies
pub mod Sources
pub mod Traced
pub mod Cached
use zebrafish.Prelude.{
  ℕ, List, [], ◌∷◌, Option, none, some, Text, text, Bytes, take, get_elem?, remove_at, ◌≤◌,
}
use zebrafish.Prelude.Results.{Result, err}
use zebrafish.Dns.Hickory.{Hickory}
use zebrafish.Dns.Lru.{Lru}
use zebrafish.Dns.Cache.{CacheEntry, DnsCache, new, get}
use zebrafish.Dns.Doh.{Answer, DnsResult, Failure, unparsed, receive, proceed}
use zebrafish.Dns.Server.Udp.{Handled, handle}
use zebrafish.Dns.QueryLog.Entry.{QueryLogEntry, QueryLogger, Source, Display}

-- What the clocks read: the monotonic one, the date of a log line, and the time a task has taken.
pub record Clocks : Type 0 where
  pub now : ℕ
  pub stamp : Text
  pub total_ms : ℕ

-- A task that has sent its request.
pub record Task (M : Type 0) : Type 0 where
  pub query : Bytes
  pub source : Source
  pub message : M

-- A task that has ended, with what it sent and logged.
pub record Finished : Type 0 where
  pub query : Bytes
  pub source : Source
  pub at : Clocks
  pub handled : Handled

pub record World (M : Type 0) (L : Lru CacheEntry) : Type 0 where
  pub cache : DnsCache L
  pub waiting : List (Task M)
  pub finished : List Finished

-- A datagram arrives, or the request of the `i`-th waiting task ends.
pub data Event : Type 0 where
  arrived : Clocks → Bytes → Source → Event
  answered : Clocks → ℕ → Option Answer → Event

abbrev pub clocks : Event → Clocks
clocks (arrived at bytes src) = at
clocks (answered at i answer) = at

module _ (H : Hickory) (L : Lru CacheEntry) (display : Display H)
    (to_json : QueryLogEntry → Option Text) (logger : Option QueryLogger) where
  abbrev pub begun : DnsCache L → World H.Message L
  begun c = record { cache = c; waiting = []; finished = [] }

  -- The last part of a task, from the result of `resolve` on.
  abbrev pub end_of : Clocks → Bytes → Source → Result Failure DnsResult → Finished
  end_of at query src outcome = record {
    query = query;
    source = src;
    at = at;
    handled = handle H display to_json logger at.stamp src (text "UDP") query at.total_ms outcome;
  }

  abbrev pub ended :
      Clocks
      → Bytes
      → Source
      → Result Failure DnsResult × DnsCache L
      → List (Task H.Message)
      → List Finished
      → World H.Message L
  ended at query src outcome ws fs = record {
    cache = outcome.1;
    waiting = ws;
    finished = end_of at query src outcome.0 ∷ fs;
  }

  -- After the lookup: a hit ends the task, after a miss it waits.
  unfoldable pub looked_up :
      Clocks
      → Bytes
      → Source
      → H.Message
      → Option Bytes
      → DnsCache L
      → World H.Message L
      → World H.Message L
  looked_up at query src msg (some hit) c w =
      ended at query src (proceed H L at.now msg (some hit) none c c) w.waiting w.finished
  looked_up at query src msg none c w = record {
    cache = c;
    waiting = record { query = query; source = src; message = msg } ∷ w.waiting;
    finished = w.finished;
  }

  unfoldable pub spawn :
      Clocks → Bytes → Source → Option H.Message → World H.Message L → World H.Message L
  spawn at query src none w = ended at query src (err unparsed, w.cache) w.waiting w.finished
  spawn at query src (some msg) w =
      let looked = get H L at.now w.cache msg in looked_up at query src msg looked.0 looked.1 w

  unfoldable pub resume :
      Clocks
      → Option Answer
      → Option (Task H.Message)
      → List (Task H.Message)
      → World H.Message L
      → World H.Message L
  resume at answer none ws w = w
  resume at answer (some t) ws w =
      ended at t.query t.source (receive H L at.now t.message answer w.cache) ws w.finished

  unfoldable pub step : Event → World H.Message L → World H.Message L
  step (arrived at bytes src) w =
      let query = take 4096 bytes in spawn at query src (H.from_vec query) w
  step (answered at i answer) w = resume at answer (get_elem? w.waiting i) (remove_at w.waiting i) w

  -- The events of a list, one after the other.
  unfoldable pub run : List Event → World H.Message L → World H.Message L
  run [] w = w
  run (e ∷ es) w = run es (step e w)

  -- The events so far, the last one first, and the time of the last one.
  pub data Reach (max_entries lo hi : ℕ) : List Event → ℕ → World H.Message L → Type 0 where
    begin : {t : ℕ} → Reach max_entries lo hi [] t (begun (new H L max_entries lo hi))
    later :
        {es : List Event} {t : ℕ} {w : World H.Message L} (e : Event)
        → Reach max_entries lo hi es t w
        → t ≤ (clocks e).now
        → Reach max_entries lo hi (e ∷ es) (clocks e).now (step e w)
