-- ===== src/Dns/Server/Tasks/Replies.antt =====
-- package/zebrafish-dns/src/server.rs: what the interleaved tasks of `serve_udp` send and log.
use zebrafish.Prelude.{
  ℕ, true, ◌≤◌, List, ◌∷◌, Option, none, some, Text, text, Bytes, take, get_elem?, remove_at, ◌≡◌,
  ◌≢◌, refl, sym, ◌∙◌, arith, subst, Contains, here, there, get_elem?-Contains, remove_at-Contains,
}
use mathlib.Core.List.{Perm}
use mathlib.Core.Option.{some-injective}
use zebrafish.Prelude.Results.{err}
use zebrafish.Dns.Hickory.{Hickory}
use zebrafish.Dns.Lru.{Lru}
use zebrafish.Dns.Cache.{CacheEntry, DnsCache, new, get, be_bytes}
use zebrafish.Dns.Doh.{Answer, panicked, unparsed, receive, proceed}
use zebrafish.Dns.Doh.Resolve.{proceed-eq-ok}
use zebrafish.Dns.Doh.Steady.{
  IsSameBounds, get-IsSameBounds, receive-IsSameBounds, proceed-ne-panicked,
}
use zebrafish.Dns.Server.{build_servfail, servfail_message}
use zebrafish.Dns.Server.Udp.{handle}
use zebrafish.Dns.QueryLog.Entry.{QueryLogEntry, QueryLogger, Source, Display}
use zebrafish.Dns.Server.Tasks.{
  Clocks, Task, World, Event, arrived, answered, end_of, looked_up, spawn, resume, step, Reach,
  begin, later,
}
use zebrafish.Dns.Server.Tasks.Kept.{arrivals, held, Reach-Perm}
use zebrafish.Dns.Server.Tasks.Served.{
  IsReplied, handle-IsReplied, IsServed, AllServed, AllServed-more,
}

module _ (H : Hickory) (L : Lru CacheEntry) (display : Display H)
    (to_json : QueryLogEntry → Option Text) (json : QueryLogEntry → Text)
    (logger : Option QueryLogger) (max_entries lo hi : ℕ) where
  asked_more :
      {t : Task H.Message} (ts : List (Task H.Message))
      → H.from_vec t.query ≡ some t.message
      → ((u : Task H.Message) → Contains u ts → H.from_vec u.query ≡ some u.message)
      → (u : Task H.Message) → Contains u (t ∷ ts)
      → H.from_vec u.query ≡ some u.message
  asked_more ts read all u here = read
  asked_more ts read all u (there c) = all u c

  abbrev IsSteady : World H.Message L → Type 0
  IsSteady w =
      (w.cache.min_ttl ≡ lo)
      × (w.cache.max_ttl ≡ hi)
      × ((t : Task H.Message) → Contains t w.waiting → H.from_vec t.query ≡ some t.message)
      × AllServed H display to_json json logger w.finished

  abbrev CanFail : Type 0
  CanFail =
      (query : Bytes) (msg : H.Message)
      → H.from_vec query ≡ some msg
      → (response : Bytes) × (H.to_vec (servfail_message H msg) ≡ some response)
        × (take 2 response ≡ be_bytes (H.header msg).header_id)

  module _ (printed : (e : QueryLogEntry) → to_json e ≡ some (json e))
      (able : (l : QueryLogger) → logger ≡ some l → (l.enabled ≡ true) × (l.unlocked ≡ true))
      (fails : CanFail) where
    proceed-IsServed :
        (at : Clocks) (query : Bytes) (src : Source) (msg : H.Message) (hit : Option Bytes)
        (answer : Option Answer) (c d : DnsCache L)
        → H.from_vec query ≡ some msg
        → d.min_ttl ≤ d.max_ttl
        → IsServed H display to_json json logger (
            end_of H L display to_json logger at query src
              (proceed H L at.now msg hit answer c d).0)
    unfolding build_servfail
    proceed-IsServed at query src msg hit answer c d read ordered = (
      (λ unread. absurd (ground (arith, read, unread))),
      λ asked read_again.
          let same : msg ≡ asked = some-injective msg asked (sym read ∙ read_again) in
          let (response, built, fits) = fails query msg read in
          let outcome = (proceed H L at.now msg hit answer c d).0 in
          let calm : outcome ≢ err panicked =
            proceed-ne-panicked H L at.now msg hit answer c d ordered in
          (
            outcome,
            calm,
            subst
                (λ m.
                  IsReplied H display to_json json at.stamp src (text "UDP") query at.total_ms
                    (H.header m).header_id logger outcome
                    (end_of H L display to_json logger at query src outcome).handled)
                same
                (handle-IsReplied H display to_json json at.stamp src (text "UDP") query at.total_ms
                  (H.header msg).header_id logger outcome response printed able calm
                  (λ r done long.
                    let (raw, source, start, rest, len) =
                      proceed-eq-ok H L (λ q. answer) at.now query msg r hit c d done in
                    start (omega (arith, len)))
                  (rw (read, built) refl) fits),
          ),
    )

    looked_up-IsSteady :
        (at : Clocks) (query : Bytes) (src : Source) (msg : H.Message) (hit : Option Bytes)
        (c : DnsCache L) (w : World H.Message L)
        → H.from_vec query ≡ some msg
        → lo ≤ hi
        → IsSameBounds H L w.cache c
        → IsSteady w
        → IsSteady (looked_up H L display to_json logger at query src msg hit c w)
    unfolding looked_up proceed
    looked_up-IsSteady at query src msg (some hit) c w read ordered same steady =
        let (low, high, asked, served) = steady in
        (
          same.0 ∙ low,
          same.1 ∙ high,
          asked,
          AllServed-more H display to_json json logger
              (end_of H L display to_json logger at query src
                (proceed H L at.now msg (some hit) none c c).0)
              w.finished
              (proceed-IsServed at query src msg (some hit) none c c read
                (omega (arith, same, low, high)))
              served,
        )
    looked_up-IsSteady at query src msg none c w read ordered same steady =
        let (low, high, asked, served) = steady in
        (same.0 ∙ low, same.1 ∙ high, asked_more w.waiting read asked, served)

    spawn-IsSteady :
        (at : Clocks) (query : Bytes) (src : Source) (o : Option H.Message) (w : World H.Message L)
        → H.from_vec query ≡ o
        → lo ≤ hi
        → IsSteady w
        → IsSteady (spawn H L display to_json logger at query src o w)
    unfolding spawn handle build_servfail
    spawn-IsSteady at query src none w unread ordered (low, high, asked, served) = (
      low,
      high,
      asked,
      AllServed-more H display to_json json logger
          (end_of H L display to_json logger at query src (err unparsed)) w.finished
          ((λ again. rw unread refl), λ msg read. cc) served,
    )
    spawn-IsSteady at query src (some msg) w read ordered steady =
        let looked = get H L at.now w.cache msg in
        looked_up-IsSteady at query src msg looked.0 looked.1 w read ordered
          (get-IsSameBounds H L at.now w.cache msg) steady

    resume-IsSteady :
        (at : Clocks) (answer : Option Answer) (i : ℕ) (w : World H.Message L)
        (o : Option (Task H.Message))
        → get_elem? w.waiting i ≡ o
        → lo ≤ hi
        → IsSteady w
        → IsSteady (resume H L display to_json logger at answer o (remove_at w.waiting i) w)
    unfolding resume proceed
    resume-IsSteady at answer i w none e ordered steady = steady
    resume-IsSteady at answer i w (some t) e ordered (low, high, asked, served) =
        let outcome = receive H L at.now t.message answer w.cache in
        let same = receive-IsSameBounds H L at.now t.message answer w.cache in
        (
          same.0 ∙ low,
          same.1 ∙ high,
          (λ u c. asked u (remove_at-Contains w.waiting i c)),
          AllServed-more H display to_json json logger
              (end_of H L display to_json logger at t.query t.source outcome.0) w.finished
              (proceed-IsServed at t.query t.source t.message none answer w.cache w.cache
                (asked t (get_elem?-Contains w.waiting i e)) (omega (arith, low, high)))
              served,
        )

    Reach-IsSteady :
        {es : List Event} {t : ℕ} {w : World H.Message L}
        → lo ≤ hi
        → Reach H L display to_json logger max_entries lo hi es t w
        → IsSteady w
    unfolding step new
    Reach-IsSteady ordered begin = (refl, refl, (λ t c. elim c [ ]), λ f c. elim c [ ])
    Reach-IsSteady ordered (later {es} {t} {w} (arrived at bytes src) r le) =
        spawn-IsSteady at (take 4096 bytes) src (H.from_vec (take 4096 bytes)) w refl ordered
          (Reach-IsSteady ordered r)
    Reach-IsSteady ordered (later {es} {t} {w} (answered at i answer) r le) =
        resume-IsSteady at answer i w (get_elem? w.waiting i) refl ordered
          (Reach-IsSteady ordered r)

  -- Let `min_ttl` be at most `max_ttl`, let hickory encode the SERVFAIL for every query that it
  -- reads, with its id in front, and let the logger, if there is one, be enabled and its entries
  -- printable. Then however the tasks of the datagrams are interleaved, and whatever the upstream
  -- server answers to which of them: each query that arrived belongs to exactly one task, waiting or
  -- ended; an ended task whose query hickory reads did not panic, has sent exactly one reply,
  -- which starts with the id of the query if it has two bytes, and logged exactly one line about
  -- both if there is a logger; and a task whose query it does not read sent and logged nothing.
  pub Reach-AllServed :
      {es : List Event} {t : ℕ} {w : World H.Message L}
      → ((e : QueryLogEntry) → to_json e ≡ some (json e))
      → ((l : QueryLogger) → logger ≡ some l → (l.enabled ≡ true) × (l.unlocked ≡ true))
      → ((query : Bytes) (msg : H.Message)
          → H.from_vec query ≡ some msg
          → (response : Bytes) × (H.to_vec (servfail_message H msg) ≡ some response)
            × (take 2 response ≡ be_bytes (H.header msg).header_id))
      → lo ≤ hi
      → Reach H L display to_json logger max_entries lo hi es t w
      → Perm (arrivals es) (held w) × AllServed H display to_json json logger w.finished
  Reach-AllServed {w} printed able fails ordered r =
      let (low, high, asked, served) = Reach-IsSteady printed able fails {w = w} ordered r in
      (Reach-Perm H L display to_json logger max_entries lo hi r, served)
