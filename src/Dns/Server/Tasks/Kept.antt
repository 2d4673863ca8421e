-- ===== src/Dns/Server/Tasks/Kept.antt =====
-- package/zebrafish-dns/src/server.rs: no task of `serve_udp` is lost.
use zebrafish.Prelude.{
  ℕ, zero, suc, List, [], ◌∷◌, ◌++◌, Option, none, some, Text, Bytes, take, get_elem?, remove_at,
  map, ◌≡◌, refl, subst,
}
use mathlib.Core.List.{Perm, perm_middle}
use mathlib.Core.List.Perm
use mathlib.Core.Option.{some-injective}
use zebrafish.Dns.Hickory.{Hickory}
use zebrafish.Dns.Lru.{Lru}
use zebrafish.Dns.Cache.{CacheEntry, DnsCache, get}
use zebrafish.Dns.Doh.{Answer}
use zebrafish.Dns.QueryLog.Entry.{QueryLogEntry, QueryLogger, Source, Display}
use zebrafish.Dns.Server.Tasks.{
  Clocks, Task, Finished, World, Event, arrived, answered, looked_up, spawn, resume, step, Reach,
  begin, later,
}

-- The queries that arrived, with their sources.
abbrev pub arrivals : List Event → List (Bytes × Source)
arrivals [] = []
arrivals (arrived at bytes src ∷ es) = (take 4096 bytes, src) ∷ arrivals es
arrivals (answered at i answer ∷ es) = arrivals es

abbrev pub of_finished : Finished → Bytes × Source
of_finished f = (f.query, f.source)

abbrev pub of_waiting : {M : Type 0} → Task M → Bytes × Source
of_waiting t = (t.query, t.source)

-- The queries of the tasks, ended or not.
abbrev pub held : {M : Type 0} {L : Lru CacheEntry} → World M L → List (Bytes × Source)
held w = map of_finished w.finished ++ map of_waiting w.waiting

map_of_waiting_at :
    {M : Type 0} (ts : List (Task M)) (i : ℕ) (t : Task M)
    → get_elem? ts i ≡ some t
    → Perm (map of_waiting ts) (of_waiting t ∷ map of_waiting (remove_at ts i))
map_of_waiting_at [] i t e = absurd cc
map_of_waiting_at {M} (x ∷ ts) zero t e =
    subst (λ y. Perm (map of_waiting (x ∷ ts)) (of_waiting y ∷ map of_waiting ts))
      (some-injective x t e) (Perm.refl (map of_waiting (x ∷ ts)))
map_of_waiting_at {M} (x ∷ ts) (suc i) t e =
    Perm.trans (Perm.cons (of_waiting x) (map_of_waiting_at ts i t e))
      (Perm.swap (of_waiting t) (of_waiting x) (map of_waiting (remove_at ts i)))

module _ (H : Hickory) (L : Lru CacheEntry) (display : Display H)
    (to_json : QueryLogEntry → Option Text) (logger : Option QueryLogger) where
  looked_up-Perm :
      (at : Clocks) (query : Bytes) (src : Source) (msg : H.Message) (hit : Option Bytes)
      (c : DnsCache L) (w : World H.Message L)
      → Perm
          ((query, src) ∷ held w)
          (held (looked_up H L display to_json logger at query src msg hit c w))
  unfolding looked_up
  looked_up-Perm at query src msg (some hit) c w = Perm.refl ((query, src) ∷ held w)
  looked_up-Perm at query src msg none c w =
      Perm.symm (perm_middle (map of_finished w.finished) (map of_waiting w.waiting))

  spawn-Perm :
      (at : Clocks) (query : Bytes) (src : Source) (o : Option H.Message) (w : World H.Message L)
      → Perm ((query, src) ∷ held w) (held (spawn H L display to_json logger at query src o w))
  unfolding spawn
  spawn-Perm at query src none w = Perm.refl ((query, src) ∷ held w)
  spawn-Perm at query src (some msg) w =
      looked_up-Perm at query src msg (get H L at.now w.cache msg).0 (get H L at.now w.cache msg).1
        w

  resume-Perm :
      (at : Clocks) (answer : Option Answer) (i : ℕ) (w : World H.Message L)
      (o : Option (Task H.Message))
      → get_elem? w.waiting i ≡ o
      → Perm
          (held w)
          (held (resume H L display to_json logger at answer o (remove_at w.waiting i) w))
  unfolding resume
  resume-Perm at answer i w none e = Perm.refl (held w)
  resume-Perm at answer i w (some t) e =
      Perm.trans (Perm.append_left (map of_finished w.finished) (map_of_waiting_at w.waiting i t e))
        (perm_middle (map of_finished w.finished) (map of_waiting (remove_at w.waiting i)))

  pub Reach-Perm :
      (max_entries lo hi : ℕ) {es : List Event} {t : ℕ} {w : World H.Message L}
      → Reach H L display to_json logger max_entries lo hi es t w
      → Perm (arrivals es) (held w)
  unfolding step
  Reach-Perm max_entries lo hi begin = Perm.refl []
  Reach-Perm max_entries lo hi (later {es} {t} {w} (arrived at bytes src) r le) =
      Perm.trans (Perm.cons (take 4096 bytes, src) (Reach-Perm max_entries lo hi r))
        (spawn-Perm at (take 4096 bytes) src (H.from_vec (take 4096 bytes)) w)
  Reach-Perm max_entries lo hi (later {es} {t} {w} (answered at i answer) r le) =
      Perm.trans (Reach-Perm max_entries lo hi r)
        (resume-Perm at answer i w (get_elem? w.waiting i) refl)
