-- ===== src/Dns/Server/Tasks/Traced.antt =====
-- package/zebrafish-dns/src/server.rs, doh.rs and cache.rs: the calls of `get` and `put` that the
-- interleaved tasks make, and the events that they belong to.
use zebrafish.Prelude.{
  ℕ, ◌≤◌, List, [], ◌∷◌, Option, none, some, Text, Bytes, take, get_elem?, remove_at, ◌≡◌, refl,
  sym, arith, inl, inr, subst, Contains, here, there, get_elem?-Contains, remove_at-Contains,
}
use zebrafish.Dns.Hickory.{Hickory}
use zebrafish.Dns.Lru.{Lru}
use zebrafish.Dns.Cache.{CacheEntry, DnsCache, get}
use zebrafish.Dns.Cache.History.{Reaches, started, got, stored}
use zebrafish.Dns.Doh.{Answer, proceed}
use zebrafish.Dns.QueryLog.Entry.{QueryLogEntry, QueryLogger, Source, Display}
use zebrafish.Dns.Server.Tasks.{
  Clocks, Task, World, Event, arrived, answered, looked_up, spawn, resume, step, Reach, begin,
  later,
}
use zebrafish.Dns.Server.Tasks.Sources.{IsAsked, IsBody, receive-cases, IsAsked-more, IsBody-more}

module _ (H : Hickory) (L : Lru CacheEntry) (display : Display H)
    (to_json : QueryLogEntry → Option Text) (logger : Option QueryLogger)
    (max_entries lo hi : ℕ) where
  abbrev pub AllBodies : List Event → ℕ → List (ℕ × H.Message × Bytes) → Type 0
  AllBodies es t h =
      (time : ℕ) (asked : H.Message) (body : Bytes)
      → Contains (time, asked, body) h
      → (time ≤ t) × IsBody H L es time asked body

  abbrev pub AllAsked : List Event → ℕ → List (Task H.Message) → Type 0
  AllAsked es t ts = (u : Task H.Message) → Contains u ts → IsAsked H L es t u

  -- The calls that the cache has seen, and the events that they belong to.
  abbrev pub IsTraced : List Event → ℕ → World H.Message L → Type 0
  IsTraced es t w =
      (h : List (ℕ × H.Message × Bytes)) × (s : ℕ) × (s ≤ t)
      × Reaches H L max_entries lo hi h s w.cache
      × AllBodies es t h
      × AllAsked es t w.waiting

  AllBodies-more :
      (e : Event) (es : List Event) (t next : ℕ) (h : List (ℕ × H.Message × Bytes))
      → t ≤ next
      → AllBodies es t h
      → AllBodies (e ∷ es) next h
  AllBodies-more e es t next h le all time asked body c =
      let (early, is_body) = all time asked body c in
      (omega arith, IsBody-more H L e es time asked body is_body)

  AllBodies-put :
      (es : List Event) (t time : ℕ) (asked : H.Message) (body : Bytes)
      (h : List (ℕ × H.Message × Bytes))
      → time ≤ t
      → IsBody H L es time asked body
      → AllBodies es t h
      → AllBodies es t ((time, asked, body) ∷ h)
  AllBodies-put es t time asked body h le is_body all x y z here = (le, is_body)
  AllBodies-put es t time asked body h le is_body all x y z (there c) = all x y z c

  AllAsked-more :
      (e : Event) (es : List Event) (t next : ℕ) (ts : List (Task H.Message))
      → t ≤ next
      → AllAsked es t ts
      → AllAsked (e ∷ es) next ts
  AllAsked-more e es t next ts le all u c = IsAsked-more H L e es t next u le (all u c)

  AllAsked-new :
      (es : List Event) (t : ℕ) (u : Task H.Message) (ts : List (Task H.Message))
      → IsAsked H L es t u
      → AllAsked es t ts
      → AllAsked es t (u ∷ ts)
  AllAsked-new es t u ts asks all v here = asks
  AllAsked-new es t u ts asks all v (there c) = all v c

  looked_up-IsTraced :
      (at : Clocks) (bytes : Bytes) (src : Source) (msg : H.Message) (hit : Option Bytes)
      (c : DnsCache L) (es : List Event) (t : ℕ) (w : World H.Message L)
      (h : List (ℕ × H.Message × Bytes))
      → H.from_vec (take 4096 bytes) ≡ some msg
      → t ≤ at.now
      → Reaches H L max_entries lo hi h at.now c
      → AllBodies es t h
      → AllAsked es t w.waiting
      → IsTraced
          (arrived at bytes src ∷ es)
          at.now
          (looked_up H L display to_json logger at (take 4096 bytes) src msg hit c w)
  unfolding looked_up proceed
  looked_up-IsTraced at bytes src msg (some hit) c es t w h read le reached bodies asks = (
    h,
    at.now,
    omega arith,
    reached,
    AllBodies-more (arrived at bytes src) es t at.now h le bodies,
    AllAsked-more (arrived at bytes src) es t at.now w.waiting le asks,
  )
  looked_up-IsTraced at bytes src msg none c es t w h read le reached bodies asks =
      let e = arrived at bytes src in
      (
        h,
        at.now,
        omega arith,
        reached,
        AllBodies-more e es t at.now h le bodies,
        AllAsked-new (e ∷ es) at.now _ w.waiting (at, bytes, here, omega arith, refl, read)
            (AllAsked-more e es t at.now w.waiting le asks),
      )

  spawn-IsTraced :
      (at : Clocks) (bytes : Bytes) (src : Source) (o : Option H.Message) (es : List Event) (t : ℕ)
      (w : World H.Message L)
      → H.from_vec (take 4096 bytes) ≡ o
      → t ≤ at.now
      → IsTraced es t w
      → IsTraced
          (arrived at bytes src ∷ es)
          at.now
          (spawn H L display to_json logger at (take 4096 bytes) src o w)
  unfolding spawn
  spawn-IsTraced at bytes src none es t w unread le (h, s, before, reached, bodies, asks) = (
    h,
    s,
    omega arith,
    reached,
    AllBodies-more (arrived at bytes src) es t at.now h le bodies,
    AllAsked-more (arrived at bytes src) es t at.now w.waiting le asks,
  )
  spawn-IsTraced at bytes src (some msg) es t w read le (h, s, before, reached, bodies, asks) =
      let looked = get H L at.now w.cache msg in
      looked_up-IsTraced at bytes src msg looked.0 looked.1 es t w h read le
        (got at.now msg reached (omega arith)) bodies asks

  resume-IsTraced :
      (at : Clocks) (answer : Option Answer) (i : ℕ) (o : Option (Task H.Message)) (es : List Event)
      (t : ℕ) (w : World H.Message L)
      → get_elem? w.waiting i ≡ o
      → t ≤ at.now
      → IsTraced es t w
      → IsTraced
          (answered at i answer ∷ es)
          at.now
          (resume H L display to_json logger at answer o (remove_at w.waiting i) w)
  unfolding resume
  resume-IsTraced at answer i none es t w e le (h, s, before, reached, bodies, asks) = (
    h,
    s,
    omega arith,
    reached,
    AllBodies-more (answered at i answer) es t at.now h le bodies,
    AllAsked-more (answered at i answer) es t at.now w.waiting le asks,
  )
  resume-IsTraced at answer i (some u) es t w e le (h, s, before, reached, bodies, asks) =
      let ev = answered at i answer in
      let bodies_on : AllBodies (ev ∷ es) at.now h = AllBodies-more ev es t at.now h le bodies in
      let asks_on : AllAsked (ev ∷ es) at.now w.waiting =
        AllAsked-more ev es t at.now w.waiting le asks in
      let asks_rest : AllAsked (ev ∷ es) at.now (remove_at w.waiting i) =
        λ v c. asks_on v (remove_at-Contains w.waiting i c) in
      elim (receive-cases H L at.now u.message w.cache answer) [
        | inl same ↦ (
          h,
          s,
          omega arith,
          subst (Reaches H L max_entries lo hi h s) (sym same) reached,
          bodies_on,
          asks_rest,
        )
        | inr (reply, body, is, success, whole, kept) ↦ (
          (at.now, u.message, body) ∷ h,
          at.now,
          omega arith,
          stored at.now u.message body reached (omega arith) kept,
          AllBodies-put (ev ∷ es) at.now at.now u.message body h (omega arith)
              (
                at,
                i,
                reply,
                u,
                subst (λ o. Contains (answered at i o) (ev ∷ es)) is here,
                refl,
                success,
                whole,
                refl,
                asks_on u (get_elem?-Contains w.waiting i e),
              )
              bodies_on,
          asks_rest,
        )
      ]

  pub Reach-IsTraced :
      {es : List Event} {t : ℕ} {w : World H.Message L}
      → Reach H L display to_json logger max_entries lo hi es t w
      → IsTraced es t w
  unfolding step
  Reach-IsTraced (begin {t}) =
      ([], t, omega arith, started, (λ time asked body c. elim c [ ]), λ u c. elim c [ ])
  Reach-IsTraced (later {es} {t} {w} (arrived at bytes src) r le) =
      spawn-IsTraced at bytes src (H.from_vec (take 4096 bytes)) es t w refl le (Reach-IsTraced r)
  Reach-IsTraced (later {es} {t} {w} (answered at i answer) r le) =
      resume-IsTraced at answer i (get_elem? w.waiting i) es t w refl le (Reach-IsTraced r)
