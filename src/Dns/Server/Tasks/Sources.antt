-- ===== src/Dns/Server/Tasks/Sources.antt =====
-- package/zebrafish-dns/src/server.rs, doh.rs and cache.rs: where the replies from the cache that
-- the interleaved tasks share come from.
use zebrafish.Prelude.{
  ℕ, true, ◌≤◌, List, ◌∷◌, Option, none, some, Bytes, take, ◌≡◌, refl, arith, inl, inr, ◌⊎◌,
  Contains, there, Bool-cases,
}
use zebrafish.Dns.Hickory.{Hickory}
use zebrafish.Dns.Lru.{Lru}
use zebrafish.Dns.Cache.{CacheEntry, DnsCache, put}
use zebrafish.Dns.Doh.{Answer, is_success, finish, collect, receive}
use zebrafish.Dns.Server.Tasks.{Clocks, Task, Event, arrived, answered}

module _ (H : Hickory) (L : Lru CacheEntry) where
  -- The query of a task arrived, and not after the given time.
  abbrev pub IsAsked : List Event → ℕ → Task H.Message → Type 0
  IsAsked es time t =
      (at : Clocks) × (bytes : Bytes) × Contains (arrived at bytes t.source) es
      × (at.now ≤ time)
      × (t.query ≡ take 4096 bytes)
      × (H.from_vec t.query ≡ some t.message)

  -- A body that the upstream server sent with success, as the answer to a query that had arrived.
  abbrev pub IsBody : List Event → ℕ → H.Message → Bytes → Type 0
  IsBody es time asked body =
      (at : Clocks) × (i : ℕ) × (answer : Answer) × (t : Task H.Message) × Contains
        (answered at i (some answer)) es
      × (at.now ≡ time)
      × (is_success answer.status ≡ true)
      × (answer.body ≡ some body)
      × (t.message ≡ asked)
      × IsAsked es time t

  -- A request leaves the cache alone, or puts the body of a successful answer.
  abbrev pub IsPut : ℕ → H.Message → DnsCache L → Option Answer → DnsCache L → Type 0
  IsPut time msg c o d =
      (answer : Answer) × (body : Bytes) × (o ≡ some answer)
      × (is_success answer.status ≡ true)
      × (answer.body ≡ some body)
      × (put H L time c msg body ≡ some d)

  finish-cases :
      (time : ℕ) (msg : H.Message) (answer : Answer) (c : DnsCache L) (p : Option (DnsCache L))
      (body : Bytes)
      → is_success answer.status ≡ true
      → answer.body ≡ some body
      → put H L time c msg body ≡ p
      → ((finish H L time msg answer c p body).1 ≡ c)
        ⊎ IsPut time msg c (some answer) (finish H L time msg answer c p body).1
  unfolding finish
  finish-cases time msg answer c none body success whole e = inl refl
  finish-cases time msg answer c (some d) body success whole e =
      inr (answer, body, refl, success, whole, e)

  collect-cases :
      (time : ℕ) (msg : H.Message) (answer : Answer) (c : DnsCache L) (o : Option Bytes)
      → is_success answer.status ≡ true
      → answer.body ≡ o
      → ((collect H L time msg answer c o).1 ≡ c)
        ⊎ IsPut time msg c (some answer) (collect H L time msg answer c o).1
  unfolding collect
  collect-cases time msg answer c none success whole = inl refl
  collect-cases time msg answer c (some body) success whole =
      finish-cases time msg answer c (put H L time c msg body) body success whole refl

  pub receive-cases :
      (time : ℕ) (msg : H.Message) (c : DnsCache L) (o : Option Answer)
      → ((receive H L time msg o c).1 ≡ c) ⊎ IsPut time msg c o (receive H L time msg o c).1
  unfolding receive
  receive-cases time msg c none = inl refl
  receive-cases time msg c (some answer) = elim (Bool-cases (is_success answer.status)) [
    | inl success ↦ rw success (collect-cases time msg answer c answer.body success refl)
    | inr refused ↦ rw refused (inl refl)
  ]

  pub IsAsked-more :
      (e : Event) (es : List Event) (time next : ℕ) (t : Task H.Message)
      → time ≤ next
      → IsAsked es time t
      → IsAsked (e ∷ es) next t
  IsAsked-more e es time next t le (at, bytes, came, early, cut, read) =
      (at, bytes, there came, omega arith, cut, read)

  pub IsBody-more :
      (e : Event) (es : List Event) (time : ℕ) (asked : H.Message) (body : Bytes)
      → IsBody es time asked body
      → IsBody (e ∷ es) time asked body
  IsBody-more e es time asked body (at, i, answer, t, came, same, success, whole, of, asks) = (
    at,
    i,
    answer,
    t,
    there came,
    same,
    success,
    whole,
    of,
    IsAsked-more e es time time t (omega arith) asks,
  )
