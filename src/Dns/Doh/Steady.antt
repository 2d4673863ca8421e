-- ===== src/Dns/Doh/Steady.antt =====
-- package/zebrafish-dns/src/doh.rs: when `resolve` does not panic, and what it leaves of the cache.
use zebrafish.Prelude.{
  ℕ, ◌-◌, leb, ◌≤◌, Option, none, some, Bytes, ◌≡◌, ◌≢◌, ◌∙◌, sym, subst, >>=-eq-some, ap, arith,
  Bool-cases, Option-cases, inl, inr, refl,
}
use mathlib.Core.Option.{some-injective}
use zebrafish.Prelude.Results.{err}
use zebrafish.Dns.Hickory.{Hickory}
use zebrafish.Dns.Lru.{Lru}
use zebrafish.Dns.Cache.{
  CacheEntry, DnsCache, get, get_key, read_entry, from_secs, put, put_entry, clamp, cache_key,
  extract_min_ttl,
}
use zebrafish.Dns.Cache.Filled.{clamp-some}
use zebrafish.Dns.Doh.{
  Answer, panicked, is_success, finish, collect, receive, proceed, resolve_message, resolve,
}

module _ (H : Hickory) (L : Lru CacheEntry) where
  put-some :
      (now : ℕ) (c : DnsCache L) (msg : H.Message) (response : Bytes)
      → c.min_ttl ≤ c.max_ttl
      → (d : DnsCache L) × (put H L now c msg response ≡ some d)
  unfolding put
  put-some now c msg response ordered = elim (Option-cases (cache_key H L msg)) [
    | inl no_query ↦ (c, rw (put, no_query) refl)
    | inr (k, keyed) ↦
        let (ttl, clamped) =
          clamp-some (extract_min_ttl H L c response) c.min_ttl c.max_ttl ordered in
        let e : CacheEntry = record {
          response = response;
          inserted_at = now;
          ttl = from_secs ttl;
        } in
        (put_entry H L c k e, rw (put, keyed, clamped) refl)
  ]

  -- The bounds of the lifetimes are never changed.
  abbrev pub IsSameBounds : DnsCache L → DnsCache L → Type 0
  IsSameBounds c d = (d.min_ttl ≡ c.min_ttl) × (d.max_ttl ≡ c.max_ttl)

  read_entry-IsSameBounds :
      (now : ℕ) (c : DnsCache L) (lru : L.LruCache) (k : Bytes) (e : CacheEntry)
      → IsSameBounds c (read_entry H L now c lru k e).1
  unfolding read_entry
  read_entry-IsSameBounds now c lru k e = elim (Bool-cases (leb e.ttl (now - e.inserted_at))) [
    | inl expired ↦ rw expired (refl, refl)
    | inr fresh ↦ rw fresh (refl, refl)
  ]

  pub get-IsSameBounds :
      (now : ℕ) (c : DnsCache L) (msg : H.Message) → IsSameBounds c (get H L now c msg).1
  unfolding get get_key
  get-IsSameBounds now c msg = elim (Option-cases (cache_key H L msg)) [
    | inl no_query ↦ rw (get, no_query) (refl, refl)
    | inr (k, keyed) ↦ elim (Option-cases c.cache) [
      | inl poisoned ↦ rw (get, keyed, poisoned) (refl, refl)
      | inr (lru, held) ↦ elim (Option-cases (L.peek lru k)) [
        | inl missing ↦ rw (get, keyed, held, get_key, missing) (refl, refl)
        | inr (e, found) ↦
            rw (get, keyed, held, get_key, found) (read_entry-IsSameBounds now c lru k e)
      ]
    ]
  ]

  module _ (later : ℕ) (msg : H.Message) where
    finish-ne-panicked :
        (answer : Answer) (c : DnsCache L) (body : Bytes)
        → c.min_ttl ≤ c.max_ttl
        → (finish H L later msg answer c (put H L later c msg body) body).0 ≢ err panicked
    unfolding finish
    finish-ne-panicked answer c body ordered =
        let (d, kept) = put-some later c msg body ordered in rw kept (λ e. cc)

    collect-ne-panicked :
        (answer : Answer) (c : DnsCache L) (o : Option Bytes)
        → c.min_ttl ≤ c.max_ttl
        → (collect H L later msg answer c o).0 ≢ err panicked
    unfolding collect
    collect-ne-panicked answer c none ordered = λ e. cc
    collect-ne-panicked answer c (some body) ordered = finish-ne-panicked answer c body ordered

    receive-ne-panicked :
        (o : Option Answer) (c : DnsCache L)
        → c.min_ttl ≤ c.max_ttl
        → (receive H L later msg o c).0 ≢ err panicked
    unfolding receive
    receive-ne-panicked none c ordered = λ e. cc
    receive-ne-panicked (some answer) c ordered = elim (Bool-cases (is_success answer.status)) [
      | inl success ↦ rw success (collect-ne-panicked answer c answer.body ordered)
      | inr refused ↦ rw refused (λ e. cc)
    ]

    pub proceed-ne-panicked :
        (hit : Option Bytes) (o : Option Answer) (c d : DnsCache L)
        → d.min_ttl ≤ d.max_ttl
        → (proceed H L later msg hit o c d).0 ≢ err panicked
    unfolding proceed
    proceed-ne-panicked none o c d ordered = receive-ne-panicked o d ordered
    proceed-ne-panicked (some hit) o c d ordered = λ e. cc

  pub resolve-ne-panicked :
      (upstream : Bytes → Option Answer) (meanwhile : DnsCache L → DnsCache L) (now later : ℕ)
      (c : DnsCache L) (query : Bytes) (msg : H.Message)
      → H.from_vec query ≡ some msg
      → c.min_ttl ≤ c.max_ttl
      → ((d : DnsCache L) → IsSameBounds d (meanwhile d))
      → (resolve H L upstream meanwhile now later c query).0 ≢ err panicked
  unfolding resolve resolve_message
  resolve-ne-panicked upstream meanwhile now later c query msg read ordered same =
      let kept = get-IsSameBounds now c msg in
      let (lo, hi) = same (get H L now c msg).1 in
      rw read (
        proceed-ne-panicked later msg (get H L now c msg).0 (upstream query) (get H L now c msg).1
          (meanwhile (get H L now c msg).1) (omega (arith, kept, lo, hi)))

  put_entry-IsSameBounds :
      (c : DnsCache L) (k : Bytes) (e : CacheEntry) → IsSameBounds c (put_entry H L c k e)
  unfolding put_entry
  put_entry-IsSameBounds c k e = elim (Option-cases c.cache) [
    | inl poisoned ↦ rw (put_entry, poisoned) (refl, refl)
    | inr (lru, held) ↦ rw (put_entry, held) (refl, refl)
  ]

  put-IsSameBounds :
      (now : ℕ) (c d : DnsCache L) (msg : H.Message) (response : Bytes)
      → put H L now c msg response ≡ some d
      → IsSameBounds c d
  unfolding put
  put-IsSameBounds now c d msg response e = elim (Option-cases (cache_key H L msg)) [
    | inl no_query ↦
        let same : c ≡ d = some-injective c d (rw (put, no_query) at e) in
        (ap (λ x. x.min_ttl) (sym same), ap (λ x. x.max_ttl) (sym same))
    | inr (k, keyed) ↦
        let (ttl, clamped, result) =
          >>=-eq-some (clamp (extract_min_ttl H L c response) c.min_ttl c.max_ttl) _
            (rw (put, keyed) at e) in
        subst (IsSameBounds c) (some-injective _ d result) (put_entry-IsSameBounds c k _)
  ]

  module _ (later : ℕ) (msg : H.Message) where
    finish-IsSameBounds :
        (answer : Answer) (c : DnsCache L) (o : Option (DnsCache L)) (body : Bytes)
        → put H L later c msg body ≡ o
        → IsSameBounds c (finish H L later msg answer c o body).1
    unfolding finish
    finish-IsSameBounds answer c none body e = (refl, refl)
    finish-IsSameBounds answer c (some d) body e = put-IsSameBounds later c d msg body e

    collect-IsSameBounds :
        (answer : Answer) (c : DnsCache L) (o : Option Bytes)
        → IsSameBounds c (collect H L later msg answer c o).1
    unfolding collect
    collect-IsSameBounds answer c none = (refl, refl)
    collect-IsSameBounds answer c (some body) =
        finish-IsSameBounds answer c (put H L later c msg body) body refl

    pub receive-IsSameBounds :
        (o : Option Answer) (c : DnsCache L) → IsSameBounds c (receive H L later msg o c).1
    unfolding receive
    receive-IsSameBounds none c = (refl, refl)
    receive-IsSameBounds (some answer) c = elim (Bool-cases (is_success answer.status)) [
      | inl success ↦ rw success (collect-IsSameBounds answer c answer.body)
      | inr refused ↦ rw refused (refl, refl)
    ]

    pub proceed-IsSameBounds :
        (hit : Option Bytes) (o : Option Answer) (b c d : DnsCache L)
        → IsSameBounds b c
        → IsSameBounds b d
        → IsSameBounds b (proceed H L later msg hit o c d).1
    unfolding proceed
    proceed-IsSameBounds none o b c d at_c at_d =
        let (lo, hi) = receive-IsSameBounds o d in (lo ∙ at_d.0, hi ∙ at_d.1)
    proceed-IsSameBounds (some hit) o b c d at_c at_d = at_c

  pub resolve-IsSameBounds :
      (upstream : Bytes → Option Answer) (meanwhile : DnsCache L → DnsCache L) (now later : ℕ)
      (c : DnsCache L) (query : Bytes) (msg : H.Message)
      → H.from_vec query ≡ some msg
      → ((d : DnsCache L) → IsSameBounds d (meanwhile d))
      → IsSameBounds c (resolve H L upstream meanwhile now later c query).1
  unfolding resolve resolve_message
  resolve-IsSameBounds upstream meanwhile now later c query msg read same =
      let looked = get H L now c msg in
      let kept = get-IsSameBounds now c msg in
      let (lo, hi) = same looked.1 in
      rw read (
        proceed-IsSameBounds later msg looked.0 (upstream query) c looked.1 (meanwhile looked.1)
          kept (lo ∙ kept.0, hi ∙ kept.1))
