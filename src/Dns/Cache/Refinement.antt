-- ===== src/Dns/Cache/Refinement.antt =====
-- package/zebrafish-dns/src/cache.rs and the map that may forget.
use zebrafish.Prelude.{
  ℕ, ◌-◌, ◌≤◌, List, [], ◌∷◌, Option, none, some, Bytes, ◌≡◌, refl, sym, ◌∙◌, arith, inl, inr,
  Bool-cases, Option-cases, text_eq, text_eq_iff, ltb, leb, subst, ap, max, ◌>>=◌, true, false,
}
use zebrafish.Dns.Hickory.{Hickory}
use zebrafish.Dns.Lru
use zebrafish.Dns.Lru.{Lru}
use zebrafish.Dns.Cache.{
  CacheEntry, DnsCache, from_secs, cache_key, new, with_cache, read_entry, get_key, get, put,
  extract_min_ttl,
}
use zebrafish.Dns.Cache.Filled.{clamp_range, clamp-some, put_keyed, put_entry_held}
use zebrafish.Dns.Cache.Spec.{
  View, nothing, Forgets, Call, served, IsStored, Allows, finished, got, stored,
}

module _ (H : Hickory) (L : Lru CacheEntry) where
  -- The answers to the `get` calls, in order; `none` if a `put` panics.
  unfoldable pub answers : List (Call H.Message) → DnsCache L → Option (List (Option Bytes))
  answers [] c = some []
  answers (Call.get now query ∷ cs) c =
      answers cs (get H L now c query).1 >>= λ os. some ((get H L now c query).0 ∷ os)
  answers (Call.put now query response ∷ cs) c = put H L now c query response >>= λ d. answers cs d

module _ (H : Hickory) (L : Lru CacheEntry) (laws : Lru.Laws L) where
  Forgets-promote : (lru : L.LruCache) (k : Bytes) → Forgets (L.peek lru) (L.peek (L.promote lru k))
  Forgets-promote lru k j = inl (laws.peek-promote lru k j)

  Forgets-pop : (lru : L.LruCache) (k : Bytes) → Forgets (L.peek lru) (L.peek (L.pop lru k))
  Forgets-pop lru k j = elim (Bool-cases (text_eq k j)) [
    | inl same ↦
        let eq : k ≡ j = (text_eq_iff k j).0 same in
        inr (subst (λ i. L.peek (L.pop lru k) i ≡ none) eq (laws.peek-pop lru k))
    | inr other ↦ inl (laws.peek-pop-ne lru k j (λ eq. absurd (ground (arith, text_eq_iff k j))))
  ]

  Forgets-both : {m n o : View} → Forgets m n → Forgets n o → Forgets m o
  Forgets-both f g j = elim (g j) [
    | inr gone ↦ inr gone
    | inl same ↦ elim (f j) [ inl kept ↦ inl (same ∙ kept) | inr gone ↦ inr (same ∙ gone) ]
  ]

  -- A call answers like the map that the LRU list stands for, and leaves a list that only forgot.
  abbrev IsServing : ℕ → Option Bytes → DnsCache L → L.LruCache → Option Bytes × DnsCache L → Type 0
  IsServing now key c lru done =
      (done.0 ≡ served H L now key (L.peek lru))
      × ((rest : L.LruCache) × (done.1 ≡ with_cache H L c rest)
          × Forgets (L.peek lru) (L.peek rest))

  read_entry-IsServing :
      (now : ℕ) (c : DnsCache L) (lru : L.LruCache) (k : Bytes) (e : CacheEntry)
      → L.peek lru k ≡ some e
      → IsServing now (some k) c lru (read_entry H L now c lru k e)
  unfolding read_entry
  read_entry-IsServing now c lru k e found = elim (Bool-cases (leb e.ttl (now - e.inserted_at))) [
    | inl expired ↦
        let late : ltb (now - e.inserted_at) e.ttl ≡ false = ground arith in
        rw (found, expired, late)
          (
            refl,
            (
              L.pop (L.promote lru k) k,
              refl,
              Forgets-both (Forgets-promote lru k) (Forgets-pop (L.promote lru k) k),
            ),
          )
    | inr fresh ↦
        let young : ltb (now - e.inserted_at) e.ttl ≡ true = ground arith in
        rw (found, fresh, young) (refl, (L.promote lru k, refl, Forgets-promote lru k))
  ]

  unchanged : (c : DnsCache L) (lru : L.LruCache) → c.cache ≡ some lru → c ≡ with_cache H L c lru
  unchanged c lru held =
      ap (λ o. record { cache = o; min_ttl = c.min_ttl; max_ttl = c.max_ttl }) held

  get-IsServing :
      (now : ℕ) (c : DnsCache L) (lru : L.LruCache) (query : H.Message)
      → c.cache ≡ some lru
      → IsServing now (cache_key H L query) c lru (get H L now c query)
  unfolding get get_key
  get-IsServing now c lru query held = elim (Option-cases (cache_key H L query)) [
    | inl no_query ↦ rw (get, no_query) (refl, (lru, unchanged c lru held, λ j. inl refl))
    | inr (k, keyed) ↦ elim (Option-cases (L.peek lru k)) [
      | inl missing ↦
          rw (get, keyed, held, get_key, missing)
            (refl, (L.promote lru k, refl, Forgets-promote lru k))
      | inr (e, found) ↦
          rw (get, keyed, held, get_key, found)
            (rw found at (read_entry-IsServing now c lru k e found))
    ]
  ]

  IsStored-put :
      (now : ℕ) (lru : L.LruCache) (k response : Bytes) (lo hi ttl : ℕ)
      → lo ≤ ttl
      → ttl ≤ hi
      → IsStored H L lo hi now (some k) response (L.peek lru) (
          L.peek
            (L.put lru k (record { response = response; inserted_at = now; ttl = from_secs ttl })))
  IsStored-put now lru k response lo hi ttl low high =
      ((ttl, low, high, laws.peek-put lru k _), λ j. laws.peek-put-ne lru k j _)

  put-IsStored :
      (now : ℕ) (c : DnsCache L) (lru : L.LruCache) (query : H.Message) (response : Bytes)
      → c.cache ≡ some lru
      → c.min_ttl ≤ c.max_ttl
      → (rest : L.LruCache) × (put H L now c query response ≡ some (with_cache H L c rest))
        × IsStored H L c.min_ttl c.max_ttl now
            (cache_key H L query)
            response
            (L.peek lru)
            (L.peek rest)
  put-IsStored now c lru query response held ordered = elim (Option-cases (cache_key H L query)) [
    | inl no_query ↦
        let same : put H L now c query response ≡ some c = unfold put in rw (put, no_query) in
        rw no_query (lru, same ∙ ap some (unchanged c lru held), λ j. inl refl)
    | inr (k, keyed) ↦
        let (ttl, clamped) =
          clamp-some (extract_min_ttl H L c response) c.min_ttl c.max_ttl ordered in
        let (low, high) =
          clamp_range (extract_min_ttl H L c response) c.min_ttl c.max_ttl {m = ttl} clamped in
        let e : CacheEntry = record {
          response = response;
          inserted_at = now;
          ttl = from_secs ttl;
        } in
        rw keyed (
          L.put lru k e,
          put_keyed H L laws 0 0 0 now c query response k keyed
              ∙ rw (clamped, put_entry_held H L laws 0 0 0 c k e lru held),
          IsStored-put now lru k response c.min_ttl c.max_ttl ttl low high,
        )
  ]

  answers-Allows :
      (calls : List (Call H.Message)) (c : DnsCache L) (lru : L.LruCache)
      → c.cache ≡ some lru
      → c.min_ttl ≤ c.max_ttl
      → (os : List (Option Bytes)) × (answers H L calls c ≡ some os)
        × Allows H L c.min_ttl c.max_ttl (L.peek lru) calls os
  unfolding answers
  answers-Allows [] c lru held ordered = ([], refl, finished)
  answers-Allows (Call.get now query ∷ cs) c lru held ordered =
      let (same, step) = get-IsServing now c lru query held in
      let (rest, left, forgot) = step in
      let (os, run, allowed) = answers-Allows cs (with_cache H L c rest) rest refl ordered in
      (
        served H L now (cache_key H L query) (L.peek lru) ∷ os,
        rw (left, run, same),
        got now query forgot allowed,
      )
  answers-Allows (Call.put now query response ∷ cs) c lru held ordered =
      let (rest, left, kept) = put-IsStored now c lru query response held ordered in
      let (os, run, allowed) = answers-Allows cs (with_cache H L c rest) rest refl ordered in
      (os, rw (left, run), stored now query response kept allowed)

  -- If `min_ttl` is at most `max_ttl`, then no sequence of `get` and `put` calls on a new cache of
  -- any capacity panics, and every sequence answers in a way that a map from cache keys to entries
  -- could, which starts empty, serves an entry exactly while its lifetime lasts, lets every
  -- `put` live for between `min_ttl` and `max_ttl` seconds, and otherwise only forgets.
  pub new-Allows :
      (max_entries lo hi : ℕ)
      → lo ≤ hi
      → (calls : List (Call H.Message))
      → (os : List (Option Bytes)) × (answers H L calls (new H L max_entries lo hi) ≡ some os)
        × Allows H L lo hi nothing calls os
  unfolding new
  new-Allows max_entries lo hi ordered calls =
      let lru = L.new (max max_entries 1) in
      let blank : nothing ≡ L.peek lru = λ i k. sym (laws.peek-new (max max_entries 1) k) i in
      subst
        (λ m.
          (os : List (Option Bytes)) × (answers H L calls (new H L max_entries lo hi) ≡ some os)
          × Allows H L lo hi m calls os)
        (sym blank) (answers-Allows calls (new H L max_entries lo hi) lru refl ordered)
