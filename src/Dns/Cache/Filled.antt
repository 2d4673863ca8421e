-- ===== src/Dns/Cache/Filled.antt =====
-- package/zebrafish-dns/src/cache.rs: every entry of the cache was put by a query with its key.
use zebrafish.Prelude.{
  ℕ, ◌-◌, ◌≤◌, List, ◌∷◌, none, some, Bytes, ◌≡◌, refl, sym, ◌∙◌, arith, inl, inr, here, there,
  Bool-cases, Option-cases, text_eq, text_eq_iff, ◌>>=◌, >>=-eq-some, ltb, leb, subst, ap, max,
}
use mathlib.Core.Option.{some-injective}
use zebrafish.Dns.Hickory.{Hickory}
use zebrafish.Dns.Lru
use zebrafish.Dns.Lru.{Lru}
use zebrafish.Dns.Cache.{
  CacheEntry, DnsCache, from_secs, clamp, cache_key, new, with_cache, read_entry, get_key, get,
  put_entry, put, extract_min_ttl,
}
use zebrafish.Dns.Cache.History.{Reaches, started, got, stored, IsEntry, AllEntries, IsFilled}

-- What `clamp` returns lies between its bounds.
pub clamp_range : (n low high : ℕ) {m : ℕ} → clamp n low high ≡ some m → (low ≤ m) × (m ≤ high)
unfolding clamp
clamp_range n low high {m} e = ground arith

pub clamp-some : (n low high : ℕ) → low ≤ high → (m : ℕ) × (clamp n low high ≡ some m)
unfolding clamp
clamp-some n low high h = elim (Bool-cases (ltb n low)) [
  | inl below ↦ (low, ground arith)
  | inr enough ↦ elim (Bool-cases (ltb high n)) [
    | inl above ↦ (high, ground arith)
    | inr fits ↦ (n, ground arith)
  ]
]

module _ (H : Hickory) (L : Lru CacheEntry) (laws : Lru.Laws L) (max_entries lo hi : ℕ) where
  AllEntries-promote :
      (h : List (ℕ × H.Message × Bytes)) (lru : L.LruCache) (k : Bytes)
      → AllEntries H L max_entries lo hi h lru
      → AllEntries H L max_entries lo hi h (L.promote lru k)
  AllEntries-promote h lru k all j e found = all j e (sym (laws.peek-promote lru k j) ∙ found)

  AllEntries-pop :
      (h : List (ℕ × H.Message × Bytes)) (lru : L.LruCache) (k : Bytes)
      → AllEntries H L max_entries lo hi h lru
      → AllEntries H L max_entries lo hi h (L.pop lru k)
  AllEntries-pop h lru k all j e found = elim (Bool-cases (text_eq k j)) [
    | inl same ↦
        let eq : k ≡ j = (text_eq_iff k j).0 same in
        absurd (ground (arith, found, rw eq at (laws.peek-pop lru k)))
    | inr other ↦
        all j e
          (sym (laws.peek-pop-ne lru k j (λ eq. absurd (ground (arith, text_eq_iff k j)))) ∙ found)
  ]

  AllEntries-put :
      (h : List (ℕ × H.Message × Bytes)) (lru : L.LruCache) (k : Bytes) (new_entry : CacheEntry)
      → AllEntries H L max_entries lo hi h lru
      → IsEntry H L max_entries lo hi h k new_entry
      → AllEntries H L max_entries lo hi h (L.put lru k new_entry)
  AllEntries-put h lru k new_entry all fresh j e found = elim (Bool-cases (text_eq k j)) [
    | inl same ↦
        let eq : k ≡ j = (text_eq_iff k j).0 same in
        let there_is : some new_entry ≡ some e =
          sym (laws.peek-put lru k new_entry) ∙ ap (L.peek (L.put lru k new_entry)) eq ∙ found in
        subst (λ x. IsEntry H L max_entries lo hi h j x) (some-injective new_entry e there_is)
          (subst (λ x. IsEntry H L max_entries lo hi h x new_entry) eq fresh)
    | inr other ↦
        elim (laws.peek-put-ne lru k j new_entry (λ eq. absurd (ground (arith, text_eq_iff k j)))) [
          | inl kept ↦ all j e (sym kept ∙ found)
          | inr evicted ↦ absurd (ground (arith, found, evicted))
        ]
  ]

  AllEntries-more :
      (h : List (ℕ × H.Message × Bytes)) (x : ℕ × H.Message × Bytes) (lru : L.LruCache)
      → AllEntries H L max_entries lo hi h lru
      → AllEntries H L max_entries lo hi (x ∷ h) lru
  AllEntries-more h x lru all k e found =
      let (query, was_put, keyed, lasting) = all k e found in (query, there was_put, keyed, lasting)

  IsFilled-read_entry :
      (h : List (ℕ × H.Message × Bytes)) (now : ℕ) (c : DnsCache L) (lru : L.LruCache) (k : Bytes)
      (e : CacheEntry)
      → IsFilled H L max_entries lo hi h c
      → c.cache ≡ some lru
      → IsFilled H L max_entries lo hi h (read_entry H L now c lru k e).1
  unfolding read_entry
  IsFilled-read_entry h now c lru k e filled open_lock =
      let all : AllEntries H L max_entries lo hi h lru = rw open_lock at filled.2 in
      elim (Bool-cases (leb e.ttl (now - e.inserted_at))) [
        | inl expired ↦
            rw expired (filled.0, filled.1, AllEntries-pop h _ k (AllEntries-promote h lru k all))
        | inr alive ↦ rw alive (filled.0, filled.1, AllEntries-promote h lru k all)
      ]

  IsFilled-get :
      (h : List (ℕ × H.Message × Bytes)) (now : ℕ) (c : DnsCache L) (query : H.Message)
      → IsFilled H L max_entries lo hi h c
      → IsFilled H L max_entries lo hi h (get H L now c query).1
  unfolding get get_key
  IsFilled-get h now c query filled = elim (Option-cases (cache_key H L query)) [
    | inl no_query ↦ rw (get, no_query) filled
    | inr (k, keyed) ↦ elim (Option-cases c.cache) [
      | inl poisoned ↦ rw (get, keyed, poisoned) filled
      | inr (lru, held) ↦ elim (Option-cases (L.peek lru k)) [
        | inl missing ↦
            rw (get, keyed, held, get_key, missing)
              (filled.0, filled.1, AllEntries-promote h lru k (rw held at filled.2))
        | inr (e, found) ↦
            rw (get, keyed, held, get_key, found) (IsFilled-read_entry h now c lru k e filled held)
      ]
    ]
  ]

  IsFilled-more :
      (h : List (ℕ × H.Message × Bytes)) (x : ℕ × H.Message × Bytes) (c : DnsCache L)
      → IsFilled H L max_entries lo hi h c
      → IsFilled H L max_entries lo hi (x ∷ h) c
  IsFilled-more h x c filled = elim (Option-cases c.cache) [
    | inl poisoned ↦ (filled.0, filled.1, rw poisoned tt)
    | inr (lru, held) ↦
        (filled.0, filled.1, rw held (AllEntries-more h x lru (rw held at filled.2)))
  ]

  pub put_entry_held :
      (c : DnsCache L) (k : Bytes) (e : CacheEntry) (lru : L.LruCache)
      → c.cache ≡ some lru
      → put_entry H L c k e ≡ with_cache H L c (L.put lru k e)
  unfolding put_entry
  put_entry_held c k e lru held = rw (put_entry, held)

  put_entry_poisoned :
      (c : DnsCache L) (k : Bytes) (e : CacheEntry) → c.cache ≡ none → put_entry H L c k e ≡ c
  unfolding put_entry
  put_entry_poisoned c k e poisoned =
      rw (put_entry, poisoned)
        (ap (λ o. record { cache = o; min_ttl = c.min_ttl; max_ttl = c.max_ttl }) poisoned)

  IsFilled-put_entry :
      (h : List (ℕ × H.Message × Bytes)) (c : DnsCache L) (k : Bytes) (query : H.Message)
      (e : CacheEntry)
      → IsFilled H L max_entries lo hi h c
      → IsEntry H L max_entries lo hi ((e.inserted_at, query, e.response) ∷ h) k e
      → IsFilled H L max_entries lo hi
          ((e.inserted_at, query, e.response) ∷ h)
          (put_entry H L c k e)
  IsFilled-put_entry h c k query e filled fresh = elim (Option-cases c.cache) [
    | inl poisoned ↦
        rw (put_entry_poisoned c k e poisoned)
          (IsFilled-more h (e.inserted_at, query, e.response) c filled)
    | inr (lru, held) ↦ rw (put_entry_held c k e lru held) (
      filled.0,
      filled.1,
      AllEntries-put ((e.inserted_at, query, e.response) ∷ h) lru k e
          (AllEntries-more h (e.inserted_at, query, e.response) lru (rw held at filled.2)) fresh,
    )
  ]

  put_no_key :
      (now : ℕ) (c : DnsCache L) (query : H.Message) (response : Bytes)
      → cache_key H L query ≡ none
      → put H L now c query response ≡ some c
  unfolding put
  put_no_key now c query response no_query = rw (put, no_query)

  pub put_keyed :
      (now : ℕ) (c : DnsCache L) (query : H.Message) (response k : Bytes)
      → cache_key H L query ≡ some k
      → put H L now c query response ≡ (
          clamp (extract_min_ttl H L c response) c.min_ttl c.max_ttl >>= λ ttl. some (
            put_entry H L c k
              (record { response = response; inserted_at = now; ttl = from_secs ttl })))
  unfolding put
  put_keyed now c query response k keyed = rw (put, keyed)

  extract_min_ttl-IsFilled :
      (c : DnsCache L) (response : Bytes)
      → c.min_ttl ≡ lo
      → c.max_ttl ≡ hi
      → extract_min_ttl H L c response ≡ extract_min_ttl H L (new H L max_entries lo hi) response
  unfolding extract_min_ttl new
  extract_min_ttl-IsFilled c response low high = elim (Option-cases (H.from_vec response)) [
    | inl unread ↦ rw (extract_min_ttl, unread) low
    | inr (msg, read) ↦ rw (extract_min_ttl, read) (rw (low, high) refl)
  ]

  IsFilled-put :
      (h : List (ℕ × H.Message × Bytes)) (now : ℕ) (c d : DnsCache L) (query : H.Message)
      (response : Bytes)
      → IsFilled H L max_entries lo hi h c
      → put H L now c query response ≡ some d
      → IsFilled H L max_entries lo hi ((now, query, response) ∷ h) d
  IsFilled-put h now c d query response filled e = elim (Option-cases (cache_key H L query)) [
    | inl no_query ↦
        let same : some c ≡ some d = sym (put_no_key now c query response no_query) ∙ e in
        subst (IsFilled H L max_entries lo hi ((now, query, response) ∷ h))
          (some-injective c d same) (IsFilled-more h (now, query, response) c filled)
    | inr (k, keyed) ↦
        let (seconds, clamped, result) =
          >>=-eq-some (clamp (extract_min_ttl H L c response) c.min_ttl c.max_ttl) _
            (sym (put_keyed now c query response k keyed) ∙ e) in
        let bounds =
          clamp_range (extract_min_ttl H L c response) c.min_ttl c.max_ttl {m = seconds} clamped in
        let e : CacheEntry = record {
          response = response;
          inserted_at = now;
          ttl = from_secs seconds;
        } in
        subst (IsFilled H L max_entries lo hi ((now, query, response) ∷ h))
          (some-injective (put_entry H L c k e) d result)
          (IsFilled-put_entry h c k query e filled (
            query,
            here,
            keyed,
            (
              seconds,
              rw (extract_min_ttl-IsFilled c response filled.0 filled.1, filled.0, filled.1) at
                  clamped,
              refl,
              omega (arith, bounds, filled.0),
              omega (arith, bounds, filled.1),
            ),
          ))
  ]

  pub IsFilled-Reaches :
      {h : List (ℕ × H.Message × Bytes)} {t : ℕ} {c : DnsCache L}
      → Reaches H L max_entries lo hi h t c
      → IsFilled H L max_entries lo hi h c
  unfolding new
  IsFilled-Reaches started =
      (refl, refl, λ k e found. absurd (ground (arith, found, laws.peek-new (max max_entries 1) k)))
  IsFilled-Reaches (got {h} {t} {c} now query r le) =
      IsFilled-get h now c query (IsFilled-Reaches r)
  IsFilled-Reaches (stored {h} {t} {c} {d} now query response r le e) =
      IsFilled-put h now c d query response (IsFilled-Reaches r) e
