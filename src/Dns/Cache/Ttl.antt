-- ===== src/Dns/Cache/Ttl.antt =====
-- package/zebrafish-dns/src/cache.rs: how long a response is kept.
use zebrafish.Prelude.{
  ℕ, ◌≤◌, false, List, [], ◌∷◌, some, Bytes, ◌≡◌, ◌≢◌, refl, arith, min, max, Contains, here, there,
  inl, inr, ◌⊎◌,
}
use zebrafish.Dns.Hickory.{Hickory}
use zebrafish.Dns.Lru.{Lru}
use zebrafish.Dns.Cache.{
  CacheEntry, DnsCache, clamp, min_answers, min_additionals, message_ttl, extract_min_ttl,
}

module _ (H : Hickory) (L : Lru CacheEntry) where
  min_answers-le : (m : ℕ) (rs : List H.Record) → min_answers H L m rs ≤ m
  unfolding min_answers
  min_answers-le m [] = omega arith
  min_answers-le m (r ∷ rs) = omega (arith, min_answers-le (min m (H.ttl r)) rs)

  min_answers-Contains :
      (m : ℕ) (rs : List H.Record) (r : H.Record) → Contains r rs → min_answers H L m rs ≤ H.ttl r
  unfolding min_answers
  min_answers-Contains m [] r c = elim c [ ]
  min_answers-Contains m (x ∷ rs) r here = omega (arith, min_answers-le (min m (H.ttl x)) rs)
  min_answers-Contains m (x ∷ rs) r (there c) = min_answers-Contains (min m (H.ttl x)) rs r c

  min_additionals-le : (m : ℕ) (rs : List H.Record) → min_additionals H L m rs ≤ m
  unfolding min_additionals
  min_additionals-le m [] = omega arith
  min_additionals-le m (r ∷ rs) =
      ground (arith, min_additionals-le (min m (H.ttl r)) rs, min_additionals-le m rs)

  min_additionals-Contains :
      (m : ℕ) (rs : List H.Record) (r : H.Record)
      → Contains r rs
      → H.is_opt r ≡ false
      → min_additionals H L m rs ≤ H.ttl r
  unfolding min_additionals
  min_additionals-Contains m [] r c h = elim c [ ]
  min_additionals-Contains m (x ∷ rs) r here h =
      ground (arith, min_additionals-le (min m (H.ttl x)) rs)
  min_additionals-Contains m (x ∷ rs) r (there c) h = ground (
    arith,
    min_additionals-Contains (min m (H.ttl x)) rs r c h,
    min_additionals-Contains m rs r c h,
  )

  min_answers_all :
      (m : ℕ) (rs : List H.Record)
      → ((r : H.Record) → Contains r rs → m ≤ H.ttl r)
      → min_answers H L m rs ≡ m
  unfolding min_answers
  min_answers_all m [] h = refl
  min_answers_all m (r ∷ rs) h =
      let same : min m (H.ttl r) ≡ m = omega (arith, h r here) in
      rw same (min_answers_all m rs (λ x c. h x (there c)))

  min_additionals_all :
      (m : ℕ) (rs : List H.Record)
      → ((r : H.Record) → Contains r rs → m ≤ H.ttl r)
      → min_additionals H L m rs ≡ m
  unfolding min_additionals
  min_additionals_all m [] h = refl
  min_additionals_all m (r ∷ rs) h =
      let same : min m (H.ttl r) ≡ m = omega (arith, h r here) in
      let rest = min_additionals_all m rs (λ x c. h x (there c)) in rw same (ground (arith, rest))

  message_ttl-Contains :
      (lo hi : ℕ) (msg : H.Message) (r : H.Record)
      → Contains r (H.answers msg) ⊎ (Contains r (H.additionals msg) × (H.is_opt r ≡ false))
      → message_ttl H L lo hi msg ≤ max lo (H.ttl r)
  unfolding message_ttl
  message_ttl-Contains lo hi msg r (inl c) = ground (
    arith,
    min_additionals-le (min_answers H L hi (H.answers msg)) (H.additionals msg),
    min_answers-Contains hi (H.answers msg) r c,
  )
  message_ttl-Contains lo hi msg r (inr (c, h)) = ground (
    arith,
    min_additionals-Contains (min_answers H L hi (H.answers msg)) (H.additionals msg) r c h,
  )

  -- A response that hickory reads is never kept longer than the TTL of an answer, or of an
  -- additional record but OPT, except to fill up `min_ttl`.
  pub extract_min_ttl-Contains :
      (c : DnsCache L) (response : Bytes) (msg : H.Message) (r : H.Record) (kept : ℕ)
      → H.from_vec response ≡ some msg
      → Contains r (H.answers msg) ⊎ (Contains r (H.additionals msg) × (H.is_opt r ≡ false))
      → clamp (extract_min_ttl H L c response) c.min_ttl c.max_ttl ≡ some kept
      → kept ≤ max c.min_ttl (H.ttl r)
  extract_min_ttl-Contains c response msg r kept read among e =
      let low = min_answers H L c.max_ttl (H.answers msg) in
      let parsed : extract_min_ttl H L c response ≡ message_ttl H L c.min_ttl c.max_ttl msg =
        unfold extract_min_ttl in rw (extract_min_ttl, read) in
      let bound = message_ttl-Contains c.min_ttl c.max_ttl msg r among in
      let clamped = rw parsed at e in unfold clamp in ground (arith, bound)

  -- A response with answers whose TTLs, and those of its additional records, are all at least
  -- `max_ttl` is kept for `min_ttl` only, if that is at most `max_ttl`.
  pub extract_min_ttl_long :
      (c : DnsCache L) (response : Bytes) (msg : H.Message)
      → H.from_vec response ≡ some msg
      → H.answers msg ≢ []
      → ((r : H.Record) → Contains r (H.answers msg) → c.max_ttl ≤ H.ttl r)
      → ((r : H.Record) → Contains r (H.additionals msg) → c.max_ttl ≤ H.ttl r)
      → c.min_ttl ≤ c.max_ttl
      → clamp (extract_min_ttl H L c response) c.min_ttl c.max_ttl ≡ some c.min_ttl
  extract_min_ttl_long c response msg read some_answer h k ordered =
      let parsed : extract_min_ttl H L c response ≡ message_ttl H L c.min_ttl c.max_ttl msg =
        unfold extract_min_ttl in rw (extract_min_ttl, read) in
      let all_long : message_ttl H L c.min_ttl c.max_ttl msg ≡ c.min_ttl =
        unfold message_ttl in
        rw
          (
            min_answers_all c.max_ttl (H.answers msg) h,
            min_additionals_all c.max_ttl (H.additionals msg) k,
          )
          (ground (arith, some_answer)) in
      rw (parsed, all_long) (unfold clamp in ground arith)
