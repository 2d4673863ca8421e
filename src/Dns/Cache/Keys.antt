-- ===== src/Dns/Cache/Keys.antt =====
-- package/zebrafish-dns/src/cache.rs: which queries share an entry of the cache.
use zebrafish.Prelude.{
  ℕ, ◌/◌, ◌%◌, ◌<◌, List, [], ◌∷◌, ◌++◌, Bytes, ◌≡◌, ◌∙◌, sym, ap, refl, arith, length,
  length-append,
}
use mathlib.Core.Option.{some-injective}
use zebrafish.Dns.Hickory.{Hickory}
use zebrafish.Dns.Lru.{Lru}
use zebrafish.Dns.Cache.{CacheEntry, be_bytes, question_key, cache_key}

-- The type and the class as `cache_key` writes them.
abbrev suffix : ℕ → ℕ → Bytes
suffix t c = (b'|' ∷ be_bytes t) ++ (b'|' ∷ be_bytes c)

be_bytes_injective :
    (m n : ℕ) → m < 65536 → n < 65536 → m / 256 % 256 ≡ n / 256 % 256 → m % 256 ≡ n % 256 → m ≡ n
be_bytes_injective m n hm hn h l = omega arith

suffix_injective :
    (t c t' c' : ℕ)
    → t < 65536
    → c < 65536
    → t' < 65536
    → c' < 65536
    → suffix t c ≡ suffix t' c'
    → (t ≡ t') × (c ≡ c')
suffix_injective t c t' c' ht hc ht' hc' e =
    (be_bytes_injective t t' ht ht' (cc) (cc), be_bytes_injective c c' hc hc' (cc) (cc))

-- Texts followed by suffixes of one length.
append_suffix :
    (a b xs ys : Bytes) → length xs ≡ length ys → a ++ xs ≡ b ++ ys → (a ≡ b) × (xs ≡ ys)
append_suffix [] [] xs ys h e = (refl, e)
append_suffix [] (y ∷ b) xs ys h e = absurd (omega (arith, ap length e, length-append b ys))
append_suffix (x ∷ a) [] xs ys h e = absurd (omega (arith, ap length e, length-append a xs))
append_suffix (x ∷ a) (y ∷ b) xs ys h e =
    let head : x ≡ y = cc in
    let rest : a ++ xs ≡ b ++ ys = cc in
    let (names, suffixes) = append_suffix a b xs ys h rest in (rw (head, names), suffixes)

module _ (H : Hickory) (L : Lru CacheEntry) where
  -- If two queries have the same cache key, whose types and classes are numbers below 2 ^ 16,
  -- then their first questions agree in the name without case, the type and the class.
  pub cache_key_injective :
      (m n : H.Message) (p q : H.Query) (ps qs : List H.Query)
      → H.queries m ≡ p ∷ ps
      → H.queries n ≡ q ∷ qs
      → (H.query_type p < 65536) × (H.query_class p < 65536)
      → (H.query_type q < 65536) × (H.query_class q < 65536)
      → cache_key H L m ≡ cache_key H L n
      → (H.lowercase_name p ≡ H.lowercase_name q)
        × (H.query_type p ≡ H.query_type q)
        × (H.query_class p ≡ H.query_class q)
  unfolding cache_key question_key
  cache_key_injective m n p q ps qs first second hp hq e =
      let keys : question_key H L p ≡ question_key H L q = some-injective _ _ (
        sym (unfold cache_key in rw (cache_key, first))
        ∙ e
        ∙ (unfold cache_key in rw (cache_key, second))) in
      let (names, suffixes) =
        append_suffix (H.lowercase_name p) (H.lowercase_name q)
          (suffix (H.query_type p) (H.query_class p)) (suffix (H.query_type q) (H.query_class q))
          refl keys in
      let numbers =
        suffix_injective (H.query_type p) (H.query_class p) (H.query_type q) (H.query_class q) hp.0
          hp.1 hq.0 hq.1 suffixes in
      (names, numbers.0, numbers.1)
