-- ===== src/Dns/Cache/Aged.antt =====
-- package/zebrafish-dns/src/cache.rs: what `adjust_ttls` makes of a response.
use zebrafish.Prelude.{
  ◌<◌, ℕ, List, [], ◌∷◌, none, some, Bytes, ◌≡◌, ◌≢◌, ◌⊎◌, refl, arith, inl, inr, length, map,
  Contains, here, there, Option-cases, Bool-cases, ◌==◌, subst,
}
use zebrafish.Dns.Hickory
use zebrafish.Dns.Hickory.{Hickory}
use zebrafish.Dns.Lru.{Lru}
use zebrafish.Dns.Cache.{CacheEntry, adjust_ttls, rewritten}

module _ (H : Hickory) where
  -- The message with the TTL of each answer replaced, and nothing else.
  abbrev pub aged : ℕ → H.Message → H.Message
  aged remaining msg = H.with_answers msg (map (H.set_ttl remaining) (H.answers msg))

  -- The response cannot be rewritten in place: hickory does not read it, or does not encode the
  -- message with the new TTLs, or encodes it in another length.
  abbrev pub IsFixed : ℕ → Bytes → Type 0
  IsFixed remaining raw =
      (H.from_vec raw ≡ none)
      ⊎ ((msg : H.Message) × (H.from_vec raw ≡ some msg)
          × ((H.to_vec (aged remaining msg) ≡ none)
              ⊎ ((b : Bytes) × (H.to_vec (aged remaining msg) ≡ some b) × (length b ≢ length raw))))

  abbrev pub AllTtls : ℕ → H.Message → Type 0
  AllTtls n msg = (x : H.Record) → Contains x (H.answers msg) → H.ttl x ≡ n

  -- The response where it cannot be rewritten; and else one of the same length, that hickory reads
  -- as the same message but for the TTLs of the answers, all of which are `remaining`.
  abbrev pub IsAged : ℕ → Bytes → Bytes → Type 0
  IsAged remaining raw r =
      ((r ≡ raw) × IsFixed remaining raw)
      ⊎ ((length r ≡ length raw)
          × ((msg : H.Message) × (H.from_vec raw ≡ some msg)
              × (H.from_vec r ≡ some (aged remaining msg))
              × AllTtls remaining (aged remaining msg)))

module _ (H : Hickory) (hickory : Hickory.Laws H) (L : Lru CacheEntry) where
  map-set_ttl :
      (n : ℕ) (rs : List H.Record) (x : H.Record)
      → n < 4294967296
      → Contains x (map (H.set_ttl n) rs)
      → H.ttl x ≡ n
  map-set_ttl n [] x fits c = elim c [ ]
  map-set_ttl n (r ∷ rs) x fits here = hickory.ttl-set_ttl n r fits
  map-set_ttl n (r ∷ rs) x fits (there c) = map-set_ttl n rs x fits c

  aged-AllTtls :
      (n : ℕ) (raw : Bytes) (msg : H.Message)
      → n < 4294967296
      → H.from_vec raw ≡ some msg
      → AllTtls H n (aged H n msg)
  aged-AllTtls n raw msg fits read x c = map-set_ttl n (H.answers msg) x fits (
      subst (Contains x)
        (hickory.answers-with_answers raw msg (map (H.set_ttl n) (H.answers msg)) read) c)

  pub adjust_ttls-IsAged :
      (raw : Bytes) (remaining : ℕ)
      → remaining < 4294967296
      → IsAged H remaining raw (adjust_ttls H L raw remaining)
  unfolding adjust_ttls rewritten
  adjust_ttls-IsAged raw remaining fits = elim (Option-cases (H.from_vec raw)) [
    | inl unread ↦ rw (adjust_ttls, unread) (inl (refl, inl refl))
    | inr (msg, read) ↦ elim (Option-cases (H.to_vec (aged H remaining msg))) [
      | inl unwritten ↦
          rw (adjust_ttls, read, unwritten) (inl (refl, inr (msg, refl, inl unwritten)))
      | inr (b, written) ↦ elim (Bool-cases (length b == length raw)) [
        | inl same ↦
            rw (adjust_ttls, read, written, same)
              (inr (
                ground (arith, same),
                (
                  msg,
                  refl,
                  hickory.from_vec-to_vec raw b msg (map (H.set_ttl remaining) (H.answers msg)) read
                      written,
                  aged-AllTtls remaining raw msg fits read,
                ),
              ))
        | inr other ↦
            rw (adjust_ttls, read, written, other)
              (inl
                (refl, inr (msg, refl, inr (b, written, λ e. absurd (ground (arith, other, e))))))
      ]
    ]
  ]
