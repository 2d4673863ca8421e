-- ===== src/Dns/Doh/Resolve.antt =====
-- package/zebrafish-dns/src/doh.rs: what `resolve` returns.
use zebrafish.Prelude.{
  ℕ, ◌≤◌, Bool, true, false, [], ◌∷◌, Option, none, some, Bytes, ◌≡◌, refl, arith, length, take,
  drop, ap, sym, ◌∙◌, Bool-cases, Option-cases, inl, inr, subst, ◌≢◌,
}
use mathlib.Core.Option.{some-injective}
use zebrafish.Prelude.Results.{ok, ok_injective}
use zebrafish.Dns.Hickory.{Hickory}
use zebrafish.Dns.Lru.{Lru}
use zebrafish.Dns.Cache.{CacheEntry, DnsCache, get, put, be_bytes}
use zebrafish.Dns.Doh.{
  Answer, DnsResult, is_success, rewrite_id, finish, collect, receive, proceed, resolve_message,
  resolve,
}

-- Whatever the response was, with two bytes or more it now starts with the id; nothing behind it
-- and no length changes.
pub rewrite_id_lem :
    (id : ℕ) (raw : Bytes)
    → ((2 ≤ length raw) → take 2 (rewrite_id id raw) ≡ be_bytes id)
      × (drop 2 (rewrite_id id raw) ≡ drop 2 raw)
      × (length (rewrite_id id raw) ≡ length raw)
unfolding rewrite_id
rewrite_id_lem id [] = (λ h. absurd (omega arith), refl, refl)
rewrite_id_lem id (a ∷ []) = (λ h. absurd (omega arith), refl, refl)
rewrite_id_lem id (a ∷ b ∷ rest) = (λ h. refl, refl, refl)

module _ (H : Hickory) (L : Lru CacheEntry) where
  -- Where the bytes of a response come from: the cache, or a successful answer's body.
  abbrev pub IsSource : (Bytes → Option Answer) → Option Bytes → Bytes → Bool → Bytes → Type 0
  IsSource upstream hit query true raw = hit ≡ some raw
  IsSource upstream hit query false raw =
      (hit ≡ none)
      × (answer : Answer) × (upstream query ≡ some answer)
      × (is_success answer.status ≡ true)
      × (answer.body ≡ some raw)

  abbrev pub IsResolved :
      (Bytes → Option Answer) → Option Bytes → Bytes → H.Message → DnsResult → Type 0
  IsResolved upstream hit query msg r =
      (raw : Bytes) × IsSource upstream hit query r.cached raw
      × ((2 ≤ length raw) → take 2 r.response ≡ be_bytes (H.header msg).header_id)
      × (drop 2 r.response ≡ drop 2 raw)
      × (length r.response ≡ length raw)

  module _ (upstream : Bytes → Option Answer) (later : ℕ) (query : Bytes) (msg : H.Message)
      (r : DnsResult) where
    finish-eq-ok :
        (hit : Option Bytes) (answer : Answer) (c : DnsCache L) (o : Option (DnsCache L))
        (body : Bytes)
        → IsSource upstream hit query false body
        → (finish H L later msg answer c o body).0 ≡ ok r
        → IsResolved upstream hit query msg r
    unfolding finish
    finish-eq-ok hit answer c none body source e = cc
    finish-eq-ok hit answer c (some d) body source e =
        let (start, rest, len) = rewrite_id_lem (H.header msg).header_id body in
        subst (IsResolved upstream hit query msg) (ok_injective e) (body, source, start, rest, len)

    collect-eq-ok :
        (hit : Option Bytes) (answer : Answer) (c : DnsCache L) (o : Option Bytes)
        → hit ≡ none
        → upstream query ≡ some answer
        → is_success answer.status ≡ true
        → answer.body ≡ o
        → (collect H L later msg answer c o).0 ≡ ok r
        → IsResolved upstream hit query msg r
    unfolding collect
    collect-eq-ok hit answer c none missed answered success whole e = cc
    collect-eq-ok hit answer c (some body) missed answered success whole e =
        finish-eq-ok hit answer c (put H L later c msg body) body
          (missed, answer, answered, success, whole) e

    receive-eq-ok :
        (hit : Option Bytes) (c : DnsCache L) (o : Option Answer)
        → hit ≡ none
        → upstream query ≡ o
        → (receive H L later msg o c).0 ≡ ok r
        → IsResolved upstream hit query msg r
    unfolding receive
    receive-eq-ok hit c none missed answered e = cc
    receive-eq-ok hit c (some answer) missed answered e =
        elim (Bool-cases (is_success answer.status)) [
          | inl success ↦
              collect-eq-ok hit answer c answer.body missed answered success refl (rw success at e)
          | inr refused ↦ absurd (ground (arith, e, refused))
        ]

    pub proceed-eq-ok :
        (hit : Option Bytes) (c d : DnsCache L)
        → (proceed H L later msg hit (upstream query) c d).0 ≡ ok r
        → IsResolved upstream hit query msg r
    unfolding proceed
    proceed-eq-ok none c d e = receive-eq-ok none d (upstream query) refl refl e
    proceed-eq-ok (some raw) c d e =
        let (start, rest, len) = rewrite_id_lem (H.header msg).header_id raw in
        subst (IsResolved upstream (some raw) query msg) (ok_injective e)
          (raw, refl, start, rest, len)

  resolve_unread :
      (upstream : Bytes → Option Answer) (meanwhile : DnsCache L → DnsCache L) (now later : ℕ)
      (c : DnsCache L) (query : Bytes) (r : DnsResult)
      → (resolve_message H L upstream meanwhile now later c query none).0 ≢ ok r
  unfolding resolve_message
  resolve_unread upstream meanwhile now later c query r = λ e. cc

  resolve_read :
      (upstream : Bytes → Option Answer) (meanwhile : DnsCache L → DnsCache L) (now later : ℕ)
      (c : DnsCache L) (query : Bytes) (r : DnsResult) (msg : H.Message)
      → (resolve_message H L upstream meanwhile now later c query (some msg)).0 ≡ ok r
      → (proceed H L later msg
          (get H L now c msg).0
          (upstream query)
          (get H L now c msg).1
          (meanwhile (get H L now c msg).1)).0
        ≡ ok r
  unfolding resolve_message
  resolve_read upstream meanwhile now later c query r msg e = e

  -- A result of `resolve` that is no error belongs to a query that hickory reads. It is the response
  -- that `get` returns, if it returns one, and else the body of a successful upstream answer; its
  -- first two bytes, where it has as many, are the id of the query, and the others are as they were.
  pub resolve-eq-ok :
      (upstream : Bytes → Option Answer) (meanwhile : DnsCache L → DnsCache L) (now later : ℕ)
      (c : DnsCache L) (query : Bytes) (r : DnsResult)
      → (resolve H L upstream meanwhile now later c query).0 ≡ ok r
      → (msg : H.Message) × (raw : Bytes) × (H.from_vec query ≡ some msg)
        × IsSource upstream (get H L now c msg).0 query r.cached raw
        × ((2 ≤ length raw) → take 2 r.response ≡ be_bytes (H.header msg).header_id)
        × (drop 2 r.response ≡ drop 2 raw)
        × (length r.response ≡ length raw)
  unfolding resolve
  resolve-eq-ok upstream meanwhile now later c query r e = elim (Option-cases (H.from_vec query)) [
    | inl unread ↦ absurd (resolve_unread upstream meanwhile now later c query r (rw unread at e))
    | inr (msg, read) ↦
        let (raw, source, start, rest, len) =
          proceed-eq-ok upstream later query msg r (get H L now c msg).0 (get H L now c msg).1
            (meanwhile (get H L now c msg).1)
            (resolve_read upstream meanwhile now later c query r msg (rw read at e)) in
        (msg, raw, read, source, start, rest, len)
  ]

  -- So a response of two bytes or more starts with the id of the query.
  pub resolve_id :
      (upstream : Bytes → Option Answer) (meanwhile : DnsCache L → DnsCache L) (now later : ℕ)
      (c : DnsCache L) (query : Bytes) (msg : H.Message) (r : DnsResult)
      → H.from_vec query ≡ some msg
      → (resolve H L upstream meanwhile now later c query).0 ≡ ok r
      → (2 ≤ length r.response)
      → take 2 r.response ≡ be_bytes (H.header msg).header_id
  resolve_id upstream meanwhile now later c query msg r read done long =
      let (asked, raw, read_again, source, start, rest, len) =
        resolve-eq-ok upstream meanwhile now later c query r done in
      start (omega (arith, len))
      ∙ ap (λ m. be_bytes (H.header m).header_id) (some-injective asked msg (sym read_again ∙ read))
