-- ===== src/Dns/Server/Frames.antt =====
-- package/zebrafish-dns/src/server.rs: a connection that carries several queries.
use zebrafish.Prelude.{
  ℕ, zero, suc, ◌+◌, ◌*◌, ◌/◌, ◌%◌, ◌<◌, ◌≤◌, false, ◌||◌, List, [], ◌∷◌, ◌++◌, Option, some, Bytes,
  ltb, ◌==◌, length, take, drop, ◌≡◌, refl, ◌∙◌, arith, length-append, take-append, drop-append,
  Bool-cases, inl, inr,
}
use zebrafish.Prelude.Results.{Result, ok, err}
use zebrafish.Dns.Hickory.{Hickory}
use zebrafish.Dns.Cache.{be_bytes}
use zebrafish.Dns.Doh.{DnsResult, Failure}
use zebrafish.Dns.Server.{
  Connection, Ending, ends, closed, failed, write, reply, serve, serve_message, serve_reply,
}

-- Messages as DNS over TCP carries them: each behind its length in two bytes.
abbrev pub frames : List Bytes → Bytes
frames [] = []
frames (m ∷ ms) = be_bytes (length m) ++ (m ++ frames ms)

-- Messages that have a length of two bytes, and are not empty.
abbrev pub AllFit : List Bytes → Type 0
AllFit [] = Unit {0}
AllFit (m ∷ ms) = (1 ≤ length m) × (length m < 65536) × AllFit ms

length-drop : (n : ℕ) (xs : Bytes) → length (drop n xs) ≤ length xs
length-drop zero xs = omega arith
length-drop (suc n) [] = omega arith
length-drop (suc n) (x ∷ xs) = omega (arith, length-drop n xs)

module _ (H : Hickory) {S : Type 0} (resolve : S → Bytes → Result Failure DnsResult × S)
    (log : S → Bytes → DnsResult → S) where
  -- The responses to queries that come one after the other.
  pub data Replies : S → List Bytes → List Bytes → S → Type 0 where
    done : {s : S} → Replies s [] [] s
    next :
        {s t u : S} {q r : Bytes} {qs rs : List Bytes}
        → reply H resolve log s q ≡ (ok r, t)
        → Replies t qs rs u
        → Replies s (q ∷ qs) (r ∷ rs) u

  serve_message_framed :
      (more : S → Bytes → Option (Connection S)) (s t : S) (q r rest : Bytes)
      → 1 ≤ length q
      → length q < 65536
      → reply H resolve log s q ≡ (ok r, t)
      → serve_message H resolve log more s (length q / 256 % 256 * 256 + length q % 256) (q ++ rest)
        ≡ serve_reply H resolve log more (ok r) t rest
  unfolding serve_message
  serve_message_framed more s t q r rest low high answered =
      let len : length q / 256 % 256 * 256 + length q % 256 ≡ length q = omega arith in
      let room : ltb (length (q ++ rest)) (length q) ≡ false =
        ground (arith, length-append q rest) in
      let some_bytes : (length q == 0 || ltb 65535 (length q)) ≡ false = ground arith in
      rw (len, some_bytes, room, take-append q rest, drop-append q rest, answered)

  -- With a connection of queries that fit their length prefix, each of which gets a response or a
  -- SERVFAIL, these are written in the order of the queries, each behind the low 16 bits of its
  -- length, and the connection is then closed without an error.
  pub serve-frames :
      {s t : S} {qs rs : List Bytes}
      → Replies s qs rs t
      → AllFit qs
      → (f : ℕ) → length qs < f
      → serve H resolve log f s (frames qs)
        ≡ some (record { written = frames rs; ending = closed; client = t })
  unfolding serve serve_reply
  serve-frames done fit zero h = absurd (omega arith)
  serve-frames done fit (suc f) h = refl
  serve-frames (next {s} {t} {u} {q} {r} {qs} {rs} answered more) fit zero h = absurd (omega arith)
  serve-frames (next {s} {t} {u} {q} {r} {qs} {rs} answered more) fit (suc f) h =
      serve_message_framed (λ t rest. serve H resolve log f t rest) s t q r (frames qs) fit.0 fit.1
        answered
      ∙ (rw (serve-frames more fit.2 f (omega arith)))

  serve_reply_total :
      (more : S → Bytes → Option (Connection S)) (o : Result Ending Bytes) (s : S) (input : Bytes)
      → ((c : Connection S) × (more s input ≡ some c))
      → (c : Connection S) × (serve_reply H resolve log more o s input ≡ some c)
  unfolding serve_reply
  serve_reply_total more (err e) s input h = (ends H resolve log e s, refl)
  serve_reply_total more (ok r) s input (c, e) = (write H resolve log r c, rw e)

  serve_message_total :
      (more : S → Bytes → Option (Connection S)) (s : S) (n : ℕ) (input : Bytes)
      → ((t : S) (rest : Bytes)
          → length rest ≤ length input
          → (c : Connection S) × (more t rest ≡ some c))
      → (c : Connection S) × (serve_message H resolve log more s n input ≡ some c)
  unfolding serve_message
  serve_message_total more s n input h = elim (Bool-cases (n == 0 || ltb 65535 n)) [
    | inl ended ↦ (ends H resolve log closed s, rw ended)
    | inr sized ↦ elim (Bool-cases (ltb (length input) n)) [
      | inl short ↦ (ends H resolve log failed s, rw (sized, short))
      | inr whole ↦
          let answered = reply H resolve log s (take n input) in
          rw (sized, whole)
            (serve_reply_total more answered.0 answered.1 (drop n input)
              (h answered.1 (drop n input) (length-drop n input)))
    ]
  ]

  -- The loop ends on every input: fuel above the number of bytes is enough.
  serve_total :
      (f : ℕ) (s : S) (input : Bytes)
      → length input < f
      → (c : Connection S) × (serve H resolve log f s input ≡ some c)
  unfolding serve
  serve_total zero s input h = absurd (omega arith)
  serve_total (suc f) s [] h = (ends H resolve log closed s, refl)
  serve_total (suc f) s (high ∷ []) h = (ends H resolve log closed s, refl)
  serve_total (suc f) s (high ∷ low ∷ input) h =
      serve_message_total (λ t rest. serve H resolve log f t rest) s (high * 256 + low) input
        (λ t rest le. serve_total f t rest (omega (arith, le)))
