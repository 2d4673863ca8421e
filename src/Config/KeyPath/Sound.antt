-- ===== src/Config/KeyPath/Sound.antt =====
-- package/zebrafish-config/src/path.rs: what `KeyPath::parse` accepts.
use zebrafish.Prelude.{
  ℕ, ◌<◌, Bool, true, false, not, ◌||◌, List, [], ◌∷◌, ◌++◌, some, ◌==◌, ◌≡◌, ◌≢◌, refl, ◌>>=◌,
  >>=-eq-some, is_empty, all, Text, arith, Bool-cases, inl, inr, Option-cases,
}
use zebrafish.Prelude.Decimal.{parse_usize, u64_limit, parse_usize-lt}
use zebrafish.Config.KeyPath.{
  Segment, field, index, Scanner, flush, close_index, step, scan, finish, start, parse, trim,
}

-- No character with a meaning to the scanner.
abbrev pub is_name_char : ℕ → Bool
is_name_char c = not (c == b'.' || c == b'[' || c == b']')

-- A segment that addresses something: a non-empty name without delimiters, or a 64-bit index.
abbrev pub IsSegment : Segment → Type 0
IsSegment (field name) = (name ≢ []) × (all is_name_char name ≡ true)
IsSegment (index i) = i < u64_limit

abbrev pub AllSegments : List Segment → Type 0
AllSegments [] = Unit {0}
AllSegments (s ∷ ss) = IsSegment s × AllSegments ss

record Inv (p : Scanner) : Type 0 where
  segments_in : AllSegments p.segments
  current_in : all is_name_char p.current ≡ true

AllSegments-concat :
    (ss : List Segment) (s : Segment) → AllSegments ss → IsSegment s → AllSegments (ss ++ (s ∷ []))
AllSegments-concat [] s h k = (k, tt)
AllSegments-concat (x ∷ ss) s h k = (h.0, AllSegments-concat ss s h.1 k)

all-concat :
    (p : ℕ → Bool) (xs : Text) (x : ℕ)
    → all p xs ≡ true
    → p x ≡ true
    → all p (xs ++ (x ∷ [])) ≡ true
all-concat p [] x h k = ground arith
all-concat p (y ∷ xs) x h k = ground (arith, all-concat p xs x)

is_empty-ne : (xs : Text) → is_empty xs ≡ false → xs ≢ []
is_empty-ne [] h = λ _. cc
is_empty-ne (x ∷ xs) h = λ e. cc

flush-Inv : (p : Scanner) → Inv p → Inv (flush p) × ((flush p).current ≡ [])
unfolding flush
flush-Inv p h =
    ground
      (arith, AllSegments-concat p.segments (field p.current) h.segments_in, is_empty-ne p.current)

close_index-Inv : (p : Scanner) {q : Scanner} → Inv p → close_index p ≡ some q → Inv q
unfolding close_index
close_index-Inv p h e = elim (Option-cases (parse_usize p.current)) [
  | inl bad ↦ absurd (ground arith)
  | inr (i, good) ↦ ground (
    arith,
    parse_usize-lt p.current good,
    AllSegments-concat p.segments (index i) h.segments_in (parse_usize-lt p.current good),
  )
]

step-Inv : (p : Scanner) (c : ℕ) {q : Scanner} → Inv p → step p c ≡ some q → Inv q
unfolding step
step-Inv p c {q} h e = ground (
  arith,
  flush-Inv p h,
  close_index-Inv p {q = q} h,
  all-concat is_name_char p.current c h.current_in,
)

scan-Inv : (s : Text) (p : Scanner) {q : Scanner} → Inv p → scan p s ≡ some q → Inv q
unfolding scan
scan-Inv [] p h e = ground arith
scan-Inv (c ∷ cs) p h e =
    let (q, one, later) = >>=-eq-some (step p c) (λ q. scan q cs) e in
    scan-Inv cs q (step-Inv p c h one) later

finish-Inv :
    (p : Scanner) {segs : List Segment}
    → Inv p
    → finish p ≡ some segs
    → (segs ≢ []) × AllSegments segs
unfolding finish
finish-Inv p {segs} h e =
    let f = flush-Inv p h in
    let k : (p.in_index ≡ false)
        × (is_empty (flush p).segments ≡ false)
        × ((flush p).segments ≡ segs) =
      ground arith in
    ground (arith, k, f)

-- If `parse` accepts a text, then the segments are not empty, each field is a non-empty name
-- without a dot or a bracket, and each index is below 2 ^ 64.
pub parse-AllSegments :
    (s : Text) {segs : List Segment} → parse s ≡ some segs → (segs ≢ []) × AllSegments segs
unfolding parse
parse-AllSegments s {segs} e = elim (Bool-cases (is_empty (trim s))) [
  | inl bare ↦ absurd (ground arith)
  | inr more ↦
      let e' : (scan start (trim s) >>= finish) ≡ some segs = ground arith in
      let (q, run, done) = >>=-eq-some (scan start (trim s)) finish e' in
      finish-Inv q (scan-Inv (trim s) start (record { segments_in = tt; current_in = refl }) run)
        done
]
