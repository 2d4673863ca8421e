-- ===== src/Config/KeyPath/RoundTrip.antt =====
-- package/zebrafish-config/src/path.rs: `KeyPath::parse` on the dotted notation that the
-- tool's README describes. `display` writes a path in that notation.
use zebrafish.Prelude.{
  ℕ, ◌<◌, Bool, true, false, not, List, [], ◌∷◌, ◌++◌, Option, none, some, ◌≡◌, ◌≢◌, refl,
  if◌then◌else◌, ◌>>=◌, is_empty, all, Text, arith, append-nil, append_assoc, ◌∙◌, ap,
}
use zebrafish.Prelude.Decimal.{
  u64_limit, is_ascii_digit, to_string, parse_usize-to_string, all-is_ascii_digit-to_string,
}
use zebrafish.Config.KeyPath.{
  Segment, field, index, Scanner, flush, push_char, close_index, step, scan, finish, start, parse,
  trim, trim_start, trim_end, is_whitespace,
}
use zebrafish.Config.KeyPath.Sound.{is_name_char, AllSegments}

abbrev pub display_tail : List Segment → Text
display_tail [] = []
display_tail (field name ∷ rest) = b'.' ∷ (name ++ display_tail rest)
display_tail (index i ∷ rest) = b'[' ∷ (to_string i ++ (b']' ∷ display_tail rest))

abbrev pub display : List Segment → Text
display [] = []
display (field name ∷ rest) = name ++ display_tail rest
display (index i ∷ rest) = display_tail (index i ∷ rest)

abbrev pub is_visible : ℕ → Bool
is_visible c = not (is_whitespace c)

-- Names without whitespace. Inner whitespace would be kept by the scanner, but that at the ends
-- of the whole text is trimmed.
abbrev pub AllVisible : List Segment → Type 0
AllVisible [] = Unit {0}
AllVisible (field name ∷ rest) = (all is_visible name ≡ true) × AllVisible rest
AllVisible (index i ∷ rest) = AllVisible rest

scan-name :
    (name : Text) (p : Scanner) (rest : Text)
    → p.in_index ≡ false
    → all is_name_char name ≡ true
    → scan p (name ++ rest) ≡ scan (record p { current = p.current ++ name }) rest
unfolding scan step
scan-name [] p rest f h = rw append-nil
scan-name (c ∷ cs) p rest f h =
    let one : step p c ≡ some (push_char p c) = ground arith in
    rw one (scan-name cs (push_char p c) rest f (ground arith) ∙ rw append_assoc)

scan-digits :
    (ds : Text) (p : Scanner) (rest : Text)
    → p.in_index ≡ true
    → all is_ascii_digit ds ≡ true
    → scan p (ds ++ rest) ≡ scan (record p { current = p.current ++ ds }) rest
unfolding scan step
scan-digits [] p rest f h = rw append-nil
scan-digits (c ∷ cs) p rest f h =
    let one : step p c ≡ some (push_char p c) = ground arith in
    rw one (scan-digits cs (push_char p c) rest f (ground arith) ∙ rw append_assoc)

-- The segments that are complete once the scanner stops here.
abbrev flushed : Scanner → List Segment
flushed p = (flush p).segments

abbrev accepted : List Segment → Option (List Segment)
accepted segs = if is_empty segs then none else some segs

flush_parts : (p : Scanner) → ((flush p).current ≡ []) × ((flush p).in_index ≡ p.in_index)
unfolding flush
flush_parts p = ground arith

flush_full :
    (segs : List Segment) (name : Text)
    → name ≢ []
    → flushed (record { segments = segs; current = name; in_index = false })
      ≡ segs ++ (field name ∷ [])
unfolding flush
flush_full segs [] h = absurd (h refl)
flush_full segs (c ∷ cs) h = refl

-- One step of a scan whose outcome is known.
scan-step :
    (p : Scanner) (c : ℕ) (rest : Text) {q : Scanner}
    → step p c ≡ some q
    → scan p (c ∷ rest) ≡ scan q rest
unfolding scan
scan-step p c rest e = ap (λ r. r >>= λ q. scan q rest) e

step-delimiters :
    (p : Scanner)
    → p.in_index ≡ false
    → (step p b'.' ≡ some (record { segments = flushed p; current = []; in_index = false }))
      × (step p b'[' ≡ some (record { segments = flushed p; current = []; in_index = true }))
unfolding step
step-delimiters p f = ground (arith, flush_parts p)

scan-field :
    (name : Text) (p : Scanner) (rest : Text)
    → p.in_index ≡ false
    → all is_name_char name ≡ true
    → scan p (b'.' ∷ (name ++ rest))
      ≡ scan (record { segments = flushed p; current = name; in_index = false }) rest
scan-field name p rest f h =
    scan-step p b'.' (name ++ rest) (step-delimiters p f).0 ∙ scan-name name _ rest refl h

step-close :
    (segs : List Segment) (i : ℕ)
    → i < u64_limit
    → step (record { segments = segs; current = to_string i; in_index = true }) b']'
      ≡ some (record { segments = segs ++ (index i ∷ []); current = []; in_index = false })
unfolding step close_index
step-close segs i h = rw (parse_usize-to_string i h)

scan-index :
    (i : ℕ) (p : Scanner) (rest : Text)
    → p.in_index ≡ false
    → i < u64_limit
    → scan p (b'[' ∷ (to_string i ++ (b']' ∷ rest)))
      ≡ scan
          (record { segments = flushed p ++ (index i ∷ []); current = []; in_index = false })
          rest
scan-index i p rest f h =
    scan-step p b'[' (to_string i ++ (b']' ∷ rest)) (step-delimiters p f).1
    ∙ scan-digits (to_string i) _ (b']' ∷ rest) refl (all-is_ascii_digit-to_string i)
    ∙ scan-step _ b']' rest (step-close (flushed p) i h)

scan-finish :
    (segs : List Segment) (p : Scanner)
    → p.in_index ≡ false
    → AllSegments segs
    → (scan p (display_tail segs) >>= finish) ≡ accepted (flushed p ++ segs)
scan-finish [] p f h = rw append-nil (unfold scan finish in rw f)
scan-finish (field name ∷ segs) p f h =
    ap (λ r. r >>= finish) (scan-field name p (display_tail segs) f h.0.1)
    ∙ scan-finish segs (record { segments = flushed p; current = name; in_index = false }) refl h.1
    ∙ rw (flush_full (flushed p) name h.0.0) (rw append_assoc)
scan-finish (index i ∷ segs) p f h =
    ap (λ r. r >>= finish) (scan-index i p (display_tail segs) f h.0)
    ∙ scan-finish segs
        (record { segments = flushed p ++ (index i ∷ []); current = []; in_index = false }) refl h.1
    ∙ unfold flush in rw append_assoc

all-append :
    (q : ℕ → Bool) (xs ys : Text) → all q xs ≡ true → all q ys ≡ true → all q (xs ++ ys) ≡ true
all-append q [] ys h k = k
all-append q (x ∷ xs) ys h k = ground (arith, all-append q xs ys)

digits-visible : (ds : Text) → all is_ascii_digit ds ≡ true → all is_visible ds ≡ true
unfolding is_whitespace
digits-visible [] h = refl
digits-visible (d ∷ ds) h = ground (arith, digits-visible ds)

trim_end_visible : (s : Text) → all is_visible s ≡ true → trim_end s ≡ s
unfolding trim_end
trim_end_visible [] h = refl
trim_end_visible (c ∷ cs) h =
    let seen : is_whitespace c ≡ false = ground arith in
    rw (seen, trim_end_visible cs (ground arith))

trim_visible : (s : Text) → all is_visible s ≡ true → trim s ≡ s
unfolding trim trim_start
trim_visible [] h = unfold trim_end in refl
trim_visible (c ∷ cs) h =
    let seen : is_whitespace c ≡ false = ground arith in rw seen (trim_end_visible (c ∷ cs) h)

display_tail-visible :
    (segs : List Segment) → AllVisible segs → all is_visible (display_tail segs) ≡ true
unfolding is_whitespace
display_tail-visible [] h = refl
display_tail-visible (field name ∷ segs) h =
    all-append is_visible name (display_tail segs) h.0 (display_tail-visible segs h.1)
display_tail-visible (index i ∷ segs) h =
    all-append is_visible (to_string i) (b']' ∷ display_tail segs)
      (digits-visible (to_string i) (all-is_ascii_digit-to_string i)) (display_tail-visible segs h)

display-visible : (segs : List Segment) → AllVisible segs → all is_visible (display segs) ≡ true
display-visible [] h = refl
display-visible (field name ∷ segs) h =
    all-append is_visible name (display_tail segs) h.0 (display_tail-visible segs h.1)
display-visible (index i ∷ segs) h = display_tail-visible (index i ∷ segs) h

display-is_empty :
    (segs : List Segment) → segs ≢ [] → AllSegments segs → is_empty (display segs) ≡ false
display-is_empty [] ne h = absurd (ne refl)
display-is_empty (field [] ∷ segs) ne h = absurd (h.0.0 refl)
display-is_empty (field (c ∷ cs) ∷ segs) ne h = refl
display-is_empty (index i ∷ segs) ne h = refl

scan-display :
    (segs : List Segment)
    → segs ≢ []
    → AllSegments segs
    → (scan start (display segs) >>= finish) ≡ some segs
scan-display [] ne h = absurd (ne refl)
scan-display (field name ∷ segs) ne h =
    ap (λ r. r >>= finish) (scan-name name start (display_tail segs) refl h.0.1)
    ∙ scan-finish segs (record start { current = name }) refl h.1
    ∙ rw (flush_full [] name h.0.0)
scan-display (index i ∷ segs) ne h =
    scan-finish (index i ∷ segs) start refl h ∙ unfold flush in refl

-- `parse` reads back every path written in the dotted notation: not empty, each field a
-- non-empty name with no dot, bracket or whitespace, and each index below 2 ^ 64.
pub parse-display :
    (segs : List Segment)
    → segs ≢ []
    → AllSegments segs
    → AllVisible segs
    → parse (display segs) ≡ some segs
unfolding parse
parse-display segs ne h v =
    rw (trim_visible (display segs) (display-visible segs v), display-is_empty segs ne h)
      (scan-display segs ne h)
