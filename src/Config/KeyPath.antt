-- ===== src/Config/KeyPath.antt =====
-- package/zebrafish-config/src/path.rs: `KeyPath`, `Segment` and the scanner of `KeyPath::parse`.
-- A `char` is its code point; `usize` is 64 bits wide.
pub mod RoundTrip
pub mod Sound
use zebrafish.Prelude.{
  ℕ, ◌+◌, Bool, true, false, not, ◌&&◌, ◌||◌, List, [], ◌∷◌, ◌++◌, Option, none, some, ◌==◌, leb,
  if◌then◌else◌, ◌>>=◌, is_empty, Text,
}
use zebrafish.Prelude.Decimal.{is_ascii_digit, parse_usize}

-- `char::is_whitespace`: the code points with the Unicode property White_Space.
unfoldable pub is_whitespace : ℕ → Bool
is_whitespace c =
    (leb 9 c && leb c 13)
    || c == 32
    || c == 0x85
    || c == 0xa0
    || c == 0x1680
    || (leb 0x2000 c && leb c 0x200a)
    || c == 0x2028
    || c == 0x2029
    || c == 0x202f
    || c == 0x205f
    || c == 0x3000

unfoldable pub trim_start : Text → Text
trim_start [] = []
trim_start (c ∷ cs) = let rest = trim_start cs in if is_whitespace c then rest else c ∷ cs

-- A character stays if it is no whitespace or if something stays behind it.
unfoldable pub trim_end : Text → Text
trim_end [] = []
trim_end (c ∷ cs) =
    let rest = trim_end cs in if is_whitespace c && is_empty rest then [] else c ∷ rest

-- `str::trim`.
unfoldable pub trim : Text → Text
trim s = trim_end (trim_start s)

pub data Segment : Type 0 where
  field : Text → Segment
  index : ℕ → Segment

-- The local variables of `KeyPath::parse`.
pub record Scanner : Type 0 where
  pub segments : List Segment
  pub current : Text
  pub in_index : Bool

-- `if !current.is_empty() { segments.push(Field(take(&mut current))) }`
unfoldable pub flush : Scanner → Scanner
flush p =
    if is_empty p.current
    then p
    else record p { segments = p.segments ++ (field p.current ∷ []); current = [] }

abbrev pub push_char : Scanner → ℕ → Scanner
push_char p c = record p { current = p.current ++ (c ∷ []) }

-- The `']'` arm, once `in_index` holds.
unfoldable pub close_index : Scanner → Option Scanner
close_index p = do
  idx ← parse_usize p.current
  some (record p { segments = p.segments ++ (index idx ∷ []); current = []; in_index = false })

-- One round of the loop; `none` is `bad = true; break`.
unfoldable pub step : Scanner → ℕ → Option Scanner
step p c =
    if c == b'.'
    then (if p.in_index then none else some (flush p))
    else if c == b'['
    then (if p.in_index then none else some (record (flush p) { in_index = true }))
    else if c == b']'
    then (if not p.in_index then none else close_index p)
    else if p.in_index
    then (if is_ascii_digit c then some (push_char p c) else none)
    else some (push_char p c)

unfoldable pub scan : Scanner → Text → Option Scanner
scan p [] = some p
scan p (c ∷ cs) = do q ← step p c; scan q cs

-- What follows the loop.
unfoldable pub finish : Scanner → Option (List Segment)
finish p =
    if p.in_index
    then none
    else if is_empty (flush p).segments
    then none
    else some (flush p).segments

abbrev pub start : Scanner
start = record { segments = []; current = []; in_index = false }

-- `KeyPath::parse`, whose result is the vector of segments.
unfoldable pub parse : Text → Option (List Segment)
parse s = if is_empty (trim s) then none else scan start (trim s) >>= finish

-- `KeyPath::section`.
unfoldable pub section : List Segment → Option Text
section [] = none
section (field name ∷ _) = some name
section (index _ ∷ _) = none
