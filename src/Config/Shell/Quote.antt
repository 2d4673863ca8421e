-- ===== src/Config/Shell/Quote.antt =====
-- package/zebrafish-config/src/list.rs: `shell_quote` against the quoting rules of a POSIX shell.
use zebrafish.Prelude.{
  ℕ, Bool, false, leb, ◌||◌, true, [], ◌∷◌, ◌++◌, Option, none, some, ◌>>=◌, if◌then◌else◌, ◌==◌,
  ◌≡◌, refl, ap, arith, all, Text, Bool-cases, inl, inr,
}
use zebrafish.Config.Shell.{is_safe, escape_quotes, shell_quote}

-- Where a shell stands in a word.
pub data Quoting : Type 0 where
  bare in_quotes after_backslash : Quoting

-- What a POSIX shell may give a meaning outside quotes: the operators and the characters that must
-- be quoted, those that must be under circumstances, the braces, and all that is no visible ASCII
-- character; a backslash and a single quote are read apart.
unfoldable pub is_special : ℕ → Bool
is_special c =
    leb c 32
    || leb 127 c
    || c == b'|'
    || c == b'&'
    || c == b';'
    || c == b'<'
    || c == b'>'
    || c == b'('
    || c == b')'
    || c == b'$'
    || c == b'`'
    || c == b'"'
    || c == b'*'
    || c == b'?'
    || c == b'['
    || c == b']'
    || c == b'#'
    || c == b'~'
    || c == b'!'
    || c == b'{'
    || c == b'}'
    || c == b'^'

-- The value of a word: between single quotes every character stands for itself; outside them a
-- backslash takes the next character as it is, and a character that may have a meaning to the
-- shell makes it no plain word. `none` also means that the text ends inside a quotation.
unfoldable pub word_value : Quoting → Text → Option Text
word_value bare [] = some []
word_value in_quotes [] = none
word_value after_backslash [] = none
word_value in_quotes (c ∷ cs) =
    let plain = (do rest ← word_value in_quotes cs; some (c ∷ rest)) in
    let closed = word_value bare cs in if c == b'\'' then closed else plain
word_value after_backslash (c ∷ cs) = do rest ← word_value bare cs; some (c ∷ rest)
word_value bare (c ∷ cs) =
    let quoted = word_value in_quotes cs in
    let escaped = word_value after_backslash cs in
    let plain = (do rest ← word_value bare cs; some (c ∷ rest)) in
    if c == b'\''
    then quoted
    else if c == b'\\'
    then escaped
    else if is_special c
    then none
    else plain

is_safe-is_special : (c : ℕ) → is_safe c ≡ true → is_special c ≡ false
unfolding is_safe is_special
is_safe-is_special c h = ground (arith, h)

word_value_safe : (s : Text) → all is_safe s ≡ true → word_value bare s ≡ some s
unfolding word_value is_safe
word_value_safe [] h = refl
word_value_safe (c ∷ cs) h =
    let safe : is_safe c ≡ true = unfold is_safe in ground (arith, h) in
    let plain : is_special c ≡ false = is_safe-is_special c safe in
    let no_quote : (c == b'\'') ≡ false = ground (arith, safe) in
    let no_backslash : (c == b'\\') ≡ false = ground (arith, safe) in
    rw (no_quote, no_backslash, plain, word_value_safe cs (ground (arith, h))) refl

word_value-escape_quotes :
    (s : Text) → word_value in_quotes (escape_quotes s ++ (b'\'' ∷ [])) ≡ some s
unfolding word_value escape_quotes
word_value-escape_quotes [] = refl
word_value-escape_quotes (c ∷ cs) = elim (Bool-cases (c == b'\'')) [
  | inl quote ↦
      let e : b'\'' ≡ c = ground arith in
      rw quote (rw (word_value-escape_quotes cs) (ap (λ d. some (d ∷ cs)) e))
  | inr other ↦ rw other (rw (other, word_value-escape_quotes cs))
]

-- A shell that reads what `shell_quote` writes gets the text back, whatever characters it holds.
pub word_value-shell_quote : (s : Text) → word_value bare (shell_quote s) ≡ some s
unfolding shell_quote word_value
word_value-shell_quote s = elim (Bool-cases (all is_safe s)) [
  | inl safe ↦ rw safe (word_value_safe s safe)
  | inr unsafe ↦ rw unsafe (word_value-escape_quotes s)
]
