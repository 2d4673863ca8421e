-- ===== src/Config/Shell.antt =====
-- package/zebrafish-config/src/list.rs: `emit_shell` and `shell_quote`. What the code prints is
-- the list of lines. `to_uppercase` (the Unicode mapping of the standard library) and the
-- `Display` of `toml::Value` are parameters.
pub mod Quote
pub mod Complete
use zebrafish.Prelude.{
  ℕ, zero, suc, ◌+◌, Bool, ◌&&◌, ◌||◌, List, [], ◌∷◌, ◌++◌, if◌then◌else◌, ◌==◌, leb, all, Text,
  text,
}
use zebrafish.Prelude.Decimal.{to_string, is_ascii_digit}
use zebrafish.Config.Value.{
  Value, string, integer, float, boolean, datetime, array, table, Items, no_items, item, Entries,
  no_entries, entry, count_items,
}

unfoldable pub is_safe : ℕ → Bool
is_safe c =
    (leb b'A' c && leb c b'Z')
    || (leb b'a' c && leb c b'z')
    || is_ascii_digit c
    || c == b'_'
    || c == b'-'
    || c == b'.'
    || c == b'/'
    || c == b':'
    || c == b'+'
    || c == b'='

-- `s.replace('\'', "'\\''")`
unfoldable pub escape_quotes : Text → Text
escape_quotes [] = []
escape_quotes (c ∷ cs) =
    if c == b'\'' then b'\'' ∷ b'\\' ∷ b'\'' ∷ b'\'' ∷ escape_quotes cs else c ∷ escape_quotes cs

unfoldable pub shell_quote : Text → Text
shell_quote s = if all is_safe s then s else b'\'' ∷ (escape_quotes s ++ (b'\'' ∷ []))

-- `str::replace('-', "_")`
unfoldable pub underscored : Text → Text
underscored [] = []
underscored (c ∷ cs) = (if c == b'-' then b'_' else c) ∷ underscored cs

-- `[Text]::join("_")`
unfoldable pub join : List Text → Text
join [] = []
join (x ∷ []) = x
join (x ∷ y ∷ ys) = x ++ (b'_' ∷ join (y ∷ ys))

abbrev pub assignment : List Text → Text → Text
assignment prefix value = join prefix ++ (b'=' ∷ value)

-- The name of a table key in a shell variable.
abbrev pub shell_name : (Text → Text) → Text → Text
shell_name to_uppercase k = underscored (to_uppercase k)

module _ {F D : Type 0} (to_uppercase : Text → Text) (display : Value F D → Text) where
  unfoldable mutual
    pub emit_shell : Value F D → List Text → List Text
    emit_shell (table es) prefix = emit_entries es prefix
    emit_shell (array xs) prefix =
        assignment (prefix ++ (text "COUNT" ∷ [])) (to_string (count_items xs))
        ∷ emit_items 0 xs prefix
    emit_shell (string s) prefix = assignment prefix (shell_quote s) ∷ []
    emit_shell other prefix = assignment prefix (display other) ∷ []

    -- The loop over a table.
    pub emit_entries : Entries F D → List Text → List Text
    emit_entries no_entries prefix = []
    emit_entries (entry k v es) prefix =
        emit_shell v (prefix ++ (shell_name to_uppercase k ∷ [])) ++ emit_entries es prefix

    -- The loop over an array; the first argument is the counter of `enumerate`.
    pub emit_items : ℕ → Items F D → List Text → List Text
    emit_items i no_items prefix = []
    emit_items i (item v xs) prefix =
        emit_shell v (prefix ++ (to_string i ∷ [])) ++ emit_items (i + 1) xs prefix
