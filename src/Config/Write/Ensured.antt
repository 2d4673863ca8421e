-- ===== src/Config/Write/Ensured.antt =====
-- package/zebrafish-config/src/set.rs: `ensure_array_of_tables`, and the paths below an array.
use zebrafish.Prelude.{
  ℕ, List, ◌∷◌, none, some, Text, ◌≡◌, inl, inr, ◌∙◌, arith, Option-cases, ◌>>=◌,
}
use zebrafish.Prelude.Results.{ok, err}
use zebrafish.Config.KeyPath.{Segment, field, index}
use zebrafish.Config.TomlEdit.{TomlEdit, Laws}
use zebrafish.Config.TomlEdit.Paths.{item_at}
use zebrafish.Config.Write.{not_an_array_of_tables, ensure_array_of_tables}

module _ {F : Type 0} (T : TomlEdit F) (laws : Laws T) where
  open T use {
    Table, Item, ArrayOfTables, Value, get, put, insert, of_value, of_table, of_tables, as_table,
    tables_len, tables_get, tables_put, as_array_of_tables, new_table, new_tables, contains_key,
    is_table, is_array_of_tables,
  }

  pub ensure_array_absent :
      (doc : Table) (k : Text)
      → get doc k ≡ none
      → ensure_array_of_tables T doc k ≡ ok (put doc k (of_tables new_tables))
  unfolding ensure_array_of_tables
  ensure_array_absent doc k e = rw (laws.contains_key-get doc k, e)

  pub ensure_array_present :
      (doc : Table) (k : Text) {i : Item} {a : ArrayOfTables}
      → get doc k ≡ some i
      → as_array_of_tables i ≡ some a
      → ensure_array_of_tables T doc k ≡ ok doc
  unfolding ensure_array_of_tables
  ensure_array_present doc k {i} e f =
      rw (laws.contains_key-get doc k, e) (rw (laws.is_array_of_tables-as i, f))

  pub ensure_array_other :
      (doc : Table) (k : Text) {i : Item}
      → get doc k ≡ some i
      → as_array_of_tables i ≡ none
      → ensure_array_of_tables T doc k ≡ err not_an_array_of_tables
  unfolding ensure_array_of_tables
  ensure_array_other doc k {i} e f =
      rw (laws.contains_key-get doc k, e) (rw (laws.is_array_of_tables-as i, f))

  pub item_at-index :
      (a : ArrayOfTables) (i : ℕ) (rest : List Segment)
      → item_at T (of_tables a) (index i ∷ rest)
        ≡ (tables_get a i >>= λ t. item_at T (of_table t) rest)
  unfolding item_at
  item_at-index a i rest = rw (laws.as_tables-of_tables a)

  pub item_at-field_none :
      (a : ArrayOfTables) (k : Text) (rest : List Segment)
      → item_at T (of_tables a) (field k ∷ rest) ≡ none
  unfolding item_at
  item_at-field_none a k rest = rw (laws.as_table-of_tables a)

  no_table : (i : Item) {a : ArrayOfTables} → as_array_of_tables i ≡ some a → as_table i ≡ none
  no_table i {a} e = elim (Option-cases (as_table i)) [
    | inl none_is ↦ none_is
    | inr (t, table_is) ↦ absurd (cc (laws.as_tables_none i t table_is))
  ]

  -- Below an item that is an array of tables the paths go on in that array.
  pub item_at-as_tables :
      (i : Item) {a : ArrayOfTables} (s : Segment) (rest : List Segment)
      → as_array_of_tables i ≡ some a
      → item_at T i (s ∷ rest) ≡ item_at T (of_tables a) (s ∷ rest)
  unfolding item_at
  item_at-as_tables i {a} (field k) rest e = rw (no_table i e, laws.as_table-of_tables a)
  item_at-as_tables i {a} (index j) rest e = rw (e, laws.as_tables-of_tables a)

  tables_get-new : (i : ℕ) → tables_get new_tables i ≡ none
  tables_get-new i = elim (Option-cases (tables_get new_tables i)) [
    | inl none_is ↦ none_is
    | inr (t, some_is) ↦
        absurd (ground (arith, some_is, laws.tables_get_is_some new_tables i, laws.tables_len-new))
  ]

  pub item_at-new_tables :
      (s : Segment) (q : List Segment) → item_at T (of_tables new_tables) (s ∷ q) ≡ none
  item_at-new_tables (field k) q = item_at-field_none new_tables k q
  item_at-new_tables (index i) q = item_at-index new_tables i q ∙ (rw (tables_get-new i))
