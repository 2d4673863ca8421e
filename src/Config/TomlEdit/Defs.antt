-- ===== src/Config/TomlEdit/Defs.antt =====
-- The interface to `toml_edit`, for set.rs, remove.rs and add.rs of package/zebrafish-config/src.
use zebrafish.Prelude.{
  ℕ, ◌+◌, ◌<◌, Bool, Option, none, some, if◌then◌else◌, ◌==◌, ltb, is_some, ◌≡◌, Text, text_eq,
}
use zebrafish.Prelude.Int.{ℤ}

-- The types and calls, over the type of `f64`.
pub record TomlEdit (F : Type 0) : Type 1 where
  pub Table : Type 0
  pub Item : Type 0
  pub ArrayOfTables : Type 0
  pub Array : Type 0
  pub Value : Type 0
  -- Tables, by their keys.
  pub new_table : Table
  pub get : Table → Text → Option Item
  pub contains_key : Table → Text → Bool
  pub put : Table → Text → Item → Table
  pub insert : Table → Text → Item → Table
  pub remove : Table → Text → Table
  -- The variants of an item, and the views of it.
  pub of_value : Value → Item
  pub of_table : Table → Item
  pub of_tables : ArrayOfTables → Item
  pub of_array : Array → Item
  pub is_table : Item → Bool
  pub as_table : Item → Option Table
  pub is_array_of_tables : Item → Bool
  pub as_array_of_tables : Item → Option ArrayOfTables
  pub as_array : Item → Option Array
  -- Arrays of tables, and arrays of values.
  pub new_tables : ArrayOfTables
  pub tables_len : ArrayOfTables → ℕ
  pub tables_get : ArrayOfTables → ℕ → Option Table
  pub tables_put : ArrayOfTables → ℕ → Table → ArrayOfTables
  pub tables_push : ArrayOfTables → Table → ArrayOfTables
  pub tables_remove : ArrayOfTables → ℕ → ArrayOfTables
  pub array_len : Array → ℕ
  pub array_remove : Array → ℕ → Array
  -- `Value::from`.
  pub from_bool : Bool → Value
  pub from_i64 : ℤ → Value
  pub from_f64 : F → Value
  pub from_str : Text → Value

-- What the documentation says of them.
pub record Laws {F : Type 0} (T : TomlEdit F) : Type 0 where
  pub get-new : (k : Text) → T.get T.new_table k ≡ none
  pub contains_key-get : (t : T.Table) (k : Text) → T.contains_key t k ≡ is_some (T.get t k)
  pub get-put :
      (t : T.Table) (k j : Text) (i : T.Item)
      → T.get (T.put t k i) j ≡ (if text_eq k j then some i else T.get t j)
  pub get-insert :
      (t : T.Table) (k j : Text) (i : T.Item)
      → T.get (T.insert t k i) j ≡ (if text_eq k j then some i else T.get t j)
  pub get-remove :
      (t : T.Table) (k j : Text)
      → T.get (T.remove t k) j ≡ (if text_eq k j then none else T.get t j)
  pub is_table-as_table : (i : T.Item) → T.is_table i ≡ is_some (T.as_table i)
  pub is_array_of_tables-as :
      (i : T.Item) → T.is_array_of_tables i ≡ is_some (T.as_array_of_tables i)
  pub as_table-of_table : (t : T.Table) → T.as_table (T.of_table t) ≡ some t
  pub as_table-of_tables : (a : T.ArrayOfTables) → T.as_table (T.of_tables a) ≡ none
  pub as_tables-of_tables : (a : T.ArrayOfTables) → T.as_array_of_tables (T.of_tables a) ≡ some a
  pub as_tables-of_table : (t : T.Table) → T.as_array_of_tables (T.of_table t) ≡ none
  -- The variants are disjoint.
  pub as_tables_none :
      (i : T.Item) (t : T.Table) → T.as_table i ≡ some t → T.as_array_of_tables i ≡ none
  pub as_table-of_array : (a : T.Array) → T.as_table (T.of_array a) ≡ none
  pub as_tables-of_array : (a : T.Array) → T.as_array_of_tables (T.of_array a) ≡ none
  pub as_array_none : (i : T.Item) (a : T.Array) → T.as_array i ≡ some a → T.as_table i ≡ none
  pub tables_len-new : T.tables_len T.new_tables ≡ 0
  pub tables_get_is_some :
      (a : T.ArrayOfTables) (i : ℕ) → is_some (T.tables_get a i) ≡ ltb i (T.tables_len a)
  pub tables_get-put :
      (a : T.ArrayOfTables) (i j : ℕ) (t : T.Table)
      → T.tables_get (T.tables_put a i t) j
        ≡ (if i == j then (if ltb i (T.tables_len a) then some t else none) else T.tables_get a j)
  pub tables_get-push :
      (a : T.ArrayOfTables) (t : T.Table) (j : ℕ)
      → T.tables_get (T.tables_push a t) j
        ≡ (if j == T.tables_len a then some t else T.tables_get a j)
  pub tables_len-push :
      (a : T.ArrayOfTables) (t : T.Table) → T.tables_len (T.tables_push a t) ≡ T.tables_len a + 1
  pub tables_get-remove :
      (a : T.ArrayOfTables) (i j : ℕ)
      → i < T.tables_len a
      → T.tables_get (T.tables_remove a i) j
        ≡ (if ltb j i then T.tables_get a j else T.tables_get a (j + 1))
