-- ===== src/Config/Write.antt =====
-- The commands that change a document, in package/zebrafish-config/src: `apply_set` and
-- `parse_value` of set.rs, `remove_in_doc` of remove.rs, and the change that add.rs makes.
-- A result carries the changed document; on an error the program drops the document.
pub mod Below
mod Sections
mod Ensured
mod Arrays
pub mod Set
pub mod Panics
mod Removal
pub mod Elements
pub mod Success
pub mod Removable
pub mod Remove
pub mod Add
use zebrafish.Prelude.{
  ℕ, Bool, true, false, not, List, [], ◌∷◌, Option, none, some, if◌then◌else◌, ltb, Text, text,
  text_eq,
}
use zebrafish.Prelude.Int.{ℤ, parse_i64}
use zebrafish.Prelude.Results.{Result, ok, err, and_then, ok_or}
use zebrafish.Config.KeyPath.{Segment, field, index}
use zebrafish.Config.TomlEdit.{TomlEdit}

-- The messages of `bail!`, and `panicked` for an `unwrap` of nothing.
pub data Error : Type 0 where
  empty_key_path no_section not_a_table not_an_array_of_tables out_of_range : Error
  empty_segments assign_to_index nested_index panicked : Error

-- `parse::<bool>()`
unfoldable pub parse_bool : Text → Option Bool
parse_bool s =
    if text_eq s (text "true")
    then some true
    else if text_eq s (text "false")
    then some false
    else none

module _ {F : Type 0} (T : TomlEdit F) where
  open T use {
    Table, Item, ArrayOfTables, Value, new_table, get, contains_key, put, insert, remove, of_value,
    of_table, of_tables, of_array, is_table, as_table, is_array_of_tables, as_array_of_tables,
    as_array, new_tables, tables_len, tables_get, tables_put, tables_push, tables_remove, array_len,
    array_remove, from_bool, from_i64, from_f64, from_str,
  }

  unfoldable pub ensure_table : Table → Text → Result Error Table
  ensure_table doc section =
      if not (contains_key doc section)
      then ok (put doc section (of_table new_table))
      else and_then (ok_or (get doc section) panicked)
          λ item. if not (is_table item) then err not_a_table else ok doc

  unfoldable pub ensure_array_of_tables : Table → Text → Result Error Table
  ensure_array_of_tables doc section =
      if not (contains_key doc section)
      then ok (put doc section (of_tables new_tables))
      else and_then (ok_or (get doc section) panicked)
          λ item. if not (is_array_of_tables item) then err not_an_array_of_tables else ok doc

  -- The table that `set_in_table` goes down to, and the table that then holds it.
  unfoldable pub next_table : Table → Text → Result Error (Table × Table)
  next_table table name =
      if not (contains_key table name)
      then ok (insert table name (of_table new_table), new_table)
      else and_then (ok_or (get table name) panicked) λ existing.
        if not (is_table existing)
        then err not_a_table
        else and_then (ok_or (as_table existing) panicked) λ next. ok (table, next)

  unfoldable pub set_in_table : Table → List Segment → Value → Result Error Table
  set_in_table table [] parsed = err empty_segments
  set_in_table table (field name ∷ []) parsed = ok (insert table name (of_value parsed))
  set_in_table table (index _ ∷ []) parsed = err assign_to_index
  set_in_table table (field name ∷ s ∷ tail) parsed =
      and_then (next_table table name) λ (holder, next).
        and_then (set_in_table next (s ∷ tail) parsed)
          λ changed. ok (put holder name (of_table changed))
  set_in_table table (index _ ∷ s ∷ tail) parsed = err nested_index

  -- `section[i].rest = value`, in the array of tables.
  unfoldable pub set_in_array : Table → Text → ℕ → List Segment → Value → Result Error Table
  set_in_array doc section i rest parsed = and_then (ensure_array_of_tables doc section) λ doc'.
      and_then (ok_or (get doc' section) panicked) λ item.
        and_then (ok_or (as_array_of_tables item) panicked) λ arr.
          if not (ltb i (tables_len arr))
          then err out_of_range
          else and_then (ok_or (tables_get arr i) panicked) λ target.
            and_then (set_in_table target rest parsed)
              λ changed. ok (put doc' section (of_tables (tables_put arr i changed)))

  -- `section.rest = value`, in the table.
  unfoldable pub set_in_section : Table → Text → List Segment → Value → Result Error Table
  set_in_section doc section rest parsed = and_then (ensure_table doc section) λ doc'.
      and_then (ok_or (get doc' section) panicked) λ item.
        and_then (ok_or (as_table item) panicked) λ target.
          and_then (set_in_table target rest parsed)
            λ changed. ok (put doc' section (of_table changed))

  -- `remove_in_item`: the item once the removal is done.
  unfoldable pub remove_in_item : Item → List Segment → Result Error Item
  remove_in_item item [] = err empty_segments
  remove_in_item item (field name ∷ []) = elim (as_table item) [
    | some t ↦ ok (of_table (remove t name))
    | none ↦ ok item
  ]
  remove_in_item item (index i ∷ []) = elim (as_array_of_tables item) [
    | some arr ↦ if ltb i (tables_len arr) then ok (of_tables (tables_remove arr i)) else ok item
    | none ↦ elim (as_array item) [
      | some arr ↦ if ltb i (array_len arr) then ok (of_array (array_remove arr i)) else ok item
      | none ↦ ok item
    ]
  ]
  remove_in_item item (field name ∷ s ∷ tail) = elim (as_table item) [
    | some t ↦ elim (get t name) [
      | some next ↦
          and_then (remove_in_item next (s ∷ tail)) λ changed. ok (of_table (put t name changed))
      | none ↦ ok item
    ]
    | none ↦ ok item
  ]
  remove_in_item item (index _ ∷ s ∷ tail) = err nested_index

  unfoldable pub remove_in_doc : Table → List Segment → Result Error Table
  remove_in_doc doc [] = err empty_key_path
  remove_in_doc doc (index _ ∷ tail) = err no_section
  remove_in_doc doc (field section ∷ []) = ok (remove doc section)
  remove_in_doc doc (field section ∷ s ∷ tail) = elim (get doc section) [
    | none ↦ ok doc
    | some item ↦ and_then (remove_in_item item (s ∷ tail)) λ changed. ok (put doc section changed)
  ]

  -- The change of `add_inner`: `doc.entry(section).or_insert(..)`, then a push.
  unfoldable pub add_table : Table → Text → Result Error Table
  add_table doc section =
      let doc' =
        (if contains_key doc section then doc else put doc section (of_tables new_tables)) in
      and_then (ok_or (get doc' section) panicked) λ item.
        and_then (ok_or (as_array_of_tables item) not_an_array_of_tables)
          λ arr. ok (put doc' section (of_tables (tables_push arr new_table)))

module _ {F : Type 0} (T : TomlEdit F) (parse_f64 : Text → Option F) where
  open T use {Table, Value, from_bool, from_i64, from_f64, from_str}

  unfoldable pub parse_value : Text → Value
  parse_value raw = elim (parse_bool raw) [
    | some b ↦ from_bool b
    | none ↦ elim (parse_i64 raw) [
      | some i ↦ from_i64 i
      | none ↦ elim (parse_f64 raw) [ some f ↦ from_f64 f | none ↦ from_str raw ]
    ]
  ]

  unfoldable pub apply_set : Table → List Segment → Text → Result Error Table
  apply_set doc [] raw = err empty_key_path
  apply_set doc (index _ ∷ tail) raw = err no_section
  apply_set doc (field section ∷ index i ∷ rest) raw =
      set_in_array T doc section i rest (parse_value raw)
  apply_set doc (field section ∷ []) raw = set_in_section T doc section [] (parse_value raw)
  apply_set doc (field section ∷ field k ∷ rest) raw =
      set_in_section T doc section (field k ∷ rest) (parse_value raw)
