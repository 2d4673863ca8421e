-- ===== src/Config/Write/Add.antt =====
-- package/zebrafish-config/src/add.rs: what `add` changes.
use zebrafish.Prelude.{
  ℕ, true, false, Option, none, some, Text, text_eq, text_eq_refl, text_eq_ne, if◌then◌else◌, ◌≡◌,
  ◌≢◌, refl, sym, ◌∙◌, arith, Option-cases, inl, inr, subst,
}
use zebrafish.Prelude.Results.{ok, and_then, and_then-eq-ok, ok_or, ok_or-eq-ok, ok_injective}
use zebrafish.Config.TomlEdit.{TomlEdit, Laws}
use zebrafish.Config.Write.{Error, add_table}

module _ {F : Type 0} (T : TomlEdit F) (laws : Laws T) where
  open T use {Table, ArrayOfTables}

  -- The array of tables that a section has, or an empty one if the section is absent.
  abbrev pub array_or_new : Option T.Item → Option ArrayOfTables
  array_or_new none = some T.new_tables
  array_or_new (some item) = T.as_array_of_tables item

  pushed_get :
      (doc : Table) (s : Text) (arr : ArrayOfTables) (k : Text)
      → T.get (T.put doc s (T.of_tables (T.tables_push arr T.new_table))) k
        ≡ (if text_eq s k then some (T.of_tables (T.tables_push arr T.new_table)) else T.get doc k)
  pushed_get doc s arr k = laws.get-put doc s k (T.of_tables (T.tables_push arr T.new_table))

  add_table_present :
      (doc : Table) (s : Text) (item : T.Item)
      → T.get doc s ≡ some item
      → add_table T doc s
        ≡ and_then
            (ok_or (T.as_array_of_tables item) Error.not_an_array_of_tables)
            λ arr. ok (T.put doc s (T.of_tables (T.tables_push arr T.new_table)))
  unfolding add_table
  add_table_present doc s item present =
      let has : T.contains_key doc s ≡ true = laws.contains_key-get doc s ∙ (rw present refl) in
      rw (has, present)

  add_table_absent :
      (doc : Table) (s : Text)
      → T.get doc s ≡ none
      → add_table T doc s
        ≡ ok (
            T.put
              (T.put doc s (T.of_tables T.new_tables))
              s
              (T.of_tables (T.tables_push T.new_tables T.new_table)))
  unfolding add_table
  add_table_absent doc s absent =
      let has : T.contains_key doc s ≡ false = laws.contains_key-get doc s ∙ (rw absent refl) in
      let new_section : T.get (T.put doc s (T.of_tables T.new_tables)) s
          ≡ some (T.of_tables T.new_tables) =
        laws.get-put doc s s (T.of_tables T.new_tables) ∙ (rw (text_eq_refl s)) in
      rw (has, new_section, laws.as_tables-of_tables T.new_tables)

  pushed_last :
      (arr : ArrayOfTables)
      → T.tables_get (T.tables_push arr T.new_table) (T.tables_len arr) ≡ some T.new_table
  pushed_last arr = laws.tables_get-push arr T.new_table (T.tables_len arr) ∙ (ground arith)

  pushed_other :
      (arr : ArrayOfTables) (j : ℕ)
      → j ≢ T.tables_len arr
      → T.tables_get (T.tables_push arr T.new_table) j ≡ T.tables_get arr j
  pushed_other arr j h = laws.tables_get-push arr T.new_table j ∙ (ground arith)

  -- An `add` that succeeds finds an array of tables in the section, or makes an empty one, puts
  -- an empty table behind its tables, which stay in their places, and leaves the other sections.
  pub add_table-eq-ok :
      (doc : Table) (s : Text) (changed : Table)
      → add_table T doc s ≡ ok changed
      → (before : ArrayOfTables) × (after : ArrayOfTables) × (array_or_new (T.get doc s)
          ≡ some before)
        × (T.get changed s ≡ some (T.of_tables after))
        × (T.tables_get after (T.tables_len before) ≡ some T.new_table)
        × ((j : ℕ) → j ≢ T.tables_len before → T.tables_get after j ≡ T.tables_get before j)
        × ((k : Text) → s ≢ k → T.get changed k ≡ T.get doc k)
  add_table-eq-ok doc s changed e = elim (Option-cases (T.get doc s)) [
    | inl absent ↦
        let made = ok_injective (sym (add_table_absent doc s absent) ∙ e) in
        (
          T.new_tables,
          T.tables_push T.new_tables T.new_table,
          rw absent refl,
          subst (λ d. T.get d s ≡ some (T.of_tables (T.tables_push T.new_tables T.new_table))) made
              (pushed_get _ s T.new_tables s ∙ (rw (text_eq_refl s))),
          pushed_last T.new_tables,
          pushed_other T.new_tables,
          λ k h.
              subst (λ d. T.get d k ≡ T.get doc k) made
                (pushed_get _ s T.new_tables k
                  ∙ (rw (text_eq_ne s k h)
                      (laws.get-put doc s k (T.of_tables T.new_tables) ∙ (rw (text_eq_ne s k h))))),
        )
    | inr (item, present) ↦
        let (arr, is_array, result) =
          and_then-eq-ok (ok_or (T.as_array_of_tables item) _) _
            (sym (add_table_present doc s item present) ∙ e) in
        let made = ok_injective result in
        (
          arr,
          T.tables_push arr T.new_table,
          rw present (ok_or-eq-ok _ (T.as_array_of_tables item) is_array),
          subst (λ d. T.get d s ≡ some (T.of_tables (T.tables_push arr T.new_table))) made
              (pushed_get doc s arr s ∙ (rw (text_eq_refl s))),
          pushed_last arr,
          pushed_other arr,
          λ k h.
              subst (λ d. T.get d k ≡ T.get doc k) made
                (pushed_get doc s arr k ∙ (rw (text_eq_ne s k h))),
        )
  ]
