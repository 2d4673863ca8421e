-- ===== src/Config/Write/Elements.antt =====
-- package/zebrafish-config/src/remove.rs: the removal of an element of an array of tables.
use zebrafish.Prelude.{
  ℕ, ◌+◌, ◌<◌, Bool, true, false, List, [], ◌∷◌, some, Text, ◌≡◌, ◌≢◌, refl, sym, ◌∙◌, ap, arith,
  if◌then◌else◌, ltb, ◌>>=◌, text_eq_refl, text_eq_ne,
}
use zebrafish.Prelude.Results.{ok}
use zebrafish.Config.KeyPath.{Segment, field, index}
use zebrafish.Config.TomlEdit.{TomlEdit, Laws}
use zebrafish.Config.TomlEdit.Paths.{item_at, doc_at}
use zebrafish.Config.Write.{remove_in_item, remove_in_doc}

module _ {F : Type 0} (T : TomlEdit F) (laws : Laws T) where
  open T use {
    Table, Item, ArrayOfTables, get, put, of_table, of_tables, as_table, as_array_of_tables,
    tables_len, tables_get, tables_remove,
  }

  doc_at_field :
      (doc : Table) (s : Text) (q : List Segment)
      → doc_at T doc (field s ∷ q) ≡ (get doc s >>= λ item. item_at T item q)
  unfolding doc_at item_at
  doc_at_field doc s q = rw (laws.as_table-of_table doc) refl

  item_at_index :
      (item : Item) (arr : ArrayOfTables) (j : ℕ) (q : List Segment)
      → as_array_of_tables item ≡ some arr
      → item_at T item (index j ∷ q) ≡ (tables_get arr j >>= λ t. item_at T (of_table t) q)
  unfolding item_at
  item_at_index item arr j q is = rw is refl

  element_at :
      (doc : Table) (s : Text) (item : Item) (arr : ArrayOfTables) (j : ℕ) (q : List Segment)
      → get doc s ≡ some item
      → as_array_of_tables item ≡ some arr
      → doc_at T doc (field s ∷ index j ∷ q) ≡ (tables_get arr j >>= λ t. item_at T (of_table t) q)
  element_at doc s item arr j q present is =
      doc_at_field doc s (index j ∷ q) ∙ rw present (item_at_index item arr j q is)

  tables_get-if :
      (arr : ArrayOfTables) (b : Bool) (j : ℕ)
      → (if b then tables_get arr j else tables_get arr (j + 1))
        ≡ tables_get arr (if b then j else j + 1)
  tables_get-if arr true j = refl
  tables_get-if arr false j = refl

  remove_element :
      (doc : Table) (s : Text) (item : Item) (arr : ArrayOfTables) (i : ℕ)
      → get doc s ≡ some item
      → as_array_of_tables item ≡ some arr
      → i < tables_len arr
      → remove_in_doc T doc (field s ∷ index i ∷ [])
        ≡ ok (put doc s (of_tables (tables_remove arr i)))
  unfolding remove_in_doc remove_in_item
  remove_element doc s item arr i present is inside =
      let short : ltb i (tables_len arr) ≡ true = ground arith in
      rw (remove_in_doc, present, remove_in_item, is, short) refl

  -- A `remove` of an element that there is, of the array of tables of a section, moves the elements
  -- behind it up by one: what was below the element `j + 1` now is below `j`. The elements before it
  -- and the other sections stay as they were.
  pub remove_in_doc-index :
      (doc : Table) (s : Text) (item : Item) (arr : ArrayOfTables) (i : ℕ)
      → get doc s ≡ some item
      → as_array_of_tables item ≡ some arr
      → i < tables_len arr
      → (changed : Table) × (remove_in_doc T doc (field s ∷ index i ∷ []) ≡ ok changed)
        × ((j : ℕ) (q : List Segment)
            → doc_at T changed (field s ∷ index j ∷ q)
              ≡ doc_at T doc (field s ∷ index (if ltb j i then j else j + 1) ∷ q))
        × ((k : Text) (q : List Segment)
            → s ≢ k
            → doc_at T changed (field k ∷ q) ≡ doc_at T doc (field k ∷ q))
  remove_in_doc-index doc s item arr i present is inside =
      let rest = tables_remove arr i in
      let changed = put doc s (of_tables rest) in
      let now_there : get changed s ≡ some (of_tables rest) =
        laws.get-put doc s s (of_tables rest) ∙ rw (text_eq_refl s) refl in
      (
        changed,
        remove_element doc s item arr i present is inside,
        λ j q.
            element_at changed s (of_tables rest) rest j q now_there (laws.as_tables-of_tables rest)
            ∙ ap (λ o. o >>= λ t. item_at T (of_table t) q)
                (laws.tables_get-remove arr i j inside ∙ tables_get-if arr (ltb j i) j)
            ∙ sym (element_at doc s item arr (if ltb j i then j else j + 1) q present is),
        λ k q other.
            doc_at_field changed k q
            ∙ rw (laws.get-put doc s k (of_tables rest), text_eq_ne s k other)
                (sym (doc_at_field doc k q)),
      )
