-- ===== src/Config/Write/Remove.antt =====
-- package/zebrafish-config/src/remove.rs: what `remove_in_doc` changes.
use zebrafish.Prelude.{
  List, [], ◌∷◌, none, some, Text, text_eq_refl, text_eq_ne, ◌≡◌, ◌≢◌, inl, inr, refl, sym, ap, ◌∙◌,
  Option-cases,
}
use zebrafish.Prelude.Results.{ok, and_then, and_then-eq-ok, ok_injective}
use zebrafish.Config.KeyPath.{Segment, field, index}
use zebrafish.Config.TomlEdit.{TomlEdit, Laws}
use zebrafish.Config.TomlEdit.Paths.{item_at, doc_at, Diverge}
use zebrafish.Config.Write.{remove_in_item, remove_in_doc}
use zebrafish.Config.Write.Removal.{
  Removed, nothing, last, inside, remove_in_item-Removed, item_at_absent, remove_key, remove_absent,
  remove_below,
}
use zebrafish.Config.Write.Below.{item_at-as_table, item_at-field, item_at-index_none, item_at-put}

-- The last segment is a name.
abbrev pub EndsInField : List Segment → Type 0
EndsInField [] = ⊥
EndsInField (field k ∷ []) = Unit {0}
EndsInField (index i ∷ []) = ⊥
EndsInField (_ ∷ s ∷ tail) = EndsInField (s ∷ tail)

module _ {F : Type 0} (T : TomlEdit F) (laws : Laws T) where
  open T use {
    Table, Item, ArrayOfTables, Value, get, put, insert, remove, of_value, of_table, of_tables,
    as_table, tables_len, tables_get, tables_put, as_array_of_tables, new_table, new_tables,
    contains_key, is_table, is_array_of_tables,
  }

  remove_in_item-item_at :
      (p : List Segment) (i : Item) {i' : Item}
      → EndsInField p
      → remove_in_item T i p ≡ ok i'
      → item_at T i' p ≡ none
  remove_in_item-item_at [] i h e = absurd h
  remove_in_item-item_at (index j ∷ []) i h e = absurd h
  remove_in_item-item_at (index j ∷ s ∷ tail) i h e = absurd (unfold remove_in_item in cc)
  remove_in_item-item_at (field k ∷ []) i h e = key_gone (remove_in_item-Removed T laws i k [] e)
    where
      key_gone : {i' : Item} → Removed T laws i k [] i' → item_at T i' (field k ∷ []) ≡ none
      key_gone (nothing n) = n
      key_gone (last {t} table_is) =
          item_at_absent T laws _ k [] (laws.as_table-of_table (remove t k))
            (laws.get-remove t k k ∙ (rw (text_eq_refl k)))
  remove_in_item-item_at (field k ∷ s ∷ tail) i h e =
      gone (remove_in_item-Removed T laws i k (s ∷ tail) e)
        (λ next u inner. remove_in_item-item_at (s ∷ tail) next h inner)
    where
      gone :
          {i' : Item}
          → Removed T laws i k (s ∷ tail) i'
          → ((next u : Item)
              → remove_in_item T next (s ∷ tail) ≡ ok u
              → item_at T u (s ∷ tail) ≡ none)
          → item_at T i' (field k ∷ s ∷ tail) ≡ none
      gone (nothing n) ih = n
      gone (inside {t} {next} {u} table_is present inner) ih =
          item_at-put T laws t k u (s ∷ tail) ∙ ih next u inner

  Removed-Diverge :
      (k : Text) (p : List Segment) (i : Item) {i' : Item} (x : Segment) (q : List Segment)
      → Removed T laws i k p i'
      → ((next u : Item) (s : Segment) (tail q' : List Segment)
          → p ≡ s ∷ tail
          → remove_in_item T next (s ∷ tail) ≡ ok u
          → Diverge (s ∷ tail) q'
          → item_at T u q' ≡ item_at T next q')
      → Diverge (field k ∷ p) (x ∷ q)
      → item_at T i' (x ∷ q) ≡ item_at T i (x ∷ q)
  Removed-Diverge k p i x q (nothing n) ih d = refl
  Removed-Diverge k p i (index j) q (last {t} table_is) ih d =
      item_at-index_none T laws _ j q
      ∙ sym (item_at-as_table T laws i (index j) q table_is ∙ item_at-index_none T laws t j q)
  Removed-Diverge k p i (field j) q (last {t} table_is) ih (inr (same, never)) = absurd never
  Removed-Diverge k p i (field j) q (last {t} table_is) ih (inl ne) =
      let apart : k ≢ j = λ e. ne (ap field e) in
      item_at-field T laws _ j q
      ∙ (rw (laws.get-remove t k j, text_eq_ne k j apart))
      ∙ sym (item_at-as_table T laws i (field j) q table_is ∙ item_at-field T laws t j q)
  Removed-Diverge k p i (index j) q (inside {t} table_is present inner) ih d =
      item_at-index_none T laws _ j q
      ∙ sym (item_at-as_table T laws i (index j) q table_is ∙ item_at-index_none T laws t j q)
  Removed-Diverge k p i (field j) q (inside {t} {next} {u} table_is present inner) ih (inl ne) =
      let apart : k ≢ j = λ e. ne (ap field e) in
      item_at-field T laws _ j q
      ∙ (rw (laws.get-put t k j u, text_eq_ne k j apart))
      ∙ sym (item_at-as_table T laws i (field j) q table_is ∙ item_at-field T laws t j q)
  Removed-Diverge k p i (field j) q (inside {t} {next} {u} {s} {q = tail} table_is present inner) ih
        (inr (same, d)) =
      rw (← same) (
        item_at-put T laws t k u q
        ∙ ih next u s tail q refl inner d
        ∙ sym (
            item_at-as_table T laws i (field k) q table_is
            ∙ item_at-field T laws t k q
            ∙ (rw present)))

  remove_in_item-Diverge :
      (p : List Segment) (i : Item) {i' : Item} (q : List Segment)
      → EndsInField p
      → remove_in_item T i p ≡ ok i'
      → Diverge p q
      → item_at T i' q ≡ item_at T i q
  remove_in_item-Diverge [] i q h e d = absurd h
  remove_in_item-Diverge (index j ∷ []) i q h e d = absurd h
  remove_in_item-Diverge (index j ∷ s ∷ tail) i q h e d = absurd (unfold remove_in_item in cc)
  remove_in_item-Diverge (field k ∷ p) i [] h e d = absurd d
  remove_in_item-Diverge (field k ∷ []) i (x ∷ q) h e d =
      Removed-Diverge k [] i x q (remove_in_item-Removed T laws i k [] e)
        (λ next u s tail q' never inner d'. cc) d
  remove_in_item-Diverge (field k ∷ s ∷ tail) i (x ∷ q) h e d =
      Removed-Diverge k (s ∷ tail) i x q (remove_in_item-Removed T laws i k (s ∷ tail) e)
        (λ next u s' tail' q' same inner d'.
          let inner' : remove_in_item T next (s ∷ tail) ≡ ok u = rw same inner in
          let d'' : Diverge (s ∷ tail) q' = rw same d' in
          remove_in_item-Diverge (s ∷ tail) next q' h inner' d'')
        d

  doc_last : (doc : Table) (k : Text) → remove_in_doc T doc (field k ∷ []) ≡ ok (remove doc k)
  unfolding remove_in_doc
  doc_last doc k = refl

  doc_absent :
      (doc : Table) (k : Text) (s : Segment) (p : List Segment)
      → get doc k ≡ none
      → remove_in_doc T doc (field k ∷ s ∷ p) ≡ ok doc
  unfolding remove_in_doc
  doc_absent doc k s p e = rw (e, remove_in_doc)

  doc_present :
      (doc : Table) (k : Text) (s : Segment) (p : List Segment) {item : Item}
      → get doc k ≡ some item
      → remove_in_doc T doc (field k ∷ s ∷ p)
        ≡ and_then (remove_in_item T item (s ∷ p)) (λ u. ok (put doc k u))
  unfolding remove_in_doc
  doc_present doc k s p e = rw (e, remove_in_doc)

  -- A document is changed as the item that is its root table.
  remove_in_doc-item :
      (doc : Table) (k : Text) (p : List Segment) {doc' : Table}
      → remove_in_doc T doc (field k ∷ p) ≡ ok doc'
      → remove_in_item T (of_table doc) (field k ∷ p) ≡ ok (of_table doc')
  remove_in_doc-item doc k [] {doc'} e =
      let changed : remove doc k ≡ doc' = ok_injective (sym (doc_last doc k) ∙ e) in
      remove_key T laws (of_table doc) k (laws.as_table-of_table doc)
      ∙ ap (λ t. ok (of_table t)) changed
  remove_in_doc-item doc k (s ∷ p) {doc'} e = elim (Option-cases (get doc k)) [
    | inl absent ↦
        let same : doc ≡ doc' = ok_injective (sym (doc_absent doc k s p absent) ∙ e) in
        remove_absent T laws (of_table doc) k s p (laws.as_table-of_table doc) absent
        ∙ ap (λ t. ok (of_table t)) same
    | inr (item, present) ↦
        let (u, inner, e') =
          and_then-eq-ok (remove_in_item T item (s ∷ p)) _
            (sym (doc_present doc k s p present) ∙ e) in
        let changed : put doc k u ≡ doc' = ok_injective e' in
        remove_below T laws (of_table doc) k s p (laws.as_table-of_table doc) present
        ∙ (rw inner (ap (λ t. ok (of_table t)) changed))
  ]

  -- After a `remove` of a named key that succeeds nothing stands at its path.
  pub remove_in_doc-doc_at :
      (doc : Table) (key : List Segment) {doc' : Table}
      → EndsInField key
      → remove_in_doc T doc key ≡ ok doc'
      → doc_at T doc' key ≡ none
  unfolding doc_at
  remove_in_doc-doc_at doc [] h e = absurd h
  remove_in_doc-doc_at doc (index i ∷ p) h e = absurd (unfold remove_in_doc in cc)
  remove_in_doc-doc_at doc (field k ∷ p) h e =
      remove_in_item-item_at (field k ∷ p) (of_table doc) h (remove_in_doc-item doc k p e)

  -- Such a `remove` leaves what stands at every path that parts from the key's path.
  pub remove_in_doc-Diverge :
      (doc : Table) (key : List Segment) {doc' : Table} (q : List Segment)
      → EndsInField key
      → remove_in_doc T doc key ≡ ok doc'
      → Diverge key q
      → doc_at T doc' q ≡ doc_at T doc q
  unfolding doc_at
  remove_in_doc-Diverge doc [] q h e d = absurd h
  remove_in_doc-Diverge doc (index i ∷ p) q h e d = absurd (unfold remove_in_doc in cc)
  remove_in_doc-Diverge doc (field k ∷ p) q h e d =
      remove_in_item-Diverge (field k ∷ p) (of_table doc) q h (remove_in_doc-item doc k p e) d
