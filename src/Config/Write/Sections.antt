-- ===== src/Config/Write/Sections.antt =====
-- package/zebrafish-config/src/set.rs: `set_in_section` and the paths below a section.
use zebrafish.Prelude.{
  List, [], ◌∷◌, none, some, Text, text_eq_refl, text_eq_ne, ◌≡◌, inl, inr, sym, ◌∙◌, Option-cases,
}
use zebrafish.Prelude.Results.{ok, err, and_then-eq-ok, ok_injective, ok_or, ok_or-eq-ok}
use zebrafish.Config.KeyPath.{Segment, field}
use zebrafish.Config.TomlEdit.{TomlEdit, Laws}
use zebrafish.Config.TomlEdit.Paths.{item_at, Diverge}
use zebrafish.Config.Write.{panicked, not_a_table, ensure_table, set_in_table, set_in_section}
use zebrafish.Config.Write.Below.{
  Descends, Descends-new, Descends-existing, item_at-put, write-Diverge, set_in_table-item_at,
}

module _ {F : Type 0} (T : TomlEdit F) (laws : Laws T) where
  open T use {
    Table, Item, ArrayOfTables, Value, get, put, insert, of_value, of_table, of_tables, as_table,
    tables_len, tables_get, tables_put, as_array_of_tables, new_table, new_tables, contains_key,
    is_table, is_array_of_tables,
  }

  -- The outcomes of `ensure_table`.
  pub ensure_table_absent :
      (doc : Table) (k : Text)
      → get doc k ≡ none
      → ensure_table T doc k ≡ ok (put doc k (of_table new_table))
  unfolding ensure_table
  ensure_table_absent doc k e = rw (laws.contains_key-get doc k, e)

  pub ensure_table_present :
      (doc : Table) (k : Text) {i : Item} {u : Table}
      → get doc k ≡ some i
      → as_table i ≡ some u
      → ensure_table T doc k ≡ ok doc
  unfolding ensure_table
  ensure_table_present doc k {i} e f =
      rw (laws.contains_key-get doc k, e) (rw (laws.is_table-as_table i, f))

  pub ensure_table_other :
      (doc : Table) (k : Text) {i : Item}
      → get doc k ≡ some i
      → as_table i ≡ none
      → ensure_table T doc k ≡ err not_a_table
  unfolding ensure_table
  ensure_table_other doc k {i} e f =
      rw (laws.contains_key-get doc k, e) (rw (laws.is_table-as_table i, f))

  section-Descends :
      (doc : Table) (k : Text) {doc' target : Table} {item : Item}
      → ensure_table T doc k ≡ ok doc'
      → get doc' k ≡ some item
      → as_table item ≡ some target
      → Descends T laws doc k doc' target
  section-Descends doc k {doc'} {target} {item} ensured got table_is =
      elim (Option-cases (get doc k)) [
        | inl absent ↦
            let doc_is : put doc k (of_table new_table) ≡ doc' =
              ok_injective (sym (ensure_table_absent doc k absent) ∙ ensured) in
            let stored : get doc' k ≡ some (of_table new_table) =
              rw (← doc_is) (laws.get-put doc k k (of_table new_table) ∙ (rw (text_eq_refl k))) in
            let target_is : new_table ≡ target = cc (laws.as_table-of_table new_table) in
            rw (← doc_is, ← target_is)
              (Descends-new T laws doc k absent
                (λ j ne. laws.get-put doc k j (of_table new_table) ∙ (rw (text_eq_ne k j ne))))
        | inr (i, present) ↦ elim (Option-cases (as_table i)) [
          | inl other ↦ absurd (cc (ensure_table_other doc k present other))
          | inr (u, table_is') ↦
              let doc_is : doc ≡ doc' =
                ok_injective (sym (ensure_table_present doc k present table_is') ∙ ensured) in
              rw (← doc_is) (Descends-existing T laws doc k (rw doc_is got) table_is)
        ]
      ]

  pub section-item_at :
      (doc : Table) (k : Text) (rest : List Segment) (v : Value) {doc' : Table}
      → set_in_section T doc k rest v ≡ ok doc'
      → item_at T (of_table doc') (field k ∷ rest) ≡ some (of_value v)
  unfolding set_in_section
  section-item_at doc k rest v {doc'} e =
      let (holder, ensured, e1) = and_then-eq-ok (ensure_table T doc k) _ e in
      let (item, got, e2) = and_then-eq-ok (ok_or (get holder k) panicked) _ e1 in
      let (target, table_is, e3) = and_then-eq-ok (ok_or (as_table item) panicked) _ e2 in
      let (u, inner, e4) = and_then-eq-ok (set_in_table T target rest v) _ e3 in
      let doc_is : put holder k (of_table u) ≡ doc' = ok_injective e4 in
      rw (← doc_is) (
        item_at-put T laws holder k (of_table u) rest
        ∙ set_in_table-item_at T laws rest target v inner)

  pub section-Diverge :
      (doc : Table) (k : Text) (rest : List Segment) (v : Value) {doc' : Table} (q : List Segment)
      → set_in_section T doc k rest v ≡ ok doc'
      → Diverge (field k ∷ rest) q
      → item_at T (of_table doc') q ≡ item_at T (of_table doc) q
  unfolding set_in_section
  section-Diverge doc k rest v [] e d = absurd d
  section-Diverge doc k rest v {doc'} (x ∷ q) e d =
      let (holder, ensured, e1) = and_then-eq-ok (ensure_table T doc k) _ e in
      let (item, got, e2) = and_then-eq-ok (ok_or (get holder k) panicked) _ e1 in
      let (target, table_is, e3) = and_then-eq-ok (ok_or (as_table item) panicked) _ e2 in
      let (u, inner, e4) = and_then-eq-ok (set_in_table T target rest v) _ e3 in
      let doc_is : put holder k (of_table u) ≡ doc' = ok_injective e4 in
      let down =
        section-Descends doc k ensured (ok_or-eq-ok _ (get holder k) got)
          (ok_or-eq-ok _ (as_table item) table_is) in
      rw (← doc_is) (write-Diverge T laws down u rest v inner x q d)
