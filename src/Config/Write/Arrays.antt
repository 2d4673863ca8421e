-- ===== src/Config/Write/Arrays.antt =====
-- package/zebrafish-config/src/set.rs: `set_in_array` and the paths below an array of tables.
use zebrafish.Prelude.{
  ℕ, true, false, List, [], ◌∷◌, some, ltb, ◌==◌, ==_iff, Text, text_eq_refl, text_eq_ne, ◌≡◌, ◌≢◌,
  inl, inr, refl, sym, ap, ◌∙◌, arith, Bool-cases, Option-cases,
}
use zebrafish.Prelude.Results.{ok, and_then-eq-ok, ok_injective, ok_or, ok_or-eq-ok}
use zebrafish.Config.KeyPath.{Segment, field, index}
use zebrafish.Config.TomlEdit.{TomlEdit, Laws}
use zebrafish.Config.TomlEdit.Paths.{item_at, Diverge}
use zebrafish.Config.Write.{panicked, ensure_array_of_tables, set_in_table, set_in_array}
use zebrafish.Config.Write.Ensured.{
  ensure_array_absent, ensure_array_present, ensure_array_other, item_at-index, item_at-field_none,
  item_at-as_tables, item_at-new_tables,
}
use zebrafish.Config.Write.Below.{
  item_at-field, item_at-index_none, item_at-put, set_in_table-item_at, set_in_table-Diverge,
}

module _ {F : Type 0} (T : TomlEdit F) (laws : Laws T) where
  open T use {
    Table, Item, ArrayOfTables, Value, get, put, insert, of_value, of_table, of_tables, as_table,
    tables_len, tables_get, tables_put, as_array_of_tables, new_table, new_tables, contains_key,
    is_table, is_array_of_tables,
  }

  -- `holder` is `doc` but for the entry under `k`, and `arr` holds what stood below that entry.
  record DescendsArray (doc : Table) (k : Text) (holder : Table) (arr : ArrayOfTables)
      : Type 0 where
    others : (j : Text) → k ≢ j → get holder j ≡ get doc j
    below :
        (s : Segment) (q : List Segment)
        → item_at T (of_tables arr) (s ∷ q) ≡ item_at T (of_table doc) (field k ∷ s ∷ q)

  array-Descends :
      (doc : Table) (k : Text) {holder : Table} {item : Item} {arr : ArrayOfTables}
      → ensure_array_of_tables T doc k ≡ ok holder
      → get holder k ≡ some item
      → as_array_of_tables item ≡ some arr
      → DescendsArray doc k holder arr
  array-Descends doc k {holder} {item} {arr} ensured got array_is =
      elim (Option-cases (get doc k)) [
        | inl absent ↦
            let doc_is : put doc k (of_tables new_tables) ≡ holder =
              ok_injective (sym (ensure_array_absent T laws doc k absent) ∙ ensured) in
            let stored : get holder k ≡ some (of_tables new_tables) =
              rw (← doc_is) (laws.get-put doc k k (of_tables new_tables) ∙ (rw (text_eq_refl k))) in
            let arr_is : new_tables ≡ arr = cc (laws.as_tables-of_tables new_tables) in
            rw (← arr_is) (record {
              others = λ j ne.
                  rw (← doc_is)
                    (laws.get-put doc k j (of_tables new_tables) ∙ (rw (text_eq_ne k j ne)));
              below = λ s q.
                  item_at-new_tables T laws s q
                  ∙ sym (item_at-field T laws doc k (s ∷ q) ∙ (rw absent));
            })
        | inr (i, present) ↦ elim (Option-cases (as_array_of_tables i)) [
          | inl other ↦ absurd (cc (ensure_array_other T laws doc k present other))
          | inr (b, array_is') ↦
              let doc_is : doc ≡ holder =
                ok_injective
                  (sym (ensure_array_present T laws doc k present array_is') ∙ ensured) in
              let got' : get doc k ≡ some item = rw doc_is got in
              record {
                others = λ j ne. rw doc_is;
                below = λ s q. sym (
                    item_at-field T laws doc k (s ∷ q)
                    ∙ (rw got' (item_at-as_tables T laws item s q array_is)));
              }
        ]
      ]

  -- The write of element `i` of the array under `k`.
  module _ {doc : Table} {k : Text} {holder : Table} {arr : ArrayOfTables}
      (d : DescendsArray doc k holder arr) (i : ℕ) (u : Table) where
    written : Table
    written = put holder k (of_tables (tables_put arr i u))

    written-array :
        (y : Segment) (q : List Segment)
        → item_at T (of_table written) (field k ∷ y ∷ q)
          ≡ item_at T (of_tables (tables_put arr i u)) (y ∷ q)
    unfolding written
    written-array y q = item_at-put T laws holder k (of_tables (tables_put arr i u)) (y ∷ q)

    written_self :
        (q : List Segment)
        → ltb i (tables_len arr) ≡ true
        → item_at T (of_table written) (field k ∷ index i ∷ q) ≡ item_at T (of_table u) q
    written_self q fits =
        written-array (index i) q
        ∙ item_at-index T laws (tables_put arr i u) i q
        ∙ (rw (laws.tables_get-put arr i i u, (==_iff i i).1 refl, fits))

    written-others :
        (x : Segment) (q : List Segment)
        → x ≢ field k
        → item_at T (of_table written) (x ∷ q) ≡ item_at T (of_table doc) (x ∷ q)
    unfolding written
    written-others (index j) q ne =
        item_at-index_none T laws _ j q ∙ sym (item_at-index_none T laws doc j q)
    written-others (field j) q ne =
        let apart : k ≢ j = λ e. ne (ap field (sym e)) in
        item_at-field T laws _ j q
        ∙ (rw (
          laws.get-put holder k j (of_tables (tables_put arr i u)),
          text_eq_ne k j apart,
          d.others j apart,
        ))
        ∙ sym (item_at-field T laws doc j q)

    written-elements :
        (y : Segment) (q : List Segment)
        → y ≢ index i
        → item_at T (of_table written) (field k ∷ y ∷ q)
          ≡ item_at T (of_table doc) (field k ∷ y ∷ q)
    written-elements (field j) q ne =
        written-array (field j) q
        ∙ item_at-field_none T laws (tables_put arr i u) j q
        ∙ sym (item_at-field_none T laws arr j q)
        ∙ d.below (field j) q
    written-elements (index j) q ne =
        let apart : (i == j) ≡ false = ground (arith, λ (e : i ≡ j). ne (ap index (sym e))) in
        written-array (index j) q
        ∙ item_at-index T laws (tables_put arr i u) j q
        ∙ (rw (laws.tables_get-put arr i j u, apart))
        ∙ sym (item_at-index T laws arr j q)
        ∙ d.below (index j) q

  -- What a successful `set_in_array` did.
  record Wrote (doc : Table) (k : Text) (i : ℕ) (rest : List Segment) (v : Value) (doc' : Table)
      : Type 0 where
    holder : Table
    arr : ArrayOfTables
    target : Table
    u : Table
    descends : DescendsArray doc k holder arr
    fits : ltb i (tables_len arr) ≡ true
    target_is : tables_get arr i ≡ some target
    inner : set_in_table T target rest v ≡ ok u
    doc_is : written descends i u ≡ doc'

  set_in_array-Wrote :
      (doc : Table) (k : Text) (i : ℕ) (rest : List Segment) (v : Value) {doc' : Table}
      → set_in_array T doc k i rest v ≡ ok doc'
      → Wrote doc k i rest v doc'
  unfolding set_in_array written
  set_in_array-Wrote doc k i rest v {doc'} e =
      let (holder, ensured, e1) = and_then-eq-ok (ensure_array_of_tables T doc k) _ e in
      let (item, got, e2) = and_then-eq-ok (ok_or (get holder k) panicked) _ e1 in
      let (arr, array_is, e3) = and_then-eq-ok (ok_or (as_array_of_tables item) panicked) _ e2 in
      elim (Bool-cases (ltb i (tables_len arr))) [
        | inl fits ↦
            let e4 = rw fits at e3 in
            let (target, target_is, e5) = and_then-eq-ok (ok_or (tables_get arr i) panicked) _ e4 in
            let (u, inner, e6) = and_then-eq-ok (set_in_table T target rest v) _ e5 in
            record {
              holder = holder;
              arr = arr;
              target = target;
              u = u;
              descends =
                  array-Descends doc k ensured (ok_or-eq-ok _ (get holder k) got)
                    (ok_or-eq-ok _ (as_array_of_tables item) array_is);
              fits = fits;
              target_is = ok_or-eq-ok _ (tables_get arr i) target_is;
              inner = inner;
              doc_is = ok_injective e6;
            }
        | inr beyond ↦ absurd (cc (rw beyond at e3))
      ]

  pub array-item_at :
      (doc : Table) (k : Text) (i : ℕ) (rest : List Segment) (v : Value) {doc' : Table}
      → set_in_array T doc k i rest v ≡ ok doc'
      → item_at T (of_table doc') (field k ∷ index i ∷ rest) ≡ some (of_value v)
  array-item_at doc k i rest v e =
      let w = set_in_array-Wrote doc k i rest v e in
      rw (← w.doc_is) (
        written_self w.descends i w.u rest w.fits
        ∙ set_in_table-item_at T laws rest w.target v w.inner)

  pub array-Diverge :
      (doc : Table) (k : Text) (i : ℕ) (rest : List Segment) (v : Value) {doc' : Table}
      (q : List Segment)
      → set_in_array T doc k i rest v ≡ ok doc'
      → Diverge (field k ∷ index i ∷ rest) q
      → item_at T (of_table doc') q ≡ item_at T (of_table doc) q
  array-Diverge doc k i rest v [] e d = absurd d
  array-Diverge doc k i rest v (x ∷ q) e (inl ne) =
      let w = set_in_array-Wrote doc k i rest v e in
      rw (← w.doc_is) (written-others w.descends i w.u x q (λ p. ne (sym p)))
  array-Diverge doc k i rest v (x ∷ []) e (inr (same, never)) = absurd never
  array-Diverge doc k i rest v (x ∷ y ∷ q) e (inr (same, inl ne)) =
      let w = set_in_array-Wrote doc k i rest v e in
      rw (← w.doc_is, ← same) (written-elements w.descends i w.u y q (λ p. ne (sym p)))
  array-Diverge doc k i rest v (x ∷ y ∷ q) e (inr (same, inr (same', d))) =
      let w = set_in_array-Wrote doc k i rest v e in
      rw (← w.doc_is, ← same, ← same')
        (written_self w.descends i w.u q w.fits
          ∙ set_in_table-Diverge T laws rest w.target v q w.inner d
          ∙ sym (item_at-index T laws w.arr i q ∙ (rw w.target_is))
          ∙ w.descends.below (index i) q)
