-- ===== src/Config/Write/Panics.antt =====
-- package/zebrafish-config/src/set.rs: no `unwrap` of `apply_set` meets nothing.
use zebrafish.Prelude.{
  ℕ, true, false, not, List, [], ◌∷◌, Option, if◌then◌else◌, ltb, Text, text_eq_refl, ◌≡◌, ◌≢◌, inl,
  inr, refl, sym, ◌∙◌, Option-cases,
}
use zebrafish.Prelude.Results.{Result, ok, err, and_then, ok_or}
use zebrafish.Config.KeyPath.{Segment, field, index}
use zebrafish.Config.TomlEdit.{TomlEdit, Laws}
use zebrafish.Config.Write.{
  Error, panicked, out_of_range, next_table, set_in_table, set_in_array, set_in_section, apply_set,
}
use zebrafish.Config.Write.Sections.{ensure_table_absent, ensure_table_present, ensure_table_other}
use zebrafish.Config.Write.Ensured.{ensure_array_absent, ensure_array_present, ensure_array_other}
use zebrafish.Config.Write.Below.{next_table_absent, next_table_present, next_table_other}

and_then-ne {ℓ κ} :
    {A : Type ℓ} {B : Type κ} (m : Result Error A) (f : A → Result Error B)
    → m ≢ err panicked
    → ((a : A) → m ≡ ok a → f a ≢ err panicked)
    → and_then m f ≢ err panicked
and_then-ne (ok a) f h k = k a refl
and_then-ne (err e) f h k = λ p. h (cc)

module _ {F : Type 0} (T : TomlEdit F) (laws : Laws T) where
  open T use {
    Table, Item, ArrayOfTables, Value, get, put, insert, remove, of_value, of_table, of_tables,
    as_table, tables_len, tables_get, tables_put, as_array_of_tables, new_table, new_tables,
    contains_key, is_table, is_array_of_tables,
  }

  next_table-ne : (t : Table) (k : Text) → next_table T t k ≢ err panicked
  next_table-ne t k = elim (Option-cases (get t k)) [
    | inl absent ↦ λ p. cc (next_table_absent T laws t k absent)
    | inr (i, present) ↦ elim (Option-cases (as_table i)) [
      | inl other ↦ λ p. cc (next_table_other T laws t k present other)
      | inr (u, table_is) ↦ λ p. cc (next_table_present T laws t k present table_is)
    ]
  ]

  set_in_table-ne :
      (rest : List Segment) (t : Table) (v : Value) → set_in_table T t rest v ≢ err panicked
  unfolding set_in_table
  set_in_table-ne [] t v = λ p. cc
  set_in_table-ne (field k ∷ []) t v = λ p. cc
  set_in_table-ne (index i ∷ []) t v = λ p. cc
  set_in_table-ne (index i ∷ s ∷ tail) t v = λ p. cc
  set_in_table-ne (field k ∷ s ∷ tail) t v =
      and_then-ne (next_table T t k) _ (next_table-ne t k) (λ d e.
        and_then-ne (set_in_table T d.1 (s ∷ tail) v) _ (set_in_table-ne (s ∷ tail) d.1 v)
          (λ u e'. λ p. cc))

  set_in_section-ne :
      (doc : Table) (k : Text) (rest : List Segment) (v : Value)
      → set_in_section T doc k rest v ≢ err panicked
  unfolding set_in_section
  set_in_section-ne doc k rest v = elim (Option-cases (get doc k)) [
    | inl absent ↦ rw (ensure_table_absent T laws doc k absent) (
        rw (laws.get-put doc k k (of_table new_table), text_eq_refl k)
          (rw (laws.as_table-of_table new_table)
            (finished new_table (put doc k (of_table new_table)))))
    | inr (i, present) ↦ elim (Option-cases (as_table i)) [
      | inl other ↦ rw (ensure_table_other T laws doc k present other) (λ p. cc)
      | inr (u, table_is) ↦
          rw (ensure_table_present T laws doc k present table_is)
            (rw present (rw table_is (finished u doc)))
    ]
  ]
    where
      finished :
          (u holder : Table)
          → and_then (set_in_table T u rest v) (λ changed. ok (put holder k (of_table changed)))
            ≢ err panicked
      finished u holder =
          and_then-ne (set_in_table T u rest v) _ (set_in_table-ne rest u v) (λ w e. λ p. cc)

  set_in_array-ne :
      (doc : Table) (k : Text) (i : ℕ) (rest : List Segment) (v : Value)
      → set_in_array T doc k i rest v ≢ err panicked
  unfolding set_in_array
  set_in_array-ne doc k i rest v = elim (Option-cases (get doc k)) [
    | inl absent ↦ rw (ensure_array_absent T laws doc k absent) (
        rw (laws.get-put doc k k (of_tables new_tables), text_eq_refl k)
          (rw (laws.as_tables-of_tables new_tables)
            (element new_tables (put doc k (of_tables new_tables)))))
    | inr (item, present) ↦ elim (Option-cases (as_array_of_tables item)) [
      | inl other ↦ rw (ensure_array_other T laws doc k present other) (λ p. cc)
      | inr (a, array_is) ↦
          rw (ensure_array_present T laws doc k present array_is)
            (rw present (rw array_is (element a doc)))
    ]
  ]
    where
      element :
          (a : ArrayOfTables) (holder : Table)
          → (if not (ltb i (tables_len a))
              then err out_of_range
              else and_then (ok_or (tables_get a i) panicked) λ target.
                and_then
                  (set_in_table T target rest v)
                  λ changed. ok (put holder k (of_tables (tables_put a i changed))))
            ≢ err panicked
      element a holder = elim (Option-cases (tables_get a i)) [
        | inl missing ↦
            let beyond : ltb i (tables_len a) ≡ false =
              sym (laws.tables_get_is_some a i) ∙ (rw missing) in
            rw beyond (λ p. cc)
        | inr (target, found) ↦
            let fits : ltb i (tables_len a) ≡ true =
              sym (laws.tables_get_is_some a i) ∙ (rw found) in
            rw (fits, found)
              (and_then-ne (set_in_table T target rest v) _ (set_in_table-ne rest target v)
                (λ w e. λ p. cc))
      ]

module _ {F : Type 0} (T : TomlEdit F) (laws : Laws T) (parse_f64 : Text → Option F) where
  open T use {Table}

  -- `set` never panics: on every document, key path and value each `unwrap` has a value.
  pub apply_set-ne-panicked :
      (doc : Table) (key : List Segment) (raw : Text)
      → apply_set T parse_f64 doc key raw ≢ err panicked
  unfolding apply_set
  apply_set-ne-panicked doc [] raw = λ p. cc
  apply_set-ne-panicked doc (index i ∷ tail) raw = λ p. cc
  apply_set-ne-panicked doc (field k ∷ []) raw = set_in_section-ne T laws doc k [] _
  apply_set-ne-panicked doc (field k ∷ field j ∷ rest) raw =
      set_in_section-ne T laws doc k (field j ∷ rest) _
  apply_set-ne-panicked doc (field k ∷ index i ∷ rest) raw = set_in_array-ne T laws doc k i rest _
