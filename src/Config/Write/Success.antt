-- ===== src/Config/Write/Success.antt =====
-- package/zebrafish-config/src/set.rs: when `apply_set` succeeds.
use zebrafish.Prelude.{
  ℕ, true, false, not, if◌then◌else◌, arith, List, [], ◌∷◌, Option, none, some, ltb, Text,
  text_eq_refl, ◌≡◌, ◌↔◌, inl, inr, refl, sym, ◌∙◌, Option-cases,
}
use zebrafish.Prelude.Results.{Result, ok, err, and_then, ok_or}
use zebrafish.Config.KeyPath.{Segment, field, index}
use zebrafish.Config.TomlEdit.{TomlEdit, Laws}
use zebrafish.Config.Write.{
  Error, out_of_range, panicked, parse_value, set_in_table, set_in_array, set_in_section, apply_set,
}
use zebrafish.Config.Write.Sections.{ensure_table_absent, ensure_table_present, ensure_table_other}
use zebrafish.Config.Write.Ensured.{ensure_array_absent, ensure_array_present, ensure_array_other}
use zebrafish.Config.Write.Below.{next_table_absent, next_table_present, next_table_other}

-- The condition on what there is, which fails if there is nothing.
abbrev pub Given : {A : Type 0} → Option A → (A → Type 0) → Type 0
Given none P = ⊥
Given (some a) P = P a

abbrev pub IsOk {ℓ} : {A : Type ℓ} → Result Error A → Type 0
IsOk (ok a) = Unit {0}
IsOk (err e) = ⊥

pub and_then-IsOk :
    {P A B : Type 0} (m : Result Error A) (g : A → B)
    → (P ↔ IsOk m)
    → (P ↔ IsOk (and_then m (λ a. ok (g a))))
and_then-IsOk (ok a) g h = h
and_then-IsOk (err e) g h = h

pub IsOk-ok : {A : Type 0} (m : Result Error A) → IsOk m ↔ ((a : A) × (m ≡ ok a))
IsOk-ok (ok a) = ((λ h. (a, refl)), λ h. tt)
IsOk-ok (err e) = ((λ h. absurd h), λ (a, h). cc)

module _ {F : Type 0} (T : TomlEdit F) where
  open T use {Table, Item, ArrayOfTables, get, as_table, tables_get, as_array_of_tables, new_table}

  -- The condition on the table that stands at a name, or on the new one that is put there.
  abbrev pub TableAt : Option Item → (Table → Type 0) → Type 0
  TableAt none P = P new_table
  TableAt (some item) P = Given (as_table item) P

  -- All that the path meets in the table, but for its end, are tables, and it has names only.
  abbrev pub CanSetIn : Table → List Segment → Type 0
  CanSetIn t [] = ⊥
  CanSetIn t (field k ∷ []) = Unit {0}
  CanSetIn t (field k ∷ s ∷ rest) = TableAt (get t k) (λ u. CanSetIn u (s ∷ rest))
  CanSetIn t (index i ∷ rest) = ⊥

  -- The path names a key below a section that is a table or absent, or below an element that is
  -- there of a section that is an array of tables.
  abbrev pub CanSet : Table → List Segment → Type 0
  CanSet doc (field section ∷ field k ∷ rest) =
      TableAt (get doc section) (λ u. CanSetIn u (field k ∷ rest))
  CanSet doc (field section ∷ index i ∷ rest) = Given (get doc section) (λ item.
      Given (as_array_of_tables item) (λ arr. Given (tables_get arr i) (λ u. CanSetIn u rest)))
  CanSet doc _ = ⊥

module _ {F : Type 0} (T : TomlEdit F) (laws : Laws T) where
  open T use {
    Table, Item, ArrayOfTables, Value, get, put, insert, of_value, of_table, of_tables, as_table,
    tables_len, tables_get, tables_put, as_array_of_tables, new_table, new_tables,
  }

  set_in_table-IsOk :
      (rest : List Segment) (t : Table) (v : Value)
      → CanSetIn T t rest ↔ IsOk (set_in_table T t rest v)
  unfolding set_in_table
  set_in_table-IsOk [] t v = ((λ h. h), λ h. h)
  set_in_table-IsOk (field k ∷ []) t v = ((λ h. h), λ h. h)
  set_in_table-IsOk (index i ∷ []) t v = ((λ h. h), λ h. h)
  set_in_table-IsOk (index i ∷ s ∷ tail) t v = ((λ h. h), λ h. h)
  set_in_table-IsOk (field k ∷ s ∷ tail) t v = elim (Option-cases (get t k)) [
    | inl absent ↦
        rw (absent, next_table_absent T laws t k absent)
          (and_then-IsOk (set_in_table T new_table (s ∷ tail) v) _
            (set_in_table-IsOk (s ∷ tail) new_table v))
    | inr (i, present) ↦ elim (Option-cases (as_table i)) [
      | inl other ↦
          rw (next_table_other T laws t k present other)
            (rw (present, TableAt, other) ((λ h. h), λ h. h))
      | inr (u, table_is) ↦ rw (next_table_present T laws t k present table_is) (
          rw (present, TableAt, table_is)
            (and_then-IsOk (set_in_table T u (s ∷ tail) v) _ (set_in_table-IsOk (s ∷ tail) u v)))
    ]
  ]

  set_in_section-IsOk :
      (doc : Table) (k : Text) (rest : List Segment) (v : Value)
      → TableAt T (get doc k) (λ u. CanSetIn T u rest) ↔ IsOk (set_in_section T doc k rest v)
  unfolding set_in_section
  set_in_section-IsOk doc k rest v = elim (Option-cases (get doc k)) [
    | inl absent ↦
        rw (absent, ensure_table_absent T laws doc k absent)
          (rw (laws.get-put doc k k (of_table new_table), text_eq_refl k)
            (rw (laws.as_table-of_table new_table) (
              and_then-IsOk (set_in_table T new_table rest v) _
                (set_in_table-IsOk rest new_table v))))
    | inr (i, present) ↦ elim (Option-cases (as_table i)) [
      | inl other ↦
          rw (ensure_table_other T laws doc k present other)
            (rw (present, TableAt, other) ((λ h. h), λ h. h))
      | inr (u, table_is) ↦ rw (ensure_table_present T laws doc k present table_is) (
          rw (present, TableAt, table_is)
            (and_then-IsOk (set_in_table T u rest v) _ (set_in_table-IsOk rest u v)))
    ]
  ]

  element-IsOk :
      (holder : Table) (k : Text) (arr : ArrayOfTables) (i : ℕ) (rest : List Segment) (v : Value)
      → Given (tables_get arr i) (λ u. CanSetIn T u rest)
        ↔ IsOk (
            if not (ltb i (tables_len arr))
            then err out_of_range
            else and_then (ok_or (tables_get arr i) panicked) λ target.
              and_then
                (set_in_table T target rest v)
                λ changed. ok (put holder k (of_tables (tables_put arr i changed))))
  element-IsOk holder k arr i rest v = elim (Option-cases (tables_get arr i)) [
    | inl missing ↦
        let beyond : ltb i (tables_len arr) ≡ false =
          sym (laws.tables_get_is_some arr i) ∙ (rw missing) in
        rw (beyond, missing) ((λ h. h), λ h. h)
    | inr (target, found) ↦
        let fits : ltb i (tables_len arr) ≡ true =
          sym (laws.tables_get_is_some arr i) ∙ (rw found) in
        rw (fits, found)
          (and_then-IsOk (set_in_table T target rest v) _ (set_in_table-IsOk rest target v))
  ]

  set_in_array-IsOk :
      (doc : Table) (k : Text) (i : ℕ) (rest : List Segment) (v : Value)
      → Given (get doc k) (λ item.
        Given (as_array_of_tables item) (λ arr. Given (tables_get arr i) (λ u. CanSetIn T u rest)))
        ↔ IsOk (set_in_array T doc k i rest v)
  unfolding set_in_array
  set_in_array-IsOk doc k i rest v = elim (Option-cases (get doc k)) [
    | inl absent ↦
        let beyond : ltb i (tables_len new_tables) ≡ false = ground (arith, laws.tables_len-new) in
        rw (absent, ensure_array_absent T laws doc k absent)
          (rw (laws.get-put doc k k (of_tables new_tables), text_eq_refl k)
            (rw (laws.as_tables-of_tables new_tables) (rw beyond ((λ h. h), λ h. h))))
    | inr (item, present) ↦ elim (Option-cases (as_array_of_tables item)) [
      | inl other ↦
          rw (ensure_array_other T laws doc k present other)
            (rw (present, Given, other) ((λ h. h), λ h. h))
      | inr (arr, array_is) ↦
          rw (ensure_array_present T laws doc k present array_is)
            (rw (present, Given, array_is) (element-IsOk doc k arr i rest v))
    ]
  ]

  no_section-IsOk : (doc : Table) (k : Text) (v : Value) → IsOk (set_in_section T doc k [] v) → ⊥
  no_section-IsOk doc k v h = nowhere (get doc k) ((set_in_section-IsOk doc k [] v).1 h)
    where
      nowhere : (o : Option Item) → TableAt T o (λ u. ⊥) → ⊥
      nowhere none h = h
      nowhere (some item) h = given (as_table item) h
        where
          given : (p : Option Table) → Given p (λ u. ⊥) → ⊥
          given none h = h
          given (some u) h = h

module _ {F : Type 0} (T : TomlEdit F) (laws : Laws T) (parse_f64 : Text → Option F) where
  apply_set-IsOk :
      (doc : T.Table) (key : List Segment) (raw : Text)
      → CanSet T doc key ↔ IsOk (apply_set T parse_f64 doc key raw)
  unfolding apply_set
  apply_set-IsOk doc [] raw = ((λ h. h), λ h. h)
  apply_set-IsOk doc (index i ∷ tail) raw = ((λ h. h), λ h. h)
  apply_set-IsOk doc (field k ∷ []) raw =
      ((λ h. absurd h), λ h. no_section-IsOk T laws doc k (parse_value T parse_f64 raw) h)
  apply_set-IsOk doc (field k ∷ field j ∷ rest) raw =
      set_in_section-IsOk T laws doc k (field j ∷ rest) (parse_value T parse_f64 raw)
  apply_set-IsOk doc (field k ∷ index i ∷ rest) raw =
      set_in_array-IsOk T laws doc k i rest (parse_value T parse_f64 raw)

  -- `set` succeeds, with whatever value, exactly if its key path names a key, by names only, below
  -- a section that is a table or absent, or below an element that is there of a section that is an
  -- array of tables, and all that it meets in there before its end are tables or absent.
  pub apply_set_iff :
      (doc : T.Table) (key : List Segment) (raw : Text)
      → CanSet T doc key ↔ ((changed : T.Table) × (apply_set T parse_f64 doc key raw ≡ ok changed))
  apply_set_iff doc key raw =
      let (there, back) = apply_set-IsOk doc key raw in
      let (result, is_ok) = IsOk-ok (apply_set T parse_f64 doc key raw) in
      ((λ h. result (there h)), λ h. back (is_ok h))
