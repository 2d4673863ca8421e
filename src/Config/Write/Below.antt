-- ===== src/Config/Write/Below.antt =====
-- package/zebrafish-config/src/set.rs: `set_in_table` and the paths below a table.
use zebrafish.Prelude.{
  ℕ, List, [], ◌∷◌, none, some, Text, text_eq_refl, text_eq_ne, ◌≡◌, ◌≢◌, inl, inr, refl, sym, ap,
  subst, ◌∙◌, Option-cases, ◌>>=◌,
}
use zebrafish.Prelude.Results.{ok, err, and_then-eq-ok, ok_injective}
use zebrafish.Config.KeyPath.{Segment, field, index}
use zebrafish.Config.TomlEdit.{TomlEdit, Laws}
use zebrafish.Config.TomlEdit.Paths.{item_at, Diverge}
use zebrafish.Config.Write.{not_a_table, next_table, set_in_table}

module _ {F : Type 0} (T : TomlEdit F) (laws : Laws T) where
  open T use {
    Table, Item, ArrayOfTables, Value, get, put, insert, of_value, of_table, of_tables, as_table,
    tables_len, tables_get, tables_put, as_array_of_tables, new_table, new_tables, contains_key,
    is_table, is_array_of_tables,
  }

  -- A table's entry, seen from the item that holds the table.
  pub item_at-field :
      (t : Table) (k : Text) (rest : List Segment)
      → item_at T (of_table t) (field k ∷ rest) ≡ (get t k >>= λ i. item_at T i rest)
  unfolding item_at
  item_at-field t k rest = rw (laws.as_table-of_table t)

  pub item_at-index_none :
      (t : Table) (i : ℕ) (rest : List Segment) → item_at T (of_table t) (index i ∷ rest) ≡ none
  unfolding item_at
  item_at-index_none t i rest = rw (laws.as_tables-of_table t)

  pub item_at-put :
      (t : Table) (k : Text) (i : Item) (rest : List Segment)
      → item_at T (of_table (put t k i)) (field k ∷ rest) ≡ item_at T i rest
  item_at-put t k i rest =
      item_at-field (put t k i) k rest ∙ rw (laws.get-put t k k i, text_eq_refl k)

  -- Below an item that is a table the paths go on in that table.
  pub item_at-as_table :
      (i : Item) {t : Table} (s : Segment) (rest : List Segment)
      → as_table i ≡ some t
      → item_at T i (s ∷ rest) ≡ item_at T (of_table t) (s ∷ rest)
  unfolding item_at
  item_at-as_table i {t} (field k) rest e = rw (e, laws.as_table-of_table t)
  item_at-as_table i {t} (index j) rest e =
      rw (laws.as_tables_none i t e, laws.as_tables-of_table t)

  -- `holder` is `t` but for the entry under `k`, and `next` holds what stood below that entry.
  pub record Descends (t : Table) (k : Text) (holder next : Table) : Type 0 where
    pub others : (j : Text) → k ≢ j → get holder j ≡ get t j
    pub below :
        (s : Segment) (q : List Segment)
        → item_at T (of_table next) (s ∷ q) ≡ item_at T (of_table t) (field k ∷ s ∷ q)

  item_at-new_table :
      (s : Segment) (q : List Segment) → item_at T (of_table new_table) (s ∷ q) ≡ none
  item_at-new_table (field k) q = item_at-field new_table k q ∙ rw (laws.get-new k)
  item_at-new_table (index i) q = item_at-index_none new_table i q

  pub Descends-new :
      (t : Table) (k : Text) {holder : Table}
      → get t k ≡ none
      → ((j : Text) → k ≢ j → get holder j ≡ get t j)
      → Descends t k holder new_table
  Descends-new t k e others = record {
    others = others;
    below = λ s q. item_at-new_table s q ∙ sym (item_at-field t k (s ∷ q) ∙ rw e);
  }

  pub Descends-existing :
      (t : Table) (k : Text) {i : Item} {next : Table}
      → get t k ≡ some i
      → as_table i ≡ some next
      → Descends t k t next
  Descends-existing t k {i} {next} e f = record {
    others = λ j ne. refl;
    below = λ s q. sym (item_at-field t k (s ∷ q) ∙ rw e (item_at-as_table i s q f));
  }

  -- The three outcomes of a step down.
  pub next_table_absent :
      (t : Table) (k : Text)
      → get t k ≡ none
      → next_table T t k ≡ ok (insert t k (of_table new_table), new_table)
  unfolding next_table
  next_table_absent t k e = rw (laws.contains_key-get t k, e)

  pub next_table_present :
      (t : Table) (k : Text) {i : Item} {u : Table}
      → get t k ≡ some i
      → as_table i ≡ some u
      → next_table T t k ≡ ok (t, u)
  unfolding next_table
  next_table_present t k {i} e f =
      rw (laws.contains_key-get t k, e) (rw (laws.is_table-as_table i, f))

  pub next_table_other :
      (t : Table) (k : Text) {i : Item}
      → get t k ≡ some i
      → as_table i ≡ none
      → next_table T t k ≡ err not_a_table
  unfolding next_table
  next_table_other t k {i} e f =
      rw (laws.contains_key-get t k, e) (rw (laws.is_table-as_table i, f))

  next_table-Descends :
      (t : Table) (k : Text) {holder next : Table}
      → next_table T t k ≡ ok (holder, next)
      → Descends t k holder next
  next_table-Descends t k {holder} {next} e = elim (Option-cases (get t k)) [
    | inl absent ↦
        subst (λ (p : Table × Table). Descends t k p.0 p.1)
          (ok_injective (sym (next_table_absent t k absent) ∙ e))
          (Descends-new t k absent
            (λ j ne. laws.get-insert t k j (of_table new_table) ∙ rw (text_eq_ne k j ne)))
    | inr (i, present) ↦ elim (Option-cases (as_table i)) [
      | inl other ↦ absurd (cc (next_table_other t k present other))
      | inr (u, table_is) ↦
          subst (λ (p : Table × Table). Descends t k p.0 p.1)
            (ok_injective (sym (next_table_present t k present table_is) ∙ e))
            (Descends-existing t k present table_is)
    ]
  ]

  -- What the write of a changed table below a key does to the paths.
  module _ {t : Table} {k : Text} {holder next : Table} (d : Descends t k holder next)
      (changed : Table) where
    pub put-others :
        (s : Segment) (q : List Segment)
        → s ≢ field k
        → item_at T (of_table (put holder k (of_table changed))) (s ∷ q)
          ≡ item_at T (of_table t) (s ∷ q)
    put-others (index i) q ne = item_at-index_none _ i q ∙ sym (item_at-index_none t i q)
    put-others (field j) q ne =
        let apart : k ≢ j = λ e. ne (ap field (sym e)) in
        item_at-field _ j q
        ∙ (rw (laws.get-put holder k j (of_table changed), text_eq_ne k j apart, d.others j apart))
        ∙ sym (item_at-field t j q)

  -- A successful `set` below a table: the value stands at its path, and a path that parts from
  -- it leads where it led before.
  pub set_in_table-item_at :
      (rest : List Segment) (t : Table) (v : Value) {t' : Table}
      → set_in_table T t rest v ≡ ok t'
      → item_at T (of_table t') rest ≡ some (of_value v)
  unfolding set_in_table
  set_in_table-item_at [] t v e = cc
  set_in_table-item_at (field k ∷ []) t v {t'} e =
      let changed : insert t k (of_value v) ≡ t' = ok_injective e in
      rw (← changed) (
        item_at-field _ k []
        ∙ (rw (laws.get-insert t k k (of_value v), text_eq_refl k) (unfold item_at in refl)))
  set_in_table-item_at (index i ∷ []) t v e = cc
  set_in_table-item_at (field k ∷ s ∷ tail) t v {t'} e =
      let ((holder, next), down, e') = and_then-eq-ok (next_table T t k) _ e in
      let (u, inner, e'') = and_then-eq-ok (set_in_table T next (s ∷ tail) v) _ e' in
      let changed : put holder k (of_table u) ≡ t' = ok_injective e'' in
      rw (← changed) (
        item_at-put holder k (of_table u) (s ∷ tail) ∙ set_in_table-item_at (s ∷ tail) next v inner)
  set_in_table-item_at (index i ∷ s ∷ tail) t v e = cc

  pub set_in_table-Diverge :
      (rest : List Segment) (t : Table) (v : Value) {t' : Table} (q : List Segment)
      → set_in_table T t rest v ≡ ok t'
      → Diverge rest q
      → item_at T (of_table t') q ≡ item_at T (of_table t) q
  unfolding set_in_table
  set_in_table-Diverge [] t v q e d = cc
  set_in_table-Diverge (index i ∷ []) t v q e d = cc
  set_in_table-Diverge (index i ∷ s ∷ tail) t v q e d = cc
  set_in_table-Diverge (field k ∷ []) t v [] e d = absurd d
  set_in_table-Diverge (field k ∷ []) t v (index j ∷ q) e d =
      item_at-index_none _ j q ∙ sym (item_at-index_none t j q)
  set_in_table-Diverge (field k ∷ []) t v (field j ∷ q) e (inr (same, never)) = absurd never
  set_in_table-Diverge (field k ∷ []) t v {t'} (field j ∷ q) e (inl ne) =
      let changed : insert t k (of_value v) ≡ t' = ok_injective e in
      let apart : k ≢ j = λ p. ne (ap field p) in
      rw (← changed) (
        item_at-field _ j q
        ∙ (rw (laws.get-insert t k j (of_value v), text_eq_ne k j apart))
        ∙ sym (item_at-field t j q))
  set_in_table-Diverge (field k ∷ s ∷ tail) t v [] e d = absurd d
  set_in_table-Diverge (field k ∷ s ∷ tail) t v {t'} (x ∷ q) e (inl ne) =
      let ((holder, next), down, e') = and_then-eq-ok (next_table T t k) _ e in
      let (u, inner, e'') = and_then-eq-ok (set_in_table T next (s ∷ tail) v) _ e' in
      let changed : put holder k (of_table u) ≡ t' = ok_injective e'' in
      rw (← changed) (put-others (next_table-Descends t k down) u x q (λ p. ne (sym p)))
  set_in_table-Diverge (field k ∷ s ∷ tail) t v (x ∷ []) e (inr (same, never)) = absurd never
  set_in_table-Diverge (field k ∷ s ∷ tail) t v {t'} (x ∷ y ∷ q) e (inr (same, d)) =
      let ((holder, next), down, e') = and_then-eq-ok (next_table T t k) _ e in
      let (u, inner, e'') = and_then-eq-ok (set_in_table T next (s ∷ tail) v) _ e' in
      let changed : put holder k (of_table u) ≡ t' = ok_injective e'' in
      rw (← changed, ← same)
        (item_at-put holder k (of_table u) (y ∷ q)
          ∙ set_in_table-Diverge (s ∷ tail) next v (y ∷ q) inner d
          ∙ (next_table-Descends t k down).below y q)

  -- The same for the table that holds the changed one.
  pub write-Diverge :
      {t : Table} {k : Text} {holder next : Table} (d : Descends t k holder next) (u : Table)
      (rest : List Segment) (v : Value)
      → set_in_table T next rest v ≡ ok u
      → (x : Segment) (q : List Segment) → Diverge (field k ∷ rest) (x ∷ q)
      → item_at T (of_table (put holder k (of_table u))) (x ∷ q) ≡ item_at T (of_table t) (x ∷ q)
  write-Diverge d u rest v inner x q (inl ne) = put-others d u x q (λ p. ne (sym p))
  write-Diverge d u [] v inner x q (inr (same, never)) = absurd never
  write-Diverge d u (s ∷ rest) v inner x [] (inr (same, never)) = absurd never
  write-Diverge {k = k} {holder = holder} {next = next} d u (s ∷ rest) v inner x (y ∷ q)
        (inr (same, part)) =
      rw (← same) (
        item_at-put holder k (of_table u) (y ∷ q)
        ∙ set_in_table-Diverge (s ∷ rest) next v (y ∷ q) inner part
        ∙ d.below y q)
