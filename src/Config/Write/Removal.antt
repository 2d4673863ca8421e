-- ===== src/Config/Write/Removal.antt =====
-- package/zebrafish-config/src/remove.rs: one step of `remove_in_item`.
use zebrafish.Prelude.{
  List, [], ◌∷◌, none, some, Text, ◌≡◌, inl, inr, sym, subst, ◌∙◌, Option-cases,
}
use zebrafish.Prelude.Results.{ok, and_then, and_then-eq-ok, ok_injective}
use zebrafish.Config.KeyPath.{Segment, field}
use zebrafish.Config.TomlEdit.{TomlEdit, Laws}
use zebrafish.Config.TomlEdit.Paths.{item_at}
use zebrafish.Config.Write.{remove_in_item}

module _ {F : Type 0} (T : TomlEdit F) (laws : Laws T) where
  open T use {
    Table, Item, ArrayOfTables, Value, get, put, insert, remove, of_value, of_table, of_tables,
    as_table, tables_len, tables_get, tables_put, as_array_of_tables, new_table, new_tables,
    contains_key, is_table, is_array_of_tables,
  }

  pub item_at_no_table :
      (i : Item) (k : Text) (q : List Segment)
      → as_table i ≡ none
      → item_at T i (field k ∷ q) ≡ none
  unfolding item_at
  item_at_no_table i k q e = rw e

  pub item_at_absent :
      (i : Item) {t : Table} (k : Text) (q : List Segment)
      → as_table i ≡ some t
      → get t k ≡ none
      → item_at T i (field k ∷ q) ≡ none
  unfolding item_at
  item_at_absent i k q e f = rw (e, f)

  -- The outcomes of one step of `remove_in_item` at a name.
  remove_no_table :
      (i : Item) (k : Text) (q : List Segment)
      → as_table i ≡ none
      → remove_in_item T i (field k ∷ q) ≡ ok i
  unfolding remove_in_item
  remove_no_table i k [] e = rw (e, remove_in_item)
  remove_no_table i k (s ∷ q) e = rw (e, remove_in_item)

  pub remove_key :
      (i : Item) {t : Table} (k : Text)
      → as_table i ≡ some t
      → remove_in_item T i (field k ∷ []) ≡ ok (of_table (remove t k))
  unfolding remove_in_item
  remove_key i k e = rw (e, remove_in_item)

  pub remove_absent :
      (i : Item) {t : Table} (k : Text) (s : Segment) (q : List Segment)
      → as_table i ≡ some t
      → get t k ≡ none
      → remove_in_item T i (field k ∷ s ∷ q) ≡ ok i
  unfolding remove_in_item
  remove_absent i k s q e f = rw (e, f, remove_in_item)

  pub remove_below :
      (i : Item) {t : Table} {next : Item} (k : Text) (s : Segment) (q : List Segment)
      → as_table i ≡ some t
      → get t k ≡ some next
      → remove_in_item T i (field k ∷ s ∷ q)
        ≡ and_then (remove_in_item T next (s ∷ q)) (λ u. ok (of_table (put t k u)))
  unfolding remove_in_item
  remove_below i k s q e f = rw (e, f, remove_in_item)

  -- A removal at a name, by what it does: nothing, since the path leads nowhere; the removal of
  -- the last key; or a removal below.
  pub data Removed (i : Item) (k : Text) : List Segment → Item → Type 0 where
    nothing : {q : List Segment} → item_at T i (field k ∷ q) ≡ none → Removed i k q i
    last : {t : Table} → as_table i ≡ some t → Removed i k [] (of_table (remove t k))
    inside :
        {t : Table} {next u : Item} {s : Segment} {q : List Segment}
        → as_table i ≡ some t
        → get t k ≡ some next
        → remove_in_item T next (s ∷ q) ≡ ok u
        → Removed i k (s ∷ q) (of_table (put t k u))

  pub remove_in_item-Removed :
      (i : Item) (k : Text) (q : List Segment) {i' : Item}
      → remove_in_item T i (field k ∷ q) ≡ ok i'
      → Removed i k q i'
  remove_in_item-Removed i k q {i'} e = elim (Option-cases (as_table i)) [
    | inl other ↦
        subst (Removed i k q) (ok_injective (sym (remove_no_table i k q other) ∙ e))
          (nothing (item_at_no_table i k q other))
    | inr (t, table_is) ↦ split q t table_is e
  ]
    where
      split :
          (q : List Segment) (t : Table)
          → as_table i ≡ some t
          → remove_in_item T i (field k ∷ q) ≡ ok i'
          → Removed i k q i'
      split [] t table_is e =
          subst (Removed i k []) (ok_injective (sym (remove_key i k table_is) ∙ e)) (last table_is)
      split (s ∷ q) t table_is e = elim (Option-cases (get t k)) [
        | inl absent ↦
            subst (Removed i k (s ∷ q))
              (ok_injective (sym (remove_absent i k s q table_is absent) ∙ e))
              (nothing (item_at_absent i k (s ∷ q) table_is absent))
        | inr (next, present) ↦
            let (u, inner, e') =
              and_then-eq-ok (remove_in_item T next (s ∷ q)) _
                (sym (remove_below i k s q table_is present) ∙ e) in
            subst (Removed i k (s ∷ q)) (ok_injective e') (inside table_is present inner)
      ]
