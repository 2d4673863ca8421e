-- ===== src/Config/Write/Removable.antt =====
-- package/zebrafish-config/src/remove.rs: when `remove_in_doc` succeeds.
use zebrafish.Prelude.{
  ℕ, List, [], ◌∷◌, Option, none, some, ltb, ◌≡◌, ◌↔◌, inl, inr, Bool-cases, Option-cases,
}
use zebrafish.Prelude.Results.{ok}
use zebrafish.Config.KeyPath.{Segment, field, index}
use zebrafish.Config.TomlEdit.{TomlEdit}
use zebrafish.Config.Write.{remove_in_item, remove_in_doc}
use zebrafish.Config.Write.Success.{IsOk, and_then-IsOk, IsOk-ok}

-- The condition on what there is, which holds if there is nothing.
abbrev pub Unless : {A : Type 0} → Option A → (A → Type 0) → Type 0
Unless none P = Unit {0}
Unless (some a) P = P a

module _ {F : Type 0} (T : TomlEdit F) where
  open T use {Table, Item, get, as_table, as_array_of_tables, as_array, tables_len, array_len}

  -- The path can be followed by names as far as it leads, but for an index at its end.
  abbrev pub CanRemoveIn : Item → List Segment → Type 0
  CanRemoveIn item [] = ⊥
  CanRemoveIn item (s ∷ []) = Unit {0}
  CanRemoveIn item (field k ∷ s ∷ rest) =
      Unless (as_table item) (λ t. Unless (get t k) (λ next. CanRemoveIn next (s ∷ rest)))
  CanRemoveIn item (index i ∷ s ∷ rest) = ⊥

  -- The path starts with a section, and so on below it if it is there.
  abbrev pub CanRemove : Table → List Segment → Type 0
  CanRemove doc [] = ⊥
  CanRemove doc (index i ∷ rest) = ⊥
  CanRemove doc (field section ∷ []) = Unit {0}
  CanRemove doc (field section ∷ s ∷ rest) =
      Unless (get doc section) (λ item. CanRemoveIn item (s ∷ rest))

  index-IsOk : (item : Item) (i : ℕ) → IsOk (remove_in_item T item (index i ∷ []))
  unfolding remove_in_item
  index-IsOk item i = elim (Option-cases (as_array_of_tables item)) [
    | inr (arr, is) ↦ elim (Bool-cases (ltb i (tables_len arr))) [
      | inl inside ↦ rw (remove_in_item, is, inside) tt
      | inr beyond ↦ rw (remove_in_item, is, beyond) tt
    ]
    | inl other ↦ elim (Option-cases (as_array item)) [
      | inl no_array ↦ rw (remove_in_item, other, no_array) tt
      | inr (arr, is) ↦ elim (Bool-cases (ltb i (array_len arr))) [
        | inl inside ↦ rw (remove_in_item, other, is, inside) tt
        | inr beyond ↦ rw (remove_in_item, other, is, beyond) tt
      ]
    ]
  ]

  remove_in_item-IsOk :
      (p : List Segment) (item : Item) → CanRemoveIn item p ↔ IsOk (remove_in_item T item p)
  unfolding remove_in_item
  remove_in_item-IsOk [] item = ((λ h. h), λ h. h)
  remove_in_item-IsOk (field k ∷ []) item = elim (Option-cases (as_table item)) [
    | inl other ↦ rw (remove_in_item, other) ((λ h. h), λ h. h)
    | inr (t, is) ↦ rw (remove_in_item, is) ((λ h. h), λ h. h)
  ]
  remove_in_item-IsOk (index i ∷ []) item = ((λ h. index-IsOk item i), λ h. tt)
  remove_in_item-IsOk (index i ∷ s ∷ rest) item = ((λ h. h), λ h. h)
  remove_in_item-IsOk (field k ∷ s ∷ rest) item = elim (Option-cases (as_table item)) [
    | inl other ↦ rw (remove_in_item, other) ((λ h. h), λ h. h)
    | inr (t, is) ↦ elim (Option-cases (get t k)) [
      | inl absent ↦ rw (remove_in_item, Unless, is, absent) ((λ h. h), λ h. h)
      | inr (next, present) ↦
          rw (remove_in_item, Unless, is, present)
            (and_then-IsOk (remove_in_item T next (s ∷ rest)) _
              (remove_in_item-IsOk (s ∷ rest) next))
    ]
  ]

  remove_in_doc-IsOk :
      (doc : Table) (p : List Segment) → CanRemove doc p ↔ IsOk (remove_in_doc T doc p)
  unfolding remove_in_doc
  remove_in_doc-IsOk doc [] = ((λ h. h), λ h. h)
  remove_in_doc-IsOk doc (index i ∷ rest) = ((λ h. h), λ h. h)
  remove_in_doc-IsOk doc (field k ∷ []) = ((λ h. h), λ h. h)
  remove_in_doc-IsOk doc (field k ∷ s ∷ rest) = elim (Option-cases (get doc k)) [
    | inl absent ↦ rw (remove_in_doc, absent) ((λ h. h), λ h. h)
    | inr (item, present) ↦
        rw (remove_in_doc, present)
          (and_then-IsOk (remove_in_item T item (s ∷ rest)) _ (remove_in_item-IsOk (s ∷ rest) item))
  ]

  -- A `remove` succeeds exactly if its path starts with a section and, as far as it leads in the
  -- document, goes on by names only, but for an index at its end.
  pub remove_in_doc_iff :
      (doc : Table) (p : List Segment)
      → CanRemove doc p ↔ ((changed : Table) × (remove_in_doc T doc p ≡ ok changed))
  remove_in_doc_iff doc p =
      let (there, back) = remove_in_doc-IsOk doc p in
      let (result, is_ok) = IsOk-ok (remove_in_doc T doc p) in
      ((λ h. result (there h)), λ h. back (is_ok h))
