-- ===== src/Config/TomlEdit/Paths.antt =====
-- What stands in a document at a key path: the specification of the commands of
-- package/zebrafish-config that change a document.
use zebrafish.Prelude.{List, [], ◌∷◌, Option, some, ◌>>=◌, ◌≡◌, ◌≢◌, ◌⊎◌}
use zebrafish.Config.KeyPath.{Segment, field, index}
use zebrafish.Config.TomlEdit.Defs.{TomlEdit}

module _ {F : Type 0} (T : TomlEdit F) where
  open T use {Table, Item, get, of_table, as_table, as_array_of_tables, tables_get}

  unfoldable pub item_at : Item → List Segment → Option Item
  item_at item [] = some item
  item_at item (field name ∷ rest) = do t ← as_table item; next ← get t name; item_at next rest
  item_at item (index i ∷ rest) = do
    arr ← as_array_of_tables item
    t ← tables_get arr i
    item_at (of_table t) rest

  unfoldable pub doc_at : Table → List Segment → Option Item
  unfolding item_at
  doc_at doc path = item_at (of_table doc) path

-- Two paths that part at some segment.
abbrev pub Diverge : List Segment → List Segment → Type 0
Diverge (s ∷ p) (t ∷ q) = (s ≢ t) ⊎ ((s ≡ t) × Diverge p q)
Diverge _ _ = ⊥
