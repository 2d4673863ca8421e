-- ===== src/Config/Value.antt =====
-- The values that the tool reads: `toml::Value`, by the constructors that the `match` of
-- package/zebrafish-config/src/get.rs names, and `walk_segments` of
-- package/zebrafish-config/src/path.rs. Floats and dates are those of the `toml` crate: types
-- that the definitions take. A table is its sequence of entries, in the order of iteration.
use zebrafish.Prelude.{
  ℕ, zero, suc, Bool, Option, none, some, if◌then◌else◌, ◌>>=◌, Text, text_eq, List, [], ◌∷◌,
}
use zebrafish.Prelude.Int.{ℤ}
use zebrafish.Config.KeyPath.{Segment, field, index}

mutual
  pub data Value (F D : Type 0) : Type 0 where
    string : Text → Value F D
    integer : ℤ → Value F D
    float : F → Value F D
    boolean : Bool → Value F D
    datetime : D → Value F D
    array : Items F D → Value F D
    table : Entries F D → Value F D

  pub data Items (F D : Type 0) : Type 0 where
    no_items : Items F D
    item : Value F D → Items F D → Items F D

  pub data Entries (F D : Type 0) : Type 0 where
    no_entries : Entries F D
    entry : Text → Value F D → Entries F D → Entries F D

module _ {F D : Type 0} where
  abbrev pub as_table : Value F D → Option (Entries F D)
  as_table (table es) = some es
  as_table _ = none

  abbrev pub as_array : Value F D → Option (Items F D)
  as_array (array xs) = some xs
  as_array _ = none

  abbrev pub as_bool : Value F D → Option Bool
  as_bool (boolean b) = some b
  as_bool _ = none

  unfoldable pub get_entry : Entries F D → Text → Option (Value F D)
  get_entry no_entries name = none
  get_entry (entry k v es) name = if text_eq k name then some v else get_entry es name

  unfoldable pub get_item : Items F D → ℕ → Option (Value F D)
  get_item no_items i = none
  get_item (item v xs) zero = some v
  get_item (item v xs) (suc i) = get_item xs i

  unfoldable pub count_items : Items F D → ℕ
  count_items no_items = 0
  count_items (item v xs) = suc (count_items xs)

  -- `walk_segments`; its first argument falls with each call.
  unfoldable pub walk_segments : List Segment → Value F D → Option (Value F D)
  walk_segments [] value = some value
  walk_segments (field name ∷ tail) value = do
    entries ← as_table value
    next ← get_entry entries name
    walk_segments tail next
  walk_segments (index i ∷ tail) value = do
    items ← as_array value
    next ← get_item items i
    walk_segments tail next
