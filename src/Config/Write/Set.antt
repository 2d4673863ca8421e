-- ===== src/Config/Write/Set.antt =====
-- package/zebrafish-config/src/set.rs: what `apply_set` changes.
use zebrafish.Prelude.{List, [], ◌∷◌, Option, some, Text, ◌≡◌}
use zebrafish.Prelude.Results.{ok}
use zebrafish.Config.KeyPath.{Segment, field, index}
use zebrafish.Config.TomlEdit.{TomlEdit, Laws}
use zebrafish.Config.TomlEdit.Paths.{doc_at, Diverge}
use zebrafish.Config.Write.{parse_value, apply_set}
use zebrafish.Config.Write.Sections.{section-item_at, section-Diverge}
use zebrafish.Config.Write.Arrays.{array-item_at, array-Diverge}

module _ {F : Type 0} (T : TomlEdit F) (laws : Laws T) (parse_f64 : Text → Option F) where
  open T use {Table, of_value}

  -- After a `set` that succeeds the value that was written stands at its key path.
  pub apply_set-doc_at :
      (doc : Table) (key : List Segment) (raw : Text) {doc' : Table}
      → apply_set T parse_f64 doc key raw ≡ ok doc'
      → doc_at T doc' key ≡ some (of_value (parse_value T parse_f64 raw))
  unfolding apply_set doc_at
  apply_set-doc_at doc [] raw e = cc
  apply_set-doc_at doc (index i ∷ tail) raw e = cc
  apply_set-doc_at doc (field k ∷ []) raw e = section-item_at T laws doc k [] _ e
  apply_set-doc_at doc (field k ∷ field j ∷ rest) raw e =
      section-item_at T laws doc k (field j ∷ rest) _ e
  apply_set-doc_at doc (field k ∷ index i ∷ rest) raw e = array-item_at T laws doc k i rest _ e

  -- A `set` that succeeds leaves what stands at every path that parts from the key path: other
  -- sections, other keys of the tables on the way, and the other elements of an array.
  pub apply_set-Diverge :
      (doc : Table) (key : List Segment) (raw : Text) {doc' : Table} (q : List Segment)
      → apply_set T parse_f64 doc key raw ≡ ok doc'
      → Diverge key q
      → doc_at T doc' q ≡ doc_at T doc q
  unfolding apply_set doc_at
  apply_set-Diverge doc [] raw q e d = cc
  apply_set-Diverge doc (index i ∷ tail) raw q e d = cc
  apply_set-Diverge doc (field k ∷ []) raw q e d = section-Diverge T laws doc k [] _ q e d
  apply_set-Diverge doc (field k ∷ field j ∷ rest) raw q e d =
      section-Diverge T laws doc k (field j ∷ rest) _ q e d
  apply_set-Diverge doc (field k ∷ index i ∷ rest) raw q e d =
      array-Diverge T laws doc k i rest _ q e d
