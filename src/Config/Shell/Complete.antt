-- ===== src/Config/Shell/Complete.antt =====
-- package/zebrafish-config/src/list.rs: what `list --format shell` prints, against what `get`
-- finds at each key path.
use zebrafish.Prelude.{
  ℕ, zero, suc, ◌+◌, List, [], ◌∷◌, ◌++◌, some, >>=-eq-some, ◌≡◌, refl, sym, subst, arith, Text,
  text, text_eq, text_eq_iff, Bool-cases, inl, inr, Contains, here, there, Contains-append_left,
  Contains-append_right, append_assoc, append-nil,
}
use zebrafish.Prelude.Decimal.{to_string}
use zebrafish.Config.KeyPath.{Segment, field, index}
use zebrafish.Config.Value.{
  Value, string, array, table, Items, no_items, item, Entries, no_entries, entry, as_table,
  as_array, get_entry, get_item, count_items, walk_segments,
}
use zebrafish.Config.Shell.{
  shell_quote, assignment, shell_name, emit_shell, emit_entries, emit_items,
}

-- The shell's name for a segment of a path, and the parts of the name of a path's variable.
abbrev pub segment_name : (Text → Text) → Segment → Text
segment_name to_uppercase (field k) = shell_name to_uppercase k
segment_name to_uppercase (index i) = to_string i

abbrev pub variable : (Text → Text) → List Segment → List Text
variable to_uppercase [] = []
variable to_uppercase (s ∷ ss) = segment_name to_uppercase s ∷ variable to_uppercase ss

module _ {F D : Type 0} where
  as_table-eq : (v : Value F D) (es : Entries F D) → as_table v ≡ some es → table es ≡ v
  as_table-eq v es h = ground arith

  as_array-eq : (v : Value F D) (xs : Items F D) → as_array v ≡ some xs → array xs ≡ v
  as_array-eq v xs h = ground arith

module _ {F D : Type 0} (to_uppercase : Text → Text) (display : Value F D → Text) where
  abbrev lines : Value F D → List Text → List Text
  lines = emit_shell to_uppercase display

  abbrev below : List Text → Segment → List Text
  below prefix s = prefix ++ (segment_name to_uppercase s ∷ [])

  emit_entries-entry :
      (k : Text) (v : Value F D) (es : Entries F D) (prefix : List Text)
      → emit_entries to_uppercase display (entry k v es) prefix
        ≡ lines v (below prefix (field k)) ++ emit_entries to_uppercase display es prefix
  unfolding emit_shell
  emit_entries-entry k v es prefix = refl

  emit_items-item :
      (i : ℕ) (v : Value F D) (xs : Items F D) (prefix : List Text)
      → emit_items to_uppercase display i (item v xs) prefix
        ≡ lines v (below prefix (index i)) ++ emit_items to_uppercase display (i + 1) xs prefix
  unfolding emit_shell
  emit_items-item i v xs prefix = refl

  emit_entries-Contains :
      (es : Entries F D) (k : Text) {v : Value F D} (prefix : List Text) {line : Text}
      → get_entry es k ≡ some v
      → Contains line (lines v (below prefix (field k)))
      → Contains line (emit_entries to_uppercase display es prefix)
  unfolding get_entry
  emit_entries-Contains no_entries k prefix e m = absurd (ground arith)
  emit_entries-Contains (entry j w es) k {v} prefix {line} e m =
      rw emit_entries-entry (elim (Bool-cases (text_eq j k)) [
        | inl same ↦
            let w_is : v ≡ w = ground arith in
            let j_is : k ≡ j = sym ((text_eq_iff j k).0 same) in
            let m' : Contains line (lines w (below prefix (field k))) =
              subst (λ u. Contains line (lines u (below prefix (field k)))) w_is m in
            Contains-append_left _
              (subst (λ n. Contains line (lines w (below prefix (field n)))) j_is m')
        | inr other ↦
            Contains-append_right (lines w (below prefix (field j)))
              (emit_entries-Contains es k prefix (ground arith) m)
      ])

  emit_items-Contains :
      (xs : Items F D) (start i : ℕ) {v : Value F D} (prefix : List Text) {line : Text}
      → get_item xs i ≡ some v
      → Contains line (lines v (below prefix (index (start + i))))
      → Contains line (emit_items to_uppercase display start xs prefix)
  unfolding get_item
  emit_items-Contains no_items start i prefix e m = absurd (ground arith)
  emit_items-Contains (item w xs) start zero {v} prefix {line} e m =
      let w_is : v ≡ w = ground arith in
      let start_is : start + 0 ≡ start = omega arith in
      rw emit_items-item (
        Contains-append_left _ (
          subst (λ n. Contains line (lines w (below prefix (index n)))) start_is
            (subst (λ u. Contains line (lines u (below prefix (index (start + 0))))) w_is m)))
  emit_items-Contains (item w xs) start (suc i) {v} prefix {line} e m =
      let next : start + suc i ≡ (start + 1) + i = omega arith in
      rw emit_items-item (
        Contains-append_right (lines w (below prefix (index start))) (
          emit_items-Contains xs (start + 1) i prefix e
            (subst (λ n. Contains line (lines v (below prefix (index n)))) next m)))

  lines-table :
      (es : Entries F D) (prefix : List Text)
      → lines (table es) prefix ≡ emit_entries to_uppercase display es prefix
  unfolding emit_shell
  lines-table es prefix = refl

  lines-array-Contains :
      (xs : Items F D) (prefix : List Text) {line : Text}
      → Contains line (emit_items to_uppercase display 0 xs prefix)
      → Contains line (lines (array xs) prefix)
  unfolding emit_shell
  lines-array-Contains xs prefix m = there m

  -- A line of the value at a path is a line of the whole.
  pub emit_shell-Contains :
      (p : List Segment) (v : Value F D) {w : Value F D} (prefix : List Text) {line : Text}
      → walk_segments p v ≡ some w
      → Contains line (lines w (prefix ++ variable to_uppercase p))
      → Contains line (lines v prefix)
  unfolding walk_segments
  emit_shell-Contains [] v {w} prefix {line} e m =
      let w_is : w ≡ v = ground arith in
      subst (λ u. Contains line (lines u prefix)) w_is (rw append-nil at m)
  emit_shell-Contains (field k ∷ p) v {w} prefix {line} e m =
      let (es, is_table, e') = >>=-eq-some (as_table v) _ e in
      let (next, found, rest) = >>=-eq-some (get_entry es k) (walk_segments p) e' in
      let v_is : table es ≡ v = as_table-eq v es is_table in
      subst (λ u. Contains line (lines u prefix)) v_is
        (rw lines-table (
          emit_entries-Contains es k prefix found
            (emit_shell-Contains p next (below prefix (field k)) rest (rw append_assoc m))))
  emit_shell-Contains (index i ∷ p) v {w} prefix {line} e m =
      let (xs, is_array, e') = >>=-eq-some (as_array v) _ e in
      let (next, found, rest) = >>=-eq-some (get_item xs i) (walk_segments p) e' in
      let v_is : array xs ≡ v = as_array-eq v xs is_array in
      let zero_is : i ≡ 0 + i = omega arith in
      subst (λ u. Contains line (lines u prefix)) v_is
        (lines-array-Contains xs prefix (
          emit_items-Contains xs 0 i prefix found (
            subst (λ n. Contains line (lines next (below prefix (index n)))) zero_is
              (emit_shell-Contains p next (below prefix (index i)) rest (rw append_assoc m)))))

  -- The shell listing has, for each string that `get` finds at a key path, the line that assigns
  -- its quoted text to the variable named after the path.
  pub emit_shell-walk_segments :
      (p : List Segment) (v : Value F D) {s : Text}
      → walk_segments p v ≡ some (string s)
      → Contains
          (assignment (variable to_uppercase p) (shell_quote s))
          (emit_shell to_uppercase display v [])
  unfolding emit_shell
  emit_shell-walk_segments p v e = emit_shell-Contains p v [] e here

  -- For each array that `get` finds there is the line with the number of its items.
  pub emit_shell_count :
      (p : List Segment) (v : Value F D) {xs : Items F D}
      → walk_segments p v ≡ some (array xs)
      → Contains
          (assignment (variable to_uppercase p ++ (text "COUNT" ∷ [])) (to_string (count_items xs)))
          (emit_shell to_uppercase display v [])
  unfolding emit_shell
  emit_shell_count p v e = emit_shell-Contains p v [] e here
