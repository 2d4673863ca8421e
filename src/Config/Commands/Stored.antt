-- ===== src/Config/Commands/Stored.antt =====
-- package/zebrafish-config/src/set.rs, remove.rs and add.rs: a whole run of `set`, `remove` or
-- `add`, up to the file it leaves.
use mathlib.Core.Option.{some-injective}
use zebrafish.Prelude.{
  ℕ, none, sym, ◌∙◌, text_eq_iff, true, List, Option, some, Text, text, text_eq, is_some, ◌&&◌, ◌≡◌,
  ◌≢◌, refl, ap, subst, Bool-cases, inl, inr, arith,
}
use zebrafish.Prelude.Results.{Result, ok, err, and_then-eq-ok, ok_or, ok_or-eq-ok, ok_injective}
use zebrafish.Config.KeyPath.{Segment, parse, section}
use zebrafish.Config.TomlEdit.{TomlEdit, Laws}
use zebrafish.Config.TomlEdit.Paths.{doc_at, Diverge}
use zebrafish.Config.Write.{Error, apply_set, parse_value, remove_in_doc, add_table}
use zebrafish.Config.Write.Set.{apply_set-doc_at, apply_set-Diverge}
use zebrafish.Config.Write.Remove.{EndsInField, remove_in_doc-doc_at, remove_in_doc-Diverge}
use zebrafish.Config.Write.Add.{array_or_new, add_table-eq-ok}
use zebrafish.Config.Files.{
  Disk, content, FileError, target_path, load_document, document_in, temporary, write_document,
  Runs,
}
use zebrafish.Config.Files.Atomic.{write_document-Runs}
use zebrafish.Config.Commands.{
  Ctx, Written, Host, file_result, edit_result, edit_file, edit_key, set_command, remove_command,
  add_command,
}

pub file_result-eq-ok {ℓ} :
    {A : Type ℓ} {a : A} (m : Result FileError A) → file_result m ≡ ok a → m ≡ ok a
file_result-eq-ok (ok b) e = ap ok (ok_injective e)
file_result-eq-ok (err b) e = cc

pub edit_result-eq-ok {ℓ} :
    {A : Type ℓ} {a : A} (m : Result Error A) → edit_result m ≡ ok a → m ≡ ok a
edit_result-eq-ok (ok b) e = ap ok (ok_injective e)
edit_result-eq-ok (err b) e = cc

module _ {F : Type 0} (T : TomlEdit F) (host : Host T.Table) (disk : Disk) (ctx : Ctx) where
  -- What a successful edit of a file did.
  abbrev IsEdit : (T.Table → Result Error T.Table) → Written T.Table → Type 0
  IsEdit change w =
      (doc : T.Table) × (load_document T host.parse_document disk w.path ≡ ok doc)
      × (change doc ≡ ok w.document)
      × (w.calls
          ≡ write_document host.parent host.with_extension w.path (host.print_document w.document))

  edit_file-eq-ok :
      (name : Text) (change : T.Table → Result Error T.Table) (w : Written T.Table)
      → edit_file T host disk ctx name change ≡ ok w
      → IsEdit change w
  unfolding edit_file
  edit_file-eq-ok name change w e =
      let (path, targeted, e1) =
        and_then-eq-ok
          (file_result
            (target_path host.join host.discover name ctx.efi_dir ctx.named_file ctx.efi))
          _ e in
      let (doc, loaded, e2) =
        and_then-eq-ok (file_result (load_document T host.parse_document disk path)) _ e1 in
      let (changed, edited, e3) = and_then-eq-ok (edit_result (change doc)) _ e2 in
      subst (IsEdit change) (ok_injective e3) (
        doc,
        file_result-eq-ok (load_document T host.parse_document disk path) loaded,
        edit_result-eq-ok (change doc) edited,
        refl,
      )

  edit_key-eq-ok :
      (key_text : Text) (change : List Segment → T.Table → Result Error T.Table)
      (w : Written T.Table)
      → edit_key T host disk ctx key_text change ≡ ok w
      → (key : List Segment) × (parse key_text ≡ some key) × IsEdit (change key) w
  unfolding edit_key
  edit_key-eq-ok key_text change w e =
      let (key, parsed, e1) = and_then-eq-ok (ok_or (parse key_text) _) _ e in
      let (name, named, e2) = and_then-eq-ok (ok_or (section key) _) _ e1 in
      elim (Bool-cases (text_eq name (text "machine") && is_some ctx.named_file)) [
        | inl refused ↦ absurd (ground (arith, e2, refused))
        | inr allowed ↦ (
          key,
          ok_or-eq-ok _ (parse key_text) parsed,
          edit_file-eq-ok name (change key) w (rw allowed at e2),
        )
      ]

module _ {F : Type 0} (T : TomlEdit F) (laws : Laws T) (host : Host T.Table) where
  -- The file that a change leaves is read back as the document that was written.
  load_document-Runs :
      (disk after : Disk) (path : Text) (document : T.Table)
      → Runs disk
          (write_document host.parent host.with_extension path (host.print_document document))
          after
          true
      → host.parse_document (host.print_document document) ≡ some document
      → temporary host.parent host.with_extension path ≢ path
      → load_document T host.parse_document after path ≡ ok document
  unfolding load_document document_in
  load_document-Runs disk after path document run reread other =
      let printed : after path ≡ content (host.print_document document) =
        write_document-Runs host.parent host.with_extension disk path (host.print_document document)
          other run in
      rw (printed, reread) refl

module _ {F : Type 0} (T : TomlEdit F) (laws : Laws T) (parse_f64 : Text → Option F)
    (host : Host T.Table) where
  -- A run of `set` that succeeds and makes all its calls leaves a file that loads as a document
  -- with the value at the key path, and with all that the file's old document had at the paths
  -- that part from it; it is assumed that the new document is read back as it was printed, and
  -- that the temporary file is another one.
  pub set_command-Runs :
      (disk after : Disk) (ctx : Ctx) (key_text value : Text) (w : Written T.Table)
      → set_command T host parse_f64 disk ctx key_text value ≡ ok w
      → Runs disk w.calls after true
      → host.parse_document (host.print_document w.document) ≡ some w.document
      → temporary host.parent host.with_extension w.path ≢ w.path
      → (key : List Segment) × (old : T.Table) × (new : T.Table) × (parse key_text ≡ some key)
        × (load_document T host.parse_document disk w.path ≡ ok old)
        × (load_document T host.parse_document after w.path ≡ ok new)
        × (doc_at T new key ≡ some (T.of_value (parse_value T parse_f64 value)))
        × ((q : List Segment) → Diverge key q → doc_at T new q ≡ doc_at T old q)
  unfolding set_command
  set_command-Runs disk after ctx key_text value w e run reread other =
      let (key, parsed, (old, loaded, changed, calls)) =
        edit_key-eq-ok T host disk ctx key_text (λ key doc. apply_set T parse_f64 doc key value) w
          e in
      (
        key,
        old,
        w.document,
        parsed,
        loaded,
        load_document-Runs T laws host disk after w.path w.document (rw calls at run) reread other,
        apply_set-doc_at T laws parse_f64 old key value changed,
        λ q d. apply_set-Diverge T laws parse_f64 old key value q changed d,
      )

module _ {F : Type 0} (T : TomlEdit F) (laws : Laws T) (host : Host T.Table) where
  -- A run of `remove` that succeeds and makes all its calls, for a key path that ends in a name and
  -- leads through tables to something in the file's old document, leaves a file that loads as a
  -- document with nothing at the key path, and with all that the old document had at the paths
  -- that part from it; it is assumed that the new document is read back as it was printed, and
  -- that the temporary file is another one. A key inside an inline table is not led to.
  pub remove_command-Runs :
      (disk after : Disk) (ctx : Ctx) (key_text : Text) (key : List Segment) (w : Written T.Table)
      (old : T.Table) (item : T.Item)
      → remove_command T host disk ctx key_text ≡ ok w
      → Runs disk w.calls after true
      → host.parse_document (host.print_document w.document) ≡ some w.document
      → temporary host.parent host.with_extension w.path ≢ w.path
      → parse key_text ≡ some key
      → EndsInField key
      → load_document T host.parse_document disk w.path ≡ ok old
      → doc_at T old key ≡ some item
      → (new : T.Table) × (load_document T host.parse_document after w.path ≡ ok new)
        × (doc_at T new key ≡ none)
        × ((q : List Segment) → Diverge key q → doc_at T new q ≡ doc_at T old q)
  unfolding remove_command
  remove_command-Runs disk after ctx key_text key w old item e run reread other parsed named held
        there =
      let (found, parsed_again, (read, loaded, changed, calls)) =
        edit_key-eq-ok T host disk ctx key_text (λ key doc. remove_in_doc T doc key) w e in
      let same : found ≡ key = some-injective found key (sym parsed_again ∙ parsed) in
      let same_document : read ≡ old = ok_injective (sym loaded ∙ held) in
      let removed : remove_in_doc T old key ≡ ok w.document =
        rw same_document at (rw same at changed) in
      (
        w.document,
        load_document-Runs T laws host disk after w.path w.document (rw calls at run) reread other,
        remove_in_doc-doc_at T laws old key named removed,
        λ q d. remove_in_doc-Diverge T laws old key q named removed d,
      )

  -- A run of `add` that succeeds and makes all its calls is about another section than `machine`,
  -- and leaves a file that loads as a document with one table more in the array of tables of the
  -- section: an empty one behind the others, which keep their places, or the only one of a new
  -- section. All other sections are as the file's old document had them; it is assumed that the
  -- new document is read back as it was printed, and that the temporary file is another one.
  pub add_command-Runs :
      (disk after : Disk) (ctx : Ctx) (name : Text) (w : Written T.Table)
      → add_command T host disk ctx name ≡ ok w
      → Runs disk w.calls after true
      → host.parse_document (host.print_document w.document) ≡ some w.document
      → temporary host.parent host.with_extension w.path ≢ w.path
      → (name ≢ text "machine")
        × ((old : T.Table) × (new : T.Table) × (before : T.ArrayOfTables)
            × (tables : T.ArrayOfTables) × (load_document T host.parse_document disk w.path
                ≡ ok old)
            × (load_document T host.parse_document after w.path ≡ ok new)
            × (array_or_new T laws (T.get old name) ≡ some before)
            × (T.get new name ≡ some (T.of_tables tables))
            × (T.tables_get tables (T.tables_len before) ≡ some T.new_table)
            × ((j : ℕ) → j ≢ T.tables_len before → T.tables_get tables j ≡ T.tables_get before j)
            × ((k : Text) → name ≢ k → T.get new k ≡ T.get old k))
  unfolding add_command
  add_command-Runs disk after ctx name w e run reread other =
      elim (Bool-cases (text_eq name (text "machine"))) [
        | inl machine ↦ absurd (ground (arith, e, machine))
        | inr allowed ↦
            let (old, loaded, changed, calls) =
              edit_file-eq-ok T host disk ctx name (λ doc. add_table T doc name) w
                (rw allowed at e) in
            let (before, tables, had, put_there, last, rest, sections) =
              add_table-eq-ok T laws old name w.document changed in
            (
              (λ is. absurd (ground (arith, allowed, text_eq_iff name (text "machine")))),
              (
                old,
                w.document,
                before,
                tables,
                loaded,
                load_document-Runs T laws host disk after w.path w.document (rw calls at run) reread
                    other,
                had,
                put_there,
                last,
                rest,
                sections,
              ),
            )
      ]
