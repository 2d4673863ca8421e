-- ===== src/Config/Program/Exits.antt =====
-- package/zebrafish-config/src: when `set` and `remove` end with code 0.
use zebrafish.Prelude.{
  false, ◌&&◌, List, Option, some, Text, text, text_eq, is_some, ◌≡◌, ◌↔◌, refl, ap, inl, inr,
  Bool-cases, arith,
}
use zebrafish.Prelude.Results.{Result, ok, err, and_then-eq-ok, ok_or, ok_or-eq-ok}
use zebrafish.Config.KeyPath.{Segment, parse, section}
use zebrafish.Config.TomlEdit.{TomlEdit, Laws}
use zebrafish.Config.Value.{Value}
use zebrafish.Config.Schema.{Config}
use zebrafish.Config.Listing.{Printer}
use zebrafish.Config.Files.{Disk, target_path, load_document, write_document}
use zebrafish.Config.Commands.{
  remove_command, Ctx, CommandError, Written, Host, edit_file, edit_key, set_command,
}
use zebrafish.Config.Commands.Stored.{file_result-eq-ok, edit_result-eq-ok}
use zebrafish.Config.Write.{Error, apply_set, remove_in_doc}
use zebrafish.Config.Write.Success.{CanSet, apply_set_iff}
use zebrafish.Config.Write.Removable.{CanRemove, remove_in_doc_iff}
use zebrafish.Config.CommandLine.{SetArgs, RemoveArgs}
use zebrafish.Config.Program.{Edited, after_writing, run_set, run_remove}

module _ {F : Type 0} (T : TomlEdit F) (host : Host T.Table) (disk : Disk) (ctx : Ctx) where
  -- The key path can be read and names a section whose file there is, which loads; `--file` is not
  -- given for [machine]; and the change of the document is possible.
  abbrev pub IsReady : (List Segment → T.Table → Type 0) → Text → Type 0
  IsReady CanChange key_text =
      (key : List Segment) × (name : Text) × (path : Text) × (old : T.Table) × (parse key_text
        ≡ some key)
      × (section key ≡ some name)
      × ((text_eq name (text "machine") && is_some ctx.named_file) ≡ false)
      × (target_path host.join host.discover name ctx.efi_dir ctx.named_file ctx.efi ≡ ok path)
      × (load_document T host.parse_document disk path ≡ ok old)
      × CanChange key old

  abbrev CanChangeTo :
      (List Segment → T.Table → Result Error T.Table) → List Segment → T.Table → Type 0
  CanChangeTo change key old = (changed : T.Table) × (change key old ≡ ok changed)

  edit_key-IsReady :
      (key_text : Text) (change : List Segment → T.Table → Result Error T.Table)
      (w : Written T.Table)
      → edit_key T host disk ctx key_text change ≡ ok w
      → IsReady (CanChangeTo change) key_text
  unfolding edit_key edit_file
  edit_key-IsReady key_text change w e =
      let (key, parsed, e1) = and_then-eq-ok (ok_or (parse key_text) _) _ e in
      let (name, named, e2) = and_then-eq-ok (ok_or (section key) _) _ e1 in
      elim (Bool-cases (text_eq name (text "machine") && is_some ctx.named_file)) [
        | inl refused ↦ absurd (ground (arith, e2, refused))
        | inr allowed ↦
            let (path, targeted, e3) = and_then-eq-ok _ _ (rw allowed at e2) in
            let (old, loaded, e4) = and_then-eq-ok _ _ e3 in
            let (changed, edited, e5) = and_then-eq-ok _ _ e4 in
            (
              key,
              name,
              path,
              old,
              ok_or-eq-ok _ (parse key_text) parsed,
              ok_or-eq-ok _ (section key) named,
              allowed,
              file_result-eq-ok _ targeted,
              file_result-eq-ok _ loaded,
              (changed, edit_result-eq-ok _ edited),
            )
      ]

  IsReady-edit_key :
      (key_text : Text) (change : List Segment → T.Table → Result Error T.Table)
      → IsReady (CanChangeTo change) key_text
      → (w : Written T.Table) × (edit_key T host disk ctx key_text change ≡ ok w)
  unfolding edit_key edit_file
  IsReady-edit_key key_text change
        (key, name, path, old, parsed, named, allowed, targeted, loaded, (changed, edited)) =
      (
        record {
          path = path;
          document = changed;
          calls = write_document host.parent host.with_extension path (host.print_document changed);
        },
        rw (parsed, named, allowed, targeted, loaded, edited) refl,
      )

  IsReady-map :
      (P Q : List Segment → T.Table → Type 0) (key_text : Text)
      → ((key : List Segment) (doc : T.Table) → P key doc → Q key doc)
      → IsReady P key_text
      → IsReady Q key_text
  IsReady-map P Q key_text f (key, name, path, old, parsed, named, allowed, targeted, loaded, can) =
      (key, name, path, old, parsed, named, allowed, targeted, loaded, f key old can)

after_writing-code :
    {Table : Type 0} (r : Result CommandError (Written Table))
    → (after_writing r).code ≡ 0
    → (w : Written Table) × (r ≡ ok w)
after_writing-code (ok w) e = (w, refl)
after_writing-code (err x) e = absurd (omega (arith, e))

module _ {F G D : Type 0} (T : TomlEdit F) (laws : Laws T) (host : Host T.Table)
    (parse_f64 : Text → Option F) (parse_toml : Text → Option (Value G D))
    (printer : Printer Config G D) (to_uppercase : Text → Text) (editor : Text → Edited) where
  -- A run of `set` whose writes succeed ends with code 0 exactly if its key path can be
  -- read and names a section, not [machine] if `--file` is given, the file of the section can be
  -- told and loads, and its document lets the key path be set: the path names a key, by names
  -- only, below a section that is a table or absent, or below an element that is there of a section
  -- that is an array of tables, and all that it meets in there before its end are tables or absent.
  pub run_set_iff :
      (disk : Disk) (ctx : Ctx) (args : SetArgs)
      → ((run_set T host parse_f64 parse_toml printer to_uppercase editor disk ctx args).code ≡ 0)
        ↔ IsReady T host disk ctx (λ key doc. CanSet T doc key) args.key
  unfolding run_set set_command
  run_set_iff disk ctx args =
      let change =
        λ (key : List Segment) (doc : T.Table). apply_set T parse_f64 doc key args.value in
      (
        λ e.
            let (w, done) =
              after_writing-code (set_command T host parse_f64 disk ctx args.key args.value) e in
            IsReady-map T host disk ctx (CanChangeTo T host disk ctx change)
              (λ key doc. CanSet T doc key) args.key
              (λ key doc. (apply_set_iff T laws parse_f64 doc key args.value).1)
              (edit_key-IsReady T host disk ctx args.key change w done),
        λ ready.
            let (w, done) = IsReady-edit_key T host disk ctx args.key change (
              IsReady-map T host disk ctx (λ key doc. CanSet T doc key)
                (CanChangeTo T host disk ctx change) args.key
                (λ key doc. (apply_set_iff T laws parse_f64 doc key args.value).0) ready) in
            ap (λ r. (after_writing r).code) done,
      )

  -- A run of `remove` whose writes succeed ends with code 0 exactly if its key path can be read and
  -- names a section, not [machine] if `--file` is given, the file of the section can be told and
  -- loads, and the key path starts with the section and, as far as it leads in the document,
  -- goes on by names only, but for an index at its end.
  pub run_remove_iff :
      (disk : Disk) (ctx : Ctx) (args : RemoveArgs)
      → ((run_remove T host parse_f64 parse_toml printer to_uppercase editor disk ctx args).code
          ≡ 0)
        ↔ IsReady T host disk ctx (λ key doc. CanRemove T doc key) args.key
  unfolding run_remove remove_command
  run_remove_iff disk ctx args =
      let change = λ (key : List Segment) (doc : T.Table). remove_in_doc T doc key in
      (
        λ e.
            let (w, done) = after_writing-code (remove_command T host disk ctx args.key) e in
            IsReady-map T host disk ctx (CanChangeTo T host disk ctx change)
              (λ key doc. CanRemove T doc key) args.key (λ key doc. (remove_in_doc_iff T doc key).1)
              (edit_key-IsReady T host disk ctx args.key change w done),
        λ ready.
            let (w, done) = IsReady-edit_key T host disk ctx args.key change (
              IsReady-map T host disk ctx (λ key doc. CanRemove T doc key)
                (CanChangeTo T host disk ctx change) args.key
                (λ key doc. (remove_in_doc_iff T doc key).0) ready) in
            ap (λ r. (after_writing r).code) done,
      )
