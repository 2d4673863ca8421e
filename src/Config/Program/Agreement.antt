-- ===== src/Config/Program/Agreement.antt =====
-- package/zebrafish-config/src: how the commands agree with one another.
use zebrafish.Prelude.{
  not, List, [], ◌∷◌, Option, none, some, Text, text, text_eq, ◌≡◌, inl, inr, refl, arith, ap, ◌&&◌,
  is_some, subst, Bool-cases,
}
use zebrafish.Prelude.Results.{Result, ok, err, and_then-eq-ok, ok_injective}
use zebrafish.Config.TomlEdit.{TomlEdit}
use zebrafish.Config.Value.{Value}
use zebrafish.Config.Schema.{Config}
use zebrafish.Config.Files.{Disk, target_path, load_document, write_document}
use zebrafish.Config.Commands.Stored.{file_result-eq-ok}
use zebrafish.Config.Commands.{
  Ctx, machine_in_file, edit_key, set_command, remove_command, add_command, Written, Host,
  file_result, edit_result, edit_file,
}
use zebrafish.Config.KeyPath.{Segment, parse, section}
use zebrafish.Config.Write.{Error, apply_set, remove_in_doc, add_table}
use zebrafish.Config.Listing.{Printer}
use zebrafish.Config.CommandLine.{Command}
use zebrafish.Config.Program.{
  Ran, ran, Edited, path_lines, efi_directory, run_set, run_add, run_remove, dispatch,
  after_writing,
}

module _ (join : Text → Text → Text) (discover : Option Text) where
  target_path-path_lines :
      (ctx : Ctx) (name found : Text)
      → ctx.named_file ≡ none
      → target_path join discover name ctx.efi_dir ctx.named_file ctx.efi ≡ ok found
      → path_lines join discover ctx
          (not (text_eq name (text "machine")))
          (text_eq name (text "machine"))
        ≡ ok (found ∷ [])
  unfolding path_lines target_path efi_directory
  target_path-path_lines ctx name found unnamed e = ground (arith, unnamed, e)

module _ {F : Type 0} (T : TomlEdit F) (host : Host T.Table) (disk : Disk) (ctx : Ctx) where
  -- The file that a command writes is the one that `path` prints for a section.
  abbrev pub IsPrinted : Text → Written T.Table → Type 0
  IsPrinted name w =
      (path_lines host.join host.discover ctx (not (text_eq name (text "machine")))
          (text_eq name (text "machine"))
        ≡ ok (w.path ∷ []))
      × (w.calls
          ≡ write_document host.parent host.with_extension w.path (host.print_document w.document))

  edit_file-IsPrinted :
      (name : Text) (change : T.Table → Result Error T.Table) (w : Written T.Table)
      → ctx.named_file ≡ none
      → edit_file T host disk ctx name change ≡ ok w
      → IsPrinted name w
  unfolding edit_file
  edit_file-IsPrinted name change w unnamed e =
      let (found, targeted, e1) =
        and_then-eq-ok
          (file_result
            (target_path host.join host.discover name ctx.efi_dir ctx.named_file ctx.efi))
          _ e in
      let (doc, loaded, e2) =
        and_then-eq-ok (file_result (load_document T host.parse_document disk found)) _ e1 in
      let (changed, edited, e3) = and_then-eq-ok (edit_result (change doc)) _ e2 in
      subst (IsPrinted name) (ok_injective e3) (
        target_path-path_lines host.join host.discover ctx name found unnamed (
            file_result-eq-ok
              (target_path host.join host.discover name ctx.efi_dir ctx.named_file ctx.efi)
              targeted),
        refl,
      )

  edit_key-IsPrinted :
      (key_text name : Text) (key : List Segment)
      (change : List Segment → T.Table → Result Error T.Table) (w : Written T.Table)
      → ctx.named_file ≡ none
      → parse key_text ≡ some key
      → section key ≡ some name
      → edit_key T host disk ctx key_text change ≡ ok w
      → IsPrinted name w
  unfolding edit_key
  edit_key-IsPrinted key_text name key change w unnamed parsed named e =
      elim (Bool-cases (text_eq name (text "machine") && is_some ctx.named_file)) [
        | inl refused ↦ absurd (ground (arith, refused, unnamed))
        | inr allowed ↦
            edit_file-IsPrinted name (change key) w unnamed (rw (parsed, named, allowed) at e)
      ]

  -- A command that writes a section, and what it wrote.
  pub data Writes (parse_f64 : Text → Option F) : Text → Written T.Table → Type 0 where
    by_set :
        (key_text value : Text) {name : Text} {key : List Segment} {w : Written T.Table}
        → parse key_text ≡ some key
        → section key ≡ some name
        → set_command T host parse_f64 disk ctx key_text value ≡ ok w
        → Writes parse_f64 name w
    by_remove :
        (key_text : Text) {name : Text} {key : List Segment} {w : Written T.Table}
        → parse key_text ≡ some key
        → section key ≡ some name
        → remove_command T host disk ctx key_text ≡ ok w
        → Writes parse_f64 name w
    by_add :
        {name : Text} {w : Written T.Table}
        → add_command T host disk ctx name ≡ ok w
        → Writes parse_f64 name w

  add_command-IsPrinted :
      (name : Text) (w : Written T.Table)
      → ctx.named_file ≡ none
      → add_command T host disk ctx name ≡ ok w
      → IsPrinted name w
  unfolding add_command
  add_command-IsPrinted name w unnamed e = elim (Bool-cases (text_eq name (text "machine"))) [
    | inl machine ↦ absurd (ground (arith, e, machine))
    | inr other ↦ edit_file-IsPrinted name (λ doc. add_table T doc name) w unnamed (rw other at e)
  ]

  -- Without `--file`, the one file that a successful `set`, `remove` or `add` writes is the one that
  -- `path` prints with the flag of the section that is written: `--machine` for `machine`,
  -- `--system` for any other.
  pub Writes-IsPrinted :
      (parse_f64 : Text → Option F) (name : Text) (w : Written T.Table)
      → ctx.named_file ≡ none
      → Writes parse_f64 name w
      → IsPrinted name w
  unfolding set_command remove_command
  Writes-IsPrinted parse_f64 name w unnamed (by_set key_text value {key = key} parsed named e) =
      edit_key-IsPrinted key_text name key (λ key doc. apply_set T parse_f64 doc key value) w
        unnamed parsed named e
  Writes-IsPrinted parse_f64 name w unnamed (by_remove key_text {key = key} parsed named e) =
      edit_key-IsPrinted key_text name key (λ key doc. remove_in_doc T doc key) w unnamed parsed
        named e
  Writes-IsPrinted parse_f64 name w unnamed (by_add e) = add_command-IsPrinted name w unnamed e

module _ {F G D : Type 0} (T : TomlEdit F) (host : Host T.Table) (parse_f64 : Text → Option F)
    (parse_toml : Text → Option (Value G D)) (printer : Printer Config G D)
    (to_uppercase : Text → Text) (editor : Text → Edited) where
  abbrev run : Disk → Ctx → Command → Ran
  run = dispatch T host parse_f64 parse_toml printer to_uppercase editor

  edit_key_machine :
      (disk : Disk) (ctx : Ctx) (key_text f : Text) (key : List Segment)
      (change : List Segment → T.Table → Result Error T.Table)
      → parse key_text ≡ some key
      → section key ≡ some (text "machine")
      → ctx.named_file ≡ some f
      → edit_key T host disk ctx key_text change ≡ err machine_in_file
  unfolding edit_key text_eq
  edit_key_machine disk ctx key_text f key change parsed named given = rw (parsed, named, given)

  -- With `--file`, no key of [machine] can be set or removed, and `add` never takes [machine]: each
  -- of the commands ends with code 1, prints nothing and writes no configuration file.
  pub dispatch_machine :
      (disk : Disk) (ctx : Ctx) (key_text value f : Text) (key : List Segment)
      → parse key_text ≡ some key
      → section key ≡ some (text "machine")
      → ctx.named_file ≡ some f
      → (run disk ctx (Command.set (record { key = key_text; value = value })) ≡ ran [] 1 [])
        × (run disk ctx (Command.remove (record { key = key_text })) ≡ ran [] 1 [])
        × (run disk ctx (Command.add (record { section = text "machine" })) ≡ ran [] 1 [])
  unfolding dispatch run_set run_remove run_add set_command remove_command add_command text_eq
  dispatch_machine disk ctx key_text value f key parsed named given = (
    ap after_writing (
        edit_key_machine disk ctx key_text f key (λ k doc. apply_set T parse_f64 doc k value) parsed
          named given),
    ap after_writing (
        edit_key_machine disk ctx key_text f key (λ k doc. remove_in_doc T doc k) parsed named
          given),
    refl,
  )
