-- ===== src/Config/Commands.antt =====
-- package/zebrafish-config/src: the `run_inner` of set.rs, remove.rs, get.rs and validate.rs and
-- the `add_inner` of add.rs. A command that writes returns the calls it makes; what a command
-- prints is returned with its exit code. The configuration schema is a parameter.
pub mod Stored
use zebrafish.Prelude.{
  ℕ, Bool, true, false, not, ◌&&◌, List, [], ◌∷◌, ◌++◌, Option, none, some, Text, text, text_eq,
  if◌then◌else◌, is_some, ◌>>=◌,
}
use zebrafish.Prelude.Results.{Result, ok, err, and_then, ok_or}
use zebrafish.Config.KeyPath.{Segment, parse, section}
use zebrafish.Config.Value.{Value, as_bool, walk_segments}
use zebrafish.Config.TomlEdit.{TomlEdit}
use zebrafish.Config.Write.{Error, apply_set, remove_in_doc, add_table}
use zebrafish.Config.Files.{
  Disk, Read, Call, FileError, not_readable, bad_toml, system_file, target_path, resolve_paths,
  load_from_paths, load_document, document_in, write_document,
}

pub data CommandError : Type 0 where
  invalid_key_path no_section_name machine_in_file add_to_machine not_a_bool : CommandError
  no_machine no_machine_id unprintable not_located : CommandError
  file : FileError → CommandError
  edit : Error → CommandError

-- The options of `Ctx`.
pub record Ctx : Type 0 where
  pub efi_dir : Option Text
  pub named_file : Option Text
  pub efi : Bool

abbrev pub file_result {ℓ} : {A : Type ℓ} → Result FileError A → Result CommandError A
file_result (ok a) = ok a
file_result (err e) = err (file e)

abbrev pub edit_result {ℓ} : {A : Type ℓ} → Result Error A → Result CommandError A
edit_result (ok a) = ok a
edit_result (err e) = err (edit e)

-- What a writing command does: the file, the document it writes and the calls.
pub record Written (Table : Type 0) : Type 0 where
  pub path : Text
  pub document : Table
  pub calls : List Call

-- The paths, the TOML parser and printer, and the search for the EFI partition.
pub record Host (Table : Type 0) : Type 0 where
  pub join : Text → Text → Text
  pub parent : Text → Option Text
  pub with_extension : Text → Text → Text
  pub discover : Option Text
  pub parse_document : Text → Option Table
  pub print_document : Table → Text

module _ {F : Type 0} (T : TomlEdit F) (host : Host T.Table) where
  -- `target_path`, `load_document`, a change, and `write_document`.
  unfoldable pub edit_file :
      Disk → Ctx → Text → (T.Table → Result Error T.Table) → Result CommandError (Written T.Table)
  edit_file disk ctx name change =
      and_then
        (file_result (target_path host.join host.discover name ctx.efi_dir ctx.named_file ctx.efi))
        λ path. and_then (file_result (load_document T host.parse_document disk path)) λ doc.
          and_then (edit_result (change doc)) λ changed. ok (record {
            path = path;
            document = changed;
            calls =
                write_document host.parent host.with_extension path (host.print_document changed);
          })

  -- The key path and its section, with the check on `--file`, in front of such an edit.
  unfoldable pub edit_key :
      Disk
      → Ctx
      → Text
      → (List Segment → T.Table → Result Error T.Table)
      → Result CommandError (Written T.Table)
  edit_key disk ctx key_text change = and_then (ok_or (parse key_text) invalid_key_path) λ key.
      and_then (ok_or (section key) no_section_name) λ name.
        if text_eq name (text "machine") && is_some ctx.named_file
        then err machine_in_file
        else edit_file disk ctx name (change key)

  unfoldable pub set_command :
      (Text → Option F) → Disk → Ctx → Text → Text → Result CommandError (Written T.Table)
  set_command parse_f64 disk ctx key_text value =
      edit_key disk ctx key_text (λ key doc. apply_set T parse_f64 doc key value)

  unfoldable pub remove_command : Disk → Ctx → Text → Result CommandError (Written T.Table)
  remove_command disk ctx key_text = edit_key disk ctx key_text (λ key doc. remove_in_doc T doc key)

  -- `add_inner`.
  unfoldable pub add_command : Disk → Ctx → Text → Result CommandError (Written T.Table)
  add_command disk ctx name =
      if text_eq name (text "machine")
      then err add_to_machine
      else edit_file disk ctx name (λ doc. add_table T doc name)

-- What is printed, and the exit code.
pub record Exit : Type 0 where
  pub printed : Text
  pub code : ℕ

abbrev pub exit : Text → ℕ → Exit
exit s n = record { printed = s; code = n }

unfoldable pub file_text : Read → Result FileError Text
file_text (Read.content s) = ok s
file_text _ = err not_readable

abbrev bool_text : Bool → Text
bool_text true = text "true"
bool_text false = text "false"

module _ {C G D : Type 0} (from_toml : Text → Option C) (to_value : C → Option (Value G D))
    (show : Value G D → Text) (join : Text → Text → Text) (discover : Option Text) where
  -- `load`.
  unfoldable pub load : Disk → Option Text → Bool → Bool → Result FileError C
  load disk efi_dir machine_only efi =
      let paths = resolve_paths join discover efi_dir machine_only efi in
      load_from_paths from_toml disk paths.0 paths.1

  -- The configuration that `get` and `list` read.
  unfoldable pub read_config : Disk → Ctx → Option Text → Result FileError C
  read_config disk ctx (some f) = and_then (file_text (disk f)) λ s. ok_or (from_toml s) bad_toml
  read_config disk ctx none = load disk ctx.efi_dir false ctx.efi

  unfoldable pub show_found : Bool → Value G D → Result CommandError Exit
  show_found true v = elim (as_bool v) [
    | some b ↦ ok (exit (bool_text b) 0)
    | none ↦ err not_a_bool
  ]
  show_found false v = ok (exit (show v) 0)

  unfoldable pub show_value : Option Text → Bool → Option (Value G D) → Result CommandError Exit
  show_value default as_flag (some v) = show_found as_flag v
  show_value (some d) as_flag none = ok (exit d 0)
  show_value none true none = ok (exit [] 2)
  show_value none false none = ok (exit [] 1)

  unfoldable pub get_command : Disk → Ctx → Text → Option Text → Bool → Result CommandError Exit
  get_command disk ctx key_text default as_flag =
      and_then (ok_or (parse key_text) invalid_key_path) λ key.
        and_then (file_result (read_config disk ctx ctx.named_file))
          λ cfg. show_value default as_flag (to_value cfg >>= walk_segments key)
