-- ===== src/Config/Program.antt =====
-- package/zebrafish-config/src: the rest of path.rs and edit.rs, and the dispatch of main.rs. What
-- a command does to the configuration files is the list of the calls that write them; an error is
-- exit code 1. The search for the EFI partition, which may create its mount point and mount it, is
-- a parameter here, and its effects are no part of that list: Config.Efi.Mount has them.
pub mod Agreement
pub mod Exits
use zebrafish.Prelude.{
  ℕ, zero, suc, Bool, true, false, not, ◌&&◌, ◌%◌, List, [], ◌∷◌, ◌++◌, Option, none, some, Text,
  text, text_eq, if◌then◌else◌,
}
use zebrafish.Prelude.Results.{Result, ok, err, and_then, ok_or}
use zebrafish.Config.TomlEdit.{TomlEdit}
use zebrafish.Config.Value.{Value}
use zebrafish.Config.Schema.{Config}
use zebrafish.Config.Schema.Whole.{to_value, from_toml}
use zebrafish.Config.Files.{
  Disk, Read, missing, Call, create_dir_all, write, FileError, no_efi, system_file, machine_file,
  load_document,
}
use zebrafish.Config.Commands.{
  Ctx, Exit, exit, CommandError, Written, Host, file_result, set_command, remove_command,
  add_command, get_command, load,
}
use zebrafish.Config.Listing.{Printer, unlines, list_command}
use zebrafish.Config.Validate.{validate}
use zebrafish.Config.CommandLine.{
  GetArgs, SetArgs, ListArgs, AddArgs, RemoveArgs, PathArgs, ValidateArgs, Command, get, set, list,
  add, remove, edit, path, validate_files, Cli, from_cli,
}

-- `main` looks for the EFI directory once, if it is wanted and not given.
unfoldable pub populate : Option Text → Ctx → Ctx
populate discover ctx = elim ctx.efi_dir [
  | some d ↦ ctx
  | none ↦ if ctx.efi then record ctx { efi_dir = discover } else ctx
]

module _ (join : Text → Text → Text) (discover : Option Text) where
  -- The directory that `path.rs` names the machine file in; without the flag it has its own error.
  unfoldable pub efi_directory : Option Text → Bool → Result CommandError Text
  efi_directory (some d) efi = ok d
  efi_directory none true = file_result (ok_or discover no_efi)
  efi_directory none false = err CommandError.not_located

  -- The lines that `path` prints; the flags are `--system` and `--machine`.
  unfoldable pub path_lines : Ctx → Bool → Bool → Result CommandError (List Text)
  path_lines ctx true machine = ok (if machine then [] else system_file ∷ [])
  path_lines ctx false machine = and_then (efi_directory ctx.efi_dir ctx.efi) λ d. ok (
      if machine
      then machine_file join discover d ∷ []
      else system_file ∷ machine_file join discover d ∷ [])

abbrev pub edited_path : Option Text → Text
edited_path (some f) = f
edited_path none = system_file

abbrev create_before : Option Text → List Call
create_before none = []
create_before (some d) = create_dir_all d ∷ []

-- What `edit` does before it starts the editor: it creates the file if there is none.
unfoldable pub edit_calls : (Text → Option Text) → Text → Read → List Call
edit_calls parent f missing = create_before (parent f) ++ (write f [] ∷ [])
edit_calls parent f _ = []

-- What a command prints, its exit code, and the calls by which it writes configuration files, which
-- succeed here. What the search for the EFI partition does is not among them.
pub record Ran : Type 0 where
  pub printed : Text
  pub code : ℕ
  pub writes : List Call

abbrev pub ran : Text → ℕ → List Call → Ran
ran s n cs = record { printed = s; code = n; writes = cs }

-- `run` of a command that writes no configuration file, and of one that does.
abbrev pub after_reading : Result CommandError Exit → Ran
after_reading (ok e) = ran e.printed e.code []
after_reading (err e) = ran [] 1 []

abbrev pub after_writing : {Table : Type 0} → Result CommandError (Written Table) → Ran
after_writing (ok w) = ran [] 0 w.calls
after_writing (err e) = ran [] 1 []

abbrev pub after_path : Result CommandError (List Text) → Ran
after_path (ok ls) = ran (unlines ls) 0 []
after_path (err e) = ran [] 1 []

abbrev machine_id : Config → Option Text
machine_id c = elim c.machine [ none ↦ none | some m ↦ some m.id ]

-- How the editor ends: it cannot be started, it is killed or exits with a code; and the disk then.
pub record Edited : Type 0 where
  pub started : Bool
  pub exit_code : Option ℕ
  pub after : Disk

module _ {F G D : Type 0} (T : TomlEdit F) (host : Host T.Table) (parse_f64 : Text → Option F)
    (parse_toml : Text → Option (Value G D)) (printer : Printer Config G D)
    (to_uppercase : Text → Text) (editor : Text → Edited) where
  -- After the editor: its code, or 1 if it was killed; or else the check of the document.
  abbrev edit_code : Disk → Text → Option ℕ → ℕ
  edit_code after f none = 1
  edit_code after f (some zero) = elim (load_document T host.parse_document after f) [
    | ok doc ↦ 0
    | err e ↦ 1
  ]
  edit_code after f (some (suc n)) = suc n % 256

  -- `run` of each command: its work, and what is printed of an error.
  unfoldable pub run_get : Disk → Ctx → GetArgs → Ran
  run_get disk ctx args = after_reading (
      get_command (from_toml parse_toml) (λ c. some (to_value c)) printer.display host.join
        host.discover disk ctx args.key args.default args.as_flag)

  unfoldable pub run_set : Disk → Ctx → SetArgs → Ran
  run_set disk ctx args = after_writing (set_command T host parse_f64 disk ctx args.key args.value)

  unfoldable pub run_list : Disk → Ctx → ListArgs → Ran
  run_list disk ctx args = after_reading (
      list_command (from_toml parse_toml) (λ c. some (to_value c)) printer to_uppercase host.join
        host.discover disk ctx args.listed_section args.format)

  unfoldable pub run_add : Disk → Ctx → AddArgs → Ran
  run_add disk ctx args = after_writing (add_command T host disk ctx args.section)

  unfoldable pub run_remove : Disk → Ctx → RemoveArgs → Ran
  run_remove disk ctx args = after_writing (remove_command T host disk ctx args.key)

  unfoldable pub run_path : Ctx → PathArgs → Ran
  run_path ctx args = after_path (path_lines host.join host.discover ctx args.system args.machine)

  unfoldable pub run_validate : Disk → Ctx → ValidateArgs → Ran
  run_validate disk ctx args = after_reading (
      validate (from_toml parse_toml) machine_id
        (λ only.
          load (from_toml parse_toml) (λ c. some (to_value c)) printer.display host.join
            host.discover disk ctx.efi_dir only ctx.efi)
        disk ctx.named_file args.machine args.system)

  -- `run_inner` of edit.rs.
  unfoldable pub edit_command : Disk → Ctx → Ran
  edit_command disk ctx =
      let f = edited_path ctx.named_file in
      let done = editor f in
      ran [] (if done.started then edit_code done.after f done.exit_code else 1)
        (edit_calls host.parent f (disk f))

  -- The dispatch of `main`.
  unfoldable pub dispatch : Disk → Ctx → Command → Ran
  dispatch disk ctx (get args) = run_get disk ctx args
  dispatch disk ctx (set args) = run_set disk ctx args
  dispatch disk ctx (list args) = run_list disk ctx args
  dispatch disk ctx (add args) = run_add disk ctx args
  dispatch disk ctx (remove args) = run_remove disk ctx args
  dispatch disk ctx edit = edit_command disk ctx
  dispatch disk ctx (path args) = run_path ctx args
  dispatch disk ctx (validate_files args) = run_validate disk ctx args

  unfoldable pub main : Disk → Cli → Ran
  main disk cli = dispatch disk (populate host.discover (from_cli cli)) cli.command
