-- ===== src/Config/ProgramTests.antt =====
-- Tests of `list`, `path`, `edit` and the dispatch, and their theorems at concrete inputs.
use zebrafish.Prelude.{
  true, false, List, [], ◌∷◌, ◌++◌, Option, none, some, ◌≡◌, ◌↔◌, refl, Text, text, text_eq,
  Contains,
}
use zebrafish.Prelude.Decimal.{parse_usize, parse_digits, to_string, show_onto}
use zebrafish.Prelude.Results.{ok}
use zebrafish.Config.KeyPath.{
  Segment, field, parse, section, scan, step, flush, close_index, finish, trim, trim_start,
  trim_end, is_whitespace,
}
use zebrafish.Config.Value.{
  Value, Entries, string, table, no_entries, entry, get_entry, walk_segments,
}
use zebrafish.Config.Shell.{
  emit_shell, shell_quote, escape_quotes, is_safe, underscored, join, assignment,
}
use zebrafish.Config.Shell.Complete.{variable}
use zebrafish.Config.Schema.{Config, default}
use zebrafish.Config.TomlEdit.Model.{model, model-Laws, Table, empty}
use zebrafish.Config.Files.{
  Disk, missing, load_document, document_in, target_path, machine_file, system_file, create_dir_all,
  write, write_document,
}
use zebrafish.Config.Commands.{
  add_command, set_command, remove_command, edit_key, edit_file, Ctx, exit, Written, Host,
}
use zebrafish.Config.Listing.{
  Printer, shell, show_listing, show_section, show_whole, unlines, show_listing-walk_segments,
}
use zebrafish.Config.CommandLine.{Command, Cli, SetArgs, RemoveArgs}
use zebrafish.Config.Program.{
  run_set, run_remove, run_add, ran, Edited, path_lines, efi_directory, edit_calls, edit_command,
  dispatch, main, populate,
}
use zebrafish.Config.Program.Exits.{IsReady, run_set_iff, run_remove_iff}
use zebrafish.Config.Write.Success.{CanSet}
use zebrafish.Config.Write.Removable.{CanRemove}
use zebrafish.Config.Write.{remove_in_doc, apply_set, set_in_section, set_in_table, ensure_table}
use zebrafish.Config.TomlEdit.Model
use zebrafish.Config.Program.Agreement.{IsPrinted, by_remove, Writes-IsPrinted}

programs : Unit {0}
unfolding parse scan step flush close_index finish trim trim_start trim_end is_whitespace
    parse_usize parse_digits section path_lines efi_directory edit_calls edit_command dispatch
    run_add main populate show_listing show_section show_whole unlines walk_segments get_entry
    emit_shell shell_quote escape_quotes is_safe underscored join to_string show_onto text_eq
    target_path machine_file add_command
programs = tt

abbrev upper : Text → Text
upper s = s

abbrev printer : Printer Config Text Text
printer = record {
  whole_toml = λ c. none;
  whole_json = λ c. none;
  section_json = λ v. none;
  display = λ v. [];
}

abbrev host : Host Table
host = record {
  join = λ d f. d ++ (b'/' ∷ f);
  parent = λ p. some (text "/etc");
  with_extension = λ p e. p ++ text ".tmp";
  discover = some (text "/efi");
  parse_document = λ s. some empty;
  print_document = λ d. [];
}

abbrev no_floats : Text → Option Text
no_floats s = none

abbrev no_toml : Text → Option (Value Text Text)
no_toml s = none

abbrev empty_disk : Disk
empty_disk p = missing

abbrev editor : Text → Edited
editor f = record { started = true; exit_code = some 3; after = empty_disk }

abbrev sections : Entries Text Text
sections =
    entry (text "zfs-mount") (table (entry (text "name") (string (text "tank")) no_entries))
      no_entries

mount_name :
    walk_segments (field (text "zfs-mount") ∷ field (text "name") ∷ []) (table sections)
    ≡ some (string (text "tank"))
unfolding programs
mount_name = refl

mount_line :
    show_listing printer upper shell (some (text "zfs-mount")) default (table sections) sections
    ≡ ok (exit (text "zfs_mount_name=tank\n") 0)
unfolding programs
mount_line = refl

show_listing-walk_segments_example :
    (whole : List Text) × (part : List Text) × (show_listing printer upper shell none default
        (table sections)
        sections
      ≡ ok (exit (unlines whole) 0))
    × (show_listing printer upper shell (some (text "zfs-mount")) default (table sections) sections
        ≡ ok (exit (unlines part) 0))
    × Contains
        (assignment
          (variable upper (field (text "zfs-mount") ∷ field (text "name") ∷ []))
          (shell_quote (text "tank")))
        whole
    × Contains
        (assignment
          (variable upper (field (text "zfs-mount") ∷ field (text "name") ∷ []))
          (shell_quote (text "tank")))
        part
show_listing-walk_segments_example =
    show_listing-walk_segments printer upper default sections (text "zfs-mount")
      (field (text "name") ∷ []) (text "tank") mount_name

abbrev options : Option Text → Ctx
options f = record { efi_dir = none; named_file = f; efi = true }

path_runs :
    (path_lines host.join host.discover (options none) false false
      ≡ ok (text "/etc/zebrafish.toml" ∷ text "/efi/zebrafish.toml" ∷ []))
    × (edit_command model host no_floats no_toml printer upper editor empty_disk (options none)
        ≡ ran [] 3 (create_dir_all (text "/etc") ∷ write system_file [] ∷ []))
unfolding programs
path_runs = (refl, refl)

abbrev machine_key : List Segment
machine_key = field (text "machine") ∷ field (text "id") ∷ []

key_parsed : parse (text "machine.id") ≡ some machine_key
unfolding programs
key_parsed = refl

key_section : section machine_key ≡ some (text "machine")
unfolding programs
key_section = refl

abbrev wrong_add : Cli
wrong_add = record {
  efi = false;
  efi_dir = none;
  cli_file = none;
  command = Command.add (record { section = text "machine" });
}

add_fails : (main model host no_floats no_toml printer upper editor empty_disk wrong_add).code ≡ 1
unfolding programs
add_fails = refl

abbrev port : SetArgs
port = record { key = text "ssh.port"; value = text "22" }

run_set_iff_example :
    ((run_set model host no_floats no_toml printer upper editor empty_disk (options none) port).code
      ≡ 0)
    ↔ IsReady model host empty_disk
        (options none)
        (λ key doc. CanSet model doc key)
        (text "ssh.port")
run_set_iff_example =
    run_set_iff model model-Laws host no_floats no_toml printer upper editor empty_disk
      (options none) port

port_set :
    (run_set model host no_floats no_toml printer upper editor empty_disk (options none) port).code
    ≡ 0
unfolding programs run_set set_command edit_key edit_file load_document document_in apply_set
    set_in_section ensure_table Model.get Model.put Model.as_table set_in_table
port_set = refl

abbrev port_key : RemoveArgs
port_key = record { key = text "ssh.port" }

run_remove_iff_example :
    ((run_remove model host no_floats no_toml printer upper editor empty_disk
        (options none)
        port_key).code
      ≡ 0)
    ↔ IsReady model host empty_disk
        (options none)
        (λ key doc. CanRemove model doc key)
        (text "ssh.port")
run_remove_iff_example =
    run_remove_iff model model-Laws host no_floats no_toml printer upper editor empty_disk
      (options none) port_key

port_gone :
    (run_remove model host no_floats no_toml printer upper editor empty_disk
      (options none)
      port_key).code
    ≡ 0
unfolding programs run_remove remove_command edit_key edit_file load_document document_in
    remove_in_doc Model.get
port_gone = refl

-- A run of `remove` that finds no file, and writes an empty one.
abbrev written : Written Table
written = record {
  path = text "/efi/zebrafish.toml";
  document = empty;
  calls = write_document host.parent host.with_extension (text "/efi/zebrafish.toml") [];
}

machine_written :
    remove_command model host empty_disk (options none) (text "machine.id") ≡ ok written
unfolding programs remove_command edit_key edit_file load_document document_in remove_in_doc
    Model.get
machine_written = refl

Writes-IsPrinted_example : IsPrinted model host empty_disk (options none) (text "machine") written
Writes-IsPrinted_example =
    Writes-IsPrinted model host empty_disk (options none) no_floats (text "machine") written refl
      (by_remove (text "machine.id") key_parsed key_section machine_written)
