-- ===== src/Config/FileTests.antt =====
-- Tests of the files and commands, and their theorems at concrete inputs.
use zebrafish.Prelude.{
  Bool, true, false, List, [], ◌∷◌, ◌++◌, Option, none, some, ◌≡◌, ◌≢◌, refl, Text, text, text_eq,
  if◌then◌else◌, Contains, here,
}
use zebrafish.Prelude.Decimal.{parse_usize, parse_digits}
use zebrafish.Prelude.Int.{pos, parse_i64, digits_value}
use zebrafish.Prelude.Results.{Result, ok}
use zebrafish.Config.KeyPath.{
  Segment, parse, section, scan, step, flush, close_index, finish, trim, trim_start, trim_end,
  is_whitespace,
}
use zebrafish.Config.TomlEdit.Model
use zebrafish.Config.TomlEdit.Model.{model, model-Laws, Table, empty, scalar}
use zebrafish.Config.TomlEdit.Paths.{item_at, doc_at, Diverge}
use zebrafish.Config.Write.{
  add_table, parse_value, parse_bool, apply_set, set_in_section, set_in_table, next_table,
  ensure_table,
}
use zebrafish.Config.Files.{
  Disk, FileError, Read, content, missing, Runs, finished, torn, called, apply, stores, target_path,
  resolve_paths, load_document, document_in, temporary, write_document, system_file,
  load_from_paths, read_optional, optional_text, machine_file,
}
use zebrafish.Config.Files.Atomic.{IsAtomic, write_document-Runs}
use zebrafish.Config.Commands.{
  Ctx, exit, file_text, Written, Host, edit_file, edit_key, set_command,
}
use zebrafish.Config.Commands.Stored.{set_command-Runs}
use zebrafish.Config.Validate.{validate, validate_required, checked_config, or_nothing}
use zebrafish.Config.Efi.{
  find_efi_partition, efi_names, single, lines, lines_from, words_from, Names, is_mounted,
  mounted_at,
}

runs : Unit {0}
unfolding apply_set set_in_section set_in_table next_table ensure_table parse_value parse_bool
    parse_i64 digits_value item_at doc_at text_eq Model.get Model.put Model.as_table parse scan step
    flush close_index finish trim trim_start trim_end is_whitespace parse_usize parse_digits section
    edit_file edit_key set_command load_document document_in write_document target_path apply
    resolve_paths load_from_paths read_optional optional_text machine_file validate
    validate_required checked_config find_efi_partition efi_names single lines_from words_from
    mounted_at is_mounted file_text
runs = tt

abbrev no_floats : Text → Option Text
no_floats s = none

abbrev old_document : Table
old_document = Model.entry (text "headless") (Model.table empty) empty

abbrev new_document : Table
new_document = Model.entry (text "headless") (Model.table empty) (
    Model.entry (text "ssh")
      (Model.table (Model.entry (text "port") (scalar (Model.int (pos 22))) empty)) empty)

-- A host that knows two documents.
abbrev host : Host Table
host = record {
  join = λ d f. d ++ (b'/' ∷ f);
  parent = λ p. some (text "/etc");
  with_extension = λ p e. p ++ text ".tmp";
  discover = none;
  parse_document = λ s. if text_eq s (text "old") then some old_document else some new_document;
  print_document = λ d. text "new";
}

abbrev pub disk : Disk
disk p = if text_eq p system_file then content (text "old") else missing

abbrev pub no_options : Ctx
no_options = record { efi_dir = none; named_file = none; efi = false }

abbrev written : Written Table
written = record {
  path = system_file;
  document = new_document;
  calls = write_document host.parent host.with_extension system_file (text "new");
}

abbrev temporary_file : Text
temporary_file = temporary host.parent host.with_extension system_file

abbrev disk_after : Disk
disk_after =
    apply (apply (disk) (zebrafish.Config.Files.write temporary_file (text "new")))
      (zebrafish.Config.Files.rename temporary_file system_file)

set_succeeds :
    set_command model host no_floats disk no_options (text "ssh.port") (text "22") ≡ ok written
unfolding runs
set_succeeds = refl

all_calls : Runs disk written.calls disk_after true
unfolding runs
all_calls = called (called (called finished))

cut_short : Runs disk written.calls (stores disk temporary_file (content (text "n"))) false
unfolding runs
cut_short = called (torn (text "n"))

reread : host.parse_document (host.print_document new_document) ≡ some new_document
unfolding runs
reread = refl

another_file : temporary_file ≢ system_file
another_file = λ e. cc

write_document-Runs_example :
    IsAtomic disk system_file (text "new") (stores disk temporary_file (content (text "n"))) false
write_document-Runs_example =
    write_document-Runs host.parent host.with_extension disk system_file (text "new") another_file
      cut_short

set_command-Runs_example :
    (key : List Segment) × (old : Table) × (new : Table) × (parse (text "ssh.port") ≡ some key)
    × (load_document model host.parse_document disk system_file ≡ ok old)
    × (load_document model host.parse_document disk_after system_file ≡ ok new)
    × (doc_at model new key ≡ some (scalar (parse_value model no_floats (text "22"))))
    × ((q : List Segment) → Diverge key q → doc_at model new q ≡ doc_at model old q)
set_command-Runs_example =
    set_command-Runs model model-Laws no_floats host disk disk_after no_options (text "ssh.port")
      (text "22") written set_succeeds all_calls reread another_file

-- The machine file comes first; a missing one counts as empty.
merged :
    load_from_paths (λ s. some s) disk (some system_file) (some (text "/none")) ≡ ok (text "\nold")
unfolding runs
merged = refl

abbrev load_none : Bool → Result FileError Text
load_none b = ok []

valid_file :
    validate (λ s. some s) (λ s. some s) load_none disk (some system_file) false false
    ≡ ok (exit [] 0)
unfolding runs
valid_file = refl

old_text : or_nothing (disk system_file) ≡ text "old"
unfolding runs
old_text = refl

abbrev listed : Text
listed = text "sda1 vfat 0x4\nsda2 ext4\n"

partition_found : find_efi_partition (some listed) ≡ ok (text "sda1")
unfolding runs
partition_found = refl

first_line : Contains (text "sda1 vfat 0x4") (lines listed)
unfolding runs
first_line = here

first_line-Names : Names (text "sda1") (text "sda1 vfat 0x4")
unfolding runs
first_line-Names = refl

already_mounted :
    is_mounted text_eq
      (text "/run/zebrafish/efi")
      (text "proc /proc proc" ∷ text "/dev/sda1 /run/zebrafish/efi vfat ro" ∷ [])
    ≡ true
unfolding runs
already_mounted = refl

abbrev with_interface : Table
with_interface =
    Model.entry (text "headless") (Model.table empty)
      (Model.entry (text "wg") (Model.tables (Model.one empty Model.no_tables)) empty)

additions : Unit {0}
unfolding add_table text_eq Model.get Model.put Model.tables_push Model.tables_len
    Model.as_array_of_tables
additions = tt

interface_added : add_table model old_document (text "wg") ≡ ok with_interface
unfolding additions
interface_added = refl
