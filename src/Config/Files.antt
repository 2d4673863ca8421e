-- ===== src/Config/Files.antt =====
-- package/zebrafish-config/src/store.rs, load.rs and the file names of path.rs. A disk maps each
-- path to what reading it gives. `Path::join`, `parent` and `with_extension`, the TOML parser and
-- printer, and the search for the EFI partition (efi.rs) are parameters.
pub mod Atomic
use zebrafish.Prelude.{
  ℕ, Bool, true, false, List, [], ◌∷◌, ◌++◌, Option, none, some, Text, text, text_eq, if◌then◌else◌,
  ◌≡◌,
}
use zebrafish.Prelude.Results.{Result, ok, err, and_then, ok_or}
use zebrafish.Config.TomlEdit.{TomlEdit}

-- What `read_to_string` finds at a path.
pub data Read : Type 0 where
  content : Text → Read
  missing unreadable : Read

abbrev pub Disk : Type 0
Disk = Text → Read

-- The file system calls that change a disk.
pub data Call : Type 0 where
  create_dir_all : Text → Call
  write : Text → Text → Call
  rename : Text → Text → Call

abbrev pub stores : Disk → Text → Read → Disk
stores disk path r q = if text_eq path q then r else disk q

-- The disk after a call that succeeds; directories are not modelled.
unfoldable pub apply : Disk → Call → Disk
apply disk (create_dir_all path) = disk
apply disk (write path s) = stores disk path (content s)
apply disk (rename from to) = stores (stores disk to (disk from)) from missing

-- A sequence of calls, up to the end or until one fails or the process is killed; a `write` that is
-- cut short leaves any text. The flag says that all calls were made. The system goes on: what
-- the calls did is not lost, as it may be in a power cut.
pub data Runs : Disk → List Call → Disk → Bool → Type 0 where
  finished : {disk : Disk} → Runs disk [] disk true
  stopped : {disk : Disk} {calls : List Call} → Runs disk calls disk false
  torn :
      {disk : Disk} {path s : Text} {calls : List Call} (part : Text)
      → Runs disk (write path s ∷ calls) (stores disk path (content part)) false
  called :
      {disk after : Disk} {call : Call} {calls : List Call} {whole : Bool}
      → Runs (apply disk call) calls after whole
      → Runs disk (call ∷ calls) after whole

-- What is on the disk after a power cut, when all the calls were made and none of them waited for the
-- disk, as `fsync` would: the names are as the calls left them, and of what was written any part
-- may be missing.
pub data Cut : Disk → List Call → Disk → Type 0 where
  none_left : {disk : Disk} → Cut disk [] disk
  lost :
      {disk after : Disk} {path s : Text} {calls : List Call} (part missed : Text)
      → s ≡ part ++ missed
      → Cut (stores disk path (content part)) calls after
      → Cut disk (write path s ∷ calls) after
  kept :
      {disk after : Disk} {call : Call} {calls : List Call}
      → Cut (apply disk call) calls after
      → Cut disk (call ∷ calls) after

pub data FileError : Type 0 where
  not_readable bad_toml no_efi no_efi_flag : FileError

-- `SYSTEM_FILE`
abbrev pub system_file : Text
system_file = text "/etc/zebrafish.toml"

module _ (join : Text → Text → Text) (discover : Option Text) where
  unfoldable pub machine_file : Text → Text
  machine_file efi_dir = join efi_dir (text "zebrafish.toml")

  -- `target_path`; the arguments are the section, `--efi-dir`, `--file` and `--efi`.
  unfoldable pub target_path : Text → Option Text → Option Text → Bool → Result FileError Text
  target_path section efi_dir_override (some p) efi = ok p
  target_path section (some d) none efi =
      if text_eq section (text "machine") then ok (machine_file d) else ok system_file
  target_path section none none efi =
      if text_eq section (text "machine")
      then (if efi
          then and_then (ok_or discover no_efi) (λ d. ok (machine_file d))
          else err no_efi_flag)
      else ok system_file

  abbrev found_file : Option Text → Option Text
  found_file none = none
  found_file (some d) = some (machine_file d)

  -- `resolve_paths`, which never fails.
  unfoldable pub resolve_paths : Option Text → Bool → Bool → Option Text × Option Text
  resolve_paths (some d) machine_only efi =
      ((if machine_only then none else some system_file), some (machine_file d))
  resolve_paths none machine_only efi = (
    (if machine_only then none else some system_file),
    (if efi then found_file discover else none),
  )

unfoldable pub optional_text : Read → Result FileError Text
optional_text (content s) = ok s
optional_text missing = ok []
optional_text unreadable = err not_readable

unfoldable pub read_optional : Disk → Text → Result FileError Text
read_optional disk path = optional_text (disk path)

abbrev pub text_at : Disk → Option Text → Result FileError Text
text_at disk none = ok []
text_at disk (some path) = read_optional disk path

-- `load_from_paths`; the parameter is `Config::from_toml`.
unfoldable pub load_from_paths :
    {C : Type 0} → (Text → Option C) → Disk → Option Text → Option Text → Result FileError C
load_from_paths from_toml disk system machine = and_then (text_at disk machine) λ machine_text.
    and_then (text_at disk system)
      λ system_text. ok_or (from_toml (machine_text ++ (text "\n" ++ system_text))) bad_toml

module _ {F : Type 0} (T : TomlEdit F) (parse_document : Text → Option T.Table) where
  unfoldable pub document_in : Read → Result FileError T.Table
  document_in (content s) = ok_or (parse_document s) bad_toml
  document_in missing = ok T.new_table
  document_in unreadable = err not_readable

  unfoldable pub load_document : Disk → Text → Result FileError T.Table
  load_document disk path = document_in (disk path)

abbrev pub create_parent : Option Text → List Call
create_parent none = []
create_parent (some []) = []
create_parent (some (c ∷ cs)) = create_dir_all (c ∷ cs) ∷ []

module _ (parent : Text → Option Text) (with_extension : Text → Text → Text) where
  abbrev pub temporary : Text → Text
  temporary path = with_extension path (text "toml.tmp")

  -- The calls of `write_document`, in order.
  unfoldable pub write_document : Text → Text → List Call
  write_document path doc =
      create_parent (parent path)
      ++ (write (temporary path) doc ∷ rename (temporary path) path ∷ [])
