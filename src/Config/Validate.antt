-- ===== src/Config/Validate.antt =====
-- package/zebrafish-config/src/validate.rs. A configuration is seen by the id of its `[machine]`
-- section, if it has one.
use zebrafish.Prelude.{Bool, true, false, [], ◌∷◌, Option, none, some, Text, ◌≡◌, ◌≢◌}
use zebrafish.Prelude.Results.{Result, ok, err, and_then, ok_or}
use zebrafish.Config.Files.{Disk, Read, content, FileError, bad_toml, system_file}
use zebrafish.Config.Commands.{
  Exit, exit, CommandError, no_machine, no_machine_id, file_result, file_text,
}

-- `read_to_string(..).unwrap_or_default()`.
abbrev pub or_nothing : Read → Text
or_nothing (content s) = s
or_nothing _ = []

module _ {C : Type 0} (from_toml : Text → Option C) (machine_id : C → Option Text) where
  abbrev pub check_id : Option Text → Result CommandError Exit
  check_id none = err no_machine
  check_id (some []) = err no_machine_id
  check_id (some (c ∷ cs)) = ok (exit [] 0)

  -- `validate_required`, and the same checks for `--machine`.
  unfoldable pub validate_required : C → Result CommandError Exit
  validate_required cfg = check_id (machine_id cfg)

  abbrev pub parsed : Text → Result CommandError C
  parsed s = file_result (ok_or (from_toml s) bad_toml)

  -- Which configuration is checked; the flags are `--machine` and `--system`.
  unfoldable pub checked_config :
      (Bool → Result FileError C) → Disk → Option Text → Bool → Bool → Result CommandError C
  checked_config load_files disk (some f) machine system =
      and_then (file_result (file_text (disk f))) parsed
  checked_config load_files disk none true system = file_result (load_files true)
  checked_config load_files disk none false true = parsed (or_nothing (disk system_file))
  checked_config load_files disk none false false = file_result (load_files false)

  unfoldable pub validate :
      (Bool → Result FileError C) → Disk → Option Text → Bool → Bool → Result CommandError Exit
  validate load_files disk named machine system =
      and_then (checked_config load_files disk named machine system) validate_required

  -- The configuration that each choice of file and flags checks: the named file; the machine file
  -- alone; the system file alone, where one that cannot be read counts as empty; or the two merged.
  pub data IsChecked (load_files : Bool → Result FileError C) (disk : Disk)
      : Option Text → Bool → Bool → C → Type 0 where
    in_named_file :
        {f s : Text} {machine system : Bool} {cfg : C}
        → disk f ≡ content s
        → from_toml s ≡ some cfg
        → IsChecked load_files disk (some f) machine system cfg
    in_machine_file :
        {system : Bool} {cfg : C}
        → load_files true ≡ ok cfg
        → IsChecked load_files disk none true system cfg
    in_system_file :
        {s : Text} {cfg : C}
        → disk system_file ≡ content s
        → from_toml s ≡ some cfg
        → IsChecked load_files disk none false true cfg
    without_system_file :
        {cfg : C}
        → ((s : Text) → disk system_file ≢ content s)
        → from_toml [] ≡ some cfg
        → IsChecked load_files disk none false true cfg
    in_both_files :
        {cfg : C} → load_files false ≡ ok cfg → IsChecked load_files disk none false false cfg

  -- If the configuration that is read from the system file has no `[machine]` section, then
  -- `validate --system` fails.
  pub validate_system :
      (load_files : Bool → Result FileError C) (disk : Disk) (cfg : C)
      → from_toml (or_nothing (disk system_file)) ≡ some cfg
      → machine_id cfg ≡ none
      → validate load_files disk none false true ≡ err no_machine
  unfolding validate validate_required checked_config
  validate_system load_files disk cfg read h = rw read (rw h)
