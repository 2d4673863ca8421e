-- ===== src/Config/RunTests.antt =====
-- Tests of whole runs of `remove` and `add` and of the removal of an element, and their theorems at
-- concrete inputs.
use zebrafish.Prelude.{
  ℕ, ◌+◌, ◌<◌, true, List, [], ◌∷◌, ◌++◌, none, some, ◌≡◌, ◌≢◌, refl, Text, text, text_eq,
  if◌then◌else◌, ltb, arith,
}
use zebrafish.Prelude.Decimal.{parse_usize, parse_digits}
use zebrafish.Prelude.Int.{pos}
use zebrafish.Prelude.Results.{ok}
use zebrafish.Config.KeyPath.{
  Segment, field, index, parse, section, scan, step, flush, close_index, finish, trim, trim_start,
  trim_end, is_whitespace,
}
use zebrafish.Config.TomlEdit.Model
use zebrafish.Config.TomlEdit.Model.{model, model-Laws, Table, empty, scalar}
use zebrafish.Config.TomlEdit.Paths.{doc_at, Diverge}
use zebrafish.Config.Write.{remove_in_doc, remove_in_item, add_table}
use zebrafish.Config.Write.Success.{CanSet}
use zebrafish.Config.Write.Add.{array_or_new}
use zebrafish.Config.Write.Elements.{remove_in_doc-index}
use zebrafish.Config.Files.{
  Disk, Runs, finished, called, apply, target_path, resolve_paths, load_document, document_in,
  temporary, write_document, system_file, write, rename,
}
use zebrafish.Config.Commands.{Written, Host, edit_file, edit_key, remove_command, add_command}
use zebrafish.Config.Commands.Stored.{remove_command-Runs, add_command-Runs}
use zebrafish.Config.FileTests.{disk, no_options}

steps : Unit {0}
unfolding remove_in_doc remove_in_item add_table text_eq Model.get Model.put Model.remove
    Model.as_table Model.as_array_of_tables Model.tables_push Model.tables_len Model.tables_get
    Model.tables_remove parse scan step flush close_index finish trim trim_start trim_end
    is_whitespace parse_usize parse_digits section edit_file edit_key remove_command add_command
    load_document document_in write_document target_path apply resolve_paths
steps = tt

abbrev three : Model.Tables
three = Model.one (Model.entry (text "n") (scalar (Model.int (pos 1))) empty) (
    Model.one (Model.entry (text "n") (scalar (Model.int (pos 2))) empty)
      (Model.one (Model.entry (text "n") (scalar (Model.int (pos 3))) empty) Model.no_tables))

abbrev before : Table
before =
    Model.entry (text "wg") (Model.tables three)
      (Model.entry (text "ssh") (Model.table empty) empty)

abbrev without_ssh : Table
without_ssh = Model.entry (text "wg") (Model.tables three) empty

abbrev with_eth : Table
with_eth = Model.entry (text "wg") (Model.tables three) (
    Model.entry (text "ssh") (Model.table empty)
      (Model.entry (text "eth") (Model.tables (Model.one empty Model.no_tables)) empty))

-- A host that prints a marker for the new document, and reads both.
abbrev host : Table → Host Table
host new = record {
  join = λ d f. d ++ (b'/' ∷ f);
  parent = λ p. some (text "/etc");
  with_extension = λ p e. p ++ text ".tmp";
  discover = none;
  parse_document = λ s. if text_eq s (text "old") then some before else some new;
  print_document = λ d. text "new";
}

abbrev temporary_file : Text
temporary_file = system_file ++ text ".tmp"

abbrev written : Table → Written Table
written new = record {
  path = system_file;
  document = new;
  calls = write_document (host new).parent (host new).with_extension system_file (text "new");
}

abbrev disk_after : Disk
disk_after =
    apply (apply disk (write temporary_file (text "new"))) (rename temporary_file system_file)

remove_succeeds :
    remove_command model (host without_ssh) disk no_options (text "ssh") ≡ ok (written without_ssh)
unfolding steps
remove_succeeds = refl

add_succeeds :
    add_command model (host with_eth) disk no_options (text "eth") ≡ ok (written with_eth)
unfolding steps
add_succeeds = refl

all_calls : (new : Table) → Runs disk (written new).calls disk_after true
unfolding steps
all_calls new = called (called (called finished))

reread : (new : Table) → (host new).parse_document ((host new).print_document new) ≡ some new
unfolding steps
reread new = refl

another_file : temporary_file ≢ system_file
another_file = λ e. cc

other_file :
    (new : Table) → temporary (host new).parent (host new).with_extension system_file ≢ system_file
other_file new = another_file

ssh_parsed : parse (text "ssh") ≡ some (field (text "ssh") ∷ [])
unfolding steps
ssh_parsed = refl

old_loaded : load_document model (host without_ssh).parse_document disk system_file ≡ ok before
unfolding steps
old_loaded = refl

ssh_there : doc_at model before (field (text "ssh") ∷ []) ≡ some (Model.table empty)
unfolding steps doc_at
ssh_there = refl

remove_command-Runs_example :
    (new : Table) × (load_document model (host without_ssh).parse_document disk_after system_file
      ≡ ok new)
    × (doc_at model new (field (text "ssh") ∷ []) ≡ none)
    × ((q : List Segment)
        → Diverge (field (text "ssh") ∷ []) q
        → doc_at model new q ≡ doc_at model before q)
remove_command-Runs_example =
    remove_command-Runs model model-Laws (host without_ssh) disk disk_after no_options (text "ssh")
      (field (text "ssh") ∷ []) (written without_ssh) before (Model.table empty) remove_succeeds
      (all_calls without_ssh) (reread without_ssh) (other_file without_ssh) ssh_parsed tt old_loaded
      ssh_there

add_command-Runs_example :
    (text "eth" ≢ text "machine")
    × ((old : Table) × (new : Table) × (earlier : Model.Tables) × (tables : Model.Tables)
        × (load_document model (host with_eth).parse_document disk system_file ≡ ok old)
        × (load_document model (host with_eth).parse_document disk_after system_file ≡ ok new)
        × (array_or_new model model-Laws (Model.get old (text "eth")) ≡ some earlier)
        × (Model.get new (text "eth") ≡ some (Model.tables tables))
        × (Model.tables_get tables (Model.tables_len earlier) ≡ some empty)
        × ((j : ℕ)
            → j ≢ Model.tables_len earlier
            → Model.tables_get tables j ≡ Model.tables_get earlier j)
        × ((k : Text) → text "eth" ≢ k → Model.get new k ≡ Model.get old k))
add_command-Runs_example =
    add_command-Runs model model-Laws (host with_eth) disk disk_after no_options (text "eth")
      (written with_eth) add_succeeds (all_calls with_eth) (reread with_eth) (other_file with_eth)

wg_there : Model.get before (text "wg") ≡ some (Model.tables three)
unfolding steps
wg_there = refl

wg_tables : Model.as_array_of_tables (Model.tables three) ≡ some three
unfolding steps
wg_tables = refl

second_there : 1 < Model.tables_len three
unfolding steps
second_there = omega arith

remove_in_doc-index_example :
    (changed : Table) × (remove_in_doc model before (field (text "wg") ∷ index 1 ∷ []) ≡ ok changed)
    × ((j : ℕ) (q : List Segment)
        → doc_at model changed (field (text "wg") ∷ index j ∷ q)
          ≡ doc_at model before (field (text "wg") ∷ index (if ltb j 1 then j else j + 1) ∷ q))
    × ((k : Text) (q : List Segment)
        → text "wg" ≢ k
        → doc_at model changed (field k ∷ q) ≡ doc_at model before (field k ∷ q))
remove_in_doc-index_example =
    remove_in_doc-index model model-Laws before (text "wg") (Model.tables three) three 1 wg_there
      wg_tables second_there

abbrev deep : List Segment
deep = field (text "ssh") ∷ field (text "keys") ∷ field (text "a") ∷ []

-- A new table is made on the way; an element that is not there is refused.
settings : CanSet model before deep × ¬ CanSet model before (field (text "wg") ∷ index 3 ∷ deep)
unfolding steps
settings = (tt, λ h. h)
