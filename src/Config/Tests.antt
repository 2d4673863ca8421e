-- ===== src/Config/Tests.antt =====
-- Tests of the tool's definitions, and its theorems at concrete inputs.
use Prim.Native.String.{String}
use zebrafish.Prelude.{
  ◌-◌, ◌&&◌, if◌then◌else◌, leb, List, [], ◌∷◌, Option, none, some, ◌≡◌, ◌≢◌, refl, inl, arith,
  Text, text, text_eq,
}
use zebrafish.Prelude.Decimal.{to_string, show_onto, parse_usize, parse_digits}
use zebrafish.Prelude.Int.{pos, parse_i64, digits_value}
use zebrafish.Prelude.Results.{ok, err}
use zebrafish.Config.KeyPath.{
  Segment, field, index, parse, scan, step, flush, close_index, finish, trim, trim_start, trim_end,
  is_whitespace,
}
use zebrafish.Config.KeyPath.Sound.{AllSegments, parse-AllSegments}
use zebrafish.Config.KeyPath.RoundTrip.{display, parse-display}
use zebrafish.Config.Value.{
  Value, Items, string, array, table, no_items, item, no_entries, entry, walk_segments, get_entry,
  get_item, count_items,
}
use zebrafish.Config.Shell.{shell_quote, emit_shell, escape_quotes, is_safe, join, underscored}
use zebrafish.Config.Shell.Quote.{word_value, bare, word_value-shell_quote}
use zebrafish.Config.TomlEdit.Model
use zebrafish.Config.TomlEdit.Model.{model, model-Laws, Table, empty, scalar, one, no_tables}
use zebrafish.Config.TomlEdit.Paths.{item_at, doc_at, Diverge}
use zebrafish.Config.Write.{
  out_of_range, panicked, nested_index, parse_value, parse_bool, apply_set, set_in_section,
  set_in_array, set_in_table, next_table, ensure_table, ensure_array_of_tables, remove_in_doc,
  remove_in_item, add_table,
}
use zebrafish.Config.Write.Panics.{apply_set-ne-panicked}

abbrev key : String → Segment
key s = field (text s)

abbrev peer_key : List Segment
peer_key = key "wg" ∷ index 0 ∷ key "peers" ∷ index 12 ∷ key "public_key" ∷ []

scanner : Unit {0}
unfolding parse scan step flush close_index finish trim trim_start trim_end is_whitespace
    parse_usize parse_digits to_string show_onto
scanner = tt

parse_examples :
    (parse (text " wg[0].peers[12].public_key\n") ≡ some peer_key)
    × (parse (text "a..b.") ≡ some (key "a" ∷ key "b" ∷ []))
    × (parse (text "wg[abc]") ≡ none)
    × (parse (text "wg[]") ≡ none)
    × (parse (text "wg[1") ≡ none)
    × (parse (text "wg[18446744073709551616]") ≡ none)
    × (parse (text " ") ≡ none)
    × (display peer_key ≡ text "wg[0].peers[12].public_key")
unfolding scanner
parse_examples = (refl, refl, refl, refl, refl, refl, refl, refl)

names_differ : ◌≢◌ {A = List Segment} peer_key []
names_differ = λ e. cc

parse-display_example : parse (display peer_key) ≡ some peer_key
unfolding is_whitespace
parse-display_example = parse-display peer_key names_differ (ground arith) (ground arith)

parse-AllSegments_example : (peer_key ≢ []) × AllSegments peer_key
parse-AllSegments_example =
    parse-AllSegments (text " wg[0].peers[12].public_key\n") parse_examples.0

-- ASCII letters only.
abbrev upper : Text → Text
upper [] = []
upper (c ∷ cs) = (if leb b'a' c && leb c b'z' then c - 32 else c) ∷ upper cs

abbrev no_display : Value Text Text → Text
no_display v = []

abbrev clients : Items Text Text
clients = item (table (entry (text "device") (string (text "/dev/it's")) no_entries)) no_items

abbrev config : Value Text Text
config = table (entry (text "nbd-client") (array clients) no_entries)

listing : Unit {0}
unfolding walk_segments get_entry get_item count_items emit_shell shell_quote escape_quotes is_safe
    join underscored to_string show_onto text_eq
listing = tt

emit_shell_lines :
    emit_shell upper no_display config []
    ≡ text "NBD_CLIENT_COUNT=1" ∷ text "NBD_CLIENT_0_DEVICE='/dev/it'\\''s'" ∷ []
unfolding listing
emit_shell_lines = refl

abbrev device : List Segment
device = key "nbd-client" ∷ index 0 ∷ key "device" ∷ []

device_found : walk_segments device config ≡ some (string (text "/dev/it's"))
unfolding listing
device_found = refl

clients_found : walk_segments (key "nbd-client" ∷ []) config ≡ some (array clients)
unfolding listing
clients_found = refl

word_value-shell_quote_example :
    word_value bare (shell_quote (text "it's $HOME")) ≡ some (text "it's $HOME")
word_value-shell_quote_example = word_value-shell_quote (text "it's $HOME")

commands : Unit {0}
unfolding apply_set set_in_section set_in_array set_in_table next_table ensure_table
    ensure_array_of_tables parse_value parse_bool parse_i64 digits_value remove_in_doc
    remove_in_item add_table item_at doc_at text_eq Model.get Model.put Model.remove Model.as_table
    Model.as_array_of_tables Model.as_array Model.tables_len Model.tables_get Model.tables_put
    Model.tables_push Model.tables_remove Model.array_remove
commands = tt

-- No text is a float here.
abbrev no_floats : Text → Option Text
no_floats s = none

abbrev file : Table
file =
    Model.entry (text "hostname")
      (Model.table (Model.entry (text "name") (scalar (Model.str (text "triton"))) empty))
      (Model.entry (text "wg") (Model.tables (one empty no_tables)) empty)

abbrev port_key : List Segment
port_key = key "ssh" ∷ key "port" ∷ []

abbrev changed : Table
changed =
    Model.entry (text "hostname")
      (Model.table (Model.entry (text "name") (scalar (Model.str (text "triton"))) empty))
      (Model.entry (text "wg") (Model.tables (one empty no_tables)) (
        Model.entry (text "ssh")
          (Model.table (Model.entry (text "port") (scalar (Model.int (pos 22))) empty)) empty))

set_runs :
    (apply_set model no_floats file port_key (text "22") ≡ ok changed)
    × (apply_set model no_floats file (key "wg" ∷ index 1 ∷ key "name" ∷ []) (text "x")
        ≡ err out_of_range)
    × (apply_set model no_floats file
          (key "wg" ∷ index 0 ∷ key "peers" ∷ index 0 ∷ key "public_key" ∷ [])
          (text "x")
        ≡ err nested_index)
    × (remove_in_doc model changed (key "ssh" ∷ []) ≡ ok file)
unfolding commands
set_runs = (refl, refl, refl, refl)

abbrev name_key : List Segment
name_key = key "hostname" ∷ key "name" ∷ []

port_ne_name : Diverge port_key name_key
port_ne_name = inl (λ e. cc)

apply_set-ne-panicked_example :
    apply_set model no_floats file (key "wg" ∷ index 1 ∷ key "name" ∷ []) (text "x") ≢ err panicked
apply_set-ne-panicked_example =
    apply_set-ne-panicked model model-Laws no_floats file (key "wg" ∷ index 1 ∷ key "name" ∷ [])
      (text "x")

ssh_ne_name : Diverge (key "ssh" ∷ []) name_key
ssh_ne_name = inl (λ e. cc)
