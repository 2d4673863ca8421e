-- ===== src/Config/Listing.antt =====
-- package/zebrafish-config/src/list.rs: `run_inner`. Printing in TOML and JSON is done by crates,
-- whose results are parameters.
use zebrafish.Prelude.{
  List, [], ◌∷◌, ◌++◌, Option, none, some, Text, text, ◌≡◌, refl, Contains, here, ◌>>=◌,
  >>=-eq-some,
}
use zebrafish.Prelude.Results.{Result, ok, err, and_then, ok_or}
use zebrafish.Config.KeyPath.{Segment, field}
use zebrafish.Config.Value.{Value, string, as_table, get_entry, Entries, table, walk_segments}
use zebrafish.Config.Shell.{emit_shell, shell_name, assignment, shell_quote}
use zebrafish.Config.Shell.Complete.{variable, emit_shell-walk_segments, emit_shell-Contains}
use zebrafish.Config.Files.{Disk}
use zebrafish.Config.Commands.{Ctx, Exit, exit, CommandError, unprintable, file_result, read_config}

pub data ListFormat : Type 0 where
  toml json shell : ListFormat

-- `println!` for each line.
unfoldable pub unlines : List Text → Text
unlines [] = []
unlines (l ∷ ls) = l ++ (b'\n' ∷ unlines ls)

-- The printers of the crates: `to_string_pretty` of TOML and JSON for the whole configuration and
-- for one section, and the display of a value. `none` is an error.
pub record Printer (C G D : Type 0) : Type 0 where
  pub whole_toml : C → Option Text
  pub whole_json : C → Option Text
  pub section_json : Value G D → Option Text
  pub display : Value G D → Text

module _ {C G D : Type 0} (printer : Printer C G D) (to_uppercase : Text → Text) where
  abbrev printed : Option Text → Result CommandError Exit
  printed none = err unprintable
  printed (some s) = ok (exit s 0)

  unfoldable pub show_section : ListFormat → Text → Value G D → Result CommandError Exit
  show_section toml name v =
      ok (exit (b'[' ∷ (name ++ (text "]\n" ++ (printer.display v ++ text "\n")))) 0)
  show_section json name v = printed (printer.section_json v >>= λ s. some (s ++ text "\n"))
  show_section shell name v = ok (
      exit (unlines (emit_shell to_uppercase printer.display v (shell_name to_uppercase name ∷ [])))
        0)

  unfoldable pub show_whole : ListFormat → C → Value G D → Result CommandError Exit
  show_whole toml cfg view = printed (printer.whole_toml cfg)
  show_whole json cfg view = printed (printer.whole_json cfg >>= λ s. some (s ++ text "\n"))
  show_whole shell cfg view =
      ok (exit (unlines (emit_shell to_uppercase printer.display view [])) 0)

  -- With a section, or without one.
  unfoldable pub show_listing :
      ListFormat → Option Text → C → Value G D → Entries G D → Result CommandError Exit
  show_listing format none cfg view sections = show_whole format cfg view
  show_listing format (some name) cfg view sections = elim (get_entry sections name) [
    | none ↦ ok (exit [] 1)
    | some value ↦ show_section format name value
  ]

module _ {C G D : Type 0} (from_toml : Text → Option C) (to_value : C → Option (Value G D))
    (printer : Printer C G D) (to_uppercase : Text → Text) (join : Text → Text → Text)
    (discover : Option Text) where
  -- `expect("Config is always a table")` fails with `unprintable` here.
  unfoldable pub list_command : Disk → Ctx → Option Text → ListFormat → Result CommandError Exit
  list_command disk ctx name format =
      and_then
        (file_result
          (read_config from_toml to_value printer.display join discover disk ctx ctx.named_file))
        λ cfg. and_then (ok_or (to_value cfg) unprintable) λ view.
          and_then (ok_or (as_table view) unprintable)
            λ sections. show_listing printer to_uppercase format name cfg view sections

module _ {C G D : Type 0} (printer : Printer C G D) (to_uppercase : Text → Text) where
  section_shell :
      (name : Text) (cfg : C) (sections : Entries G D) {v : Value G D}
      → get_entry sections name ≡ some v
      → show_listing printer to_uppercase shell (some name) cfg (table sections) sections
        ≡ ok (
            exit
              (unlines
                (emit_shell to_uppercase printer.display v (shell_name to_uppercase name ∷ [])))
              0)
  unfolding show_listing show_section
  section_shell name cfg sections found = rw (show_listing, found)

  -- For a string that `get` finds at a key path, `list --format shell` prints the line that assigns it
  -- to the variable named after the path, and `list` of the path's section prints it as well.
  pub show_listing-walk_segments :
      (cfg : C) (sections : Entries G D) (name : Text) (p : List Segment) (s : Text)
      → walk_segments (field name ∷ p) (table sections) ≡ some (string s)
      → (whole : List Text) × (part : List Text) × (show_listing printer to_uppercase shell none cfg
            (table sections)
            sections
          ≡ ok (exit (unlines whole) 0))
        × (show_listing printer to_uppercase shell (some name) cfg (table sections) sections
            ≡ ok (exit (unlines part) 0))
        × Contains (assignment (variable to_uppercase (field name ∷ p)) (shell_quote s)) whole
        × Contains (assignment (variable to_uppercase (field name ∷ p)) (shell_quote s)) part
  unfolding show_listing show_whole walk_segments emit_shell
  show_listing-walk_segments cfg sections name p s e =
      let (v, found, rest) = >>=-eq-some (get_entry sections name) (walk_segments p) e in
      (
        emit_shell to_uppercase printer.display (table sections) [],
        emit_shell to_uppercase printer.display v (shell_name to_uppercase name ∷ []),
        refl,
        section_shell name cfg sections found,
        emit_shell-walk_segments to_uppercase printer.display (field name ∷ p) (table sections) e,
        emit_shell-Contains to_uppercase printer.display p v (shell_name to_uppercase name ∷ [])
            rest here,
      )
