-- ===== src/Config/Efi.antt =====
-- package/zebrafish-config/src/efi.rs: the choice of the EFI partition from what `lsblk` prints,
-- and the test whether it is mounted. Starting a program and mounting are parameters.
pub mod Mount
pub mod Found
use zebrafish.Prelude.{
  ℕ, Bool, false, ◌&&◌, ◌||◌, List, [], ◌∷◌, ◌++◌, Option, none, some, Text, text, text_eq,
  if◌then◌else◌, ◌==◌, is_empty, length, ◌≡◌, refl, Contains, here, there,
}
use zebrafish.Prelude.Results.{Result, ok, err}
use zebrafish.Config.KeyPath.{is_whitespace}

-- `lines()`: the texts between the line ends, the last one only if it is not empty. The
-- carriage return of a line end stays, and is white space to the callers.
unfoldable pub lines_from : Text → Text → List Text
lines_from current [] = if is_empty current then [] else current ∷ []
lines_from current (c ∷ cs) =
    let broken = lines_from [] cs in
    let longer = lines_from (current ++ (c ∷ [])) cs in
    if c == b'\n' then current ∷ broken else longer

abbrev pub lines : Text → List Text
lines s = lines_from [] s

-- `split_whitespace()`: the texts between white space that are not empty.
unfoldable pub words_from : Text → Text → List Text
words_from current [] = if is_empty current then [] else current ∷ []
words_from current (c ∷ cs) =
    let fresh = words_from [] cs in
    let longer = words_from (current ++ (c ∷ [])) cs in
    if is_whitespace c then (if is_empty current then fresh else current ∷ fresh) else longer

abbrev pub split_whitespace : Text → List Text
split_whitespace s = words_from [] s

pub data EfiError : Type 0 where
  lsblk not_found : EfiError
  ambiguous : ℕ → EfiError

-- A line with a name, `vfat` and `0x4`: its name.
abbrev pub efi_name : List Text → Option Text
efi_name (name ∷ fs ∷ flags ∷ more) =
    if text_eq fs (text "vfat") && text_eq flags (text "0x4") then some name else none
efi_name _ = none

abbrev add_name : Option Text → List Text → List Text
add_name none names = names
add_name (some n) names = n ∷ names

-- The filter and the map, over the lines.
unfoldable pub efi_names : List Text → List Text
efi_names [] = []
efi_names (l ∷ ls) = add_name (efi_name (split_whitespace l)) (efi_names ls)

unfoldable pub single : List Text → Result EfiError Text
single [] = err not_found
single (n ∷ []) = ok n
single (n ∷ m ∷ more) = err (ambiguous (length (n ∷ m ∷ more)))

-- `find_efi_partition`; the argument is what `lsblk` printed, if it ran and succeeded.
unfoldable pub find_efi_partition : Option Text → Result EfiError Text
find_efi_partition none = err lsblk
find_efi_partition (some stdout) = single (efi_names (lines stdout))

-- `is_mounted`, with the second word of a line of /proc/mounts as the mount point.
unfoldable pub mounted_at : (Text → Text → Bool) → Text → List Text → Bool
mounted_at same_path path [] = false
mounted_at same_path path (device ∷ []) = false
mounted_at same_path path (device ∷ point ∷ more) = same_path point path

unfoldable pub is_mounted : (Text → Text → Bool) → Text → List Text → Bool
is_mounted same_path path [] = false
is_mounted same_path path (l ∷ ls) =
    mounted_at same_path path (split_whitespace l) || is_mounted same_path path ls

-- A line that names an EFI partition.
abbrev pub Names : Text → Text → Type 0
Names name line = efi_name (split_whitespace line) ≡ some name

single-eq-ok : (names : List Text) {name : Text} → single names ≡ ok name → names ≡ name ∷ []
unfolding single
single-eq-ok [] e = cc
single-eq-ok (n ∷ []) e = cc
single-eq-ok (n ∷ m ∷ more) e = cc

add_name-Contains :
    (o : Option Text) (names : List Text) (name : Text)
    → Contains name names
    → Contains name (add_name o names)
add_name-Contains none names name c = c
add_name-Contains (some n) names name c = there c

efi_names-Contains :
    (ls : List Text) (line name : Text)
    → Contains line ls
    → Names name line
    → Contains name (efi_names ls)
unfolding efi_names
efi_names-Contains [] line name c e = elim c [ ]
efi_names-Contains (l ∷ ls) line name here e = rw e here
efi_names-Contains (l ∷ ls) line name (there c) e =
    add_name-Contains (efi_name (split_whitespace l)) (efi_names ls) name
      (efi_names-Contains ls line name c e)

only_name : (x y : Text) → Contains x (y ∷ []) → x ≡ y
only_name x y here = refl
only_name x y (there c) = elim c [ ]

-- If a partition is chosen, then every line of `lsblk` that names an EFI partition names that one.
pub find_efi_partition-eq-ok :
    (stdout name other line : Text)
    → find_efi_partition (some stdout) ≡ ok name
    → Contains line (lines stdout)
    → Names other line
    → other ≡ name
unfolding find_efi_partition
find_efi_partition-eq-ok stdout name other line e among named =
    let one = single-eq-ok (efi_names (lines stdout)) {name = name} e in
    only_name other name (rw one at (efi_names-Contains (lines stdout) line other among named))
