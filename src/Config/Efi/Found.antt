-- ===== src/Config/Efi/Found.antt =====
-- package/zebrafish-config/src/efi.rs: the choice of the EFI partition against the lines of `lsblk`.
use zebrafish.Prelude.{◌≤◌, List, [], ◌∷◌, ◌++◌, Text, ◌≡◌, length, Contains}
use zebrafish.Prelude.Results.{Result, ok, err}
use zebrafish.Config.Efi.{EfiError, lsblk, not_found, ambiguous, Names}

-- No line names an EFI partition.
abbrev pub AllOther : List Text → Type 0
AllOther ls = (line name : Text) → Contains line ls → ¬ Names name line

-- The lines that name an EFI partition, by their names and in their order.
pub data Picked : List Text → List Text → Type 0 where
  picked_none : Picked [] []
  skipped :
      {l : Text} {ls ns : List Text}
      → ((name : Text) → ¬ Names name l)
      → Picked ls ns
      → Picked (l ∷ ls) ns
  picked : {l n : Text} {ls ns : List Text} → Names n l → Picked ls ns → Picked (l ∷ ls) (n ∷ ns)

-- One line alone names a partition; or none does; or `n` lines do, and these are two or more.
abbrev pub IsFound : List Text → Result EfiError Text → Type 0
IsFound ls (ok name) =
    (before : List Text) × (line : Text) × (after : List Text) × (ls ≡ before ++ (line ∷ after))
    × Names name line
    × AllOther before
    × AllOther after
IsFound ls (err not_found) = AllOther ls
IsFound ls (err (ambiguous n)) =
    (2 ≤ n) × ((names : List Text) × Picked ls names × (length names ≡ n))
IsFound ls (err lsblk) = ⊥
