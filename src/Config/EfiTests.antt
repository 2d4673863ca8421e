-- ===== src/Config/EfiTests.antt =====
-- Tests of the search for the kernel and of mounting, and their theorems at concrete inputs.
use zebrafish.Prelude.{
  Bool, true, false, [], ◌∷◌, none, some, ◌≡◌, ◌⊎◌, ◌↔◌, refl, Text, text, text_eq,
}
use zebrafish.Prelude.Results.{ok, err}
use zebrafish.Config.KeyPath.{is_whitespace}
use zebrafish.Config.Efi.{
  find_efi_partition, efi_names, single, lines_from, words_from, is_mounted, mounted_at,
}
use zebrafish.Config.Efi.Mount.{
  Dir, dir, no_dirs, one, push_all, search_stack, count, kernel_dir, no_kernel, Host, mount_efi,
  efi_mount_point, discover_efi_dir,
}
use zebrafish.Config.Efi.Mount.Search.{Holds, kernel_dir-Holds}
use zebrafish.Config.Efi.Mount.Mounting.{IsMounting, mount_efi-IsMounting}

-- A partition with the kernel two levels down, beside a directory without it.
abbrev partition : Dir
partition = dir efi_mount_point false true (
    one (dir (text "a") false true (one (dir (text "a/b") true true no_dirs) no_dirs))
      (one (dir (text "c") false true no_dirs) no_dirs))

abbrev unreadable : Dir
unreadable = dir efi_mount_point false false (one (dir (text "a") true true no_dirs) no_dirs)

abbrev mounting : Bool → Host
mounting works = record {
  lsblk = some (text "sda ext4\nsda1 vfat 0x4\n");
  creates = true;
  mounts = some (text "proc /proc proc" ∷ []);
  mount = λ partition. some works;
}

abbrev mounted : Host
mounted = record {
  lsblk = some (text "sda1 vfat 0x4\n");
  creates = true;
  mounts = some (text "/dev/sda1 /run/zebrafish/efi vfat" ∷ []);
  mount = λ partition. none;
}

searches : Unit {0}
unfolding push_all search_stack count kernel_dir mount_efi discover_efi_dir find_efi_partition
    efi_names single lines_from words_from mounted_at is_mounted is_whitespace text_eq
searches = tt

kernel_found : kernel_dir partition ≡ ok (text "a/b")
unfolding searches
kernel_found = refl

kernel_hidden : kernel_dir unreadable ≡ err no_kernel
unfolding searches
kernel_hidden = refl

mount_runs : mount_efi text_eq (mounting true) ≡ (ok (text "/dev/sda1"), true)
unfolding searches
mount_runs = refl

mount_skipped : mount_efi text_eq mounted ≡ (ok (text "/dev/sda1"), false)
unfolding searches
mount_skipped = refl

discovered : discover_efi_dir text_eq mounted partition ≡ ok (text "a/b")
unfolding searches
discovered = refl

kernel_dir-Holds_example :
    ((p : Text) × (kernel_dir partition ≡ ok p) × Holds p partition)
    ⊎ ((kernel_dir partition ≡ err no_kernel) × ((p : Text) → ¬ Holds p partition))
kernel_dir-Holds_example = kernel_dir-Holds partition

mount_efi-IsMounting_example :
    (mount_efi text_eq mounted ≡ (ok (text "/dev/sda1"), false))
    ↔ IsMounting text_eq mounted (text "/dev/sda1") false
mount_efi-IsMounting_example = mount_efi-IsMounting text_eq mounted (text "/dev/sda1") false
