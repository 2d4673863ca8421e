-- ===== src/Config/Efi/Mount.antt =====
-- package/zebrafish-config/src/efi.rs: `mount_efi`, `kernel_dir` and `discover_efi_dir`. The host is
-- what `lsblk` prints, the lines of /proc/mounts, and the programs that are started; the part of
-- the file tree under the mount point is a tree of directories.
pub mod Search
pub mod Mounting
use zebrafish.Prelude.{
  ℕ, zero, suc, ◌+◌, Bool, true, false, List, [], ◌∷◌, ◌++◌, Option, none, some, Text, text,
  text_eq, if◌then◌else◌,
}
use zebrafish.Prelude.Results.{Result, ok, err, and_then}
use zebrafish.Config.Efi.{EfiError, find_efi_partition, is_mounted}

pub data MountError : Type 0 where
  efi : EfiError → MountError
  no_directory no_mounts mount_failed mount_not_started no_kernel : MountError

-- `EFI_MOUNT_POINT` and `KERNEL_IMAGE`
abbrev pub efi_mount_point : Text
efi_mount_point = text "/run/zebrafish/efi"

abbrev pub kernel_image : Text
kernel_image = text "zebrafish-kernel"

-- How `mount` ends: `none` if it cannot be started, or else whether it succeeds.
pub record Host : Type 0 where
  pub lsblk : Option Text
  pub creates : Bool
  pub mounts : Option (List Text)
  pub mount : Text → Option Bool

-- The partition, and whether `mount` was started.
abbrev pub run_mount : Option Bool → Text → Result MountError Text
run_mount (some true) partition = ok partition
run_mount (some false) partition = err mount_failed
run_mount none partition = err mount_not_started

abbrev pub mount_unless : Bool → Host → Text → Result MountError Text × Bool
mount_unless true host partition = (ok partition, false)
mount_unless false host partition = (run_mount (host.mount partition) partition, true)

abbrev pub after_mounts :
    Option (List Text) → (Text → Text → Bool) → Host → Text → Result MountError Text × Bool
after_mounts none same_path host partition = (err no_mounts, false)
after_mounts (some ls) same_path host partition =
    mount_unless (is_mounted same_path efi_mount_point ls) host partition

abbrev pub after_create :
    Bool → (rest : Result MountError Text × Bool) → Result MountError Text × Bool
after_create true rest = rest
after_create false rest = (err no_directory, false)

abbrev pub after_partition :
    Result EfiError Text → (Text → Text → Bool) → Host → Result MountError Text × Bool
after_partition (err e) same_path host = (err (efi e), false)
after_partition (ok name) same_path host =
    after_create host.creates (after_mounts host.mounts same_path host (text "/dev/" ++ name))

-- `mount_efi`; the flag says whether it started `mount`.
unfoldable pub mount_efi : (Text → Text → Bool) → Host → Result MountError Text × Bool
mount_efi same_path host = after_partition (find_efi_partition host.lsblk) same_path host

-- A directory: its path, whether the kernel is in it, whether it can be read, and its directories.
mutual
  pub data Dir : Type 0 where
    dir : Text → Bool → Bool → Dirs → Dir

  pub data Dirs : Type 0 where
    no_dirs : Dirs
    one : Dir → Dirs → Dirs

-- Each of them pushed on the stack, the last one on top.
unfoldable pub push_all : Dirs → List Dir → List Dir
push_all no_dirs stack = stack
push_all (one d ds) stack = push_all ds (d ∷ stack)

abbrev pub entries_read : Bool → Dirs → List Dir → List Dir
entries_read true ds stack = push_all ds stack
entries_read false ds stack = stack

-- The loop of `kernel_dir`, on fuel; the first `none` is the fuel that runs out.
unfoldable pub search_stack : ℕ → List Dir → Option (Option Text)
search_stack zero stack = none
search_stack (suc f) [] = some none
search_stack (suc f) (dir path has_kernel readable ds ∷ stack) =
    let rest = search_stack f (entries_read readable ds stack) in
    if has_kernel then some (some path) else rest

-- The number of directories, which is enough fuel.
unfoldable mutual
  pub count : Dir → ℕ
  count (dir path has_kernel readable ds) = suc (count_all ds)

  pub count_all : Dirs → ℕ
  count_all no_dirs = 0
  count_all (one d ds) = count d + count_all ds

abbrev pub kernel_result : Option (Option Text) → Result MountError Text
kernel_result (some (some path)) = ok path
kernel_result _ = err no_kernel

unfoldable pub kernel_dir : Dir → Result MountError Text
kernel_dir root = kernel_result (search_stack (suc (count root)) (root ∷ []))

-- `discover_efi_dir`, over the tree that is under the mount point once `mount_efi` is done.
unfoldable pub discover_efi_dir : (Text → Text → Bool) → Host → Dir → Result MountError Text
discover_efi_dir same_path host tree =
    and_then (mount_efi same_path host).0 λ partition. kernel_dir tree
