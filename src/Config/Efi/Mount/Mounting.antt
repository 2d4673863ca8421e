-- ===== src/Config/Efi/Mount/Mounting.antt =====
-- package/zebrafish-config/src/efi.rs: `mount_efi` and `is_mounted`.
use zebrafish.Prelude.{
  Bool, true, false, List, [], ◌∷◌, ◌++◌, Option, none, some, Text, text, ◌≡◌, ◌⊎◌, ◌↔◌, inl, inr,
  refl, sym, ◌∙◌, ap, subst, arith, Contains, here, there, Bool-cases,
}
use zebrafish.Prelude.Results.{Result, ok, err, ok_injective}
use zebrafish.Config.Efi.{EfiError, find_efi_partition, is_mounted, mounted_at, split_whitespace}
use zebrafish.Config.Efi.Mount.{
  MountError, Host, mount_efi, after_partition, after_mounts, mount_unless, run_mount, after_create,
  efi_mount_point,
}

-- A line of /proc/mounts whose second word is a mount point.
abbrev pub Mounts : (Text → Text → Bool) → Text → Text → Type 0
Mounts same_path path line =
    (device : Text) × (point : Text) × (more : List Text) × (split_whitespace line
      ≡ device ∷ point ∷ more)
    × (same_path point path ≡ true)

-- How `mount_efi` came by a partition: a line of /proc/mounts has the mount point, or none has and
-- `mount` was started and succeeded.
abbrev pub IsMounting : (Text → Text → Bool) → Host → Text → Bool → Type 0
IsMounting same_path host partition started =
    (name : Text) × (ls : List Text) × (find_efi_partition host.lsblk ≡ ok name)
    × (partition ≡ text "/dev/" ++ name)
    × (host.creates ≡ true)
    × (host.mounts ≡ some ls)
    × ((((line : Text) × Contains line ls × Mounts same_path efi_mount_point line)
          × (started ≡ false))
        ⊎ (((line : Text) → Contains line ls → ¬ Mounts same_path efi_mount_point line)
            × (started ≡ true)
            × (host.mount partition ≡ some true)))

run_mount-eq-ok :
    (o : Option Bool) (q : Text) {partition : Text}
    → run_mount o q ≡ ok partition
    → (o ≡ some true) × (q ≡ partition)
run_mount-eq-ok none q e = cc
run_mount-eq-ok (some true) q e = (refl, ok_injective e)
run_mount-eq-ok (some false) q e = cc

after_create-eq-ok :
    (b : Bool) (rest : Result MountError Text × Bool) {partition : Text}
    → (after_create b rest).0 ≡ ok partition
    → (b ≡ true) × (rest.0 ≡ ok partition) × ((after_create b rest).1 ≡ rest.1)
after_create-eq-ok true rest e = (refl, e, refl)
after_create-eq-ok false rest e = cc

mounted_at-Mounts :
    (same_path : Text → Text → Bool) (path line : Text) (words : List Text)
    → split_whitespace line ≡ words
    → mounted_at same_path path words ≡ true
    → Mounts same_path path line
unfolding mounted_at
mounted_at-Mounts same_path path line [] split h = cc
mounted_at-Mounts same_path path line (device ∷ []) split h = cc
mounted_at-Mounts same_path path line (device ∷ point ∷ more) split h =
    (device, point, more, split, h)

Mounts-mounted_at :
    (same_path : Text → Text → Bool) (path line : Text)
    → Mounts same_path path line
    → mounted_at same_path path (split_whitespace line) ≡ true
unfolding mounted_at
Mounts-mounted_at same_path path line (device, point, more, split, h) = rw split h

is_mounted-Mounts :
    (same_path : Text → Text → Bool) (path : Text) (ls : List Text)
    → is_mounted same_path path ls ≡ true
    → (line : Text) × Contains line ls × Mounts same_path path line
unfolding is_mounted
is_mounted-Mounts same_path path [] h = cc
is_mounted-Mounts same_path path (l ∷ ls) h =
    elim (Bool-cases (mounted_at same_path path (split_whitespace l))) [
      | inl at ↦ (l, here, mounted_at-Mounts same_path path l (split_whitespace l) refl at)
      | inr other ↦
          let (line, among, right) = is_mounted-Mounts same_path path ls (rw other at h) in
          (line, there among, right)
    ]

is_mounted-none :
    (same_path : Text → Text → Bool) (path : Text) (ls : List Text)
    → is_mounted same_path path ls ≡ false
    → (line : Text) → Contains line ls
    → ¬ Mounts same_path path line
unfolding is_mounted
is_mounted-none same_path path [] h line c m = elim c [ ]
is_mounted-none same_path path (l ∷ ls) h line here m =
    absurd (ground (arith, h, Mounts-mounted_at same_path path l m))
is_mounted-none same_path path (l ∷ ls) h line (there c) m =
    is_mounted-none same_path path ls (ground (arith, h)) line c m

IsMounting-unless :
    (same_path : Text → Text → Bool) (host : Host) (name partition : Text) (ls : List Text)
    (m : Bool)
    → find_efi_partition host.lsblk ≡ ok name
    → host.creates ≡ true
    → host.mounts ≡ some ls
    → is_mounted same_path efi_mount_point ls ≡ m
    → (mount_unless m host (text "/dev/" ++ name)).0 ≡ ok partition
    → IsMounting same_path host partition (mount_unless m host (text "/dev/" ++ name)).1
IsMounting-unless same_path host name partition ls true found created read mounted e = (
  name,
  ls,
  found,
  sym (ok_injective e),
  created,
  read,
  inl (is_mounted-Mounts same_path efi_mount_point ls mounted, refl),
)
IsMounting-unless same_path host name partition ls false found created read mounted e =
    let (started, same) =
      run_mount-eq-ok (host.mount (text "/dev/" ++ name)) (text "/dev/" ++ name) e in
    (
      name,
      ls,
      found,
      sym same,
      created,
      read,
      inr (
        is_mounted-none same_path efi_mount_point ls mounted,
        refl,
        ap host.mount (sym same) ∙ started,
      ),
    )

IsMounting-mounts :
    (same_path : Text → Text → Bool) (host : Host) (name partition : Text) (o : Option (List Text))
    → find_efi_partition host.lsblk ≡ ok name
    → host.creates ≡ true
    → host.mounts ≡ o
    → (after_mounts o same_path host (text "/dev/" ++ name)).0 ≡ ok partition
    → IsMounting same_path host partition (after_mounts o same_path host (text "/dev/" ++ name)).1
IsMounting-mounts same_path host name partition none found created read e = cc
IsMounting-mounts same_path host name partition (some ls) found created read e =
    IsMounting-unless same_path host name partition ls (is_mounted same_path efi_mount_point ls)
      found created read refl e

IsMounting-partition :
    (same_path : Text → Text → Bool) (host : Host) (partition : Text) (r : Result EfiError Text)
    → find_efi_partition host.lsblk ≡ r
    → (after_partition r same_path host).0 ≡ ok partition
    → IsMounting same_path host partition (after_partition r same_path host).1
IsMounting-partition same_path host partition (err x) found e = cc
IsMounting-partition same_path host partition (ok name) found e =
    let after = after_mounts host.mounts same_path host (text "/dev/" ++ name) in
    let (created, done, same) = after_create-eq-ok host.creates after e in
    let h = IsMounting-mounts same_path host name partition host.mounts found created refl done in
    subst (λ b. IsMounting same_path host partition b) (sym same) h

is_mounted-true :
    (same_path : Text → Text → Bool) (path : Text) (ls : List Text) (line : Text)
    → Contains line ls
    → Mounts same_path path line
    → is_mounted same_path path ls ≡ true
unfolding is_mounted
is_mounted-true same_path path [] line c m = elim c [ ]
is_mounted-true same_path path (l ∷ ls) line here m = rw (Mounts-mounted_at same_path path l m)
is_mounted-true same_path path (l ∷ ls) line (there c) m =
    let rest = is_mounted-true same_path path ls line c m in
    elim (Bool-cases (mounted_at same_path path (split_whitespace l))) [
      | inl at ↦ rw at
      | inr other ↦ rw (other, rest)
    ]

IsMounting-mount_efi :
    (same_path : Text → Text → Bool) (host : Host) (partition : Text) (started : Bool)
    → IsMounting same_path host partition started
    → mount_efi same_path host ≡ (ok partition, started)
unfolding mount_efi
IsMounting-mount_efi same_path host partition started (name, ls, found, same, created, read, how) =
    elim how [
      | inl h ↦
          let ((line, among, right), idle) = h in
          let mounted = is_mounted-true same_path efi_mount_point ls line among right in
          rw (found, created, read, mounted, same, idle)
      | inr h ↦
          let (nowhere, active, works) = h in
          elim (Bool-cases (is_mounted same_path efi_mount_point ls)) [
            | inl mounted ↦
                let (line, among, right) = is_mounted-Mounts same_path efi_mount_point ls mounted in
                absurd (nowhere line among right)
            | inr unmounted ↦
                let done = rw same at works in
                rw (found, created, read, unmounted, same, active, done)
          ]
    ]

-- `mount_efi` returns a partition exactly if it is the device of the one that `lsblk` lists, the
-- mount point can be created, and either a line of /proc/mounts has the mount point as its second
-- word, and `mount` is not started, or no line has, and `mount` is started for the partition and
-- succeeds.
pub mount_efi-IsMounting :
    (same_path : Text → Text → Bool) (host : Host) (partition : Text) (started : Bool)
    → (mount_efi same_path host ≡ (ok partition, started))
      ↔ IsMounting same_path host partition started
unfolding mount_efi
mount_efi-IsMounting same_path host partition started = (
  λ e. subst (IsMounting same_path host partition) (ap (λ x. x.1) e) (
      IsMounting-partition same_path host partition (find_efi_partition host.lsblk) refl
        (ap (λ x. x.0) e)),
  IsMounting-mount_efi same_path host partition started,
)
