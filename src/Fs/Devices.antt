-- ===== src/Fs/Devices.antt =====
-- fs/chardev.c and fs/filesystem.c: the character devices by their major number, and the file systems
-- by their names. Operations and devices are of any types.
pub mod Registry
mod Tests
use dummy_os.Prelude.{
  ℕ, Bool, List, [], ◌∷◌, ◌++◌, get_or, set, ltb, ◌==◌, if◌then◌else◌, Option, none, some, Status,
  success, err, enomem, enoent, eexist,
}
use dummy_os.Libk.Strings.{strncmp}

abbrev pub chardev_major_nr : ℕ
chardev_major_nr = 1

-- `struct chardev`; its major number is its place.
pub record Chardev (F D : Type 0) : Type 0 where
  pub fops : F
  pub device : Option (ℕ → D)

module _ {F D : Type 0} where
  unfoldable pub find_chardev : List (Option (Chardev F D)) → ℕ → Option (Chardev F D)
  find_chardev devs major = if ltb major chardev_major_nr then get_or devs major none else none

  -- For a major number below the end of the array; `mem` says whether there is memory.
  unfoldable pub chardev_register :
      Bool
      → ℕ
      → F
      → Option (ℕ → D)
      → List (Option (Chardev F D))
      → Status × List (Option (Chardev F D))
  chardev_register mem major fops get_device devs = elim (find_chardev devs major) [
    | some cd ↦ (err eexist, devs)
    | none ↦
        if mem
        then (success, set devs major (some (record { fops = fops; device = get_device })))
        else (err enomem, devs)
  ]

  unfoldable pub chardev_unregister :
      ℕ → List (Option (Chardev F D)) → Status × List (Option (Chardev F D))
  chardev_unregister major devs = elim (find_chardev devs major) [
    | none ↦ (err enoent, devs)
    | some cd ↦ (success, set devs major none)
  ]

  unfoldable pub chardev_get_fops : List (Option (Chardev F D)) → ℕ → Option F
  chardev_get_fops devs major = elim (find_chardev devs major) [
    | none ↦ none
    | some cd ↦ some cd.fops
  ]

  unfoldable pub chardev_get_device : List (Option (Chardev F D)) → ℕ → ℕ → Option D
  chardev_get_device devs major minor = elim (find_chardev devs major) [
    | none ↦ none
    | some cd ↦ elim cd.device [ none ↦ none | some get_device ↦ some (get_device minor) ]
  ]

-- `struct vfs_filesystem`: its name and its operations.
pub record Filesystem (F : Type 0) : Type 0 where
  pub name : List ℕ
  pub operations : F

module _ {F : Type 0} where
  unfoldable pub vfs_filesystem_get_fs : List (Filesystem F) → List ℕ → Option (Filesystem F)
  vfs_filesystem_get_fs [] fs_name = none
  vfs_filesystem_get_fs (registered ∷ rest) fs_name =
      let later = vfs_filesystem_get_fs rest fs_name in
      if strncmp fs_name registered.name 16 == 0 then some registered else later

  unfoldable pub vfs_filesystem_register :
      Filesystem F → List (Filesystem F) → Status × List (Filesystem F)
  vfs_filesystem_register fs filesystem_list =
      elim (vfs_filesystem_get_fs filesystem_list fs.name) [
        | some registered ↦ (err eexist, filesystem_list)
        | none ↦ (success, filesystem_list ++ (fs ∷ []))
      ]
