-- ===== src/Fs/Devices/Tests.antt =====
-- Instances for the registered file systems and devices.
use dummy_os.Prelude.{ℕ, ◌≡◌, refl, [], ◌∷◌, none, some, true, success, err, eexist, arith}
use dummy_os.Libk.Strings.{strncmp}
use dummy_os.Fs.Devices.{
  Filesystem, vfs_filesystem_get_fs, vfs_filesystem_register, chardev_register, find_chardev,
}
use dummy_os.Fs.Devices.Registry.{vfs_filesystem_register-Registers}

abbrev fs_a : Filesystem ℕ
fs_a = record { name = b'a' ∷ 0 ∷ []; operations = 1 }

abbrev fs_b : Filesystem ℕ
fs_b = record { name = b'b' ∷ 0 ∷ []; operations = 2 }

no_b : vfs_filesystem_get_fs (fs_a ∷ []) (b'b' ∷ 0 ∷ []) ≡ none
unfolding vfs_filesystem_get_fs strncmp
no_b = refl

is_a : vfs_filesystem_get_fs (fs_a ∷ []) (b'a' ∷ 0 ∷ []) ≡ some fs_a
unfolding vfs_filesystem_get_fs strncmp
is_a = refl

vfs_filesystem_register-Registers_test :
    ((vfs_filesystem_register fs_b (fs_a ∷ [])).0 ≡ success)
    × (vfs_filesystem_get_fs (vfs_filesystem_register fs_b (fs_a ∷ [])).1 (b'b' ∷ 0 ∷ [])
        ≡ some fs_b)
    × (vfs_filesystem_get_fs (vfs_filesystem_register fs_b (fs_a ∷ [])).1 (b'a' ∷ 0 ∷ [])
        ≡ some fs_a)
vfs_filesystem_register-Registers_test =
    vfs_filesystem_register-Registers (fs_a ∷ []) fs_b fs_a (b'a' ∷ 0 ∷ [])
      (omega arith, (omega arith, tt)) no_b is_a

-- A second device under one number is refused.
taken_test :
    (chardev_register {F = ℕ} {D = ℕ} true 0 7 none
      ((chardev_register {F = ℕ} {D = ℕ} true 0 5 none (none ∷ [])).1)).0
    ≡ err eexist
unfolding chardev_register find_chardev
taken_test = refl
