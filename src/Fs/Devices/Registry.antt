-- ===== src/Fs/Devices/Registry.antt =====
-- What is found after a registration.
use dummy_os.Prelude.{
  ℕ, ◌≡◌, refl, ap, ◌∙◌, true, List, [], ◌∷◌, ◌++◌, ◌==◌, if◌then◌else◌, none, some, success, arith,
  Bool-cases, inl, inr,
}
use dummy_os.Libk.Strings.{strncmp}
use dummy_os.Libk.Strings.Compare.{Bytes, strncmp-text}
use dummy_os.Fs.Devices.{Filesystem, vfs_filesystem_get_fs, vfs_filesystem_register}

strncmp_self : (name : List ℕ) → Bytes name → (strncmp name name 16 == 0) ≡ true
strncmp_self name bytes = ground (arith, (strncmp-text name name 16 bytes bytes).1 refl)

module _ {F : Type 0} where
  -- The file system that is put behind the list is found if no other is.
  get_fs-append :
      (l : List (Filesystem F)) (fs : Filesystem F) (name : List ℕ)
      → vfs_filesystem_get_fs (l ++ (fs ∷ [])) name ≡ elim (vfs_filesystem_get_fs l name) [
        | some found ↦ some found
        | none ↦ if strncmp name fs.name 16 == 0 then some fs else none
      ]
  unfolding vfs_filesystem_get_fs
  get_fs-append [] fs name = refl
  get_fs-append (g ∷ l) fs name = elim (Bool-cases (strncmp name g.name 16 == 0)) [
    | inl same ↦ rw (vfs_filesystem_get_fs, same) refl
    | inr other ↦ rw (vfs_filesystem_get_fs, other) (get_fs-append l fs name)
  ]

  -- A file system with a name of bytes that no registered one has is registered and found under its
  -- name, and one that was found under some name before is still found under it.
  pub vfs_filesystem_register-Registers :
      (l : List (Filesystem F)) (fs found : Filesystem F) (name : List ℕ)
      → Bytes fs.name
      → vfs_filesystem_get_fs l fs.name ≡ none
      → vfs_filesystem_get_fs l name ≡ some found
      → ((vfs_filesystem_register fs l).0 ≡ success)
        × (vfs_filesystem_get_fs (vfs_filesystem_register fs l).1 fs.name ≡ some fs)
        × (vfs_filesystem_get_fs (vfs_filesystem_register fs l).1 name ≡ some found)
  unfolding vfs_filesystem_register
  vfs_filesystem_register-Registers l fs found name bytes new old =
      let done : vfs_filesystem_register fs l ≡ (success, l ++ (fs ∷ [])) =
        rw (vfs_filesystem_register, new) refl in
      let own : vfs_filesystem_get_fs (l ++ (fs ∷ [])) fs.name ≡ some fs =
        rw (get_fs-append l fs fs.name, new, strncmp_self fs.name bytes) refl in
      let others : vfs_filesystem_get_fs (l ++ (fs ∷ [])) name ≡ some found =
        rw (get_fs-append l fs name, old) refl in
      (
        ap (λ r. r.0) done,
        ap (λ r. vfs_filesystem_get_fs r.1 fs.name) done ∙ own,
        ap (λ r. vfs_filesystem_get_fs r.1 name) done ∙ others,
      )
