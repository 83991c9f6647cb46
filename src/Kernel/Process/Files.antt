-- ===== src/Kernel/Process/Files.antt =====
-- The open files of a process.
use dummy_os.Prelude.{
  ℕ, ◌<◌, ◌≡◌, ◌⊎◌, refl, ap, ◌∙◌, ◌==◌, Bool-cases, length, get_or, set, ltb, if◌then◌else◌, some,
  inl, inr, ok, err, emfile, arith,
}
use dummy_os.Kernel.Process.{Process, free_from, process_add_file, process_get_file, vfs_file_ref}
use dummy_os.Kernel.Process.Pids.{IsLowest, IsFull, free_from-Finds, get_or-set, get_or-set_other}

-- What adding a file comes to: no number is free, or the lowest one is taken.
abbrev pub Adds : Process → ℕ → (ℕ → ℕ) → ℕ → Type 0
Adds proc file refs other =
    (IsFull proc.fds × (process_add_file proc file refs ≡ (err emfile, proc, refs)))
    ⊎ ((fd : ℕ) × (proc' : Process) × IsLowest proc.fds fd
        × (process_add_file proc file refs ≡ (ok fd, proc', vfs_file_ref refs file))
        × (process_get_file proc' fd ≡ file)
        × ((other ≡ fd) ⊎ (process_get_file proc' other ≡ process_get_file proc other)))

get_file : (proc : Process) (fd : ℕ) → fd < 16 → process_get_file proc fd ≡ get_or proc.fds fd 0
unfolding process_get_file
get_file proc fd lt = ground (arith, lt)

same_files :
    (proc : Process) (fd file other : ℕ)
    → (other ≡ fd)
      ⊎ (process_get_file (record proc { fds = set proc.fds fd file }) other
          ≡ process_get_file proc other)
unfolding process_get_file
same_files proc fd file other = elim (Bool-cases (other == fd)) [
  | inl same ↦ inl (ground (arith, same))
  | inr differ ↦ inr (
      ap (λ v. if ltb other 16 then v else 0)
        (get_or-set_other proc.fds fd file other (ground (arith, differ))))
]

-- Adding a file fails with EMFILE, and changes nothing, if all numbers are taken. Otherwise the file
-- gets the lowest free number and one more reference, is found under that number, and what is found
-- under any other number stays the same.
pub process_add_file-Adds :
    (proc : Process) (file other : ℕ) (refs : ℕ → ℕ)
    → length proc.fds ≡ 16
    → Adds proc file refs other
unfolding process_add_file
process_add_file-Adds proc file other refs size = elim (free_from-Finds proc.fds 0) [
  | inl (e, full) ↦ inl (full, rw (process_add_file, e) refl)
  | inr (fd, e, l) ↦
      let at : free_from proc.fds 0 ≡ some fd = e ∙ ap some (omega arith) in
      let proc' = record proc { fds = set proc.fds fd file } in
      inr (
        fd,
        proc',
        l,
        rw (process_add_file, at) refl,
        get_file proc' fd (omega (arith, l.inside, size)) ∙ get_or-set proc.fds fd file l.inside,
        same_files proc fd file other,
      )
]
