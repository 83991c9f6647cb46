-- ===== src/Fs/Pipe/Holders.antt =====
-- Who holds a pipe: its counts of readers and writers, and the open files.
use dummy_os.Prelude.{
  ℕ, suc, ◌+◌, ◌≤◌, ◌<◌, ◌⊎◌, ◌≡◌, ◌≢◌, refl, ap, subst, Bool, List, [], ◌∷◌, length, ◌||◌, ◌==◌,
  arith, Bool-cases, inl, inr, true, ok, Option, none, some, if◌then◌else◌, Result,
}
use dummy_os.Libk.Utils.{word, sub32}
use dummy_os.Fs.Pipe.{
  Pipe, pipe_acquire, do_pipe_close, pipe_add_reader, pipe_add_writer, pipe_remove_reader,
  pipe_remove_writer, vfs_file_flags_read, vfs_file_flags_write, wake_all, then_remove_writer,
}

-- How many of the open files, given by their flags, read and how many write.
unfoldable pub readers_of : List ℕ → ℕ
readers_of [] = 0
readers_of (f ∷ fs) = if vfs_file_flags_read f then suc (readers_of fs) else readers_of fs

unfoldable pub writers_of : List ℕ → ℕ
writers_of [] = 0
writers_of (f ∷ fs) = if vfs_file_flags_write f then suc (writers_of fs) else writers_of fs

-- Each of the files may read or write.
abbrev pub CanUse : List ℕ → Type 0
CanUse [] = Unit
CanUse (f ∷ fs) = ((vfs_file_flags_read f || vfs_file_flags_write f) ≡ true) × CanUse fs

pub record IsHeld (p : Pipe) (files : List ℕ) : Type 0 where
  pub reading : p.readers ≡ readers_of files
  pub writing : p.writers ≡ writers_of files

readers_of-le : (fs : List ℕ) → readers_of fs ≤ length fs
unfolding readers_of
readers_of-le [] = omega arith
readers_of-le (f ∷ fs) = ground (arith, readers_of-le fs)

writers_of-le : (fs : List ℕ) → writers_of fs ≤ length fs
unfolding writers_of
writers_of-le [] = omega arith
writers_of-le (f ∷ fs) = ground (arith, writers_of-le fs)

-- A file that may be used is counted at least once.
held_cases :
    (fs : List ℕ) → CanUse fs → (fs ≡ []) ⊎ ((fs ≢ []) × (0 < readers_of fs + writers_of fs))
unfolding readers_of writers_of
held_cases [] can = inl refl
held_cases (f ∷ fs) can = inr ((λ e. ground arith), ground arith)

-- Either the last holder is gone and so is the pipe, or one holder fewer is left.
abbrev Removed : Pipe → ℕ → ℕ → ℕ × Option Pipe → Type 0
Removed p readers writers removed =
    ((readers + writers ≡ 0) × (removed ≡ (0, none)))
    ⊎ ((rc : ℕ) × (p' : Pipe) × (removed ≡ (rc, some p'))
        × (p'.readers ≡ readers)
        × (p'.writers ≡ writers)
        × (0 < readers + writers))

remove_reader_cases :
    (p : Pipe) (n : ℕ)
    → p.readers ≡ suc n
    → suc n < word
    → Removed p n p.writers (pipe_remove_reader p)
unfolding pipe_remove_reader
remove_reader_cases p n h few =
    let less : sub32 p.readers 1 ≡ n = omega arith in
    elim (Bool-cases (n == 0)) [
      | inr e ↦ inr (n, record p { readers = n }, rw (less, e) refl, refl, refl, ground arith)
      | inl e ↦ elim (Bool-cases (p.writers == 0)) [
        | inl e' ↦ inl (ground arith, rw (less, e, e') refl)
        | inr e' ↦ inr (
          n,
          wake_all (record p { readers = n }),
          rw (less, e, e') refl,
          refl,
          refl,
          ground arith,
        )
      ]
    ]

remove_writer_cases :
    (p : Pipe) (n : ℕ)
    → p.writers ≡ suc n
    → suc n < word
    → Removed p p.readers n (pipe_remove_writer p)
unfolding pipe_remove_writer
remove_writer_cases p n h few =
    let less : sub32 p.writers 1 ≡ n = omega arith in
    elim (Bool-cases (n == 0)) [
      | inr e ↦ inr (n, record p { writers = n }, rw (less, e) refl, refl, refl, ground arith)
      | inl e ↦ elim (Bool-cases (p.readers == 0)) [
        | inl e' ↦ inl (ground arith, rw (less, e, e') refl)
        | inr e' ↦ inr (
          n,
          wake_all (record p { writers = n }),
          rw (less, e, e') refl,
          refl,
          refl,
          ground arith,
        )
      ]
    ]

-- Acquiring a pipe for a file adds the file to those that hold it, whether the call waits or not.
pub acquire-IsHeld :
    (self flags : ℕ) (block : Bool) (p : Pipe) (files : List ℕ)
    → (vfs_file_flags_read flags || vfs_file_flags_write flags) ≡ true
    → suc (length files) < word
    → IsHeld p files
    → IsHeld (pipe_acquire self flags block p).1 (flags ∷ files)
unfolding pipe_acquire pipe_add_reader pipe_add_writer readers_of writers_of
acquire-IsHeld self flags block p files access few h =
    ground (arith, readers_of-le files, writers_of-le files)

-- What closing leaves, for the files that still hold the pipe.
abbrev pub Closed : List ℕ → Option (Result ℕ × Option Pipe) → Type 0
Closed files result =
    ((files ≡ []) × (result ≡ some (ok 0, none)))
    ⊎ ((rc : ℕ) × (p' : Pipe) × (files ≢ []) × (result ≡ some (ok rc, some p')) × IsHeld p' files)

abbrev closed_with : ℕ × Option Pipe → Option (Result ℕ × Option Pipe)
closed_with (rc, p') = some (ok rc, p')

Removed-Closed :
    (p : Pipe) (files : List ℕ) (removed : ℕ × Option Pipe)
    → CanUse files
    → Removed p (readers_of files) (writers_of files) removed
    → Closed files (closed_with removed)
unfolding readers_of writers_of
Removed-Closed p files removed can (inl (none_left, e)) = elim (held_cases files can) [
  | inl nil ↦ inl (nil, ap closed_with e)
  | inr (cons, more) ↦ absurd (omega arith)
]
Removed-Closed p files removed can (inr (rc, p', e, r, w, left)) = elim (held_cases files can) [
  | inl nil ↦ absurd (omega (arith, ap readers_of nil, ap writers_of nil))
  | inr (cons, more) ↦ inr (rc, p', cons, ap closed_with e, record { reading = r; writing = w })
]

-- The reader goes first, and the writer holds the pipe meanwhile.
both_removals :
    (p : Pipe) (n k : ℕ)
    → Removed p n (suc k) (pipe_remove_reader p)
    → suc k < word
    → (p' : Pipe) × (removed : ℕ × Option Pipe) × (then_remove_writer (pipe_remove_reader p)
        ≡ closed_with removed)
      × Removed p' n k removed
both_removals p n k (inl (none_left, e)) few = absurd (omega arith)
both_removals p n k (inr (rc, p', e, r, w, left)) few = (
  p',
  pipe_remove_writer p',
  rw e refl,
  subst (λ t. Removed p' t k (pipe_remove_writer p')) r (remove_writer_cases p' k w few),
)

-- A pipe is held by open files that may each read or write, fewer than 2 ^ 32. Closing one of them
-- never touches a destroyed pipe; it destroys the pipe if no other file holds it, and leaves it
-- held by the others if there are any.
pub close-IsHeld :
    (flags : ℕ) (p : Pipe) (files : List ℕ)
    → CanUse (flags ∷ files)
    → suc (length files) < word
    → IsHeld p (flags ∷ files)
    → Closed files (do_pipe_close flags p)
unfolding do_pipe_close readers_of writers_of
close-IsHeld flags p files (access, can) few h =
    let reading = h.reading in
    let writing = h.writing in
    elim (Bool-cases (vfs_file_flags_read flags)) [
      | inl r ↦ elim (Bool-cases (vfs_file_flags_write flags)) [
        | inl w ↦
            let first =
              remove_reader_cases p (readers_of files) (rw r at reading)
                (omega (arith, readers_of-le files)) in
            let (p', removed, e, both) =
              both_removals p (readers_of files) (writers_of files)
                (subst (λ t. Removed p (readers_of files) t (pipe_remove_reader p))
                  (rw w at writing) first)
                (omega (arith, writers_of-le files)) in
            rw (do_pipe_close, r, w, e) (Removed-Closed p' files removed can both)
        | inr w ↦
            let left =
              remove_reader_cases p (readers_of files) (rw r at reading)
                (omega (arith, readers_of-le files)) in
            rw (do_pipe_close, r, w)
              (Removed-Closed p files (pipe_remove_reader p) can (
                subst (λ t. Removed p (readers_of files) t (pipe_remove_reader p)) (rw w at writing)
                  left))
      ]
      | inr r ↦ elim (Bool-cases (vfs_file_flags_write flags)) [
        | inl w ↦
            let left =
              remove_writer_cases p (writers_of files) (rw w at writing)
                (omega (arith, writers_of-le files)) in
            rw (do_pipe_close, r, w)
              (Removed-Closed p files (pipe_remove_writer p) can (
                subst (λ t. Removed p t (writers_of files) (pipe_remove_writer p)) (rw r at reading)
                  left))
        | inr w ↦ absurd (ground arith)
      ]
    ]
