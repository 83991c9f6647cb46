-- ===== src/Kernel/Process.antt =====
-- kernel/process.c: the table of processes, the files that a process has open, its threads and its
-- children, and the search of kernel/exit.c for one that has ended. Processes, files and threads are
-- named by their addresses, 0 for none. Numbers of processes and files are not negative here.
pub mod Pids
pub mod Files
mod Tests
use dummy_os.Prelude.{
  ℕ, zero, suc, ◌+◌, ◌-◌, Bool, true, false, not, ◌&&◌, ◌||◌, List, [], ◌∷◌, ◌++◌, length, get_or,
  set, ltb, leb, ◌==◌, if◌then◌else◌, Option, none, some, Status, Result, ok, success, err, enospc,
  emfile, ebadf, einval, echild, efault,
}
use dummy_os.Libk.Utils.{add32}
use dummy_os.Kernel.Sched.{
  Sched, ThreadState, thread_ready, thread_sleeping, thread_dead, sched_add_thread,
  sched_remove_thread, thread_set_state, thread_ref, thread_unref, without,
}

-- `enum process_state`
pub data ProcessState : Type 0 where
  proc_runnable proc_locked proc_zombie : ProcessState

-- `struct process`, as far as the modelled code uses it.
pub record Process : Type 0 where
  pub pid : ℕ
  pub pgrp : ℕ
  pub ctrl_tty : ℕ
  pub state : ProcessState
  pub exit_status : ℕ
  pub fds : List ℕ
  pub threads : List ℕ

abbrev pub process_table_size : ℕ
process_table_size = 64

abbrev pub process_max_fd : ℕ
process_max_fd = 16

-- The search of `find_free_pid` in the entries from `pid` on.
unfoldable pub free_from : List ℕ → ℕ → Option ℕ
free_from [] pid = none
free_from (p ∷ ps) pid = if p == 0 then some pid else free_from ps (suc pid)

abbrev tail_of : List ℕ → List ℕ
tail_of [] = []
tail_of (p ∷ ps) = ps

-- The entry of pid 0 is not used; `none` is the result -1.
unfoldable pub find_free_pid : List ℕ → Option ℕ
find_free_pid table = free_from (tail_of table) 1

-- The result, the table and the pid of the process, which is `old` so far.
unfoldable pub process_register_pid : ℕ → Option ℕ → ℕ → List ℕ → Result ℕ × List ℕ × ℕ
process_register_pid proc none old table = (err enospc, table, old)
process_register_pid proc (some pid) old table =
    if ltb 0 pid && leb pid process_table_size && (get_or table pid 0 == 0)
    then (ok pid, set table pid proc, pid)
    else (err enospc, table, old)

unfoldable pub process_register : ℕ → ℕ → List ℕ → Result ℕ × List ℕ × ℕ
process_register proc old table = process_register_pid proc (find_free_pid table) old table

unfoldable pub unregister_process : Process → List ℕ → List ℕ
unregister_process proc table = set table proc.pid 0

unfoldable pub process_get : List ℕ → ℕ → ℕ
process_get table pid = if ltb 0 pid && leb pid process_table_size then get_or table pid 0 else 0

-- The pids, from `pid` on, of the processes of a group: those that `process_pgrp_kill` kills.
unfoldable pub pgrp_members : (ℕ → Process) → ℕ → List ℕ → ℕ → List ℕ
pgrp_members proc pgrp [] pid = []
pgrp_members proc pgrp (p ∷ ps) pid =
    let rest = pgrp_members proc pgrp ps (suc pid) in
    if not (p == 0) && ((proc p).pgrp == pgrp) then pid ∷ rest else rest

unfoldable pub process_pgrp_kill : (ℕ → Process) → ℕ → List ℕ → Result (List ℕ)
process_pgrp_kill proc pgrp table =
    if pgrp == 0 then err einval else ok (pgrp_members proc pgrp (tail_of table) 1)

abbrev set_tty : (ℕ → Process) → ℕ → ℕ → ℕ → Process
set_tty proc p tty q = if q == p then record (proc q) { ctrl_tty = tty } else proc q

unfoldable pub set_ttys : (ℕ → Process) → ℕ → ℕ → List ℕ → ℕ → Process
set_ttys proc pgrp tty [] = proc
set_ttys proc pgrp tty (p ∷ ps) =
    set_ttys (if not (p == 0) && ((proc p).pgrp == pgrp) then set_tty proc p tty else proc) pgrp tty
      ps

unfoldable pub process_set_tty_for_pgrp : (ℕ → Process) → ℕ → ℕ → List ℕ → ℕ → Process
process_set_tty_for_pgrp proc pgrp tty table =
    if pgrp == 0 then proc else set_ttys proc pgrp tty (tail_of table)

-- Files are counted in `refs`.
abbrev pub vfs_file_ref : (ℕ → ℕ) → ℕ → ℕ → ℕ
vfs_file_ref refs file f = if f == file then add32 (refs f) 1 else refs f

unfoldable pub process_add_file : Process → ℕ → (ℕ → ℕ) → Result ℕ × Process × (ℕ → ℕ)
process_add_file proc file refs = elim (free_from proc.fds 0) [
  | none ↦ (err emfile, proc, refs)
  | some fd ↦ (ok fd, record proc { fds = set proc.fds fd file }, vfs_file_ref refs file)
]

unfoldable pub process_add_file_at : Process → ℕ → ℕ → (ℕ → ℕ) → Status × Process × (ℕ → ℕ)
process_add_file_at proc file fd refs =
    if leb process_max_fd fd || not (get_or proc.fds fd 0 == 0)
    then (err ebadf, proc, refs)
    else (success, record proc { fds = set proc.fds fd file }, vfs_file_ref refs file)

-- The file that is handed back, for a caller that asks for it, is released by `vfs_file_release`,
-- which is given by the file's name. A number that is too large succeeds.
unfoldable pub process_remove_file : Process → ℕ → Status × ℕ × Process
process_remove_file proc fd =
    let file = get_or proc.fds fd 0 in
    if ltb fd process_max_fd
    then if not (file == 0)
      then (success, file, record proc { fds = set proc.fds fd 0 })
      else (err ebadf, 0, proc)
    else (success, 0, proc)

unfoldable pub process_get_file : Process → ℕ → ℕ
process_get_file proc fd = if ltb fd process_max_fd then get_or proc.fds fd 0 else 0

-- The loop of `copy_fds`: `copy` is what `vfs_file_copy_create` gives for a file, and the result has
-- the copies made before an error.
unfoldable pub copy_fds : (ℕ → Result ℕ) → List ℕ → List ℕ → Status × List ℕ
copy_fds copy [] child = (success, child)
copy_fds copy (file ∷ files) [] = (success, [])
copy_fds copy (file ∷ files) (c ∷ child) =
    let (status, rest) = copy_fds copy files child in
    if file == 0
    then (status, c ∷ rest)
    else elim (copy file) [ ok new ↦ (status, new ∷ rest) | err e ↦ (err e, c ∷ child) ]

-- The threads of a process, on the state of the scheduler.
unfoldable pub lock_threads : List ℕ → ℕ → Sched → Status × Sched
lock_threads [] cur s = (success, s)
lock_threads (t ∷ ts) cur s =
    let (status, s') = sched_remove_thread t s in
    let rest = lock_threads ts cur s' in
    let skipped = lock_threads ts cur s in
    if cur == t then skipped else elim status [ ok _ ↦ rest | err e ↦ (err e, s') ]

unfoldable pub process_lock : Process → ℕ → Sched → Status × Process × Sched
process_lock proc cur s =
    let (status, s') = lock_threads proc.threads cur s in
    (status, elim status [ ok _ ↦ record proc { state = proc_locked } | err _ ↦ proc ], s')

abbrev is_ready : ThreadState → Bool
is_ready thread_ready = true
is_ready _ = false

abbrev is_sleeping : ThreadState → Bool
is_sleeping thread_sleeping = true
is_sleeping _ = false

-- `sched_add_thread` always returns 0.
unfoldable pub unlock_threads : List ℕ → Sched → Sched
unlock_threads [] s = s
unlock_threads (t ∷ ts) s =
    unlock_threads ts (if is_ready (s.state t) then sched_add_thread t s else s)

unfoldable pub process_has_ready_thread : List ℕ → Sched → Bool
process_has_ready_thread [] s = false
process_has_ready_thread (t ∷ ts) s = is_ready (s.state t) || process_has_ready_thread ts s

-- The thread that `process_intr_sleeping_thread` wakes; `none` is -ESRCH.
unfoldable pub sleeping_thread : List ℕ → Sched → Option ℕ
sleeping_thread [] s = none
sleeping_thread (t ∷ ts) s =
    let rest = sleeping_thread ts s in if is_sleeping (s.state t) then some t else rest

unfoldable pub exit_thread : ℕ → Sched → Sched
exit_thread t s = (sched_remove_thread t (thread_set_state t thread_dead s)).1

unfoldable pub exit_threads : List ℕ → Sched → Sched
exit_threads [] s = s
exit_threads (t ∷ ts) s = exit_threads ts (exit_thread t s)

unfoldable pub destroy_threads : List ℕ → Sched → Sched
destroy_threads [] s = s
destroy_threads (t ∷ ts) s = destroy_threads ts (thread_unref t s)

unfoldable pub process_add_thread : Process → ℕ → Sched → Process × Sched
process_add_thread proc t s = (record proc { threads = proc.threads ++ (t ∷ []) }, thread_ref t s)

unfoldable pub process_remove_thread : Process → ℕ → Process
process_remove_thread proc t = record proc { threads = without t proc.threads }

abbrev is_zombie : ProcessState → Bool
is_zombie proc_zombie = true
is_zombie _ = false

-- `_wait` on the children: which one is destroyed, `pid` 0 standing for any. `copied` says whether
-- its status could be given to the caller.
unfoldable pub find_zombie : (ℕ → Process) → Bool → List ℕ → ℕ → Result ℕ
find_zombie proc copied [] pid = err echild
find_zombie proc copied (c ∷ cs) pid =
    let rest = find_zombie proc copied cs pid in
    if is_zombie (proc c).state && ((pid == 0) || (pid == (proc c).pid))
    then if copied then ok c else err efault
    else rest
