-- ===== src/Kernel/Process/Tests.antt =====
-- Tests of the tables of processes and of files, and examples of the theorems.
use dummy_os.Prelude.{◌≡◌, refl, [], ◌∷◌, some, ok, true, success, tabulate, ◌==◌, if◌then◌else◌}
use dummy_os.Kernel.Process.{
  Process, proc_runnable, proc_zombie, find_free_pid, free_from, find_zombie, process_remove_file,
}
use dummy_os.Kernel.Process.Pids.{Registers, process_register-Registers}
use dummy_os.Kernel.Process.Files.{Adds, process_add_file-Adds}

-- Files 0 and 2 are open.
abbrev shell : Process
shell = record {
  pid = 2;
  pgrp = 2;
  ctrl_tty = 0;
  state = proc_runnable;
  exit_status = 0;
  fds = 7 ∷ 0 ∷ 8 ∷ tabulate 13 (λ n. 0);
  threads = [];
}

process_register-Registers_example : Registers 99 0 (0 ∷ 5 ∷ 6 ∷ tabulate 62 (λ n. 0))
process_register-Registers_example =
    process_register-Registers 99 0 0 (5 ∷ 6 ∷ tabulate 62 (λ n. 0)) refl

process_add_file-Adds_example : Adds shell 9 (λ f. 1) 2
process_add_file-Adds_example = process_add_file-Adds shell 9 2 (λ f. 1) refl

find_free_pid_test : find_free_pid (0 ∷ 5 ∷ 6 ∷ tabulate 62 (λ n. 0)) ≡ some 3
unfolding find_free_pid free_from
find_free_pid_test = refl

-- A number that no file can have is removed successfully.
remove_file_test : process_remove_file shell 16 ≡ (success, 0, shell)
unfolding process_remove_file
remove_file_test = refl

find_zombie_test :
    find_zombie
      (λ p. if p == 5 then record shell { state = proc_zombie } else shell)
      true
      (4 ∷ 5 ∷ [])
      0
    ≡ ok 5
unfolding find_zombie
find_zombie_test = refl
