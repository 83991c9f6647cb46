-- ===== src/Kernel/Locks/Tests.antt =====
-- Tests of the wait queues and semaphores, and examples of the theorems.
use dummy_os.Prelude.{
  ℕ, ◌≡◌, refl, ◌==◌, if◌then◌else◌, ◌^◌, ◌-◌, true, false, [], ◌∷◌, arith, some,
}
use dummy_os.Kernel.Sched.{Sched, thread_running, thread_sleeping, uthread}
use dummy_os.Kernel.Sched.Order.{ready, IsOrdered, may_run}
use dummy_os.Kernel.Locks.{
  wait_wake, semaphore_up, mutex_unlock, mutex_trylock, semaphore_get_value,
}
use dummy_os.Kernel.Locks.Wake.{insert_all, wait_wake-ready}

-- Thread 1 runs, and the others sleep.
abbrev asleep : Sched
asleep = record {
  state = λ t. if t == 1 then thread_running else thread_sleeping;
  type = λ t. uthread;
  priority = λ t. 3;
  process = λ t. 0;
  refcnt = λ t. 2;
  cpu_context = λ t. 0;
  proc_locked = λ p. false;
  ready_queues = λ p. [];
  current_thread = 1;
  current_thread_start = record { tv_sec = 0; tv_nsec = 0 };
  clock = record { tv_sec = 0; tv_nsec = 0 };
  reaper_list = [];
  broken = false;
}

asleep-IsOrdered : IsOrdered asleep
asleep-IsOrdered = record { levels = λ t. omega arith; queues = λ p. tt }

may : (t : ℕ) → may_run asleep t ≡ true
may t = ground arith

wait_wake-ready_example :
    ((wait_wake (2 ∷ 3 ∷ 4 ∷ []) 2 asleep).1 ≡ 4 ∷ [])
    × ((wait_wake (2 ∷ 3 ∷ 4 ∷ []) 2 asleep).0 ≡ 2)
    × (ready (wait_wake (2 ∷ 3 ∷ 4 ∷ []) 2 asleep).2
        ≡ insert_all (λ t. 3) (λ t. true) (2 ∷ 3 ∷ []) (ready asleep))
wait_wake-ready_example =
    wait_wake-ready (2 ∷ 3 ∷ 4 ∷ []) 2 asleep (λ t. 3) (λ t. true) asleep-IsOrdered refl may

-- A mutex that thread 1 holds and that threads 2 and 3 wait for: nobody is woken.
unlock_test : (mutex_unlock (record { value = 2 ^ 32 - 2; wait_queue = 2 ∷ 3 ∷ [] }) asleep).0 ≡ 0
unfolding mutex_unlock semaphore_up wait_wake
unlock_test = refl

trylock_test :
    mutex_trylock (record { value = 0; wait_queue = [] }) asleep
    ≡ some (record { value = 0; wait_queue = [] }, asleep)
unfolding mutex_trylock semaphore_get_value
trylock_test = refl
