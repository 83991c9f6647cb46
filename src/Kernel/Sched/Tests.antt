-- ===== src/Kernel/Sched/Tests.antt =====
-- Tests of the scheduler, and examples of the theorems.
use dummy_os.Prelude.{
  ℕ, ◌≡◌, refl, true, false, List, [], ◌∷◌, arith, some, none, ◌==◌, if◌then◌else◌, Bool-cases, inl,
  inr,
}
use dummy_os.Kernel.Sched.{
  Sched, Context, ThreadState, thread_running, thread_ready, uthread, sched_schedule_yield,
  next_thread, first_non_empty_queue_priority, first_non_empty_from, sched_add_thread,
  thread_set_state, thread_ref, sched_remove_thread, thread_unref, without,
}
use dummy_os.Kernel.Sched.Queues.{ready_below, insert}
use dummy_os.Kernel.Sched.Order.{ready, may_run, IsOrdered}
use dummy_os.Kernel.Sched.Run.{AddsOnce, add, remove, next, run, run_list, run-run_list}
use dummy_os.Kernel.Sched.Yield.{
  IsRunning, Switches, turns, turns-current, sched_schedule_yield-Switches,
}

-- Thread 7 has priority 0, the others 3.
abbrev priorities : ℕ → ℕ
priorities t = if t == 7 then 0 else 3

abbrev queues : ℕ → List ℕ
queues p = if p == 0 then 7 ∷ [] else if p == 3 then 2 ∷ 3 ∷ [] else []

abbrev states : ℕ → ThreadState
states t = if t == 1 then thread_running else thread_ready

abbrev busy : Sched
busy = record {
  state = states;
  type = λ t. uthread;
  priority = priorities;
  process = λ t. 0;
  refcnt = λ t. 1;
  cpu_context = λ t. 0;
  proc_locked = λ p. false;
  ready_queues = queues;
  current_thread = 1;
  current_thread_start = record { tv_sec = 0; tv_nsec = 0 };
  clock = record { tv_sec = 0; tv_nsec = 0 };
  reaper_list = [];
  broken = false;
}

abbrev no_signals : Context
no_signals = record {
  signal_pending = λ s p. false;
  signal_handle = λ s t. (true, s);
  is_usermode = λ ctx. true;
}

busy-IsOrdered : IsOrdered busy
busy-IsOrdered = record {
  levels = λ t. ground arith;
  queues = λ p. elim (Bool-cases (p == 0)) [
    | inl bottom ↦ rw bottom (ground (arith, bottom), tt)
    | inr higher ↦ elim (Bool-cases (p == 3)) [
      | inl default ↦ rw (higher, default) (ground (arith, default), (ground (arith, default), tt))
      | inr other ↦ rw (higher, other) tt
    ]
  ];
}

busy-IsRunning : IsRunning no_signals busy
busy-IsRunning = record {
  ordered = busy-IsOrdered;
  someone = refl;
  running = refl;
  unlocked = λ u. refl;
  quiet = λ s u. refl;
}

may : (t : ℕ) → may_run busy t ≡ true
may t = ground arith

once : AddsOnce priorities (λ t. true) (add 4 ∷ next ∷ remove 3 ∷ next ∷ []) (ready busy)
unfolding insert ready_below without
once = (λ h. refl, tt)

run-run_list_example :
    run (add 4 ∷ next ∷ remove 3 ∷ next ∷ []) busy
    ≡ some (run_list priorities (λ t. true) (add 4 ∷ next ∷ remove 3 ∷ next ∷ []) (ready busy))
run-run_list_example =
    run-run_list (add 4 ∷ next ∷ remove 3 ∷ next ∷ []) busy priorities (λ t. true) busy-IsOrdered
      refl refl may once

-- Thread 2 is ready, and is added once more.
run_twice_test : run (add 2 ∷ next ∷ []) busy ≡ none
unfolding run sched_add_thread thread_set_state thread_ref
run_twice_test = refl

run_test : run (add 4 ∷ next ∷ remove 3 ∷ next ∷ []) busy ≡ some (2 ∷ 4 ∷ [])
unfolding run next_thread first_non_empty_queue_priority first_non_empty_from sched_add_thread
    thread_set_state thread_ref sched_remove_thread thread_unref without
run_test = refl

switch_test :
    (s' : Sched) × (sched_schedule_yield no_signals 1 9 busy ≡ some (some (s'.cpu_context 2, s')))
    × Switches no_signals busy 2 (3 ∷ 7 ∷ []) s'
switch_test =
    sched_schedule_yield-Switches no_signals 0 9 busy 2 (3 ∷ 7 ∷ []) busy-IsRunning
      (unfold ready_below in refl) refl refl

turns-current_example :
    (s' : Sched) × (turns no_signals (λ n. n) 2 busy ≡ some s') × (s'.current_thread ≡ 3)
turns-current_example =
    turns-current no_signals (λ n. n) busy (2 ∷ 3 ∷ []) (7 ∷ []) 1 3 busy-IsRunning
      (unfold ready_below in refl) (refl, (refl, tt)) (refl, refl, (refl, refl, tt)) refl
