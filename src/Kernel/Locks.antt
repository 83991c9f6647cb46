-- ===== src/Kernel/Locks.antt =====
-- kernel/sched/wait.c, kernel/locking/semaphore.c and include/kernel/locking/mutex.h: wait queues,
-- semaphores and mutexes, on the state of the scheduler. A wait queue is the sequence of its
-- threads; the value of a semaphore is the two's complement of its 32 bits.
pub mod Wake
mod Tests
use dummy_os.Prelude.{
  ℕ, zero, suc, ◌+◌, ◌-◌, ◌^◌, Bool, true, false, List, [], ◌∷◌, ◌++◌, ltb, ◌==◌, if◌then◌else◌,
  Option, none, some,
}
use dummy_os.Libk.Utils.{word, add32, sub32}
use dummy_os.Kernel.Sched.{
  Sched, thread_ref, thread_unref, sched_add_thread, sched_sleep_event, list_empty,
}

abbrev pub wait_init : List ℕ
wait_init = []

-- The threads lose the reference of the queue and are not woken.
unfoldable pub wait_reset : List ℕ → Sched → Sched
wait_reset [] s = s
wait_reset (t ∷ ts) s = wait_reset ts (thread_unref t s)

-- Both components of the state when the current thread is preempted; `none` is a failed assertion.
abbrev with_queue : List ℕ → Option Sched → Option (List ℕ × Sched)
with_queue wq none = none
with_queue wq (some s) = some (wq, s)

unfoldable pub wait_wait : List ℕ → Sched → Option (List ℕ × Sched)
wait_wait wq s =
    with_queue (wq ++ (s.current_thread ∷ [])) (sched_sleep_event (thread_ref s.current_thread s))

-- How many threads are woken, the queue and the scheduler. `sched_add_thread` always returns 0.
unfoldable pub wait_wake : List ℕ → ℕ → Sched → ℕ × List ℕ × Sched
wait_wake [] nb_threads s = (0, [], s)
wait_wake (t ∷ ts) zero s = (0, t ∷ ts, s)
wait_wake (t ∷ ts) (suc nb_threads) s =
    let (n, wq, s') = wait_wake ts nb_threads (thread_unref t (sched_add_thread t s)) in
    (suc n, wq, s')

unfoldable pub wait_wake_all : List ℕ → Sched → ℕ × List ℕ × Sched
wait_wake_all wq s = wait_wake wq (word - 1) s

unfoldable pub wait_empty : List ℕ → Bool
wait_empty wq = list_empty wq

-- `sem_t`
pub record Sem : Type 0 where
  pub value : ℕ
  pub wait_queue : List ℕ

unfoldable pub semaphore_init : ℕ → Sem
semaphore_init n = record { value = n; wait_queue = wait_init }

-- The semaphore that is left has a value of 0 and nobody waiting.
unfoldable pub semaphore_destroy : Sem → Sched → ℕ × Sem × Sched
semaphore_destroy sem s =
    let (ret, wq, s') = wait_wake_all sem.wait_queue s in
    (ret, record { value = 0; wait_queue = [] }, wait_reset wq s')

unfoldable pub semaphore_up : Sem → Sched → ℕ × Sem × Sched
semaphore_up sem s =
    let v = add32 sem.value 1 in
    let (n, wq, s') = wait_wake sem.wait_queue 1 s in
    if ltb v (2 ^ 31)
    then (n, record { value = v; wait_queue = wq }, s')
    else (0, record sem { value = v }, s)

abbrev with_value : ℕ → Option (List ℕ × Sched) → Option (Sem × Sched)
with_value v none = none
with_value v (some (wq, s)) = some (record { value = v; wait_queue = wq }, s)

unfoldable pub semaphore_down : Sem → Sched → Option (Sem × Sched)
semaphore_down sem s =
    let v = sub32 sem.value 1 in
    let waited = with_value v (wait_wait sem.wait_queue s) in
    if ltb v (2 ^ 31) then some (record sem { value = v }, s) else waited

unfoldable pub semaphore_get_value : Sem → ℕ
semaphore_get_value sem = sem.value

unfoldable pub mutex_init : Sem
mutex_init = semaphore_init 1

unfoldable pub mutex_lock : Sem → Sched → Option (Sem × Sched)
mutex_lock mutex s = semaphore_down mutex s

-- The result is 0 on both branches.
unfoldable pub mutex_trylock : Sem → Sched → Option (Sem × Sched)
mutex_trylock mutex s =
    let locked = mutex_lock mutex s in
    if semaphore_get_value mutex == 1 then locked else some (mutex, s)

unfoldable pub mutex_unlock : Sem → Sched → ℕ × Sem × Sched
mutex_unlock mutex s = semaphore_up mutex s
