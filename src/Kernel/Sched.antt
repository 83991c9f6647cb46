-- ===== src/Kernel/Sched.antt =====
-- kernel/sched/sched.c, with the references and states of kernel/thread.c: the ready queues and the
-- current thread. A thread is named by its address, 0 for none, and each field of `struct thread`
-- is a function from there. An intrusive list is the sequence of its threads. Waking the reaper for
-- a thread without references is left out, as are the log and the masking of interrupts.
pub mod Queues
pub mod Order
pub mod Run
pub mod Yield
mod Tests
use dummy_os.Prelude.{
  ℕ, zero, suc, ◌+◌, ◌-◌, ◌*◌, ◌/◌, Bool, true, false, not, ◌&&◌, ◌||◌, List, [], ◌∷◌, ◌++◌, ltb,
  leb, ◌==◌, if◌then◌else◌, Option, none, some, Status, success, ok, err, einval,
}
use dummy_os.Libk.Utils.{add32, sub32}
use dummy_os.Kernel.Time.{Timespec}

abbrev pub sched_priority_level_max : ℕ
sched_priority_level_max = 4

-- `enum thread_state` and `enum thread_type`
pub data ThreadState : Type 0 where
  thread_running thread_ready thread_sleeping thread_sleep_unintr thread_dead : ThreadState

pub data ThreadType : Type 0 where
  kthread uthread : ThreadType

-- The static state of sched.c, the threads, whether a process is `PROC_LOCKED`, the time, and the
-- threads handed to the reaper. `broken` says that a thread was pushed that was on a queue already:
-- the links of the queues are no lists from then on, and `ready_queues` no longer says what is
-- on them.
pub record Sched : Type 0 where
  pub state : ℕ → ThreadState
  pub type : ℕ → ThreadType
  pub priority : ℕ → ℕ
  pub process : ℕ → ℕ
  pub refcnt : ℕ → ℕ
  pub cpu_context : ℕ → ℕ
  pub proc_locked : ℕ → Bool
  pub ready_queues : ℕ → List ℕ
  pub broken : Bool
  pub current_thread : ℕ
  pub current_thread_start : Timespec
  pub clock : Timespec
  pub reaper_list : List ℕ

abbrev pub update {ℓ} : {A : Type ℓ} → (ℕ → A) → ℕ → A → ℕ → A
update f t v u = if u == t then v else f u

abbrev pub list_empty : List ℕ → Bool
list_empty [] = true
list_empty (t ∷ ts) = false

abbrev pub is_running : ThreadState → Bool
is_running thread_running = true
is_running _ = false

abbrev pub is_dead : ThreadState → Bool
is_dead thread_dead = true
is_dead _ = false

abbrev pub is_uthread : ThreadType → Bool
is_uthread uthread = true
is_uthread kthread = false

-- `list_erase`; a thread is at most once on a list.
unfoldable pub without : ℕ → List ℕ → List ℕ
without t [] = []
without t (u ∷ us) = let rest = without t us in if u == t then rest else u ∷ rest

abbrev pub elem : ℕ → List ℕ → Bool
elem t [] = false
elem t (u ∷ us) = (u == t) || elem t us

unfoldable pub thread_ref : ℕ → Sched → Sched
thread_ref t s = record s { refcnt = update s.refcnt t (add32 (s.refcnt t) 1) }

unfoldable pub thread_unref : ℕ → Sched → Sched
thread_unref t s =
    let count = sub32 (s.refcnt t) 1 in
    record s {
      refcnt = update s.refcnt t count;
      reaper_list = if count == 0 then s.reaper_list ++ (t ∷ []) else s.reaper_list;
    }

unfoldable pub thread_set_state : ℕ → ThreadState → Sched → Sched
thread_set_state t state s = record s { state = update s.state t state }

-- The loop of `first_non_empty_queue_priority`, from priority `i` on.
unfoldable pub first_non_empty_from : (ℕ → List ℕ) → ℕ → ℕ
first_non_empty_from queues zero = 0
first_non_empty_from queues (suc i) =
    let rest = first_non_empty_from queues i in if list_empty (queues (suc i)) then rest else suc i

unfoldable pub first_non_empty_queue_priority : Sched → ℕ
first_non_empty_queue_priority s = first_non_empty_from s.ready_queues sched_priority_level_max

unfoldable pub idling : Sched → Bool
idling s = first_non_empty_queue_priority s == 0

abbrev pub pop_from : Sched → ℕ → List ℕ → Option (ℕ × Sched)
pop_from s p [] = none
pop_from s p (t ∷ ts) = some (t, record s { ready_queues = update s.ready_queues p ts })

-- `none` is the failed assertion that a queue is not empty.
unfoldable pub next_thread : Sched → Option (ℕ × Sched)
next_thread s = let p = first_non_empty_queue_priority s in pop_from s p (s.ready_queues p)

unfoldable pub set_current_thread : ℕ → Sched → Sched
set_current_thread thr s =
    thread_set_state thr thread_running
      (record s { current_thread = thr; current_thread_start = s.clock })

-- Whether `s_ready_queue` is chained: one of the queues of priority below `n` has the thread.
abbrev pub chained : ℕ → (ℕ → List ℕ) → ℕ → Bool
chained t queues zero = false
chained t queues (suc n) = elem t (queues n) || chained t queues n

-- `list_push_back` on the queue of the priority of thread `t`. It does not look whether the node is
-- chained already: the links of such a node are overwritten, and `broken` records it.
abbrev pub push_ready : ℕ → Sched → Sched
push_ready t s =
    let p = s.priority t in
    record s {
      ready_queues = update s.ready_queues p (s.ready_queues p ++ (t ∷ []));
      broken = s.broken || chained t s.ready_queues (suc sched_priority_level_max);
    }

unfoldable pub sched_add_thread : ℕ → Sched → Sched
sched_add_thread t s =
    let ready = thread_set_state t thread_ready s in
    if is_dead (s.state t)
    then s
    else if is_uthread (s.type t) && s.proc_locked (s.process t)
    then ready
    else thread_ref t (push_ready t ready)

unfoldable pub sched_remove_thread : ℕ → Sched → Status × Sched
sched_remove_thread t s =
    if chained t s.ready_queues (suc sched_priority_level_max)
    then (success, thread_unref t (record s { ready_queues = λ p. without t (s.ready_queues p) }))
    else (err einval, s)

-- `sched_add_process` and `sched_remove_process`, on the threads of the process, with what they
-- return.
unfoldable pub sched_add_process : List ℕ → Sched → ℕ × Sched
sched_add_process [] s = (0, s)
sched_add_process (t ∷ ts) s =
    let (n, s') = sched_add_process ts (sched_add_thread t s) in (suc n, s')

unfoldable pub sched_remove_process : List ℕ → Sched → ℕ × Sched
sched_remove_process [] s = (0, s)
sched_remove_process (t ∷ ts) s =
    let (status, s') = sched_remove_thread t s in
    let (n, s'') = sched_remove_process ts s' in (elim status [ ok _ ↦ suc n | err _ ↦ n ], s'')

unfoldable pub sched_get_current_process : Sched → ℕ
sched_get_current_process s =
    if is_uthread (s.type s.current_thread) then s.process s.current_thread else 0

-- What the scheduler asks of the signals of a process and of the context of an interrupted thread:
-- `process_signal_pending`, `signal_handle` (`true` for a return of 0) and
-- `cpu_context_is_usermode`.
pub record Context : Type 0 where
  pub signal_pending : Sched → ℕ → Bool
  pub signal_handle : Sched → ℕ → Bool × Sched
  pub is_usermode : ℕ → Bool

-- Of two times, the first of which is not the earlier one.
unfoldable pub timespec_diff_ms : Timespec → Timespec → ℕ
timespec_diff_ms t1 t2 =
    let sec_in_ms = (t1.tv_sec - t2.tv_sec) * 1000 in
    if leb t2.tv_nsec t1.tv_nsec
    then sec_in_ms + (t1.tv_nsec - t2.tv_nsec) / 1000000
    else sec_in_ms - (t2.tv_nsec - t1.tv_nsec) / 1000000

-- The quantum of each priority, in milliseconds.
abbrev pub quantum : ℕ
quantum = 1000

unfoldable pub quatum_expired : Sched → Bool
quatum_expired s = ltb quantum (timespec_diff_ms s.clock s.current_thread_start)

-- The loop of `sched_schedule_yield`; the outer `none` is out of fuel, the inner one a failed
-- assertion.
unfoldable pub schedule_loop : Context → ℕ → Sched → Option (Option (ℕ × Sched))
schedule_loop c zero s = none
schedule_loop c (suc fuel) s = elim (next_thread s) [
  | none ↦ some none
  | some (next, s') ↦
      let now = set_current_thread next s' in
      let (delivered, s'') = c.signal_handle now next in
      let rest = schedule_loop c fuel s'' in
      if is_uthread (now.type next) && c.signal_pending now (now.process next)
      then if delivered then some (some (next, s'')) else rest
      else some (some (next, now))
]

-- "put prev back in queue"
abbrev pub put_back : ℕ → Sched → Sched
put_back prev s =
    if not (prev == 0) && is_running (s.state prev)
    then thread_unref prev (sched_add_thread prev s)
    else s

abbrev pub switch_to : ℕ → Option (Option (ℕ × Sched)) → Option (Option (ℕ × Sched))
switch_to prev none = none
switch_to prev (some none) = some none
switch_to prev (some (some (next, s))) =
    let s' = put_back prev s in some (some (s'.cpu_context next, s'))

-- The context to go on in, and the new state.
unfoldable pub sched_schedule_yield : Context → ℕ → ℕ → Sched → Option (Option (ℕ × Sched))
sched_schedule_yield c fuel cpu_ctx s =
    let prev = s.current_thread in
    let saved =
      if prev == 0 then s else record s { cpu_context = update s.cpu_context prev cpu_ctx } in
    switch_to prev (schedule_loop c fuel saved)

unfoldable pub sched_schedule : Context → ℕ → ℕ → Sched → Option (Option (ℕ × Sched))
sched_schedule c fuel cpu_ctx s =
    let yielded = sched_schedule_yield c fuel cpu_ctx s in
    if (s.current_thread == 0) || (c.is_usermode cpu_ctx && quatum_expired s)
    then yielded
    else some (some (cpu_ctx, s))

-- The operations of the current thread give the state in which it is preempted: `sched_yield` says
-- whether it is, `none` is a failed assertion.
unfoldable pub sched_yield : Sched → Bool
sched_yield s = not (idling s)

unfoldable pub sched_exit : Sched → Sched
sched_exit s = thread_unref s.current_thread (thread_set_state s.current_thread thread_dead s)

unfoldable pub sched_sleep_event : Sched → Option Sched
sched_sleep_event s =
    let asleep = thread_set_state s.current_thread thread_sleeping s in
    if ltb 1 (s.refcnt s.current_thread) then some (thread_unref s.current_thread asleep) else none

-- The timer itself is Kernel.Time's.
unfoldable pub sched_nanosleep : Sched → Option Sched
sched_nanosleep s = sched_sleep_event (thread_ref s.current_thread s)

unfoldable pub sched_timer_callback : ℕ → Sched → Sched
sched_timer_callback thread s = thread_unref thread (sched_add_thread thread s)

unfoldable pub sched_init : Sched → Sched
sched_init s = record s { ready_queues = λ p. [] }
