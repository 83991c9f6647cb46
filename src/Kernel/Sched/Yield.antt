-- ===== src/Kernel/Sched/Yield.antt =====
-- A thread that gives up the processor: `sched_schedule_yield` and turns of it.
use dummy_os.Prelude.{
  ℕ, zero, suc, ◌≡◌, refl, sym, ap, ◌∙◌, subst, true, false, List, [], ◌∷◌, ◌++◌, get_elem?, ◌==◌,
  arith, Bool-cases, inl, inr, Option, some, none,
}
use dummy_os.Kernel.Sched.{
  Sched, Context, ThreadState, thread_running, thread_ready, next_thread, set_current_thread,
  sched_add_thread, sched_schedule_yield, schedule_loop, put_back, update, thread_set_state,
  thread_ref, thread_unref, push_ready, is_uthread,
}
use dummy_os.Kernel.Sched.Queues.{insert, insert-append, HavePriority, ready_below-push}
use dummy_os.Kernel.Sched.Order.{ready, IsOrdered, Takes, next_thread-ready, push-IsOrdered}

-- The current thread runs on, is not of a locked process, and no signal is to be delivered to any
-- thread.
pub record IsRunning (c : Context) (s : Sched) : Type 0 where
  pub ordered : IsOrdered s
  pub someone : (s.current_thread == 0) ≡ false
  pub running : s.state s.current_thread ≡ thread_running
  pub unlocked : (u : ℕ) → s.proc_locked u ≡ false
  pub quiet : (s' : Sched) (u : ℕ) → c.signal_pending s' u ≡ false

still_running :
    (prev t : ℕ) (state : ℕ → ThreadState)
    → state prev ≡ thread_running
    → update state t thread_running prev ≡ thread_running
still_running prev t state e = elim (Bool-cases (prev == t)) [
  | inl same ↦ rw same refl
  | inr other ↦ rw other e
]

-- Without signals the loop takes one thread.
schedule_loop-quiet :
    (c : Context) (fuel t : ℕ) (s s' : Sched)
    → ((s'' : Sched) (u : ℕ) → c.signal_pending s'' u ≡ false)
    → next_thread s ≡ some (t, s')
    → schedule_loop c (suc fuel) s ≡ some (some (t, set_current_thread t s'))
unfolding schedule_loop
schedule_loop-quiet c fuel t s s' quiet e =
    let now = set_current_thread t s' in
    elim (Bool-cases (is_uthread (now.type t))) [
      | inl user ↦ rw (schedule_loop, e, user, quiet now (now.process t)) refl
      | inr kernel ↦ rw (schedule_loop, e, kernel) refl
    ]

-- A running thread of a process that is not locked goes back on its queue.
abbrev requeued : ℕ → Sched → Sched
requeued prev s =
    thread_unref prev (thread_ref prev (push_ready prev (thread_set_state prev thread_ready s)))

put_back-running :
    (prev : ℕ) (s : Sched)
    → (prev == 0) ≡ false
    → s.state prev ≡ thread_running
    → ((u : ℕ) → s.proc_locked u ≡ false)
    → put_back prev s ≡ requeued prev s
unfolding sched_add_thread
put_back-running prev s someone running unlocked = elim (Bool-cases (is_uthread (s.type prev))) [
  | inl user ↦ rw (someone, running, user, unlocked (s.process prev)) refl
  | inr kernel ↦ rw (someone, running, kernel) refl
]

requeued-ready :
    (prev : ℕ) (s : Sched)
    → IsOrdered s
    → (ready (requeued prev s) ≡ insert s.priority prev (ready s)) × IsOrdered (requeued prev s)
unfolding thread_unref thread_ref thread_set_state
requeued-ready prev s o = (
  ready_below-push s.priority s.ready_queues prev 5 o.queues (o.levels prev),
  record { levels = o.levels; queues = (push-IsOrdered s prev o).queues },
)

requeued-IsRunning :
    (c : Context) (prev : ℕ) (s : Sched)
    → ((s'' : Sched) (u : ℕ) → c.signal_pending s'' u ≡ false)
    → IsOrdered (requeued prev s)
    → (s.current_thread == 0) ≡ false
    → update s.state prev thread_ready s.current_thread ≡ thread_running
    → ((u : ℕ) → s.proc_locked u ≡ false)
    → IsRunning c (requeued prev s)
requeued-IsRunning c prev s quiet o someone running unlocked = record {
  ordered = o;
  someone = unfold thread_unref thread_ref thread_set_state in someone;
  running = unfold thread_unref thread_ref thread_set_state in running;
  unlocked = unfold thread_unref thread_ref thread_set_state in unlocked;
  quiet = quiet;
}

eq_refl : (a : ℕ) → (a == a) ≡ true
eq_refl a = ground arith

ready_other :
    (prev t : ℕ) (state : ℕ → ThreadState)
    → (t == prev) ≡ false
    → update (update state t thread_running) prev thread_ready t ≡ thread_running
ready_other prev t state other = rw (other, eq_refl t) refl

-- The next thread runs, and the current one is put back behind those of its priority.
pub record Switches (c : Context) (s : Sched) (t : ℕ) (ts : List ℕ) (s' : Sched) : Type 0 where
  pub current : s'.current_thread ≡ t
  pub queued : ready s' ≡ insert s.priority s.current_thread ts
  pub again : IsRunning c s'
  pub priority : s'.priority ≡ s.priority

-- A running thread that yields while other threads are ready, without signals or locked processes:
-- the first of the ready threads runs next, and the thread is put back behind those of its priority
-- and of a higher one.
pub sched_schedule_yield-Switches :
    (c : Context) (fuel ctx : ℕ) (s : Sched) (t : ℕ) (ts : List ℕ)
    → IsRunning c s
    → ready s ≡ t ∷ ts
    → (t == 0) ≡ false
    → (t == s.current_thread) ≡ false
    → (s' : Sched) × (sched_schedule_yield c (suc fuel) ctx s ≡ some (some (s'.cpu_context t, s')))
      × Switches c s t ts s'
unfolding sched_schedule_yield set_current_thread thread_set_state
sched_schedule_yield-Switches c fuel ctx s t ts h e someone other =
    let prev = s.current_thread in
    let saved = record s { cpu_context = update s.cpu_context prev ctx } in
    let o : IsOrdered saved = record { levels = h.ordered.levels; queues = h.ordered.queues } in
    let (queues, taken, left, o') =
      subst (λ us. Takes saved us (next_thread saved)) e (next_thread-ready saved o) in
    let now = set_current_thread t (record saved { ready_queues = queues }) in
    let looped =
      schedule_loop-quiet c fuel t saved (record saved { ready_queues = queues }) h.quiet taken in
    let o'' : IsOrdered now = record { levels = o'.levels; queues = o'.queues } in
    let still : now.state prev ≡ thread_running = still_running prev t s.state h.running in
    let back = put_back-running prev now h.someone still h.unlocked in
    let (pushed, o3) = requeued-ready prev now o'' in
    (
      requeued prev now,
      rw (h.someone, looped, back) refl,
      record {
        current = unfold thread_unref thread_ref in refl;
        queued = pushed ∙ ap (insert s.priority prev) left;
        again =
            requeued-IsRunning c prev now h.quiet o3 someone (ready_other prev t s.state other)
              h.unlocked;
        priority = unfold thread_unref thread_ref in refl;
      },
    )

-- `n` threads yield, one after the other, in the contexts `ctx`.
unfoldable pub turns : Context → (ℕ → ℕ) → ℕ → Sched → Option Sched
turns c ctx zero s = some s
turns c ctx (suc n) s = elim (sched_schedule_yield c 1 (ctx n) s) [
  | some (some (_, s')) ↦ turns c ctx n s'
  | _ ↦ none
]

-- No thread of the list is none, and none follows itself; `prev` is in front.
abbrev pub Differ : ℕ → List ℕ → Type 0
Differ prev [] = Unit
Differ prev (t ∷ ts) = ((t == 0) ≡ false) × ((t == prev) ≡ false) × Differ t ts

-- The threads of the highest priority take turns: where `us` are the first of the ready threads and
-- have the priority of the running one, then after as many turns as there are threads up to one of
-- them that one runs, whatever stands behind them. No signal is pending, no process locked, and
-- each thread runs until it yields.
pub turns-current :
    (c : Context) (ctx : ℕ → ℕ) (s : Sched) (us vs : List ℕ) (i t : ℕ)
    → IsRunning c s
    → ready s ≡ us ++ vs
    → HavePriority s.priority (s.priority s.current_thread) us
    → Differ s.current_thread us
    → get_elem? us i ≡ some t
    → (s' : Sched) × (turns c ctx (suc i) s ≡ some s') × (s'.current_thread ≡ t)
unfolding turns
turns-current c ctx s [] vs i t h e p d at = absurd (ground arith)
turns-current c ctx s (u ∷ us) vs zero t h e p (someone, other, d) at =
    let (s', runs, sw) =
      sched_schedule_yield-Switches c 0 (ctx 0) s u (us ++ vs) h e someone other in
    (s', rw (turns, runs) refl, sw.current ∙ ground (arith, at))
turns-current c ctx s (u ∷ us) vs (suc i) t h e (pu, p) (someone, other, d) at =
    let (s', runs, sw) =
      sched_schedule_yield-Switches c 0 (ctx (suc i)) s u (us ++ vs) h e someone other in
    let cur = s.current_thread in
    let queued : ready s' ≡ us ++ insert s.priority cur vs =
      sw.queued ∙ insert-append s.priority cur (s.priority cur) us vs p (omega arith) in
    let p' =
      subst (λ q. HavePriority q (q s'.current_thread) us) (sym sw.priority)
        (subst (λ r. HavePriority s.priority r us) (sym (ap s.priority sw.current ∙ pu)) p) in
    let (s'', runs', at') =
      turns-current c ctx s' us (insert s.priority cur vs) i t sw.again queued p'
        (subst (λ v. Differ v us) (sym sw.current) d) at in
    (s'', rw (turns, runs) runs', at')
