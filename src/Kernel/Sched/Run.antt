-- ===== src/Kernel/Sched/Run.antt =====
-- Sequences of operations on the ready queues, against one list of threads.
use dummy_os.Prelude.{
  ℕ, zero, suc, ◌≡◌, refl, sym, ap, ◌∙◌, subst, Bool, true, false, ap₂, ◌&&◌, ◌||◌, List, [], ◌∷◌,
  ◌++◌, ◌==◌, arith, if◌then◌else◌, Bool-cases, inl, inr, Option, some, none,
}
use dummy_os.Kernel.Sched.{
  Sched, next_thread, sched_add_thread, sched_remove_thread, without, thread_set_state, thread_ref,
  thread_unref, is_dead, is_uthread, thread_ready, chained, elem,
}
use dummy_os.Kernel.Sched.Queues.{insert, ready_below}
use dummy_os.Kernel.Sched.Order.{
  ready, IsOrdered, may_run, Takes, sched_add_thread-ready, sched_remove_thread-ready,
  next_thread-ready, eq_of,
}

pub data Op : Type 0 where
  add remove : ℕ → Op
  next : Op

abbrev taken : ℕ → Option (List ℕ) → Option (List ℕ)
taken t none = none
taken t (some ts) = some (t ∷ ts)

-- The threads that `next_thread` takes, 0 where there is none. The machine stops there. `none` is a
-- queue that an addition has broken.
unfoldable pub run : List Op → Sched → Option (List ℕ)
run [] s = some []
run (add t ∷ ops) s =
    let s' = sched_add_thread t s in let rest = run ops s' in if s'.broken then none else rest
run (remove t ∷ ops) s = run ops (sched_remove_thread t s).1
run (next ∷ ops) s = elim (next_thread s) [
  | none ↦ some (0 ∷ [])
  | some (t, s') ↦ taken t (run ops s')
]

-- The same on the list of ready threads, where `may` says which threads may run.
module _ (priority : ℕ → ℕ) (may : ℕ → Bool) where
  unfoldable pub run_list : List Op → List ℕ → List ℕ
  run_list [] ts = []
  run_list (add t ∷ ops) ts = run_list ops (if may t then insert priority t ts else ts)
  run_list (remove t ∷ ops) ts = run_list ops (without t ts)
  run_list (next ∷ ops) [] = 0 ∷ []
  run_list (next ∷ ops) (t ∷ ts) = t ∷ run_list ops ts

  -- A thread that may run is added only while it is not ready.
  abbrev pub AddsOnce : List Op → List ℕ → Type 0
  AddsOnce [] ts = Unit
  AddsOnce (add t ∷ ops) ts =
      (may t ≡ true → elem t ts ≡ false) × AddsOnce ops (if may t then insert priority t ts else ts)
  AddsOnce (remove t ∷ ops) ts = AddsOnce ops (without t ts)
  AddsOnce (next ∷ ops) [] = Unit
  AddsOnce (next ∷ ops) (t ∷ ts) = AddsOnce ops ts

-- Additions and removals change neither priorities nor which threads may run.
pub record IsSame (s s' : Sched) : Type 0 where
  pub priority : s'.priority ≡ s.priority
  pub may : (t : ℕ) → may_run s' t ≡ may_run s t

pub add-IsSame : (s : Sched) (t : ℕ) → IsSame s (sched_add_thread t s)
unfolding sched_add_thread thread_set_state thread_ref
add-IsSame s t = elim (Bool-cases (is_dead (s.state t))) [
  | inl dead ↦ rw dead (record { priority = refl; may = λ u. refl })
  | inr alive ↦ elim (Bool-cases (is_uthread (s.type t) && s.proc_locked (s.process t))) [
    | inl stopped ↦ rw (alive, stopped) (record { priority = refl; may = λ u. made_ready u alive })
    | inr free ↦ rw (alive, free) (record { priority = refl; may = λ u. made_ready u alive })
  ]
]
  where
    made_ready :
        (u : ℕ)
        → is_dead (s.state t) ≡ false
        → may_run (thread_set_state t thread_ready s) u ≡ may_run s u
    made_ready u alive = elim (Bool-cases (u == t)) [
      | inl same ↦
          rw (same, subst (λ v. is_dead (s.state v) ≡ false) (sym (eq_of u t same)) alive) refl
      | inr other ↦ rw other refl
    ]

remove-IsSame : (s : Sched) (t : ℕ) → IsSame s (sched_remove_thread t s).1
unfolding sched_remove_thread thread_unref
remove-IsSame s t = elim (Bool-cases (chained t s.ready_queues 5)) [
  | inl on ↦ rw on (record { priority = refl; may = λ u. refl })
  | inr off ↦ rw off (record { priority = refl; may = λ u. refl })
]

remove_sound : (s : Sched) (t : ℕ) → s.broken ≡ false → (sched_remove_thread t s).1.broken ≡ false
unfolding sched_remove_thread thread_unref
remove_sound s t sound = elim (Bool-cases (chained t s.ready_queues 5)) [
  | inl on ↦ rw on sound
  | inr off ↦ rw off sound
]

elem-append : (t : ℕ) (us vs : List ℕ) → elem t (us ++ vs) ≡ (elem t us || elem t vs)
elem-append t [] vs = refl
elem-append t (u ∷ us) vs = ground (arith, elem-append t us vs)

chained-ready :
    (t : ℕ) (queues : ℕ → List ℕ) (n : ℕ) → chained t queues n ≡ elem t (ready_below queues n)
unfolding ready_below
chained-ready t queues zero = refl
chained-ready t queues (suc n) =
    ap (λ b. elem t (queues n) || b) (chained-ready t queues n)
    ∙ sym (elem-append t (queues n) (ready_below queues n))

-- Adding a thread that may not run or is not ready breaks no queue.
add_sound :
    (s : Sched) (t : ℕ)
    → s.broken ≡ false
    → (may_run s t ≡ true → elem t (ready s) ≡ false)
    → (sched_add_thread t s).broken ≡ false
unfolding sched_add_thread thread_set_state thread_ref
add_sound s t sound once = elim (Bool-cases (is_dead (s.state t))) [
  | inl dead ↦ rw dead sound
  | inr alive ↦ elim (Bool-cases (is_uthread (s.type t) && s.proc_locked (s.process t))) [
    | inl stopped ↦ rw (alive, stopped) sound
    | inr free ↦
        let new = chained-ready t s.ready_queues 5 ∙ once (rw (alive, free) refl) in
        rw (alive, free, sound, new) refl
  ]
]

-- For queues that are in order and not broken, and a sequence of additions, removals and takings in
-- which no thread that may run is added while it is ready, no queue is broken, and the threads are
-- taken that one list takes on which a thread stands behind those of its priority and of a higher
-- one.
pub run-run_list :
    (ops : List Op) (s : Sched) (priority : ℕ → ℕ) (may : ℕ → Bool)
    → IsOrdered s
    → s.broken ≡ false
    → s.priority ≡ priority
    → ((t : ℕ) → may_run s t ≡ may t)
    → AddsOnce priority may ops (ready s)
    → run ops s ≡ some (run_list priority may ops (ready s))
unfolding run run_list
run-run_list [] s priority may o sound p m once = refl
run-run_list (add t ∷ ops) s priority may o sound p m (absent, once) =
    let (e, o') = sched_add_thread-ready s t o in
    let kept = add-IsSame s t in
    let still = add_sound s t sound (λ h. absent (sym (m t) ∙ h)) in
    let list = e ∙ ap₂ (λ order b. if b then insert order t (ready s) else ready s) p (m t) in
    ap (λ b. if b then none else run ops (sched_add_thread t s)) still
    ∙ run-run_list ops (sched_add_thread t s) priority may o' still (kept.priority ∙ p)
        (λ u. kept.may u ∙ m u) (subst (AddsOnce priority may ops) (sym list) once)
    ∙ ap (λ ts. some (run_list priority may ops ts)) list
run-run_list (remove t ∷ ops) s priority may o sound p m once =
    let (e, o') = sched_remove_thread-ready s t o in
    let kept = remove-IsSame s t in
    run-run_list ops (sched_remove_thread t s).1 priority may o' (remove_sound s t sound)
      (kept.priority ∙ p) (λ u. kept.may u ∙ m u) (subst (AddsOnce priority may ops) (sym e) once)
    ∙ ap (λ ts. some (run_list priority may ops ts)) e
run-run_list (next ∷ ops) s priority may o sound p m once =
    next_cases (ready s) (next_thread s) (next_thread-ready s o) once (λ queues o' once'.
      run-run_list ops (record s { ready_queues = queues }) priority may o' sound p m once')
  where
    Rest : Type 0
    Rest =
        (queues : ℕ → List ℕ)
        → IsOrdered (record s { ready_queues = queues })
        → AddsOnce priority may ops (ready_below queues 5)
        → run ops (record s { ready_queues = queues })
          ≡ some (run_list priority may ops (ready_below queues 5))

    next_cases :
        (ts : List ℕ) (r : Option (ℕ × Sched))
        → Takes s ts r
        → AddsOnce priority may (next ∷ ops) ts
        → Rest
        → elim r [ none ↦ some (0 ∷ []) | some (t, s') ↦ taken t (run ops s') ]
          ≡ some (run_list priority may (next ∷ ops) ts)
    next_cases [] r e once rest = rw e refl
    next_cases (t ∷ ts) r (queues, e, left, o') once rest = rw e (
        ap (taken t) (
          rest queues o' (subst (AddsOnce priority may ops) (sym left) once)
          ∙ ap (λ us. some (run_list priority may ops us)) left))
