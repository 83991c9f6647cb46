-- ===== src/Kernel/Sched/Order.antt =====
-- The operations of the scheduler on the list of ready threads.
use dummy_os.Prelude.{
  ℕ, ◌<◌, ◌≡◌, ◌⊎◌, refl, sym, ap, subst, Bool, true, false, not, ◌&&◌, List, [], ◌∷◌, ◌++◌, ◌==◌,
  if◌then◌else◌, arith, Bool-cases, inl, inr, Option, some, none,
}
use dummy_os.Kernel.Sched.{
  Sched, update, list_empty, without, chained, is_dead, is_uthread, first_non_empty_from,
  first_non_empty_queue_priority, next_thread, pop_from, push_ready, sched_add_thread,
  sched_remove_thread, thread_ref, thread_unref, thread_set_state, thread_ready,
}
use dummy_os.Kernel.Sched.Queues.{
  ready_below, insert, HavePriority, HavePriority-snoc, HavePriority-without, ready_below-push,
  ready_below-without, first_non_empty_from-ready, ready_below-pop, without-chained,
}

-- The ready threads, the next one first.
abbrev pub ready : Sched → List ℕ
ready s = ready_below s.ready_queues 5

-- Each thread has one of the priorities, and is on the queue of its own.
pub record IsOrdered (s : Sched) : Type 0 where
  pub levels : (t : ℕ) → s.priority t < 5
  pub queues : (p : ℕ) → HavePriority s.priority p (s.ready_queues p)

-- Neither dead nor of a locked process.
abbrev pub may_run : Sched → ℕ → Bool
may_run s t =
    not (is_dead (s.state t)) && not (is_uthread (s.type t) && s.proc_locked (s.process t))

-- What an addition does to the list.
abbrev pub added : Sched → ℕ → List ℕ
added s t = if may_run s t then insert s.priority t (ready s) else ready s

pub eq_of : (a b : ℕ) → (a == b) ≡ true → a ≡ b
eq_of a b e = ground arith

pub push-IsOrdered : (s : Sched) (t : ℕ) → IsOrdered s → IsOrdered (push_ready t s)
push-IsOrdered s t o = record {
  levels = o.levels;
  queues = λ p. elim (Bool-cases (p == s.priority t)) [
    | inl e ↦ rw e (
        HavePriority-snoc s.priority t p (s.ready_queues (s.priority t))
          (subst (λ q. HavePriority s.priority q (s.ready_queues (s.priority t)))
            (sym (eq_of p (s.priority t) e)) (o.queues (s.priority t)))
          (sym (eq_of p (s.priority t) e)))
    | inr e ↦ rw e (o.queues p)
  ];
}

-- Adding a thread that may run puts it behind those of its priority and of a higher one; another
-- thread is not added.
pub sched_add_thread-ready :
    (s : Sched) (t : ℕ)
    → IsOrdered s
    → (ready (sched_add_thread t s) ≡ added s t) × IsOrdered (sched_add_thread t s)
unfolding sched_add_thread thread_set_state thread_ref
sched_add_thread-ready s t o =
    let pushed = ready_below-push s.priority s.ready_queues t 5 o.queues (o.levels t) in
    let kept : IsOrdered (thread_set_state t thread_ready s) = record {
      levels = o.levels;
      queues = o.queues;
    } in
    let locked = is_uthread (s.type t) && s.proc_locked (s.process t) in
    elim (Bool-cases (is_dead (s.state t))) [
      | inl dead ↦ rw dead (refl, o)
      | inr alive ↦ elim (Bool-cases locked) [
        | inl stopped ↦ rw (alive, stopped) (refl, kept)
        | inr free ↦
            rw (alive, free)
              (pushed, record { levels = o.levels; queues = (push-IsOrdered s t o).queues })
      ]
    ]

pub sched_remove_thread-ready :
    (s : Sched) (t : ℕ)
    → IsOrdered s
    → (ready (sched_remove_thread t s).1 ≡ without t (ready s))
      × IsOrdered (sched_remove_thread t s).1
unfolding sched_remove_thread thread_unref
sched_remove_thread-ready s t o = elim (Bool-cases (chained t s.ready_queues 5)) [
  | inl on ↦ rw on (
    ready_below-without t s.ready_queues 5,
    record {
      levels = o.levels;
      queues = λ p. HavePriority-without s.priority t p (s.ready_queues p) (o.queues p);
    },
  )
  | inr off ↦ rw off (sym (without-chained t s.ready_queues 5 off), o)
]

-- What `next_thread` comes to for a list of ready threads.
abbrev pub Takes : Sched → List ℕ → Option (ℕ × Sched) → Type 0
Takes s [] r = r ≡ none
Takes s (t ∷ ts) r =
    (queues : ℕ → List ℕ) × (r ≡ some (t, record s { ready_queues = queues }))
    × (ready_below queues 5 ≡ ts)
    × IsOrdered (record s { ready_queues = queues })

ready_below_none : (queues : ℕ → List ℕ) (p : ℕ) → p ≡ 0 → ready_below queues p ≡ []
unfolding ready_below
ready_below_none queues p e = ap (ready_below queues) e

-- Taking the first of the threads `us` on the queue of priority `p`.
pop_from-Takes :
    (s : Sched) (p : ℕ) (us : List ℕ)
    → IsOrdered s
    → HavePriority s.priority p us
    → ((ts : List ℕ)
        → ready_below (update s.ready_queues p ts) 5 ≡ ts ++ ready_below s.ready_queues p)
    → (p ≡ 0) ⊎ (list_empty us ≡ false)
    → Takes s (us ++ ready_below s.ready_queues p) (pop_from s p us)
pop_from-Takes s p [] o h rest (inl e) =
    subst (λ us. Takes s us none) (sym (ready_below_none s.ready_queues p e)) refl
pop_from-Takes s p [] o h rest (inr e) = absurd (ground arith)
pop_from-Takes s p (t ∷ ts) o (e, h) rest found = (
  update s.ready_queues p ts,
  refl,
  rest ts,
  record {
    levels = o.levels;
    queues = λ q. elim (Bool-cases (q == p)) [
      | inl same ↦ rw same (subst (λ r. HavePriority s.priority r ts) (sym (eq_of q p same)) h)
      | inr other ↦ rw other (o.queues q)
    ];
  },
)

pub next_thread-ready : (s : Sched) → IsOrdered s → Takes s (ready s) (next_thread s)
unfolding next_thread first_non_empty_queue_priority
next_thread-ready s o =
    let p = first_non_empty_from s.ready_queues 4 in
    let (le, same, found) = first_non_empty_from-ready s.ready_queues 4 in
    subst (λ us. Takes s us (pop_from s p (s.ready_queues p))) (sym same)
      (pop_from-Takes s p (s.ready_queues p) o (o.queues p)
        (λ ts. ready_below-pop s.ready_queues ts 4) found)
