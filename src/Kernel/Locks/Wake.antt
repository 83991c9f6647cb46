-- ===== src/Kernel/Locks/Wake.antt =====
-- Which threads a wake-up makes ready.
use dummy_os.Prelude.{
  ℕ, zero, suc, ◌≡◌, refl, ap, ap₂, ◌∙◌, Bool, List, [], ◌∷◌, length, take, drop, if◌then◌else◌,
}
use dummy_os.Kernel.Sched.{Sched, thread_unref, sched_add_thread}
use dummy_os.Kernel.Sched.Queues.{insert}
use dummy_os.Kernel.Sched.Order.{ready, IsOrdered, may_run, sched_add_thread-ready}
use dummy_os.Kernel.Sched.Run.{IsSame, add-IsSame}
use dummy_os.Kernel.Locks.{wait_wake}

-- The threads are inserted one after the other, those that may not run left out.
unfoldable pub insert_all : (ℕ → ℕ) → (ℕ → Bool) → List ℕ → List ℕ → List ℕ
insert_all priority may [] us = us
insert_all priority may (t ∷ ts) us =
    insert_all priority may ts (if may t then insert priority t us else us)

unref-IsSame : (s : Sched) (t : ℕ) → IsSame s (thread_unref t s)
unfolding thread_unref
unref-IsSame s t = record { priority = refl; may = λ u. refl }

unref-IsOrdered :
    (s : Sched) (t : ℕ)
    → IsOrdered s
    → (ready (thread_unref t s) ≡ ready s) × IsOrdered (thread_unref t s)
unfolding thread_unref
unref-IsOrdered s t o = (refl, record { levels = o.levels; queues = o.queues })

-- A wake-up of `n` threads takes the first `n` off the wait queue, or all if there are fewer, puts
-- those of them that may run behind the ready threads of their priority, one after the other, and
-- returns how many it took off.
pub wait_wake-ready :
    (wq : List ℕ) (n : ℕ) (s : Sched) (priority : ℕ → ℕ) (may : ℕ → Bool)
    → IsOrdered s
    → s.priority ≡ priority
    → ((t : ℕ) → may_run s t ≡ may t)
    → ((wait_wake wq n s).1 ≡ drop n wq)
      × ((wait_wake wq n s).0 ≡ length (take n wq))
      × (ready (wait_wake wq n s).2 ≡ insert_all priority may (take n wq) (ready s))
unfolding wait_wake insert_all
wait_wake-ready [] zero s priority may o p m = (refl, refl, refl)
wait_wake-ready [] (suc n) s priority may o p m = (refl, refl, refl)
wait_wake-ready (t ∷ ts) zero s priority may o p m = (refl, refl, refl)
wait_wake-ready (t ∷ ts) (suc n) s priority may o p m =
    let s1 = sched_add_thread t s in
    let (e, o1) = sched_add_thread-ready s t o in
    let (kept, o2) = unref-IsOrdered s1 t o1 in
    let a = add-IsSame s t in
    let b = unref-IsSame s1 t in
    let (rest, count, queue) =
      wait_wake-ready ts n (thread_unref t s1) priority may o2 (b.priority ∙ a.priority ∙ p)
        (λ u. b.may u ∙ a.may u ∙ m u) in
    (
      rest,
      ap (λ k. suc k) count,
      queue
          ∙ ap (insert_all priority may (take n ts))
              (kept ∙ e ∙ ap₂ (λ order b. if b then insert order t (ready s) else ready s) p (m t)),
    )
