-- ===== src/Kernel/Time/Timers.antt =====
-- When timers are triggered.
use dummy_os.Prelude.{
  ℕ, ◌+◌, ◌<◌, ◌≡◌, refl, ap, subst, arith, List, [], ◌∷◌, leb, Bool, ltb, ◌^◌, if◌then◌else◌,
}
use dummy_os.Kernel.Time.{Timespec, Timer, Clock, timespec_add, time_update_timer_list, time_tick}
use dummy_os.Kernel.Time.Arith.{IsTime, nanoseconds, timespec_diff-add, time_cmp_ge-nanoseconds}

-- Every timer of the list satisfies `P`.
abbrev pub Each : (Timer → Type 0) → List Timer → Type 0
Each P [] = Unit
Each P (t ∷ ts) = P t × Each P ts

-- The timers whose time, in nanoseconds, passes a test, in order.
unfoldable pub select : (ℕ → Bool) → List Timer → List Timer
select test [] = []
select test (t ∷ ts) = if test (nanoseconds t.time) then t ∷ select test ts else select test ts

update-select :
    (current : Timespec) (ts : List Timer)
    → IsTime current
    → Each (λ t. IsTime t.time) ts
    → time_update_timer_list current ts
      ≡ (select (λ n. leb n (nanoseconds current)) ts, select (λ n. ltb (nanoseconds current) n) ts)
unfolding time_update_timer_list select
update-select current [] p q = refl
update-select current (t ∷ ts) p (q, qs) =
    simp (time_cmp_ge-nanoseconds current t.time p q, update-select current ts p qs) (ground arith)

-- For times whose seconds stay below 2 ^ 62, a tick moves the clock by the value
-- of a tick. It triggers the timers whose time is then not after the clock, in the order in
-- which they were added, and keeps the others.
pub time_tick-select :
    (clock : Clock)
    → IsTime clock.current
    → IsTime clock.tick_value
    → clock.current.tv_sec + clock.tick_value.tv_sec + 1 < 2 ^ 62
    → Each (λ t. IsTime t.time) clock.timer_list
    → let (triggered, clock') = time_tick clock in
      let now = nanoseconds clock.current + nanoseconds clock.tick_value in
      (nanoseconds clock'.current ≡ now)
      × (triggered ≡ select (λ n. leb n now) clock.timer_list)
      × (clock'.timer_list ≡ select (λ n. ltb now n) clock.timer_list)
unfolding time_tick
time_tick-select clock p q small timers =
    let current = timespec_add clock.current clock.tick_value in
    let (fraction, now, back) = timespec_diff-add clock.current clock.tick_value p q in
    let seconds : current.tv_sec < 2 ^ 62 = unfold timespec_add in omega arith in
    let updated =
      update-select current clock.timer_list (record { seconds = seconds; fraction = fraction })
        timers in
    (
      now,
      subst
          (λ n.
            (time_update_timer_list current clock.timer_list).0
            ≡ select (λ k. leb k n) clock.timer_list)
          now (ap (λ r. r.0) updated),
      subst
          (λ n.
            (time_update_timer_list current clock.timer_list).1
            ≡ select (λ k. ltb n k) clock.timer_list)
          now (ap (λ r. r.1) updated),
    )
