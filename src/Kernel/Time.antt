-- ===== src/Kernel/Time.antt =====
-- kernel/time/time.c and include/kernel/time/time.h: the clock and its timers. Times are not
-- negative here, so `tv_nsec` is a number and `tv_sec` the two's complement of its 64 bits. What
-- the callback of a timer does is outside; the tick gives the timers that it triggers.
pub mod Arith
pub mod Timers
mod Tests
use dummy_os.Prelude.{
  ℕ, ◌+◌, ◌-◌, ◌/◌, ◌%◌, ◌^◌, Bool, List, [], ◌∷◌, ◌++◌, ltb, leb, ◌==◌, if◌then◌else◌,
}

abbrev pub time_sec_in_ns : ℕ
time_sec_in_ns = 1000000000

-- `struct timespec`
pub record Timespec : Type 0 where
  pub tv_sec : ℕ
  pub tv_nsec : ℕ

abbrev pub add64 : ℕ → ℕ → ℕ
add64 a b = (a + b) % 2 ^ 64

abbrev pub sub64 : ℕ → ℕ → ℕ
sub64 a b = (a + 2 ^ 64 - b) % 2 ^ 64

unfoldable pub timespec_add : Timespec → Timespec → Timespec
timespec_add a b =
    let sum = a.tv_nsec + b.tv_nsec in
    record {
      tv_sec = add64 a.tv_sec (add64 b.tv_sec (sum / time_sec_in_ns));
      tv_nsec = sum % time_sec_in_ns;
    }

-- A negative difference is counted from the second before.
unfoldable pub timespec_diff : Timespec → Timespec → Timespec
timespec_diff a b =
    let sec = sub64 a.tv_sec b.tv_sec in
    if ltb a.tv_nsec b.tv_nsec
    then record { tv_sec = sub64 sec 1; tv_nsec = time_sec_in_ns + a.tv_nsec - b.tv_nsec }
    else record { tv_sec = sec; tv_nsec = a.tv_nsec - b.tv_nsec }

-- `time_cmp(t1, t2) >= 0`
unfoldable pub time_cmp_ge : Timespec → Timespec → Bool
time_cmp_ge t1 t2 =
    let sec_cmp = sub64 t1.tv_sec t2.tv_sec in
    if sec_cmp == 0 then leb t2.tv_nsec t1.tv_nsec else ltb sec_cmp (2 ^ 63)

-- `struct timer`, named by its owner.
pub record Timer : Type 0 where
  pub owner : ℕ
  pub time : Timespec

-- The static state of time.c.
pub record Clock : Type 0 where
  pub tick_value : Timespec
  pub current : Timespec
  pub timer_list : List Timer

-- `timer_init`: the time is `delay` from now.
unfoldable pub timer_init : Clock → ℕ → Timespec → Timer
timer_init clock owner delay = record { owner = owner; time = timespec_add clock.current delay }

unfoldable pub time_add_timer : Timer → Clock → Clock
time_add_timer timer clock = record clock { timer_list = clock.timer_list ++ (timer ∷ []) }

-- `time_update_timer_list`: the timers that are triggered, in order, and those that are left.
unfoldable pub time_update_timer_list : Timespec → List Timer → List Timer × List Timer
time_update_timer_list current [] = ([], [])
time_update_timer_list current (t ∷ ts) =
    let (triggered, left) = time_update_timer_list current ts in
    if time_cmp_ge current t.time then (t ∷ triggered, left) else (triggered, t ∷ left)

unfoldable pub time_tick : Clock → List Timer × Clock
time_tick clock =
    let current = timespec_add clock.current clock.tick_value in
    let (triggered, left) = time_update_timer_list current clock.timer_list in
    (triggered, record clock { current = current; timer_list = left })
