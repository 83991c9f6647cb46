-- ===== src/Kernel/Time/Tests.antt =====
-- The clock on concrete inputs.
use dummy_os.Prelude.{◌+◌, ◌<◌, ◌≡◌, refl, [], ◌∷◌, arith, leb, ltb}
use dummy_os.Kernel.Time.{
  Timespec, Clock, timespec_add, timespec_diff, time_tick, time_cmp_ge, time_sec_in_ns,
  time_update_timer_list,
}
use dummy_os.Kernel.Time.Arith.{nanoseconds, timespec_diff-add, time_cmp_ge-nanoseconds}
use dummy_os.Kernel.Time.Timers.{select, time_tick-select}

abbrev late : Timespec
late = record { tv_sec = 1; tv_nsec = 999000000 }

abbrev tick : Timespec
tick = record { tv_sec = 0; tv_nsec = 10000000 }

abbrev clock : Clock
clock = record {
  tick_value = tick;
  current = late;
  timer_list =
      record { owner = 1; time = record { tv_sec = 3; tv_nsec = 0 } }
      ∷ record { owner = 2; time = record { tv_sec = 2; tv_nsec = 9000000 } }
      ∷ [];
}

tick-clock :
    (time_tick clock).0 ≡ record { owner = 2; time = record { tv_sec = 2; tv_nsec = 9000000 } } ∷ []
unfolding time_tick time_update_timer_list time_cmp_ge timespec_add
tick-clock = refl

timespec_diff-add_example :
    ((timespec_add late tick).tv_nsec < time_sec_in_ns)
    × (nanoseconds (timespec_add late tick) ≡ nanoseconds late + nanoseconds tick)
    × (timespec_diff (timespec_add late tick) tick ≡ late)
timespec_diff-add_example = timespec_diff-add late tick (omega arith) (omega arith)

time_cmp_ge-nanoseconds_example : time_cmp_ge late tick ≡ leb (nanoseconds tick) (nanoseconds late)
time_cmp_ge-nanoseconds_example = time_cmp_ge-nanoseconds late tick (omega arith) (omega arith)

time_tick-select_example :
    let (triggered, clock') = time_tick clock in
    let now = nanoseconds late + nanoseconds tick in
    (nanoseconds clock'.current ≡ now)
    × (triggered ≡ select (λ n. leb n now) clock.timer_list)
    × (clock'.timer_list ≡ select (λ n. ltb now n) clock.timer_list)
time_tick-select_example =
    time_tick-select clock (omega arith) (omega arith) (omega arith)
      (omega arith, (omega arith, tt))
