-- ===== src/Kernel/Time/Arith.antt =====
-- The arithmetic of `struct timespec`, in nanoseconds.
use dummy_os.Prelude.{ℕ, ◌+◌, ◌*◌, ◌^◌, ◌<◌, ◌≡◌, arith, leb}
use dummy_os.Kernel.Time.{Timespec, timespec_add, timespec_diff, time_cmp_ge, time_sec_in_ns}

-- The nanoseconds are less than a second, and the seconds far from overflow.
pub record IsTime (t : Timespec) : Type 0 where
  pub seconds : t.tv_sec < 2 ^ 62
  pub fraction : t.tv_nsec < time_sec_in_ns

unfoldable pub nanoseconds : Timespec → ℕ
nanoseconds t = t.tv_sec * time_sec_in_ns + t.tv_nsec

-- For two times, the sum has less than a second of nanoseconds and stands for the sum of the times,
-- and taking the second off the sum gives back the first.
pub timespec_diff-add :
    (a b : Timespec)
    → IsTime a
    → IsTime b
    → ((timespec_add a b).tv_nsec < time_sec_in_ns)
      × (nanoseconds (timespec_add a b) ≡ nanoseconds a + nanoseconds b)
      × (timespec_diff (timespec_add a b) b ≡ a)
unfolding timespec_add timespec_diff nanoseconds
timespec_diff-add a b p q = (omega arith, omega arith, ground arith)

-- The comparison of two times is that of their nanoseconds.
pub time_cmp_ge-nanoseconds :
    (t1 t2 : Timespec)
    → IsTime t1
    → IsTime t2
    → time_cmp_ge t1 t2 ≡ leb (nanoseconds t2) (nanoseconds t1)
unfolding time_cmp_ge nanoseconds
time_cmp_ge-nanoseconds t1 t2 p q = ground arith
