-- ===== src/Libk/Deque/Bounds.antt =====
-- The representation invariant of `deque_t`, and where the cells of the ring lie.
use dummy_os.Prelude.{
  ℕ, suc, ◌+◌, ◌-◌, ◌%◌, ◌^◌, ◌≤◌, ◌<◌, ◌≡◌, ◌⊎◌, inl, inr, List, length, length-set, arith, true,
  leb, ◌==◌,
}
use native.Mathlib.Nat.{mod-eq_of_lt, mod-eq-sub-mod}
use native.Mathlib.Decide.{dec_lt}
use dummy_os.Libk.Deque.{
  Deque, deque_init, deque_flush, deque_empty, deque_full, deque_push_front, deque_push_back,
  deque_pop_front, deque_pop_back, before, add_size,
}

-- The storage has `size` cells, and both indices lie in it.
pub record IsValid (dq : Deque) : Type 0 where
  pub storage : dq.size ≤ length dq.buffer
  pub small : dq.size < 2 ^ 32
  pub head_in : dq.head < dq.size
  pub tail_in : dq.tail < dq.size

-- The `k`-th cell from `h` on, round a ring of `s` cells.
abbrev pub slot : ℕ → ℕ → ℕ → ℕ
slot s h k = (h + k) % s

pub slot_cases :
    (s h k : ℕ)
    → h < s
    → k ≤ s
    → ((h + k < s) × (slot s h k ≡ h + k)) ⊎ ((s ≤ h + k) × (slot s h k + s ≡ h + k))
slot_cases s h k p q = elim (dec_lt (h + k) s) [
  | yes lo ↦ inl (lo, mod-eq_of_lt lo)
  | no hi ↦ inr (
    (omega arith),
    omega (
      arith,
      mod-eq-sub-mod {n = h + k} {m = s} (omega arith),
      mod-eq_of_lt {n = h + k - s} {m = s} (omega arith),
    ),
  )
]

-- How many bytes the deque holds.
abbrev pub count : Deque → ℕ
count dq = slot dq.size dq.tail (dq.size - dq.head)

-- `(i + 1) % size` goes to the next cell, and wraps at the end of the ring.
pub next_cases :
    (s i : ℕ)
    → i < s
    → s < 2 ^ 32
    → ((suc i < s) × (add_size i 1 % s ≡ suc i)) ⊎ ((suc i ≡ s) × (add_size i 1 % s ≡ 0))
next_cases s i p q = elim (dec_lt (suc i) s) [
  | yes lo ↦ inl (lo, omega (arith, mod-eq_of_lt {n = add_size i 1} {m = s} (omega arith)))
  | no hi ↦ inr ((omega arith), grind arith)
]

-- The two index computations of a valid deque, in the form that the arithmetic tactics read.
pub before_cases :
    (dq : Deque) (i : ℕ)
    → IsValid dq
    → i < dq.size
    → ((i ≡ 0) × (suc (before dq i) ≡ dq.size)) ⊎ ((0 < i) × (suc (before dq i) ≡ i))
before_cases dq i v p = ground arith

-- A deque made over storage of `size` cells is valid and empty.
pub deque_init-IsValid :
    (buffer : List ℕ) (size : ℕ)
    → 0 < size
    → size < 2 ^ 32
    → size ≤ length buffer
    → IsValid (deque_init buffer size) × (deque_empty (deque_init buffer size) ≡ true)
unfolding deque_init deque_empty
deque_init-IsValid buffer size p q r = ground arith

-- Every update keeps the invariant, so no access leaves the storage.
pub deque_push_front-IsValid : (dq : Deque) (b : ℕ) → IsValid dq → IsValid (deque_push_front dq b).1
unfolding deque_push_front
deque_push_front-IsValid dq b v =
    ground (arith, before_cases dq dq.head v v.head_in, length-set dq.buffer (before dq dq.head) b)

pub deque_push_back-IsValid : (dq : Deque) (b : ℕ) → IsValid dq → IsValid (deque_push_back dq b).1
unfolding deque_push_back
deque_push_back-IsValid dq b v =
    ground (arith, next_cases dq.size dq.tail v.tail_in v.small, length-set dq.buffer dq.tail b)

pub deque_pop_front-IsValid : (dq : Deque) → IsValid dq → IsValid (deque_pop_front dq).1
unfolding deque_pop_front
deque_pop_front-IsValid dq v = ground (arith, next_cases dq.size dq.head v.head_in v.small)

pub deque_pop_back-IsValid : (dq : Deque) → IsValid dq → IsValid (deque_pop_back dq).1
unfolding deque_pop_back
deque_pop_back-IsValid dq v = ground (arith, before_cases dq dq.tail v v.tail_in)

pub deque_flush-IsValid : (dq : Deque) → IsValid dq → IsValid (deque_flush dq)
unfolding deque_flush
deque_flush-IsValid dq v = ground arith

-- How full the deque is, by its indices.
pub count_cases :
    (dq : Deque)
    → IsValid dq
    → ((dq.head ≤ dq.tail) × (count dq + dq.head ≡ dq.tail))
      ⊎ ((dq.tail < dq.head) × (count dq + dq.head ≡ dq.tail + dq.size))
count_cases dq v =
    ground (arith, slot_cases dq.size dq.tail (dq.size - dq.head) v.tail_in (omega arith))

-- The full test compares the count with the capacity, one less than the size.
pub deque_full_lem : (dq : Deque) → IsValid dq → deque_full dq ≡ leb (dq.size - 1) (count dq)
unfolding deque_full
deque_full_lem dq v = ground (arith, count_cases dq v, next_cases dq.size dq.tail v.tail_in v.small)

pub deque_empty_lem : (dq : Deque) → IsValid dq → deque_empty dq ≡ (count dq == 0)
unfolding deque_empty
deque_empty_lem dq v = ground (arith, count_cases dq v)
