-- ===== src/Libk/Deque.antt =====
-- include/libk/deque.h: a double-ended queue of bytes in a ring of `size` cells, one of which
-- stays free. A function that updates `*dq` returns the new deque beside its result.
pub mod Spec
pub mod Bounds
pub mod Window
pub mod Push
pub mod Pop
pub mod Run
mod Tests
use dummy_os.Prelude.{
  ℕ, ◌+◌, ◌-◌, ◌%◌, ◌^◌, Bool, List, get_or, set, ◌==◌, if◌then◌else◌, Result, ok, err, Status,
  success, enospc, espipe,
}

-- `deque_t`; the buffer is the array that `buffer` points to.
pub record Deque : Type 0 where
  pub buffer : List ℕ
  pub head : ℕ
  pub tail : ℕ
  pub size : ℕ

-- `size_t` has 32 bits on both targets, and its arithmetic wraps.
abbrev pub add_size : ℕ → ℕ → ℕ
add_size a b = (a + b) % 2 ^ 32

abbrev pub sub_size : ℕ → ℕ → ℕ
sub_size a b = (a + 2 ^ 32 - b) % 2 ^ 32

unfoldable pub deque_init : List ℕ → ℕ → Deque
deque_init buffer size = record { buffer = buffer; head = 0; tail = 0; size = size }

unfoldable pub deque_flush : Deque → Deque
unfolding deque_init
deque_flush dq = deque_init dq.buffer dq.size

unfoldable pub deque_empty : Deque → Bool
deque_empty dq = dq.head == dq.tail

unfoldable pub deque_full : Deque → Bool
deque_full dq = (add_size dq.tail 1 % dq.size) == dq.head

-- The index before `i` on the ring, as the code writes it.
abbrev pub before : Deque → ℕ → ℕ
before dq i = if i == 0 then sub_size dq.size 1 else sub_size i 1

unfoldable pub deque_push_front : Deque → ℕ → Status × Deque
unfolding deque_full
deque_push_front dq byte = if deque_full dq then (err enospc, dq) else (
  success,
  record dq { head = before dq dq.head; buffer = set dq.buffer (before dq dq.head) byte },
)

unfoldable pub deque_push_back : Deque → ℕ → Status × Deque
unfolding deque_full
deque_push_back dq byte = if deque_full dq then (err enospc, dq) else (
  success,
  record dq { buffer = set dq.buffer dq.tail byte; tail = add_size dq.tail 1 % dq.size },
)

-- The byte is what goes out through `data`. A read out of bounds would give 0; the invariant
-- of `Deque.Bounds` excludes it.
unfoldable pub deque_pop_front : Deque → Result ℕ × Deque
unfolding deque_empty
deque_pop_front dq =
    if deque_empty dq
    then (err espipe, dq)
    else (ok (get_or dq.buffer dq.head 0), record dq { head = add_size dq.head 1 % dq.size })

unfoldable pub deque_pop_back : Deque → Result ℕ × Deque
unfolding deque_empty
deque_pop_back dq =
    if deque_empty dq
    then (err espipe, dq)
    else (ok (get_or dq.buffer (before dq dq.tail) 0), record dq { tail = before dq dq.tail })

unfoldable pub deque_front : Deque → Result ℕ
unfolding deque_empty
deque_front dq = if deque_empty dq then err espipe else ok (get_or dq.buffer dq.head 0)

unfoldable pub deque_back : Deque → Result ℕ
unfolding deque_empty
deque_back dq = if deque_empty dq then err espipe else ok (get_or dq.buffer (before dq dq.tail) 0)
