-- ===== src/Fs/Pipe.antt =====
-- fs/pipe.c: pipes and fifos. The mutex of a pipe is taken and released within each step here,
-- so it is not in the state. A call that waits ends its step `asleep`; when the thread is woken
-- it goes on with the `_woken` function of the call.
pub mod Stream
pub mod Fifo
pub mod Holders
pub mod Ends
mod Tests
use Prim.Native.Nat.{bit_and}
use dummy_os.Prelude.{
  ℕ, zero, suc, ◌+◌, ◌-◌, Bool, true, false, not, ◌&&◌, List, [], ◌∷◌, ◌++◌, ◌==◌, if◌then◌else◌,
  Option, none, some, Result, ok, err, eperm, einval, eio, epipe, enomem,
}
use dummy_os.Libk.Utils.{add32, sub32}
use dummy_os.Libk.Deque.{
  Deque, deque_init, deque_empty, deque_full, deque_push_back, deque_pop_front,
}

abbrev pub pipe_buffer_size : ℕ
pipe_buffer_size = 128

-- `struct pipe`; the wait queue is the sequence of the waiting threads.
pub record Pipe : Type 0 where
  pub buffer : Deque
  pub wq : List ℕ
  pub readers : ℕ
  pub writers : ℕ

-- How a step of a call ends: the call returns, or its thread `asleep` on the wait queue.
pub data Outcome {ℓ} (A : Type ℓ) : Type ℓ where
  returned : Result A → Outcome A
  asleep : Outcome A

-- `pipe_init` over the storage of the buffer.
unfoldable pub pipe_init : List ℕ → Pipe
pipe_init storage = record {
  buffer = deque_init storage pipe_buffer_size;
  wq = [];
  readers = 0;
  writers = 0;
}

-- `wait_wake_all` and `wait_wait` on the pipe's queue.
abbrev pub wake_all : Pipe → Pipe
wake_all p = record p { wq = [] }

abbrev pub wait : ℕ → Pipe → Pipe
wait self p = record p { wq = p.wq ++ (self ∷ []) }

-- fs/file.c: the access that the `flags` of an open file give.
unfoldable pub vfs_file_flags_read : ℕ → Bool
vfs_file_flags_read flags = not (bit_and (add32 flags 1) 1 == 0)

unfoldable pub vfs_file_flags_write : ℕ → Bool
vfs_file_flags_write flags = not (bit_and (add32 flags 1) 2 == 0)

unfoldable pub pipe_add_reader : Pipe → Pipe
pipe_add_reader p = record p { readers = add32 p.readers 1 }

unfoldable pub pipe_add_writer : Pipe → Pipe
pipe_add_writer p = record p { writers = add32 p.writers 1 }

-- `pipe_remove`: the count that is left, and the pipe, or `none` when it was destroyed.
abbrev pub remove : ℕ → ℕ → Pipe → ℕ × Option Pipe
remove type_rc other p =
    if type_rc == 0
    then if other == 0 then (0, none) else (type_rc, some (wake_all p))
    else (type_rc, some p)

unfoldable pub pipe_remove_reader : Pipe → ℕ × Option Pipe
pipe_remove_reader p = let rc = sub32 p.readers 1 in remove rc p.writers (record p { readers = rc })

unfoldable pub pipe_remove_writer : Pipe → ℕ × Option Pipe
pipe_remove_writer p = let rc = sub32 p.writers 1 in remove rc p.readers (record p { writers = rc })

-- `__pipe_acquire`. The loop of a blocking call wakes the others, and waits while `other`, the
-- count of the other side, is 0.
abbrev pub acquire_woken : ℕ → ℕ → Pipe → Outcome (Unit {0}) × Pipe
acquire_woken self other p =
    if other == 0 then (asleep, wait self (wake_all p)) else (returned (ok tt), wake_all p)

abbrev pub acquire_end : ℕ → Bool → ℕ → Pipe → Outcome (Unit {0}) × Pipe
acquire_end self block other p = if block then acquire_woken self other p else (returned (ok tt), p)

unfoldable pub pipe_acquire : ℕ → ℕ → Bool → Pipe → Outcome (Unit {0}) × Pipe
pipe_acquire self flags block p =
    let r = vfs_file_flags_read flags in
    let w = vfs_file_flags_write flags in
    if r && w
    then (returned (ok tt), wake_all (pipe_add_writer (pipe_add_reader p)))
    else if r
    then acquire_end self block p.writers (pipe_add_reader p)
    else if w
    then acquire_end self block p.readers (pipe_add_writer p)
    else (returned (err eperm), p)

-- `pipe_remove_writer` on what `pipe_remove_reader` left. `none` is a use of a destroyed pipe.
abbrev pub then_remove_writer : ℕ × Option Pipe → Option (Result ℕ × Option Pipe)
then_remove_writer (rc, none) = none
then_remove_writer (rc, some p) = let (rc', p') = pipe_remove_writer p in some (ok rc', p')

-- `__pipe_close`, with the flags of the file.
unfoldable pub do_pipe_close : ℕ → Pipe → Option (Result ℕ × Option Pipe)
do_pipe_close flags p =
    let r = vfs_file_flags_read flags in
    let w = vfs_file_flags_write flags in
    if r && w
    then then_remove_writer (pipe_remove_reader p)
    else if r
    then (let (rc, p') = pipe_remove_reader p in some (ok rc, p'))
    else if w
    then (let (rc, p') = pipe_remove_writer p in some (ok rc, p'))
    else some (err einval, some p)

-- The `do` loop of `__pipe_read`: one byte, and up to `left` more while there are any.
unfoldable pub read_bytes : ℕ → Deque → List ℕ × Deque
read_bytes zero dq =
    let (r, dq') = deque_pop_front dq in elim r [ ok c ↦ (c ∷ [], dq') | err _ ↦ ([], dq') ]
read_bytes (suc left) dq =
    let (r, dq') = deque_pop_front dq in
    let (cs, dq'') = read_bytes left dq' in
    elim r [ ok c ↦ if deque_empty dq' then (c ∷ [], dq') else (c ∷ cs, dq'') | err _ ↦ ([], dq') ]

-- `__pipe_read` from the `while` loop on: the bytes that go to `buf`. The `do` loop makes one
-- turn also if `count` is 0.
unfoldable pub do_pipe_read_woken : ℕ → ℕ → Pipe → Outcome (List ℕ) × Pipe
do_pipe_read_woken self count p =
    if deque_empty p.buffer
    then (asleep, wait self p)
    else (let (bytes, dq) = read_bytes (count - 1) p.buffer in
        (returned (ok bytes), wake_all (record p { buffer = dq })))

unfoldable pub do_pipe_read : ℕ → ℕ → Pipe → Outcome (List ℕ) × Pipe
do_pipe_read self count p =
    if deque_empty p.buffer && (p.writers == 0)
    then (returned (ok []), p)
    else do_pipe_read_woken self count p

-- The second loop of `__pipe_write`: how many bytes it pushes.
unfoldable pub write_bytes : List ℕ → Deque → ℕ × Deque
write_bytes [] dq = (0, dq)
write_bytes (c ∷ cs) dq =
    let (r, dq') = deque_push_back dq c in
    let (n, dq'') = write_bytes cs dq' in
    if deque_full dq then (0, dq) else elim r [ ok _ ↦ (suc n, dq'') | err _ ↦ (0, dq') ]

-- `__pipe_write` of the bytes of `buf`, from the first `while` loop on.
unfoldable pub do_pipe_write_woken : ℕ → List ℕ → Pipe → Outcome ℕ × Pipe
do_pipe_write_woken self bytes p =
    if deque_full p.buffer
    then (asleep, wait self p)
    else (let (n, dq) = write_bytes bytes p.buffer in
        (returned (ok n), wake_all (record p { buffer = dq })))

unfoldable pub do_pipe_write : ℕ → List ℕ → Pipe → Outcome ℕ × Pipe
do_pipe_write self bytes p =
    if p.readers == 0 then (returned (err epipe), p) else do_pipe_write_woken self bytes p

-- `pipe_read`, `fifo_read` and the writes go through a pointer, which is NULL for a file that
-- has no pipe.
unfoldable pub pipe_read : ℕ → ℕ → Option Pipe → Outcome (List ℕ) × Option Pipe
pipe_read self count none = (returned (err eio), none)
pipe_read self count (some p) = let (r, p') = do_pipe_read self count p in (r, some p')

unfoldable pub pipe_write : ℕ → List ℕ → Option Pipe → Outcome ℕ × Option Pipe
pipe_write self bytes none = (returned (err eio), none)
pipe_write self bytes (some p) = let (r, p') = do_pipe_write self bytes p in (r, some p')

-- `pipe_create`, with the storage that `kmalloc` gave, if any.
unfoldable pub pipe_create : Option (List ℕ) → Result Pipe
pipe_create none = err enomem
pipe_create (some storage) = ok (pipe_init storage)

abbrev pub acquired : Outcome (Unit {0}) × Pipe → Outcome (Unit {0}) × Option Pipe
acquired (r, p) = (r, some p)

-- `fifo_open` on an inode whose `private_data` is the pipe, if it has one.
unfoldable pub fifo_open : Option (List ℕ) → ℕ → ℕ → Option Pipe → Outcome (Unit {0}) × Option Pipe
fifo_open mem self flags (some p) = acquired (pipe_acquire self flags true p)
fifo_open mem self flags none = elim (pipe_create mem) [
  | err e ↦ (returned (err e), none)
  | ok p ↦ acquired (pipe_acquire self flags true p)
]

-- `private_data` of the inode after `fifo_close`: NULL if `__pipe_close` returned 0.
abbrev pub closed_inode : Option (Result ℕ × Option Pipe) → Option (Option Pipe)
closed_inode none = none
closed_inode (some (ok rc, p)) = some (if rc == 0 then none else p)
closed_inode (some (err e, p)) = some p

-- The outer `none` is an access through NULL or to a destroyed pipe.
unfoldable pub fifo_close : ℕ → Option Pipe → Option (Option Pipe)
fifo_close flags none = none
fifo_close flags (some p) = closed_inode (do_pipe_close flags p)

-- `pipe_close` of a file that has a pipe: the pipe that is left for the other files.
abbrev pub left_by : Option (Result ℕ × Option Pipe) → Option (Option Pipe)
left_by none = none
left_by (some (r, p)) = some p

unfoldable pub pipe_close : ℕ → Pipe → Option (Option Pipe)
pipe_close flags p = left_by (do_pipe_close flags p)

-- `pipe_copy` does not wait, `fifo_copy` does.
unfoldable pub pipe_copy : ℕ → ℕ → Pipe → Outcome (Unit {0}) × Pipe
pipe_copy self flags p = pipe_acquire self flags false p

unfoldable pub fifo_copy : ℕ → ℕ → Pipe → Outcome (Unit {0}) × Pipe
fifo_copy self flags p = pipe_acquire self flags true p
