-- ===== src/Fs/Tty.antt =====
-- fs/tty.c: the line discipline. The mutex of a tty is taken and released within each step here,
-- so it is not in the state. `putchar` and the signals sent are logs in the state. Bytes are
-- 0, …, 255 as on ARM, where `char` has no sign.
pub mod Lines
pub mod Edit
mod Tests
use Prim.Native.Nat.{bit_and, bit_or}
use dummy_os.Prelude.{
  ℕ, zero, suc, ◌+◌, ◌/◌, ◌%◌, Bool, true, false, not, ◌&&◌, ◌||◌, List, [], ◌∷◌, ◌++◌, ltb, ◌==◌,
  if◌then◌else◌, Option, none, some, Result, ok, err, Status, success, einval, eio, enotty, enxio,
}
use dummy_os.Libk.Utils.{add32, sub32}
use dummy_os.Libk.Deque.{
  Deque, deque_init, deque_flush, deque_empty, deque_push_back, deque_pop_front, deque_pop_back,
  deque_front, deque_back,
}

abbrev pub tty_buffer_size : ℕ
tty_buffer_size = 256

-- include/dummyos/termios.h and include/dummyos/signal.h
abbrev pub echo : ℕ
echo = 1

abbrev pub icanon : ℕ
icanon = 16

abbrev pub isig : ℕ
isig = 64

abbrev pub sigint : ℕ
sigint = 2

abbrev pub newline : ℕ
newline = 10

abbrev pub backspace : ℕ
backspace = 8

-- `struct termios`, as far as the tty reads it: `c_lflag` and three entries of `c_cc`.
pub record Termios : Type 0 where
  pub c_lflag : ℕ
  pub vintr : ℕ
  pub veof : ℕ
  pub verase : ℕ

-- `struct tty`; `screen` is what went to `putchar`, `kills` the process groups that got SIGINT.
pub record Tty : Type 0 where
  pub termios : Termios
  pub buffer : Deque
  pub lines : ℕ
  pub wq : List ℕ
  pub pgrp : ℕ
  pub screen : List ℕ
  pub kills : List ℕ

unfoldable pub termios_init : Termios
termios_init = record {
  c_lflag = bit_or (bit_or icanon echo) isig;
  vintr = 3;
  veof = 4;
  verase = 0x7f;
}

unfoldable pub tty_init : List ℕ → Tty
unfolding termios_init
tty_init storage = record {
  termios = termios_init;
  buffer = deque_init storage tty_buffer_size;
  lines = 0;
  wq = [];
  pgrp = 0;
  screen = [];
  kills = [];
}

unfoldable pub is_intr : Tty → ℕ → Bool
is_intr tty c = c == tty.termios.vintr

unfoldable pub is_eof : Tty → ℕ → Bool
is_eof tty c = c == tty.termios.veof

unfoldable pub is_erase : Tty → ℕ → Bool
is_erase tty c = c == tty.termios.verase

unfoldable pub l_flag : Tty → ℕ → Bool
l_flag tty flag = not (bit_and tty.termios.c_lflag flag == 0)

-- `tty_intr` with SIGINT
unfoldable pub tty_intr : Tty → Tty
tty_intr tty = if ltb 0 tty.pgrp then record tty { kills = tty.kills ++ (tty.pgrp ∷ []) } else tty

abbrev pub putchar : ℕ → Tty → Tty
putchar c tty = record tty { screen = tty.screen ++ (c ∷ []) }

abbrev pub echoed : ℕ → Tty → Tty
echoed c tty = if l_flag tty echo then putchar c tty else tty

-- The erase character in canonical mode; a newline is not erased.
abbrev pub erase_last : Tty → Result ℕ → Status × Tty
erase_last tty (err e) = (err e, tty)
erase_last tty (ok peek) =
    if peek == newline
    then (success, tty)
    else (success, echoed backspace (record tty { buffer = (deque_pop_back tty.buffer).1 }))

unfoldable pub erase : Tty → Status × Tty
erase tty =
    if deque_empty tty.buffer then (success, tty) else erase_last tty (deque_back tty.buffer)

-- The rest of `tty_input_c`, after the push.
abbrev pub count_line : ℕ → Tty → Tty
count_line c tty =
    if not (l_flag tty icanon) || (c == newline) || is_eof tty c
    then record tty { lines = add32 tty.lines 1; wq = [] }
    else tty

abbrev pub pushed : Tty → ℕ → Status × Deque → Status × Tty
pushed tty c (err e, dq) = (err e, tty)
pushed tty c (ok u, dq) = (success, echoed c (count_line c (record tty { buffer = dq })))

unfoldable pub push : Tty → ℕ → Status × Tty
push tty c = pushed tty c (deque_push_back tty.buffer c)

unfoldable pub tty_input_c : Tty → ℕ → Status × Tty
tty_input_c tty c =
    if l_flag tty isig && is_intr tty c
    then (success, tty_intr tty)
    else if l_flag tty icanon && is_erase tty c
    then erase tty
    else push tty c

-- The high byte of `c`, then the low one; a byte 0 is no input.
abbrev pub input_byte : ℕ → Tty → Tty
input_byte byte tty = if byte == 0 then tty else (tty_input_c tty byte).1

unfoldable pub tty_input : Option Tty → ℕ → Status × Option Tty
tty_input none c = (err einval, none)
tty_input (some tty) c = (success, some (input_byte (c % 256) (input_byte (c / 256 % 256) tty)))

-- How a step of `tty_read` ends, with the bytes that are in `buf`: the call returns, or its thread
-- is `asleep` and reads on when it is woken.
pub data ReadStep : Type 0 where
  returned asleep : List ℕ → Tty → ReadStep

abbrev pub newline_read : ℕ → Tty → Tty
newline_read c tty = record tty { lines = if c == newline then sub32 tty.lines 1 else tty.lines }

abbrev pub popped : Tty → Tty
popped tty = record tty { buffer = (deque_pop_front tty.buffer).1 }

-- Whether the byte `c`, the `n`-th, ends the call.
abbrev pub at_end : Tty → ℕ → ℕ → ℕ → Bool
at_end tty n count c = (n == count) || (l_flag tty icanon && (c == newline))

-- The loop of `tty_read`, with `n` bytes in `buf`; `none` is out of fuel. At the end of file
-- character, which stays in the buffer, the call returns what it has.
unfoldable pub tty_read_loop : ℕ → ℕ → ℕ → List ℕ → ℕ → Tty → Option ReadStep
tty_read_loop zero self count got n tty = none
tty_read_loop (suc fuel) self count got n tty =
    if deque_empty tty.buffer
    then some (asleep got (record tty { wq = tty.wq ++ (self ∷ []) }))
    else elim (deque_front tty.buffer) [
      | err _ ↦ some (returned got tty)
      | ok c ↦
          (let rest =
              tty_read_loop fuel self count (got ++ (c ∷ [])) (suc n)
                (popped (newline_read c tty)) in
            if is_eof tty c
            then some (returned got (newline_read c tty))
            else if at_end tty (suc n) count c
            then some (returned (got ++ (c ∷ [])) (popped (newline_read c tty)))
            else rest)
    ]

-- `tty_read` of a tty; through a NULL pointer it fails with EIO.
unfoldable pub tty_read : ℕ → ℕ → ℕ → Tty → Option ReadStep
unfolding tty_read_loop
tty_read fuel self count tty = tty_read_loop fuel self count [] 0 tty

unfoldable pub tty_write : Option Tty → List ℕ → Result (List ℕ) × Option Tty
tty_write none bytes = (err eio, none)
tty_write (some tty) bytes = (ok bytes, some (record tty { screen = tty.screen ++ bytes }))

unfoldable pub tty_close : Option Tty → Status × Option Tty
tty_close none = (err eio, none)
tty_close (some tty) = (success, some (record tty { buffer = deque_flush tty.buffer }))
