-- ===== src/Fs/Tty/Tests.antt =====
-- A tty on concrete inputs: canonical mode, with echo and signals.
use dummy_os.Prelude.{true, ◌≡◌, refl, [], ◌∷◌, ◌++◌, arith, some, ◌==◌, if◌then◌else◌}
use dummy_os.Libk.Deque.Window.{contents}
use dummy_os.Fs.Tty.{
  Tty, returned, tty_read, tty_input_c, is_intr, is_erase, l_flag, icanon, newline,
}
use dummy_os.Fs.Tty.Lines.{line, Reads, tty_read-Reads, tty_read-eof}
use dummy_os.Fs.Tty.Edit.{input-erase}

-- "hi\nx" in a ring of eight cells.
abbrev typed : Tty
typed = record {
  termios = record { c_lflag = 81; vintr = 3; veof = 4; verase = 0x7f };
  buffer = record {
    buffer = 104 ∷ 105 ∷ 10 ∷ 120 ∷ 0 ∷ 0 ∷ 0 ∷ 0 ∷ [];
    head = 0;
    tail = 4;
    size = 8;
  };
  lines = 1;
  wq = [];
  pgrp = 7;
  screen = [];
  kills = [];
}

abbrev at_eof : Tty
at_eof = record typed { buffer = record { buffer = 4 ∷ 0 ∷ 0 ∷ []; head = 0; tail = 1; size = 3 } }

line-typed : line true 4 100 0 (104 ∷ 105 ∷ 10 ∷ 120 ∷ []) ≡ (104 ∷ 105 ∷ 10 ∷ [], 120 ∷ [], true)
unfolding line
line-typed = refl

tty_read-Reads_example :
    Reads [] (line (l_flag typed icanon) 4 100 0 (contents typed.buffer)) (tty_read 9 1 100 typed)
tty_read-Reads_example = tty_read-Reads 9 1 100 typed (omega arith) (omega arith)

tty_read-eof_example :
    (tty' : Tty) × (tty_read 9 1 100 at_eof ≡ some (returned [] tty'))
    × (contents tty'.buffer ≡ 4 ∷ [])
tty_read-eof_example = tty_read-eof 9 1 100 at_eof [] (omega arith) refl (omega arith)

input-erase_example :
    (contents (tty_input_c typed 97).1.buffer ≡ contents typed.buffer ++ (97 ∷ []))
    × (contents (tty_input_c (tty_input_c typed 97).1 0x7f).1.buffer ≡ (
        if 97 == newline then contents (tty_input_c typed 97).1.buffer else contents typed.buffer))
unfolding l_flag is_intr is_erase
input-erase_example =
    input-erase typed 97 0x7f (omega arith) (omega arith) (refl, refl) (refl, refl)
