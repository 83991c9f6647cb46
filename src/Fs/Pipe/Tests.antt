-- ===== src/Fs/Pipe/Tests.antt =====
-- Pipes on concrete inputs. Thread 1 reads and thread 2 writes; flags 0, 1 and 2 are O_RDONLY,
-- O_WRONLY and O_RDWR.
use dummy_os.Prelude.{◌≡◌, refl, List, [], ◌∷◌, arith, true, some, ok, Option, err, eio}
use dummy_os.Libk.Deque.{deque_empty, deque_full, deque_push_back, deque_pop_front}
use dummy_os.Libk.Deque.Bounds.{IsValid}
use dummy_os.Fs.Pipe.{
  Pipe, returned, asleep, wait, do_pipe_read, do_pipe_read_woken, do_pipe_write,
  do_pipe_write_woken, read_bytes, write_bytes, fifo_close, pipe_read, pipe_write, pipe_acquire,
  do_pipe_close, vfs_file_flags_read, vfs_file_flags_write,
}
use dummy_os.Fs.Pipe.Fifo.{Event, reads, reads_woken, writes, step, run, Keeps, run-Keeps}
use dummy_os.Fs.Pipe.Holders.{IsHeld, Closed, readers_of, writers_of, acquire-IsHeld, close-IsHeld}
use dummy_os.Fs.Pipe.Ends.{read_at_end, fifo_close-last_writer}

-- An empty ring of three cells, which holds two bytes, with a reader and a writer.
abbrev small : Pipe
small = record {
  buffer = record { buffer = 0 ∷ 0 ∷ 0 ∷ []; head = 0; tail = 0; size = 3 };
  wq = [];
  readers = 1;
  writers = 1;
}

small-IsValid : IsValid small.buffer
small-IsValid = omega arith

abbrev script : List Event
script =
    reads 1 4 ∷ writes 2 (7 ∷ 8 ∷ 9 ∷ []) ∷ reads_woken 1 1 ∷ writes 2 (5 ∷ []) ∷ reads 1 1 ∷ []

abbrev at_end : Pipe
at_end = record small { buffer = record { buffer = 7 ∷ 8 ∷ 5 ∷ []; head = 2; tail = 0; size = 3 } }

-- The write of three bytes takes two.
run-script : run script small ≡ some (7 ∷ 8 ∷ [], 7 ∷ 8 ∷ 5 ∷ [], at_end)
unfolding run step do_pipe_read do_pipe_read_woken do_pipe_write do_pipe_write_woken read_bytes
    write_bytes deque_empty deque_full deque_push_back deque_pop_front
run-script = refl

run-Keeps_example : Keeps small (7 ∷ 8 ∷ [], 7 ∷ 8 ∷ 5 ∷ [], at_end)
run-Keeps_example =
    run-Keeps script small (7 ∷ 8 ∷ [], 7 ∷ 8 ∷ 5 ∷ [], at_end) small-IsValid run-script

reader_and_writer : IsHeld small (0 ∷ 1 ∷ [])
unfolding readers_of writers_of vfs_file_flags_read vfs_file_flags_write
reader_and_writer = record { reading = refl; writing = refl }

acquire-IsHeld_test : IsHeld (pipe_acquire 1 2 true small).1 (2 ∷ 0 ∷ 1 ∷ [])
unfolding vfs_file_flags_read vfs_file_flags_write
acquire-IsHeld_test =
    acquire-IsHeld 1 2 true small (0 ∷ 1 ∷ []) refl (omega arith) reader_and_writer

close-IsHeld_example : Closed (1 ∷ []) (do_pipe_close 0 small)
unfolding vfs_file_flags_read vfs_file_flags_write
close-IsHeld_example =
    close-IsHeld 0 small (1 ∷ []) (refl, (refl, tt)) (omega arith) reader_and_writer

read_at_end_test :
    (do_pipe_read 1 4 (record small { writers = 0 })
      ≡ (returned (ok []), record small { writers = 0 }))
    × (do_pipe_read_woken 1 4 (record small { writers = 0 })
        ≡ (asleep, wait 1 (record small { writers = 0 })))
unfolding deque_empty
read_at_end_test = read_at_end 1 4 (record small { writers = 0 }) refl refl

fifo_close-last_writer_test :
    (inode : Option Pipe) × (fifo_close 1 (some small) ≡ some inode)
    × ((pipe_read 1 4 inode).0 ≡ returned (err eio))
    × ((pipe_write 1 (3 ∷ []) inode).0 ≡ returned (err eio))
unfolding vfs_file_flags_read vfs_file_flags_write
fifo_close-last_writer_test =
    fifo_close-last_writer 1 1 4 (3 ∷ []) small refl refl refl (omega arith)
