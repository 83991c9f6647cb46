-- ===== src/Fs/Pipe/Ends.antt =====
-- What the calls on a pipe do when the other side is gone.
use dummy_os.Prelude.{
  ℕ, ◌<◌, ◌≡◌, refl, List, [], arith, true, false, ok, err, eio, Option, none, some,
}
use dummy_os.Libk.Deque.{deque_empty}
use dummy_os.Fs.Pipe.{
  Pipe, returned, asleep, wait, do_pipe_read, do_pipe_read_woken, fifo_close, pipe_read, pipe_write,
  do_pipe_close, pipe_remove_writer, vfs_file_flags_read, vfs_file_flags_write,
}

-- With an empty buffer and no writer, a read that starts returns no byte, which is the end of the
-- file, but a read that was waiting and is woken waits again.
pub read_at_end :
    (self count : ℕ) (p : Pipe)
    → deque_empty p.buffer ≡ true
    → p.writers ≡ 0
    → (do_pipe_read self count p ≡ (returned (ok []), p))
      × (do_pipe_read_woken self count p ≡ (asleep, wait self p))
unfolding do_pipe_read do_pipe_read_woken
read_at_end self count p e none_left = rw e (ground arith)

-- When the last writer of a fifo, which does not read, closes it while a reader still has it open,
-- the inode loses the pipe: what the reader reads then, and any write, fails with EIO.
pub fifo_close-last_writer :
    (flags self count : ℕ) (bytes : List ℕ) (p : Pipe)
    → vfs_file_flags_read flags ≡ false
    → vfs_file_flags_write flags ≡ true
    → p.writers ≡ 1
    → 0 < p.readers
    → (inode : Option Pipe) × (fifo_close flags (some p) ≡ some inode)
      × ((pipe_read self count inode).0 ≡ returned (err eio))
      × ((pipe_write self bytes inode).0 ≡ returned (err eio))
unfolding fifo_close do_pipe_close pipe_remove_writer pipe_read pipe_write
fifo_close-last_writer flags self count bytes p r w last held =
    (none, rw (r, w, last) (ground arith), refl, refl)
