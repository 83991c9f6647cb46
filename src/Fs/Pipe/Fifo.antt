-- ===== src/Fs/Pipe/Fifo.antt =====
-- Sequences of calls on one pipe, and the stream of bytes through it.
use dummy_os.Prelude.{
  ℕ, suc, ◌-◌, ◌≡◌, refl, sym, ap, ap₂, subst, Bool, Option, none, some, ◌&&◌, take-append-drop,
  ◌∙◌, List, [], ◌∷◌, ◌++◌, take, arith, append_nil, append_assoc, Bool-cases, Option-cases, inl,
  inr, ok, err, ◌==◌, Result,
}
use mathlib.Core.Option.{some-injective, none-ne-some}
use dummy_os.Libk.Deque.{deque_empty, deque_full}
use dummy_os.Libk.Deque.Bounds.{IsValid}
use dummy_os.Libk.Deque.Window.{contents}
use dummy_os.Fs.Pipe.{
  Pipe, Outcome, returned, asleep, do_pipe_read, do_pipe_read_woken, do_pipe_write,
  do_pipe_write_woken, pipe_acquire, do_pipe_close, pipe_add_reader, pipe_add_writer,
  pipe_remove_reader, pipe_remove_writer,
}
use dummy_os.Fs.Pipe.Stream.{read_bytes_lem, write_bytes_lem}

-- The calls on one pipe, in the order of their steps; `_woken` goes on with a call that waited.
pub data Event : Type 0 where
  reads reads_woken : ℕ → ℕ → Event
  writes writes_woken : ℕ → List ℕ → Event
  acquires : ℕ → ℕ → Bool → Event
  closes : ℕ → Event

-- The bytes that a step gives to its caller, the bytes that it takes from it, and the pipe.
abbrev pub Moved : Type 0
Moved = List ℕ × List ℕ × Pipe

abbrev pub moved_read : Outcome (List ℕ) × Pipe → Moved
moved_read (returned (ok bytes), p) = (bytes, [], p)
moved_read (returned (err e), p) = ([], [], p)
moved_read (asleep, p) = ([], [], p)

abbrev pub moved_write : List ℕ → Outcome ℕ × Pipe → Moved
moved_write bytes (returned (ok n), p) = ([], take n bytes, p)
moved_write bytes (returned (err e), p) = ([], [], p)
moved_write bytes (asleep, p) = ([], [], p)

abbrev pub after_close : Option (Result ℕ × Option Pipe) → Option Moved
after_close (some (r, some p)) = some ([], [], p)
after_close (some (r, none)) = none
after_close none = none

-- `none` when the pipe is gone.
unfoldable pub step : Event → Pipe → Option Moved
step (reads self count) p = some (moved_read (do_pipe_read self count p))
step (reads_woken self count) p = some (moved_read (do_pipe_read_woken self count p))
step (writes self bytes) p = some (moved_write bytes (do_pipe_write self bytes p))
step (writes_woken self bytes) p = some (moved_write bytes (do_pipe_write_woken self bytes p))
step (acquires self flags block) p = some ([], [], (pipe_acquire self flags block p).1)
step (closes flags) p = after_close (do_pipe_close flags p)

-- What a step does to the stream: what was held and came in is what went out and is held.
pub record Keeps (p : Pipe) (moved : Moved) : Type 0 where
  pub order : contents p.buffer ++ moved.1 ≡ moved.0 ++ contents moved.2.buffer
  pub valid : IsValid moved.2.buffer
  pub capacity : moved.2.buffer.size ≡ p.buffer.size

stays-Keeps : (p p' : Pipe) → IsValid p.buffer → p'.buffer ≡ p.buffer → Keeps p ([], [], p')
stays-Keeps p p' v e = record {
  order = append_nil (contents p.buffer) ∙ sym (ap contents e);
  valid = subst IsValid (sym e) v;
  capacity = ap (λ dq. dq.size) e;
}

read_woken-Keeps :
    (self count : ℕ) (p : Pipe)
    → IsValid p.buffer
    → Keeps p (moved_read (do_pipe_read_woken self count p))
unfolding do_pipe_read_woken
read_woken-Keeps self count p v = elim (Bool-cases (deque_empty p.buffer)) [
  | inl e ↦ rw e (stays-Keeps p _ v refl)
  | inr e ↦
      let (valid, front, rest, size) = read_bytes_lem (count - 1) p.buffer v in
      rw e (record {
        order =
            append_nil (contents p.buffer)
            ∙ sym (take-append-drop (suc (count - 1)) (contents p.buffer))
            ∙ ap₂ ◌++◌ (sym front) (sym rest);
        valid = valid;
        capacity = size;
      })
]

read-Keeps :
    (self count : ℕ) (p : Pipe)
    → IsValid p.buffer
    → Keeps p (moved_read (do_pipe_read self count p))
unfolding do_pipe_read
read-Keeps self count p v = elim (Bool-cases (deque_empty p.buffer && (p.writers == 0))) [
  | inl e ↦ rw e (stays-Keeps p p v refl)
  | inr e ↦ rw e (read_woken-Keeps self count p v)
]

write_woken-Keeps :
    (self : ℕ) (bytes : List ℕ) (p : Pipe)
    → IsValid p.buffer
    → Keeps p (moved_write bytes (do_pipe_write_woken self bytes p))
unfolding do_pipe_write_woken
write_woken-Keeps self bytes p v = elim (Bool-cases (deque_full p.buffer)) [
  | inl e ↦ rw e (stays-Keeps p _ v refl)
  | inr e ↦
      let (valid, n, rest, size) = write_bytes_lem bytes p.buffer v in
      rw e (record { order = sym rest; valid = valid; capacity = size })
]

write-Keeps :
    (self : ℕ) (bytes : List ℕ) (p : Pipe)
    → IsValid p.buffer
    → Keeps p (moved_write bytes (do_pipe_write self bytes p))
unfolding do_pipe_write
write-Keeps self bytes p v = elim (Bool-cases (p.readers == 0)) [
  | inl e ↦ rw e (stays-Keeps p p v refl)
  | inr e ↦ rw e (write_woken-Keeps self bytes p v)
]

acquire-buffer :
    (self flags : ℕ) (block : Bool) (p : Pipe)
    → (pipe_acquire self flags block p).1.buffer ≡ p.buffer
unfolding pipe_acquire pipe_add_reader pipe_add_writer
acquire-buffer self flags block p = ground arith

close-buffer :
    (flags : ℕ) (p : Pipe) (moved : Moved)
    → after_close (do_pipe_close flags p) ≡ some moved
    → (moved.0 ≡ []) × (moved.1 ≡ []) × (moved.2.buffer ≡ p.buffer)
unfolding do_pipe_close pipe_remove_reader pipe_remove_writer
close-buffer flags p moved e = ground arith

step-Keeps :
    (e : Event) (p : Pipe) (moved : Moved)
    → IsValid p.buffer
    → step e p ≡ some moved
    → Keeps p moved
unfolding step
step-Keeps (reads self count) p moved v h =
    subst (Keeps p) (some-injective _ _ h) (read-Keeps self count p v)
step-Keeps (reads_woken self count) p moved v h =
    subst (Keeps p) (some-injective _ _ h) (read_woken-Keeps self count p v)
step-Keeps (writes self bytes) p moved v h =
    subst (Keeps p) (some-injective _ _ h) (write-Keeps self bytes p v)
step-Keeps (writes_woken self bytes) p moved v h =
    subst (Keeps p) (some-injective _ _ h) (write_woken-Keeps self bytes p v)
step-Keeps (acquires self flags block) p moved v h =
    subst (Keeps p) (some-injective _ _ h) (stays-Keeps p _ v (acquire-buffer self flags block p))
step-Keeps (closes flags) p moved v h =
    let (gave, took, same) = close-buffer flags p moved h in
    subst (λ o. Keeps p (o, moved.1, moved.2)) (sym gave)
      (subst (λ i. Keeps p ([], i, moved.2)) (sym took) (stays-Keeps p moved.2 v same))

abbrev pub then_moved : Moved → Option Moved → Option Moved
then_moved m none = none
then_moved m (some m') = some (m.0 ++ m'.0, m.1 ++ m'.1, m'.2)

-- All that the calls gave and took, and the pipe at the end; `none` when it is gone.
unfoldable pub run : List Event → Pipe → Option Moved
run [] p = some ([], [], p)
run (e ∷ es) p = elim (step e p) [ none ↦ none | some m ↦ then_moved m (run es m.2) ]

Keeps-then :
    (p : Pipe) (m m' : Moved) → Keeps p m → Keeps m.2 m' → Keeps p (m.0 ++ m'.0, m.1 ++ m'.1, m'.2)
Keeps-then p m m' k k' = record {
  order =
      sym (append_assoc (contents p.buffer) m.1 m'.1)
      ∙ ap (λ xs. xs ++ m'.1) k.order
      ∙ append_assoc m.0 (contents m.2.buffer) m'.1
      ∙ ap (λ xs. m.0 ++ xs) k'.order
      ∙ sym (append_assoc m.0 m'.0 (contents m'.2.buffer));
  valid = k'.valid;
  capacity = k'.capacity ∙ k.capacity;
}

-- As long as the pipe is there, its buffer is valid and keeps its size, and the bytes that it held
-- at first followed by those that the writes accepted are the bytes that the reads returned
-- followed by those that it holds: none is lost, doubled or moved, whatever the order of the steps.
pub run-Keeps :
    (es : List Event) (p : Pipe) (moved : Moved)
    → IsValid p.buffer
    → run es p ≡ some moved
    → Keeps p moved
unfolding run
run-Keeps [] p moved v h = subst (Keeps p) (some-injective _ _ h) (stays-Keeps p p v refl)
run-Keeps (e ∷ es) p moved v h = elim (Option-cases (step e p)) [
  | inl gone ↦ absurd (none-ne-some _ (rw (run, gone) at h))
  | inr (m, first) ↦ elim (Option-cases (run es m.2)) [
    | inl gone ↦ absurd (none-ne-some _ (rw (run, first, gone) at h))
    | inr (m', rest) ↦
        let k = step-Keeps e p m v first in
        subst (Keeps p) (some-injective _ _ (rw (run, first, rest) at h))
          (Keeps-then p m m' k (run-Keeps es m.2 m' k.valid rest))
  ]
]
