-- ===== src/Fs/Pipe/Stream.antt =====
-- The two copying loops of a pipe, on the bytes that its buffer holds.
use Prim.Native.Nat.{min}
use dummy_os.Prelude.{
  ℕ, zero, suc, ◌-◌, ◌≡◌, refl, sym, ap, ◌∙◌, List, [], ◌∷◌, ◌++◌, length, take, drop, arith,
  length-append, append_nil, append_assoc, inl, inr, ◌==◌,
}
use dummy_os.Libk.Deque.{Deque, deque_empty}
use dummy_os.Libk.Deque.Bounds.{IsValid, deque_empty_lem}
use dummy_os.Libk.Deque.Window.{contents, length-contents}
use dummy_os.Libk.Deque.Push.{push_back_cases}
use dummy_os.Libk.Deque.Pop.{pop_front_cases}
use dummy_os.Fs.Pipe.{read_bytes, write_bytes}

-- Whether the contents are empty is what the code tests.
empty_contents : (dq : Deque) → IsValid dq → deque_empty dq ≡ (length (contents dq) == 0)
empty_contents dq v = rw (length-contents dq) (deque_empty_lem dq v)

-- `read_bytes` takes the first bytes off the contents, at most `suc left`.
pub read_bytes_lem :
    (left : ℕ) (dq : Deque)
    → IsValid dq
    → let (cs, dq') = read_bytes left dq in
      IsValid dq'
      × (cs ≡ take (suc left) (contents dq))
      × (contents dq' ≡ drop (suc left) (contents dq))
      × (dq'.size ≡ dq.size)
unfolding read_bytes
read_bytes_lem zero dq v = elim (pop_front_cases dq v) [
  | inl (e, pops, none_left) ↦
      rw (read_bytes, pops, pops) (v, rw none_left refl, rw none_left refl, refl)
  | inr (x, dq', e, pops, holds, v', same) ↦
      rw (read_bytes, pops, pops) (v', rw holds refl, rw holds refl, same)
]
read_bytes_lem (suc left) dq v = elim (pop_front_cases dq v) [
  | inl (e, pops, none_left) ↦
      rw (read_bytes, pops, pops) (v, rw none_left refl, rw none_left refl, refl)
  | inr (x, dq', e, pops, holds, v', same) ↦ elim (pop_front_cases dq' v') [
    | inl (e', pops', none_left) ↦
        rw (read_bytes, pops, pops, e')
          (v', rw (holds, none_left) refl, rw (holds, none_left) refl, same)
    | inr (x', dq'', e', pops', holds', v'', same') ↦
        let (valid, front, rest, size) = read_bytes_lem left dq' v' in
        rw (read_bytes, pops, pops, e')
          (valid, rw holds (ap (◌∷◌ x) front), rw holds rest, size ∙ same)
  ]
]

-- `write_bytes` appends the first bytes of `bytes`, as many as there is room for.
pub write_bytes_lem :
    (bytes : List ℕ) (dq : Deque)
    → IsValid dq
    → let (n, dq') = write_bytes bytes dq in
      IsValid dq'
      × (n ≡ min (length bytes) (dq.size - 1 - length (contents dq)))
      × (contents dq' ≡ contents dq ++ take n bytes)
      × (dq'.size ≡ dq.size)
unfolding write_bytes
write_bytes_lem [] dq v = (v, omega arith, sym (append_nil (contents dq)), refl)
write_bytes_lem (c ∷ cs) dq v = elim (push_back_cases dq c v) [
  | inl (e, full) ↦ rw e (v, omega (arith, full), sym (append_nil (contents dq)), refl)
  | inr (dq', e, room, pushes, holds, v', same) ↦
      let (valid, n, rest, size) = write_bytes_lem cs dq' v' in
      let longer : length (contents dq') ≡ suc (length (contents dq)) =
        rw holds (omega (arith, length-append (contents dq) (c ∷ []))) in
      rw (pushes, e, pushes)
        (
          valid,
          omega (arith, n, longer, same, room),
          rest ∙ rw holds (append_assoc (contents dq) (c ∷ []) _),
          size ∙ same,
        )
]
