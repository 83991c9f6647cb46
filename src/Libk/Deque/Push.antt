-- ===== src/Libk/Deque/Push.antt =====
-- Pushing onto a valid deque, against the sequence of its bytes.
use dummy_os.Prelude.{
  ℕ, suc, ◌-◌, ◌%◌, ◌≤◌, ◌<◌, ◌⊎◌, ◌≡◌, refl, length, leb, true, sym, ap, ◌∙◌, [], ◌∷◌, ◌++◌, set,
  arith, Bool-cases, inl, inr, success, false,
}
use dummy_os.Libk.Deque.{Deque, deque_full, deque_push_front, deque_push_back, before, add_size}
use dummy_os.Libk.Deque.Bounds.{
  IsValid, slot, slot_cases, count, next_cases, before_cases, count_cases, deque_full_lem,
  deque_push_back-IsValid,
}
use dummy_os.Libk.Deque.Spec
use dummy_os.Libk.Deque.Window.{window, contents, length-contents, window-set_end, window-set_front}

-- The states that the updates leave, where they succeed.
abbrev pub back_pushed : Deque → ℕ → Deque
back_pushed dq b = record dq {
  buffer = set dq.buffer dq.tail b;
  tail = add_size dq.tail 1 % dq.size;
}

abbrev front_pushed : Deque → ℕ → Deque
front_pushed dq b = record dq {
  head = before dq dq.head;
  buffer = set dq.buffer (before dq dq.head) b;
}

count-back_pushed :
    (dq : Deque) (b : ℕ)
    → IsValid dq
    → deque_full dq ≡ false
    → (suc (count dq) < dq.size)
      × (count (back_pushed dq b) ≡ suc (count dq))
      × (slot dq.size dq.head (count dq) ≡ dq.tail)
unfolding deque_full
count-back_pushed dq b v room =
    let at = next_cases dq.size dq.tail v.tail_in v.small in
    let held = count_cases dq v in
    ground (
      arith,
      at,
      held,
      slot_cases dq.size dq.head (count dq) v.head_in (ground arith),
      slot_cases dq.size (add_size dq.tail 1 % dq.size) (dq.size - dq.head) (ground arith)
          (omega arith),
    )

pub contents-back_pushed :
    (dq : Deque) (b : ℕ)
    → IsValid dq
    → deque_full dq ≡ false
    → contents (back_pushed dq b) ≡ contents dq ++ (b ∷ [])
contents-back_pushed dq b v room =
    let (fits, more, at) = count-back_pushed dq b v room in
    ap (window (set dq.buffer dq.tail b) dq.size dq.head) more
    ∙ window-set_end dq.buffer dq.size dq.head (count dq) dq.tail b v.storage v.head_in
        (omega arith) (sym at)

-- The two ways in which a push at the back goes.
pub push_back_cases :
    (dq : Deque) (b : ℕ)
    → IsValid dq
    → ((deque_full dq ≡ true) × (dq.size - 1 ≤ length (contents dq)))
      ⊎ ((dq' : Deque) × (deque_full dq ≡ false)
          × (length (contents dq) < dq.size - 1)
          × (deque_push_back dq b ≡ (success, dq'))
          × (contents dq' ≡ contents dq ++ (b ∷ []))
          × IsValid dq'
          × (dq'.size ≡ dq.size))
unfolding deque_push_back
push_back_cases dq b v = elim (Bool-cases (deque_full dq)) [
  | inl e ↦
      let test : leb (dq.size - 1) (count dq) ≡ true = sym (deque_full_lem dq v) ∙ e in
      inl (e, rw (length-contents dq) (ground arith))
  | inr e ↦
      let test : leb (dq.size - 1) (count dq) ≡ false = sym (deque_full_lem dq v) ∙ e in
      inr (
        back_pushed dq b,
        e,
        rw (length-contents dq) (ground arith),
        rw e refl,
        contents-back_pushed dq b v e,
        rw e at (deque_push_back-IsValid dq b v),
        refl,
      )
]

-- Pushing at the back is `Spec.push_back` at the capacity `size - 1`.
pub push_back_refines :
    (dq : Deque) (b : ℕ)
    → IsValid dq
    → let (r, dq') = deque_push_back dq b in
      (r, contents dq') ≡ Spec.push_back (dq.size - 1) (contents dq) b
unfolding deque_push_back Spec.push_back
push_back_refines dq b v = elim (Bool-cases (deque_full dq)) [
  | inl full ↦ rw full (rw (length-contents dq, ← deque_full_lem dq v, full))
  | inr room ↦ rw room (
      rw (length-contents dq, ← deque_full_lem dq v, room)
        (ap (λ xs. (success, xs)) (contents-back_pushed dq b v room)))
]

count-front_pushed :
    (dq : Deque) (b : ℕ)
    → IsValid dq
    → deque_full dq ≡ false
    → (suc (count dq) < dq.size)
      × (count (front_pushed dq b) ≡ suc (count dq))
      × (dq.head ≡ slot dq.size (before dq dq.head) 1)
      × (before dq dq.head < dq.size)
unfolding deque_full
count-front_pushed dq b v room =
    let at = next_cases dq.size dq.tail v.tail_in v.small in
    let held = count_cases dq v in
    let to = before_cases dq dq.head v v.head_in in
    ground (
      arith,
      at,
      held,
      to,
      slot_cases dq.size (before dq dq.head) 1 (ground arith) (omega arith),
      slot_cases dq.size dq.tail (dq.size - before dq dq.head) v.tail_in (ground arith),
    )

-- Pushing at the front is `Spec.push_front` at the capacity `size - 1`.
pub push_front_refines :
    (dq : Deque) (b : ℕ)
    → IsValid dq
    → let (r, dq') = deque_push_front dq b in
      (r, contents dq') ≡ Spec.push_front (dq.size - 1) (contents dq) b
unfolding deque_push_front Spec.push_front
push_front_refines dq b v = elim (Bool-cases (deque_full dq)) [
  | inl full ↦ rw full (rw (length-contents dq, ← deque_full_lem dq v, full))
  | inr room ↦
      rw room (
        rw (length-contents dq, ← deque_full_lem dq v, room)
          (ap (λ xs. (success, xs)) (grown room)))
]
  where
    grown : deque_full dq ≡ false → contents (front_pushed dq b) ≡ b ∷ contents dq
    grown room =
        let (fits, more, at, inside) = count-front_pushed dq b v room in
        ap (window (set dq.buffer (before dq dq.head) b) dq.size (before dq dq.head)) more
        ∙ window-set_front dq.buffer dq.size dq.head (count dq) (before dq dq.head) b v.storage
            inside (omega arith) at
