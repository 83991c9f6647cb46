-- ===== src/Libk/Deque/Pop.antt =====
-- Popping from a valid deque, peeking and flushing, against the sequence of its bytes.
use dummy_os.Prelude.{
  ℕ, suc, ◌-◌, ◌%◌, ◌<◌, ◌⊎◌, ◌≡◌, refl, sym, ap, ap₂, ◌∙◌, List, [], ◌∷◌, ◌++◌, get_or,
  tabulate-snoc, arith, Bool-cases, inl, inr, ok, err, espipe, true, false,
}
use dummy_os.Libk.Deque.{
  Deque, deque_empty, deque_pop_front, deque_pop_back, deque_front, deque_back, deque_flush, before,
  add_size,
}
use dummy_os.Libk.Deque.Bounds.{
  IsValid, slot, slot_cases, count, next_cases, before_cases, count_cases, deque_flush-IsValid,
  deque_pop_front-IsValid,
}
use dummy_os.Libk.Deque.Spec
use dummy_os.Libk.Deque.Window.{window, contents, window-suc}

abbrev pub front_popped : Deque → Deque
front_popped dq = record dq { head = add_size dq.head 1 % dq.size }

abbrev back_popped : Deque → Deque
back_popped dq = record dq { tail = before dq dq.tail }

pub contents_of_empty : (dq : Deque) → IsValid dq → deque_empty dq ≡ true → contents dq ≡ []
unfolding deque_empty
contents_of_empty dq v e =
    let e' : count dq ≡ 0 = ground (arith, count_cases dq v) in
    ap (window dq.buffer dq.size dq.head) e'

count-front_popped :
    (dq : Deque)
    → IsValid dq
    → deque_empty dq ≡ false
    → (count dq ≡ suc (count (front_popped dq)))
      × (slot dq.size dq.head 1 ≡ add_size dq.head 1 % dq.size)
      × (suc (count (front_popped dq)) < dq.size)
unfolding deque_empty
count-front_popped dq v full =
    let to = next_cases dq.size dq.head v.head_in v.small in
    ground (
      arith,
      to,
      count_cases dq v,
      slot_cases dq.size dq.head 1 v.head_in (omega arith),
      slot_cases dq.size dq.tail (dq.size - add_size dq.head 1 % dq.size) v.tail_in (omega arith),
    )

pub contents-front_popped :
    (dq : Deque)
    → IsValid dq
    → deque_empty dq ≡ false
    → contents dq ≡ get_or dq.buffer dq.head 0 ∷ contents (front_popped dq)
contents-front_popped dq v e =
    let (fewer, at, fits) = count-front_popped dq v e in
    ap (window dq.buffer dq.size dq.head) fewer
    ∙ window-suc dq.buffer dq.size dq.head (count (front_popped dq)) v.head_in (omega arith)
    ∙ ap (λ h. get_or dq.buffer dq.head 0 ∷ window dq.buffer dq.size h (count (front_popped dq))) at

-- The two ways in which a pop goes.
pub pop_front_cases :
    (dq : Deque)
    → IsValid dq
    → ((deque_empty dq ≡ true) × (deque_pop_front dq ≡ (err espipe, dq)) × (contents dq ≡ []))
      ⊎ ((x : ℕ) × (dq' : Deque) × (deque_empty dq ≡ false)
          × (deque_pop_front dq ≡ (ok x, dq'))
          × (contents dq ≡ x ∷ contents dq')
          × IsValid dq'
          × (dq'.size ≡ dq.size))
unfolding deque_pop_front
pop_front_cases dq v = elim (Bool-cases (deque_empty dq)) [
  | inl e ↦ inl (e, rw e refl, contents_of_empty dq v e)
  | inr e ↦ inr (
    get_or dq.buffer dq.head 0,
    front_popped dq,
    e,
    rw e refl,
    contents-front_popped dq v e,
    rw e at (deque_pop_front-IsValid dq v),
    refl,
  )
]

-- Popping at the front is `Spec.pop_front`.
pub pop_front_refines :
    (dq : Deque)
    → IsValid dq
    → let (r, dq') = deque_pop_front dq in (r, contents dq') ≡ Spec.pop_front (contents dq)
unfolding deque_pop_front Spec.pop_front
pop_front_refines dq v = elim (Bool-cases (deque_empty dq)) [
  | inl none_left ↦ rw none_left (rw (contents_of_empty dq v none_left))
  | inr some_left ↦ rw some_left (rw (contents-front_popped dq v some_left))
]

count-back_popped :
    (dq : Deque)
    → IsValid dq
    → deque_empty dq ≡ false
    → (count dq ≡ suc (count (back_popped dq)))
      × (slot dq.size dq.head (count (back_popped dq)) ≡ before dq dq.tail)
unfolding deque_empty
count-back_popped dq v full =
    let to = before_cases dq dq.tail v v.tail_in in
    let left =
      slot_cases dq.size (before dq dq.tail) (dq.size - dq.head) (ground arith) (omega arith) in
    ground (
      arith,
      to,
      left,
      count_cases dq v,
      slot_cases dq.size dq.head (count (back_popped dq)) v.head_in (ground (arith, left)),
    )

pub pop_back-snoc : (xs : List ℕ) (b : ℕ) → Spec.pop_back (xs ++ (b ∷ [])) ≡ (ok b, xs)
unfolding Spec.pop_back Spec.last Spec.but_last
pop_back-snoc [] b = refl
pop_back-snoc (x ∷ xs) b = ap₂ (λ l r. (ok l, r)) (last-snoc x xs) (but_last-snoc x xs)
  where
    last-snoc : (x : ℕ) (xs : List ℕ) → Spec.last x (xs ++ (b ∷ [])) ≡ b
    last-snoc x [] = refl
    last-snoc x (y ∷ ys) = last-snoc y ys

    but_last-snoc : (x : ℕ) (xs : List ℕ) → Spec.but_last x (xs ++ (b ∷ [])) ≡ x ∷ xs
    but_last-snoc x [] = refl
    but_last-snoc x (y ∷ ys) = ap (◌∷◌ x) (but_last-snoc y ys)

-- The peeking functions read the first and the last byte.
pub front_refines : (dq : Deque) → IsValid dq → deque_front dq ≡ (Spec.pop_front (contents dq)).0
unfolding deque_front deque_pop_front
front_refines dq v = rw (← pop_front_refines dq v) (ground arith)

-- Popping at the back is `Spec.pop_back`.
pub pop_back_refines :
    (dq : Deque)
    → IsValid dq
    → let (r, dq') = deque_pop_back dq in (r, contents dq') ≡ Spec.pop_back (contents dq)
unfolding deque_pop_back
pop_back_refines dq v = elim (Bool-cases (deque_empty dq)) [
  | inl none_left ↦
      rw none_left (rw (contents_of_empty dq v none_left) (unfold Spec.pop_back in refl))
  | inr some_left ↦ rw some_left (
      rw (shrunk some_left)
        (sym (pop_back-snoc (contents (back_popped dq)) (get_or dq.buffer (before dq dq.tail) 0))))
]
  where
    shrunk :
        deque_empty dq ≡ false
        → contents dq ≡ contents (back_popped dq) ++ (get_or dq.buffer (before dq dq.tail) 0 ∷ [])
    shrunk e =
        let (fewer, at) = count-back_popped dq v e in
        ap (window dq.buffer dq.size dq.head) fewer
        ∙ tabulate-snoc (count (back_popped dq)) _
        ∙ ap (λ i. contents (back_popped dq) ++ (get_or dq.buffer i 0 ∷ [])) at

pub back_refines : (dq : Deque) → IsValid dq → deque_back dq ≡ (Spec.pop_back (contents dq)).0
unfolding deque_back deque_pop_back
back_refines dq v = rw (← pop_back_refines dq v) (ground arith)

pub flush_refines : (dq : Deque) → IsValid dq → contents (deque_flush dq) ≡ []
unfolding deque_flush deque_empty
flush_refines dq v = contents_of_empty (deque_flush dq) (deque_flush-IsValid dq v) refl
