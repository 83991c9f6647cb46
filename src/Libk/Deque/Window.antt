-- ===== src/Libk/Deque/Window.antt =====
-- The bytes that a deque holds, as a list, and what a write does to them.
use dummy_os.Prelude.{
  ℕ, suc, ◌≤◌, ◌<◌, ◌≡◌, ◌≢◌, ap, ap₂, ◌∙◌, List, [], ◌∷◌, ◌++◌, length, get_or, set,
  get_or-set_self, get_or-set_ne, tabulate, length-tabulate, tabulate-snoc, tabulate_ext, arith,
}
use dummy_os.Libk.Deque.{Deque}
use dummy_os.Libk.Deque.Bounds.{slot, slot_cases, count}

-- The `n` bytes of the ring from cell `h` on.
abbrev pub window : List ℕ → ℕ → ℕ → ℕ → List ℕ
window buffer s h n = tabulate n (λ k. get_or buffer (slot s h k) 0)

abbrev pub contents : Deque → List ℕ
contents dq = window dq.buffer dq.size dq.head (count dq)

pub length-contents : (dq : Deque) → length (contents dq) ≡ count dq
length-contents dq = length-tabulate (count dq) (λ k. get_or dq.buffer (slot dq.size dq.head k) 0)

-- Two of the first `s` cells from `h` on are different.
pub slot_ne : (s h k j : ℕ) → h < s → k < j → j < s → slot s h j ≢ slot s h k
slot_ne s h k j p q r =
    ground (arith, slot_cases s h k p (omega arith), slot_cases s h j p (omega arith))

pub slot_lt : (s h k : ℕ) → h < s → k ≤ s → slot s h k < s
slot_lt s h k p q = ground (arith, slot_cases s h k p q)

pub slot-suc : (s h k : ℕ) → h < s → k < s → slot s h (suc k) ≡ slot s (slot s h 1) k
slot-suc s h k p q = ground (
  arith,
  slot_cases s h (suc k) p q,
  slot_cases s h 1 p (omega arith),
  slot_cases s (slot s h 1) k (slot_lt s h 1 p (omega arith)) (omega arith),
)

-- A write behind a window extends the window by the byte written.
pub window-set_end :
    (buffer : List ℕ) (s h n i b : ℕ)
    → s ≤ length buffer
    → h < s
    → n < s
    → i ≡ slot s h n
    → window (set buffer i b) s h (suc n) ≡ window buffer s h n ++ (b ∷ [])
window-set_end buffer s h n i b fits p q e =
    tabulate-snoc n (λ k. get_or (set buffer i b) (slot s h k) 0)
    ∙ ap₂ ◌++◌ (tabulate_ext n _ _ old) (ap (λ x. x ∷ []) new)
  where
    old : (k : ℕ) → k < n → get_or (set buffer i b) (slot s h k) 0 ≡ get_or buffer (slot s h k) 0
    old k r = get_or-set_ne buffer i (slot s h k) b 0 (rw e (slot_ne s h k n p r q))

    new : get_or (set buffer i b) (slot s h n) 0 ≡ b
    new = rw (← e) (get_or-set_self buffer i b 0 (omega (arith, slot_lt s h n p (omega arith))))

pub window-suc :
    (buffer : List ℕ) (s h n : ℕ)
    → h < s
    → n < s
    → window buffer s h (suc n) ≡ get_or buffer h 0 ∷ window buffer s (slot s h 1) n
window-suc buffer s h n p q =
    ap₂ ◌∷◌ (ap (λ i. get_or buffer i 0) (ground (arith, slot_cases s h 0 p (omega arith))))
      (tabulate_ext n _ _ λ k r. ap (λ i. get_or buffer i 0) (slot-suc s h k p (omega arith)))

-- A write outside a window leaves it.
pub window-set_outside :
    (buffer : List ℕ) (s h n i b : ℕ)
    → ((k : ℕ) → k < n → i ≢ slot s h k)
    → window (set buffer i b) s h n ≡ window buffer s h n
window-set_outside buffer s h n i b out =
    tabulate_ext n _ _ λ k r. get_or-set_ne buffer i (slot s h k) b 0 (out k r)

-- A write before a window extends it at the front.
pub window-set_front :
    (buffer : List ℕ) (s h n i b : ℕ)
    → s ≤ length buffer
    → i < s
    → n < s
    → h ≡ slot s i 1
    → window (set buffer i b) s i (suc n) ≡ b ∷ window buffer s h n
window-set_front buffer s h n i b fits p q e =
    window-suc (set buffer i b) s i n p q
    ∙ ap₂ ◌∷◌ (get_or-set_self buffer i b 0 (omega arith))
        (rw (← e) (window-set_outside buffer s h n i b out))
  where
    out : (k : ℕ) → k < n → i ≢ slot s h k
    out k m = rw e (
        rw (← slot-suc s i k p (omega arith)) λ same.
          slot_ne s i 0 (suc k) p (omega arith) (omega arith)
            (ground (arith, slot_cases s i 0 p (omega arith))))
