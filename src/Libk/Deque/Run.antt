-- ===== src/Libk/Deque/Run.antt =====
-- Sequences of calls on one deque, against the same calls on a bounded sequence of bytes.
use dummy_os.Prelude.{ℕ, ◌-◌, ◌≡◌, refl, ap, List, [], ◌∷◌, Result, ok, err, arith}
use dummy_os.Libk.Deque.{
  Deque, deque_flush, deque_push_front, deque_push_back, deque_pop_front, deque_pop_back,
  deque_front, deque_back,
}
use dummy_os.Libk.Deque.Bounds.{
  IsValid, deque_push_front-IsValid, deque_push_back-IsValid, deque_pop_front-IsValid,
  deque_pop_back-IsValid, deque_flush-IsValid,
}
use dummy_os.Libk.Deque.Window.{contents}
use dummy_os.Libk.Deque.Push.{push_back_refines, push_front_refines}
use dummy_os.Libk.Deque.Pop.{
  pop_front_refines, pop_back_refines, front_refines, back_refines, flush_refines,
}
use dummy_os.Libk.Deque.Spec

-- The calls of deque.h that a client makes.
pub data Op : Type 0 where
  push_front push_back : ℕ → Op
  pop_front pop_back front back flush : Op

-- What a call returns; a successful push gives 0 like the C function.
abbrev pub reply_of_push : Result (Unit {0}) → Result ℕ
reply_of_push (ok u) = ok 0
reply_of_push (err e) = err e

unfoldable pub step : Deque → Op → Result ℕ × Deque
step dq (push_front b) = let (r, dq') = deque_push_front dq b in (reply_of_push r, dq')
step dq (push_back b) = let (r, dq') = deque_push_back dq b in (reply_of_push r, dq')
step dq pop_front = deque_pop_front dq
step dq pop_back = deque_pop_back dq
step dq front = (deque_front dq, dq)
step dq back = (deque_back dq, dq)
step dq flush = (ok 0, deque_flush dq)

unfoldable pub spec_step : ℕ → List ℕ → Op → Result ℕ × List ℕ
spec_step cap xs (push_front b) = let (r, ys) = Spec.push_front cap xs b in (reply_of_push r, ys)
spec_step cap xs (push_back b) = let (r, ys) = Spec.push_back cap xs b in (reply_of_push r, ys)
spec_step cap xs pop_front = Spec.pop_front xs
spec_step cap xs pop_back = Spec.pop_back xs
spec_step cap xs front = ((Spec.pop_front xs).0, xs)
spec_step cap xs back = ((Spec.pop_back xs).0, xs)
spec_step cap xs flush = (ok 0, [])

unfoldable pub run : Deque → List Op → List (Result ℕ)
unfolding step
run dq [] = []
run dq (op ∷ ops) = let (r, dq') = step dq op in r ∷ run dq' ops

unfoldable pub spec_run : ℕ → List ℕ → List Op → List (Result ℕ)
unfolding spec_step
spec_run cap xs [] = []
spec_run cap xs (op ∷ ops) = let (r, ys) = spec_step cap xs op in r ∷ spec_run cap ys ops

pub step-IsValid : (dq : Deque) (op : Op) → IsValid dq → IsValid (step dq op).1
unfolding step
step-IsValid dq (push_front b) v = deque_push_front-IsValid dq b v
step-IsValid dq (push_back b) v = deque_push_back-IsValid dq b v
step-IsValid dq pop_front v = deque_pop_front-IsValid dq v
step-IsValid dq pop_back v = deque_pop_back-IsValid dq v
step-IsValid dq front v = v
step-IsValid dq back v = v
step-IsValid dq flush v = deque_flush-IsValid dq v

size-step : (dq : Deque) (op : Op) → (step dq op).1.size ≡ dq.size
unfolding step deque_push_front deque_push_back deque_pop_front deque_pop_back deque_flush
size-step dq (push_front b) = ground arith
size-step dq (push_back b) = ground arith
size-step dq pop_front = ground arith
size-step dq pop_back = ground arith
size-step dq front = refl
size-step dq back = refl
size-step dq flush = refl

step_refines :
    (dq : Deque) (op : Op)
    → IsValid dq
    → let (r, dq') = step dq op in (r, contents dq') ≡ spec_step (dq.size - 1) (contents dq) op
unfolding step spec_step
step_refines dq (push_front b) v =
    ap (λ (p : Result (Unit {0}) × List ℕ). (reply_of_push p.0, p.1)) (push_front_refines dq b v)
step_refines dq (push_back b) v =
    ap (λ (p : Result (Unit {0}) × List ℕ). (reply_of_push p.0, p.1)) (push_back_refines dq b v)
step_refines dq pop_front v = pop_front_refines dq v
step_refines dq pop_back v = pop_back_refines dq v
step_refines dq front v = ap (λ r. (r, contents dq)) (front_refines dq v)
step_refines dq back v = ap (λ r. (r, contents dq)) (back_refines dq v)
step_refines dq flush v = ap (λ xs. (ok 0, xs)) (flush_refines dq v)

-- Every sequence of calls on a valid deque gets the replies that a sequence of at most `size - 1`
-- bytes, which starts with the deque's contents, gives to the same calls.
pub run_refines :
    (dq : Deque) (ops : List Op)
    → IsValid dq
    → run dq ops ≡ spec_run (dq.size - 1) (contents dq) ops
unfolding run spec_run
run_refines dq [] v = refl
run_refines dq (op ∷ ops) v =
    rw (run_refines (step dq op).1 ops (step-IsValid dq op v), ← step_refines dq op v, size-step)
