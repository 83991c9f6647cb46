-- ===== src/Libk/Deque/Tests.antt =====
-- The deque on concrete inputs.
use dummy_os.Prelude.{◌≡◌, refl, List, [], ◌∷◌, ok, err, enospc, espipe, arith}
use dummy_os.Libk.Deque.{
  Deque, deque_push_front, deque_push_back, deque_pop_front, deque_pop_back, deque_back,
}
use dummy_os.Libk.Deque.Bounds.{IsValid}
use dummy_os.Libk.Deque.Run.{
  Op, push_front, push_back, pop_front, pop_back, back, run, spec_run, run_refines,
}

-- Two bytes round the end of a ring of three cells, which is then full.
abbrev wrapped : Deque
wrapped = record { buffer = 9 ∷ 7 ∷ 8 ∷ []; head = 2; tail = 1; size = 3 }

wrapped-IsValid : IsValid wrapped
wrapped-IsValid = omega arith

abbrev script : List Op
script = push_back 5 ∷ pop_front ∷ push_front 4 ∷ back ∷ pop_back ∷ pop_back ∷ pop_back ∷ []

run-wrapped : run wrapped script ≡ err enospc ∷ ok 8 ∷ ok 0 ∷ ok 9 ∷ ok 9 ∷ ok 4 ∷ err espipe ∷ []
unfolding run deque_push_front deque_push_back deque_pop_front deque_pop_back deque_back
run-wrapped = refl

run_refines_example : run wrapped script ≡ spec_run 2 (8 ∷ 9 ∷ []) script
run_refines_example = run_refines wrapped script wrapped-IsValid
