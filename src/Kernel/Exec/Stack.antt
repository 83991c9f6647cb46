-- ===== src/Kernel/Exec/Stack.antt =====
-- The arguments on a stack that has room for them.
use dummy_os.Prelude.{
  ℕ, ◌+◌, ◌-◌, ◌*◌, ◌/◌, ◌<◌, ◌≤◌, ◌≡◌, refl, ap, ◌∙◌, Bool, false, List, [], ◌∷◌, length, ltb, ok,
  arith,
}
use dummy_os.Prelude.Bits.{bit_and-high_mask}
use dummy_os.Libk.Utils.{word, add32, sub32, align_down}
use dummy_os.Kernel.Exec.{
  UserArg, user_args_data_size, user_args_array_size, with_address, user_args_copy_to_user,
}
use dummy_os.Kernel.Exec.Layout.{Fine, AreArgs, total, laid, Finds, laid-Finds, copy_args-laid}

align_down-4 : (v : ℕ) → v < word → align_down v 4 ≡ v / 4 * 4
unfolding align_down
align_down-4 v h = bit_and-high_mask 2 30 v ∙ omega arith

user_args_data_size-total :
    (args : List UserArg) → total args < word → user_args_data_size args ≡ total args
unfolding user_args_data_size
user_args_data_size-total [] h = refl
user_args_data_size-total (a ∷ rest) h =
    omega (arith, h, user_args_data_size-total rest (omega (arith, h)))

-- On a stack with room for the strings and the pointers, of which no access faults, the arguments are
-- copied, and the program finds the bytes of each one behind the pointer of its number, with a null
-- pointer behind the last, all of them on the stack.
pub user_args_copy_to_user-Finds :
    (faults : ℕ → Bool) (args : List UserArg) (stack_top stack_size : ℕ) (mem : ℕ → ℕ)
    → AreArgs args
    → total args + (length args + 1) * 4 + 3 ≤ stack_size
    → stack_size ≤ stack_top
    → stack_top + stack_size < word
    → Fine faults (stack_top - stack_size) stack_size
    → (array : ℕ) × (after : ℕ → ℕ) × (user_args_copy_to_user faults args stack_top stack_size mem
        ≡ (ok array, after))
      × Finds after array args
      × (stack_top - stack_size ≤ array)
unfolding user_args_copy_to_user user_args_array_size
user_args_copy_to_user-Finds faults args stack_top stack_size mem are room below small fine =
    let start = stack_top - total args in
    let array = (start - (length args + 1) * 4) / 4 * 4 in
    let size = user_args_data_size-total args (omega (arith, room, below, small)) in
    let at : sub32 stack_top (user_args_data_size args) ≡ start =
      omega (arith, size, room, below, small) in
    let down : align_down (sub32 start ((length args + 1) * 4)) 4 ≡ array =
      ap (λ v. align_down v 4) {x = sub32 start ((length args + 1) * 4)}
        {y = start - (length args + 1) * 4} (omega (arith, room, below, small))
      ∙ align_down-4 (start - (length args + 1) * 4) (omega (arith, small)) in
    let inside : stack_top - stack_size ≤ array = omega (arith, room, below) in
    let enough : ltb (add32 array stack_size) stack_top ≡ false =
      ground (arith, inside, below, small) in
    let laid_out =
      copy_args-laid faults array 0 start (stack_top - array) args mem are
        (λ a lo hi. fine a (omega (arith, lo, inside)) (omega (arith, hi, inside, below)))
        (omega (arith, room, below)) (omega (arith, room, below)) in
    (
      array,
      laid array start args mem,
      rw (at, down, enough)
          (ap (with_address array) laid_out
            ∙ ap (λ q. (ok array, laid q start args mem)) {x = array + 0 * 4} {y = array}
                (omega arith)),
      laid-Finds array start args mem are (omega (arith, room, below))
          (omega (arith, room, below, small)),
      inside,
    )
