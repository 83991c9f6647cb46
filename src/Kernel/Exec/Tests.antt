-- ===== src/Kernel/Exec/Tests.antt =====
-- An instance of the theorem on the arguments, and runs.
use dummy_os.Prelude.{
  ℕ, ◌-◌, ◌≤◌, ◌≡◌, refl, Bool, false, List, [], ◌∷◌, ok, err, enomem, arith, some,
}
use dummy_os.Kernel.Exec.{
  UserArg, user_args_copy_to_user, user_args_get_arg, get_new_process_name, user_args_data_size,
  user_args_array_size,
}
use dummy_os.Libk.Utils.{align_down}
use dummy_os.Kernel.Exec.Layout.{Finds}
use dummy_os.Kernel.Exec.Stack.{user_args_copy_to_user-Finds}

-- The command `ls -a`.
abbrev command : List UserArg
command =
    record { str = b'l' ∷ b's' ∷ 0 ∷ []; len = 2 }
    ∷ record { str = b'-' ∷ b'a' ∷ 0 ∷ []; len = 2 }
    ∷ []

abbrev no_fault : ℕ → Bool
no_fault a = false

abbrev zeros : ℕ → ℕ
zeros a = 0

user_args_copy_to_user-Finds_example :
    (array : ℕ) × (after : ℕ → ℕ) × (user_args_copy_to_user no_fault command 8191 4096 zeros
      ≡ (ok array, after))
    × Finds after array command
    × (8191 - 4096 ≤ array)
user_args_copy_to_user-Finds_example =
    user_args_copy_to_user-Finds no_fault command 8191 4096 zeros (omega arith, (omega arith, tt))
      (omega arith) (omega arith) (omega arith) (λ a lo hi. refl)

-- Without room for the pointers.
too_small_test : user_args_copy_to_user no_fault command 8191 16 zeros ≡ (err enomem, zeros)
unfolding user_args_copy_to_user align_down user_args_data_size user_args_array_size
too_small_test = refl

name_test : get_new_process_name (b'x' ∷ 0 ∷ []) (some command) ≡ some (b'l' ∷ b's' ∷ 0 ∷ [])
unfolding get_new_process_name user_args_get_arg
name_test = refl
