-- ===== src/Kernel/Exec.antt =====
-- kernel/exec.c: the arguments that a new program finds on its stack. The memory of the process is
-- its bytes by address; `faults` says at which addresses an access faults.
pub mod Layout
pub mod Stack
mod Tests
use dummy_os.Prelude.{
  ℕ, zero, suc, ◌+◌, ◌-◌, ◌*◌, ◌/◌, ◌%◌, Bool, true, false, ◌&&◌, List, [], ◌∷◌, length, get_or,
  take, tabulate, get_elem?, ltb, leb, ◌==◌, if◌then◌else◌, Option, none, some, Result, Status, ok,
  success, err, enomem, einval,
}
use dummy_os.Libk.Utils.{add32, sub32, align_down}
use dummy_os.Libk.Strings.{strlen}
use dummy_os.Mm.Uaccess.{copy_to_user}

-- `user_arg_t`; the string has its last 0.
pub record UserArg : Type 0 where
  pub str : List ℕ
  pub len : ℕ

abbrev set_str : List UserArg → ℕ → List ℕ → List UserArg
set_str [] i str = []
set_str (a ∷ rest) zero str = record { str = str; len = strlen str } ∷ rest
set_str (a ∷ rest) (suc i) str = a ∷ set_str rest i str

unfoldable pub user_args_set_arg : List UserArg → ℕ → List ℕ → Status × List UserArg
user_args_set_arg user_args i str =
    if leb (length user_args) i then (err einval, user_args) else (success, set_str user_args i str)

unfoldable pub user_args_get_arg : List UserArg → ℕ → Option (List ℕ)
user_args_get_arg user_args i = elim (get_elem? user_args i) [ none ↦ none | some a ↦ some a.str ]

unfoldable pub user_args_data_size : List UserArg → ℕ
user_args_data_size [] = 0
user_args_data_size (a ∷ rest) = add32 (a.len + 1) (user_args_data_size rest)

unfoldable pub user_args_array_size : List UserArg → ℕ
user_args_array_size user_args = (length user_args + 1) * 4

-- The bytes of a pointer.
abbrev pub bytes_of : ℕ → List ℕ
bytes_of v = v % 256 ∷ v / 256 % 256 ∷ v / 65536 % 256 ∷ v / 16777216 % 256 ∷ []

abbrev pub replace : ℕ → List ℕ → (ℕ → ℕ) → ℕ → ℕ
replace addr bytes mem a =
    if leb addr a && ltb a (addr + length bytes) then get_or bytes (a - addr) 0 else mem a

-- `copy_to_user` of some bytes to an address.
unfoldable pub store_user : (ℕ → Bool) → ℕ → List ℕ → (ℕ → ℕ) → Status × (ℕ → ℕ)
store_user faults addr bytes mem =
    let old = tabulate (length bytes) (λ i. mem (addr + i)) in
    let (status, new) = copy_to_user (λ i. faults (addr + i)) old bytes (length bytes) in
    (status, replace addr new mem)

abbrev pub then_store : (ℕ → Bool) → ℕ → List ℕ → Status × (ℕ → ℕ) → Status × (ℕ → ℕ)
then_store faults addr bytes (err e, mem) = (err e, mem)
then_store faults addr bytes (ok _, mem) = store_user faults addr bytes mem

-- The bytes of an argument that are copied.
abbrev pub arg_bytes : UserArg → List ℕ
arg_bytes a = take (a.len + 1) a.str

-- The loop of `user_args_copy_to_user`, from argument `i` on, and the last element.
unfoldable pub copy_args :
    (ℕ → Bool) → ℕ → ℕ → ℕ → List UserArg → Status × (ℕ → ℕ) → Status × (ℕ → ℕ)
copy_args faults array i data_at args (err e, mem) = (err e, mem)
copy_args faults array i data_at [] (ok _, mem) = store_user faults (array + i * 4) (bytes_of 0) mem
copy_args faults array i data_at (a ∷ rest) (ok _, mem) =
    copy_args faults array (suc i) (data_at + (a.len + 1)) rest (
      then_store faults (array + i * 4) (bytes_of data_at)
        (store_user faults data_at (arg_bytes a) mem))

abbrev with_address : ℕ → Status × (ℕ → ℕ) → Result ℕ × (ℕ → ℕ)
with_address array (err e, mem) = (err e, mem)
with_address array (ok _, mem) = (ok array, mem)

-- The address of the array of pointers.
unfoldable pub user_args_copy_to_user :
    (ℕ → Bool) → List UserArg → ℕ → ℕ → (ℕ → ℕ) → Result ℕ × (ℕ → ℕ)
user_args_copy_to_user faults user_args stack_top stack_size mem =
    let data_at = sub32 stack_top (user_args_data_size user_args) in
    let array = align_down (sub32 data_at (user_args_array_size user_args)) 4 in
    if ltb (add32 array stack_size) stack_top
    then (err enomem, mem)
    else with_address array (copy_args faults array 0 data_at user_args (success, mem))

unfoldable pub main_args_copy_to_user :
    (ℕ → Bool) → ℕ → ℕ → ℕ → ℕ → ℕ → (ℕ → ℕ) → Result ℕ × (ℕ → ℕ)
main_args_copy_to_user faults argc argv envp stack_top stack_size mem =
    let args = sub32 argv 12 in
    if ltb (add32 args stack_size) stack_top
    then (err enomem, mem)
    else with_address args (
        then_store faults args (bytes_of argc) (
          then_store faults (args + 4) (bytes_of argv)
            (store_user faults (args + 8) (bytes_of envp) mem)))

abbrev then_main : (ℕ → Bool) → ℕ → ℕ → ℕ → ℕ → Result ℕ × (ℕ → ℕ) → Result ℕ × (ℕ → ℕ)
then_main faults argc envp stack_top stack_size (err e, mem) = (err e, mem)
then_main faults argc envp stack_top stack_size (ok argv, mem) =
    main_args_copy_to_user faults argc argv envp stack_top stack_size mem

abbrev then_argv : (ℕ → Bool) → List UserArg → ℕ → ℕ → Result ℕ × (ℕ → ℕ) → Result ℕ × (ℕ → ℕ)
then_argv faults argv stack_top stack_size (err e, mem) = (err e, mem)
then_argv faults argv stack_top stack_size (ok envp, mem) =
    then_main faults (length argv) envp stack_top stack_size
      (user_args_copy_to_user faults argv envp stack_size mem)

-- The address of the three arguments of the program's start.
unfoldable pub setup_user_args :
    (ℕ → Bool) → ℕ → ℕ → List UserArg → List UserArg → (ℕ → ℕ) → Result ℕ × (ℕ → ℕ)
setup_user_args faults stack_bottom stack_size argv envp mem =
    let stack_top = sub32 (add32 stack_bottom stack_size) 1 in
    then_argv faults argv stack_top stack_size
      (user_args_copy_to_user faults envp stack_top stack_size mem)

-- The arguments stand for `argv`, if there is one.
unfoldable pub get_new_process_name : List ℕ → Option (List UserArg) → Option (List ℕ)
get_new_process_name path none = some path
get_new_process_name path (some argv) =
    if ltb 0 (length argv) then user_args_get_arg argv 0 else some path
