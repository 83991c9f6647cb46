-- ===== src/Kernel/Signal/Tests.antt =====
-- Signals on concrete inputs: SIGINT and SIGTERM have handlers, the first with SA_RESETHAND.
use Prim.Native.Nat.{min, max, bit_and}
use dummy_os.Prelude.{
  ◌-◌, ◌≤◌, ◌≡◌, refl, List, [], ◌∷◌, ◌==◌, if◌then◌else◌, ok, none, success, arith,
}
use dummy_os.Prelude.Bits.{bit, pow2}
use dummy_os.Kernel.Signal.{
  SignalManager, SigAction, QueuedSiginfo, no_action, handle, signal_is, signal_reset_handler,
  handler_mask, sys_sigprocmask, sig_block, sig_unblock, sig_setmask, sigset_contains, sigkill,
  sa_nodefer,
}
use dummy_os.Kernel.Signal.Nested.{handling_all, returns, returns-handling_all}
use dummy_os.Kernel.Signal.Mask.{handler_mask-bit, sys_sigprocmask-bit, sys_sigprocmask-sigkill}

abbrev on_int : SigAction
on_int = record { sa_handler = 0x8000; sa_mask = 0x100; sa_flags = 4 }

abbrev on_term : SigAction
on_term = record { sa_handler = 0x9000; sa_mask = 0; sa_flags = 0 }

abbrev process : SignalManager
process = record {
  sig_queue = [];
  mask = 1;
  actions = λ i. if i == 1 then on_int else if i == 14 then on_term else no_action;
  handled_stack = [];
}

abbrev int_then_term : List QueuedSiginfo
int_then_term =
    record { si_signo = 2; si_pid = 5; saved_mask = 0 }
    ∷ record { si_signo = 15; si_pid = 5; saved_mask = 0 }
    ∷ []

mask-int_then_term : (handling_all int_then_term process).mask ≡ 0x4103
unfolding handling_all handle signal_is signal_reset_handler handler_mask
mask-int_then_term = refl

returns-handling_all_example :
    let sigm' = returns 2 (handling_all int_then_term process) in
    (sigm'.mask ≡ 1) × (sigm'.handled_stack ≡ []) × (sigm'.sig_queue ≡ [])
unfolding handle signal_is signal_reset_handler
returns-handling_all_example =
    returns-handling_all int_then_term process ((refl, refl), ((refl, refl), tt))

handler_mask-bit_test :
    (bit 3 6 ≤ bit 3 (handler_mask 2 on_int 6))
    × (bit 3 0x100 ≤ bit 3 (handler_mask 2 on_int 6))
    × ((if bit_and 4 sa_nodefer == 0 then 1 else 0) ≤ bit 1 (handler_mask 2 on_int 6))
handler_mask-bit_test = handler_mask-bit 2 on_int 6 3

sys_sigprocmask-bit_example :
    let (blocked, s1) = sys_sigprocmask sig_block (ok 6) none process in
    let (unblocked, s2) = sys_sigprocmask sig_unblock (ok 6) none process in
    let (set, s3) = sys_sigprocmask sig_setmask (ok 6) none process in
    ((blocked ≡ success) × (bit 2 s1.mask ≡ max (bit 2 1) (bit 2 6)))
    × ((unblocked ≡ success) × (bit 2 s2.mask ≡ min (bit 2 1) (1 - bit 2 6)))
    × ((set ≡ success) × (s3.mask ≡ 6))
unfolding sigset_contains
sys_sigprocmask-bit_example = sys_sigprocmask-bit 6 2 process (omega arith) (omega arith) refl refl

sys_sigprocmask-sigkill_example :
    let (r, sigm') = sys_sigprocmask sig_block (ok (pow2 (sigkill - 1))) none process in
    (r ≡ success) × (bit (sigkill - 1) sigm'.mask ≡ 1)
sys_sigprocmask-sigkill_example = sys_sigprocmask-sigkill process
