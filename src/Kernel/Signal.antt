-- ===== src/Kernel/Signal.antt =====
-- kernel/signal.c: the signal state of a process. A copy from or to user memory is given by its
-- result, an allocation by whether it succeeds, and the building of the context in which a
-- handler runs, which is the architecture's, by the context or its failure.
pub mod Mask
pub mod Nested
mod Tests
use Prim.Native.Nat.{bit_and, bit_or}
use dummy_os.Prelude.{
  ℕ, ◌-◌, Bool, true, false, not, ◌&&◌, ◌||◌, List, [], ◌∷◌, ◌++◌, ltb, ◌==◌, if◌then◌else◌, Option,
  none, some, Result, ok, err, Status, success, einval, enomem, eagain, efault,
}
use dummy_os.Prelude.Bits.{pow2}
use dummy_os.Libk.Utils.{word}

-- include/dummyos/signal.h
abbrev pub nsig : ℕ
nsig = 20

abbrev pub sigkill : ℕ
sigkill = 9

abbrev pub sigchld : ℕ
sigchld = 17

abbrev pub sigstop : ℕ
sigstop = 19

abbrev pub sig_dfl : ℕ
sig_dfl = 0

abbrev pub sig_ign : ℕ
sig_ign = 1

abbrev pub sig_setmask : ℕ
sig_setmask = 0

abbrev pub sig_block : ℕ
sig_block = 1

abbrev pub sig_unblock : ℕ
sig_unblock = 2

abbrev pub sa_nodefer : ℕ
sa_nodefer = 1

abbrev pub sa_resethand : ℕ
sa_resethand = 4

-- `struct sigaction`; both members of its union are the same word.
pub record SigAction : Type 0 where
  pub sa_handler : ℕ
  pub sa_mask : ℕ
  pub sa_flags : ℕ

-- `queued_siginfo_t`, with the signal and the sender of its `siginfo_t`.
pub record QueuedSiginfo : Type 0 where
  pub si_signo : ℕ
  pub si_pid : ℕ
  pub saved_mask : ℕ

-- `struct signal_manager`; an intrusive list is the sequence of its nodes, and `actions` is
-- indexed by `sig - 1`.
pub record SignalManager : Type 0 where
  pub sig_queue : List QueuedSiginfo
  pub mask : ℕ
  pub actions : ℕ → SigAction
  pub handled_stack : List QueuedSiginfo

abbrev pub no_action : SigAction
no_action = record { sa_handler = sig_dfl; sa_mask = 0; sa_flags = 0 }

unfoldable pub sig_is_valid : ℕ → Bool
sig_is_valid sig = ltb 0 sig && ltb sig nsig

unfoldable pub sig_is_settable : ℕ → Bool
unfolding sig_is_valid
sig_is_settable sig = sig_is_valid sig && not (sig == sigkill) && not (sig == sigstop)

-- `set & (1 << sig)`
unfoldable pub sigset_contains : ℕ → ℕ → Bool
sigset_contains set sig = not (bit_and set (pow2 sig) == 0)

-- `~set` on 32 bits
abbrev pub complement : ℕ → ℕ
complement set = word - 1 - set

-- The mask that a call with `uset` asks for.
abbrev pub new_mask : ℕ → ℕ → ℕ → Result ℕ
new_mask how mask uset =
    if how == sig_block
    then ok (bit_or mask uset)
    else if how == sig_unblock
    then ok (bit_and mask (complement uset))
    else if how == sig_setmask
    then ok uset
    else err einval

-- `oset` is `none` for NULL, or how the copy to it ends.
abbrev pub set_mask : Option Status → SignalManager → Result ℕ → Status × SignalManager
set_mask oset sigm (err e) = (err e, sigm)
set_mask (some (err e)) sigm (ok new) = (err e, sigm)
set_mask (some (ok u)) sigm (ok new) = (success, record sigm { mask = new })
set_mask none sigm (ok new) = (success, record sigm { mask = new })

unfoldable pub sys_sigprocmask :
    ℕ → Result ℕ → Option Status → SignalManager → Status × SignalManager
sys_sigprocmask how (err e) oset sigm = (err e, sigm)
sys_sigprocmask how (ok uset) oset sigm =
    if ((how == sig_block) || (how == sig_setmask))
      && (sigset_contains uset sigkill || sigset_contains uset sigstop)
    then (err einval, sigm)
    else set_mask oset sigm (new_mask how sigm.mask uset)

-- `sigaction`: the old action, and the new state.
unfoldable pub sigaction : ℕ → SigAction → SignalManager → SigAction × SignalManager
sigaction sig act sigm = (
  sigm.actions (sig - 1),
  record sigm { actions = λ i. if i == sig - 1 then act else sigm.actions i },
)

-- As the code has it, the action stays set when the copy of the old one fails.
unfoldable pub sys_sigaction :
    ℕ → Result SigAction → Option Status → SignalManager → Status × SignalManager
sys_sigaction sig act oact sigm =
    if not (sig_is_settable sig) then (err einval, sigm) else elim act [
      | err _ ↦ (err efault, sigm)
      | ok new ↦
          let (old, sigm') = sigaction sig new sigm in
          elim oact [ none ↦ (success, sigm') | some copied ↦ (copied, sigm') ]
    ]

unfoldable pub signal_init : SignalManager
signal_init = record { sig_queue = []; mask = 0; actions = λ i. no_action; handled_stack = [] }

-- `signal_copy`, what `dst` becomes.
unfoldable pub signal_copy : SignalManager → SignalManager
signal_copy src = record src { sig_queue = []; handled_stack = [] }

unfoldable pub signal_reset_dispositions : SignalManager → SignalManager
unfolding signal_init
signal_reset_dispositions sigm = record signal_init { mask = sigm.mask }

unfoldable pub signal_pending : SignalManager → Bool
signal_pending sigm = elim sigm.sig_queue [ [] ↦ false | _ ∷ _ ↦ true ]

unfoldable pub signal_is : ℕ → SignalManager → ℕ → Bool
signal_is sig sigm hdlr = (sigm.actions (sig - 1)).sa_handler == hdlr

unfoldable pub queued_siginfo_init : ℕ → ℕ → QueuedSiginfo
queued_siginfo_init sig sender = record { si_signo = sig; si_pid = sender; saved_mask = 0 }

-- `mem` says whether the allocation succeeds; `sender` is 0 for no process.
unfoldable pub signal_send : Bool → ℕ → ℕ → SignalManager → Status × SignalManager
signal_send mem sig sender sigm =
    if mem
    then (
      success,
      record sigm { sig_queue = sigm.sig_queue ++ (queued_siginfo_init sig sender ∷ []) },
    )
    else (err enomem, sigm)

unfoldable pub signal_pop : SignalManager → Option QueuedSiginfo × SignalManager
signal_pop sigm = elim sigm.sig_queue [
  | [] ↦ (none, sigm)
  | q ∷ qs ↦ (some q, record sigm { sig_queue = qs })
]

unfoldable pub signal_reset_handler : ℕ → SignalManager → SignalManager
signal_reset_handler sig sigm = record sigm {
  actions = λ i. if i == sig - 1 then no_action else sigm.actions i;
}

-- The mask while the handler of `sig` runs.
unfoldable pub handler_mask : ℕ → SigAction → ℕ → ℕ
handler_mask sig act mask =
    let own = if bit_and act.sa_flags sa_nodefer == 0 then bit_or mask (pow2 (sig - 1)) else mask in
    bit_or own act.sa_mask

-- `handle` from `thr->cpu_context = sh_ctx` on: the signal goes on the stack of those handled.
abbrev pub push_handled : QueuedSiginfo → SigAction → ℕ → SignalManager → SignalManager
push_handled q act saved_mask sigm =
    let sigm' =
      if bit_and act.sa_flags sa_resethand == 0
      then sigm
      else signal_reset_handler q.si_signo sigm in
    record sigm' {
      handled_stack = sigm'.handled_stack ++ (record q { saved_mask = saved_mask } ∷ []);
    }

-- `handle_dfl`; `none` for the process goes on, `some sig` for its exit by `sig`.
unfoldable pub handle_dfl : ℕ → Status × Option ℕ
handle_dfl sig = if sig == sigchld then (success, none) else (err eagain, some sig)

-- How `handle` ends: what it returns, whether the process exits, the context to go on in if it
-- is a new one, and the signal state.
pub record Handled (C : Type 0) : Type 0 where
  pub status : Status
  pub exits : Option ℕ
  pub context : Option C
  pub signals : SignalManager

-- `context` is the context built for the handler, `none` if that failed; `mem` is for the SIGKILL
-- that is sent then.
unfoldable pub handle : {C : Type 0} → Bool → Option C → QueuedSiginfo → SignalManager → Handled C
handle mem context q sigm =
    let act = sigm.actions (q.si_signo - 1) in
    let masked = record sigm { mask = handler_mask q.si_signo act sigm.mask } in
    if signal_is q.si_signo sigm sig_ign
    then record { status = success; exits = none; context = none; signals = sigm }
    else if signal_is q.si_signo sigm sig_dfl
    then (let (r, exits) = handle_dfl q.si_signo in
        record { status = r; exits = exits; context = none; signals = sigm })
    else elim context [
      | some ctx ↦ record {
        status = success;
        exits = none;
        context = some ctx;
        signals = push_handled q act sigm.mask masked;
      }
      | none ↦ record {
        status = err efault;
        exits = none;
        context = none;
        signals = (signal_send mem sigkill 0 masked).1;
      }
    ]

abbrev pub last_of : QueuedSiginfo → List QueuedSiginfo → QueuedSiginfo
last_of q [] = q
last_of q (q' ∷ qs) = last_of q' qs

abbrev pub but_last : QueuedSiginfo → List QueuedSiginfo → List QueuedSiginfo
but_last q [] = []
but_last q (q' ∷ qs) = q ∷ but_last q' qs

-- `sys_sigreturn`; `below` says whether there is a previous context on the kernel stack. The
-- Boolean of the result says whether the thread goes back to it.
unfoldable pub sys_sigreturn : Bool → SignalManager → Bool × SignalManager
sys_sigreturn below sigm = if not below then (false, sigm) else elim sigm.handled_stack [
  | [] ↦ (false, sigm)
  | q ∷ qs ↦ (true, record sigm { handled_stack = but_last q qs; mask = (last_of q qs).saved_mask })
]
