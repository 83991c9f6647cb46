-- ===== src/Kernel/Signal/Nested.antt =====
-- Handlers that interrupt one another, and their returns.
use dummy_os.Prelude.{
  ℕ, zero, suc, ◌-◌, ◌≡◌, refl, ap, ◌∙◌, true, false, List, [], ◌∷◌, ◌++◌, length, some, arith,
  Bool-cases, inl, inr, ◌==◌,
}
use Prim.Native.Nat.{bit_and}
use dummy_os.Kernel.Signal.{
  QueuedSiginfo, SignalManager, handle, sys_sigreturn, signal_is, sig_ign, sig_dfl, handler_mask,
  last_of, but_last, signal_reset_handler, sa_resethand, push_handled, SigAction,
}

-- The process has a handler for the signal.
abbrev pub HasHandler : QueuedSiginfo → SignalManager → Type 0
HasHandler q sigm =
    (signal_is q.si_signo sigm sig_ign ≡ false) × (signal_is q.si_signo sigm sig_dfl ≡ false)

-- The state when the handler of `q` starts, and when the handlers of `qs` start one after another.
abbrev pub handling : QueuedSiginfo → SignalManager → SignalManager
handling q sigm = (handle true (some tt) q sigm).signals

unfoldable pub handling_all : List QueuedSiginfo → SignalManager → SignalManager
handling_all [] sigm = sigm
handling_all (q ∷ qs) sigm = handling_all qs (handling q sigm)

abbrev pub HaveHandlers : List QueuedSiginfo → SignalManager → Type 0
HaveHandlers [] sigm = Unit
HaveHandlers (q ∷ qs) sigm = HasHandler q sigm × HaveHandlers qs (handling q sigm)

-- `n` handlers return.
unfoldable pub returns : ℕ → SignalManager → SignalManager
returns zero sigm = sigm
returns (suc n) sigm = (sys_sigreturn true (returns n sigm)).1

last-snoc :
    (p : QueuedSiginfo) (qs : List QueuedSiginfo) (q : QueuedSiginfo)
    → last_of p (qs ++ (q ∷ [])) ≡ q
last-snoc p [] q = refl
last-snoc p (x ∷ xs) q = last-snoc x xs q

but_last-snoc :
    (p : QueuedSiginfo) (qs : List QueuedSiginfo) (q : QueuedSiginfo)
    → but_last p (qs ++ (q ∷ [])) ≡ p ∷ qs
but_last-snoc p [] q = refl
but_last-snoc p (x ∷ xs) q = ap (◌∷◌ p) (but_last-snoc x xs q)

-- A return takes the top of the stack and the mask saved there.
sigreturn-snoc :
    (sigm : SignalManager) (qs : List QueuedSiginfo) (q : QueuedSiginfo)
    → sigm.handled_stack ≡ qs ++ (q ∷ [])
    → sys_sigreturn true sigm ≡ (true, record sigm { handled_stack = qs; mask = q.saved_mask })
unfolding sys_sigreturn
sigreturn-snoc sigm [] q e = rw e refl
sigreturn-snoc sigm (x ∷ xs) q e = rw e (simp (last-snoc, but_last-snoc) refl)

handler_runs :
    (q : QueuedSiginfo) (sigm : SignalManager)
    → HasHandler q sigm
    → let act = sigm.actions (q.si_signo - 1) in
      handling q sigm
      ≡ push_handled q act sigm.mask (record sigm { mask = handler_mask q.si_signo act sigm.mask })
unfolding handle
handler_runs q sigm (no_ign, no_dfl) = ground arith

pushed_stack :
    (q : QueuedSiginfo) (act : SigAction) (mask : ℕ) (sigm : SignalManager)
    → ((push_handled q act mask sigm).handled_stack
        ≡ sigm.handled_stack ++ (record q { saved_mask = mask } ∷ []))
      × ((push_handled q act mask sigm).sig_queue ≡ sigm.sig_queue)
unfolding signal_reset_handler
pushed_stack q act mask sigm = elim (Bool-cases (bit_and act.sa_flags sa_resethand == 0)) [
  | inl e ↦ simp e (refl, refl)
  | inr e ↦ simp e (refl, refl)
]

-- A handler that starts leaves the queue, and puts the mask that it found on the stack.
handling_stack :
    (q : QueuedSiginfo) (sigm : SignalManager)
    → HasHandler q sigm
    → ((handling q sigm).handled_stack
        ≡ sigm.handled_stack ++ (record q { saved_mask = sigm.mask } ∷ []))
      × ((handling q sigm).sig_queue ≡ sigm.sig_queue)
handling_stack q sigm has =
    let runs = handler_runs q sigm has in
    let (stack, queue) = pushed_stack q (sigm.actions (q.si_signo - 1)) sigm.mask _ in
    (ap (λ s. s.handled_stack) runs ∙ stack, ap (λ s. s.sig_queue) runs ∙ queue)

-- When signals with handlers interrupt one another, each in the state that the one before left,
-- and the handlers return, in turn, one `sys_sigreturn` for each, the mask and the stack of handled
-- signals are those from before the first, and the queue of pending signals has not changed.
pub returns-handling_all :
    (qs : List QueuedSiginfo) (sigm : SignalManager)
    → HaveHandlers qs sigm
    → let sigm' = returns (length qs) (handling_all qs sigm) in
      (sigm'.mask ≡ sigm.mask)
      × (sigm'.handled_stack ≡ sigm.handled_stack)
      × (sigm'.sig_queue ≡ sigm.sig_queue)
unfolding returns handling_all
returns-handling_all [] sigm h = (refl, refl, refl)
returns-handling_all (q ∷ qs) sigm (has, have) =
    let (mask, stack, queue) = returns-handling_all qs (handling q sigm) have in
    let (pushed, same) = handling_stack q sigm has in
    let t = returns (length qs) (handling_all qs (handling q sigm)) in
    let back =
      sigreturn-snoc t sigm.handled_stack (record q { saved_mask = sigm.mask }) (stack ∙ pushed) in
    (
      ap (λ p. p.1.mask) back,
      ap (λ p. p.1.handled_stack) back,
      ap (λ p. p.1.sig_queue) back ∙ queue ∙ same,
    )
