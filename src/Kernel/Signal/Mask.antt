-- ===== src/Kernel/Signal/Mask.antt =====
-- Which signals are blocked, bit by bit of the mask.
use Prim.Native.Nat.{min, max, bit_and, bit_or}
use dummy_os.Prelude.{
  ℕ, zero, suc, ◌-◌, ◌/◌, ◌<◌, ◌≤◌, ◌≡◌, refl, ap, ◌∙◌, false, arith, Bool-cases, inl, inr, ok,
  none, success, ◌==◌, if◌then◌else◌,
}
use dummy_os.Prelude.Bits.{bit, pow2, bit-bit_and, bit-bit_or, bit-lt}
use dummy_os.Libk.Utils.{word}
use dummy_os.Kernel.Signal.{
  SignalManager, SigAction, handler_mask, sys_sigprocmask, complement, sig_block, sig_unblock,
  sig_setmask, sigset_contains, sigkill, sigstop, sa_nodefer,
}

bit-pow2 : (k : ℕ) → bit k (pow2 k) ≡ 1
unfolding bit
bit-pow2 zero = refl
bit-pow2 (suc k) = ap (bit k) {y = pow2 k} (omega arith) ∙ bit-pow2 k

complement_bits : (i k set : ℕ) → i < k → set < pow2 k → bit i (pow2 k - 1 - set) ≡ 1 - bit i set
unfolding bit
complement_bits i zero set h in_word = absurd (omega arith)
complement_bits zero (suc k) set h in_word = omega arith
complement_bits (suc i) (suc k) set h in_word =
    ap (bit i) {y = pow2 k - 1 - set / 2} (omega arith)
    ∙ complement_bits i k (set / 2) (omega arith) (omega arith)

-- While the handler of `sig` runs, every signal is blocked that was blocked before or that the
-- mask of the action names, and `sig` itself unless the action has SA_NODEFER.
pub handler_mask-bit :
    (sig : ℕ) (act : SigAction) (mask i : ℕ)
    → (bit i mask ≤ bit i (handler_mask sig act mask))
      × (bit i act.sa_mask ≤ bit i (handler_mask sig act mask))
      × ((if bit_and act.sa_flags sa_nodefer == 0 then 1 else 0)
          ≤ bit (sig - 1) (handler_mask sig act mask))
unfolding handler_mask
handler_mask-bit sig act mask i = elim (Bool-cases (bit_and act.sa_flags sa_nodefer == 0)) [
  | inl e ↦ simp e (
      omega (
        arith,
        bit-bit_or i (bit_or mask (pow2 (sig - 1))) act.sa_mask,
        bit-bit_or i mask (pow2 (sig - 1)),
        bit-bit_or (sig - 1) (bit_or mask (pow2 (sig - 1))) act.sa_mask,
        bit-bit_or (sig - 1) mask (pow2 (sig - 1)),
        bit-pow2 (sig - 1),
      ))
  | inr e ↦ simp e (omega (arith, bit-bit_or i mask act.sa_mask))
]

-- For a set that the check for SIGKILL and SIGSTOP passes, and no copy of the old mask, SIG_BLOCK
-- adds the signals of the set to the mask, SIG_UNBLOCK takes them away, and SIG_SETMASK puts the
-- set in its place.
pub sys_sigprocmask-bit :
    (uset i : ℕ) (sigm : SignalManager)
    → uset < word
    → i < 32
    → sigset_contains uset sigkill ≡ false
    → sigset_contains uset sigstop ≡ false
    → let (blocked, s1) = sys_sigprocmask sig_block (ok uset) none sigm in
      let (unblocked, s2) = sys_sigprocmask sig_unblock (ok uset) none sigm in
      let (set, s3) = sys_sigprocmask sig_setmask (ok uset) none sigm in
      ((blocked ≡ success) × (bit i s1.mask ≡ max (bit i sigm.mask) (bit i uset)))
      × ((unblocked ≡ success) × (bit i s2.mask ≡ min (bit i sigm.mask) (1 - bit i uset)))
      × ((set ≡ success) × (s3.mask ≡ uset))
unfolding sys_sigprocmask
sys_sigprocmask-bit uset i sigm in_word small no_kill no_stop =
    rw (no_kill, no_stop)
      (
        (refl, bit-bit_or i sigm.mask uset),
        (
          refl,
          bit-bit_and i sigm.mask (complement uset)
              ∙ ap (min (bit i sigm.mask)) (complement_bits i 32 uset small in_word),
        ),
        (refl, refl),
      )

-- Blocking the set of SIGKILL alone, as `handler_mask` and `sys_signal` number the bits of a set,
-- succeeds and blocks it.
pub sys_sigprocmask-sigkill :
    (sigm : SignalManager)
    → let (r, sigm') = sys_sigprocmask sig_block (ok (pow2 (sigkill - 1))) none sigm in
      (r ≡ success) × (bit (sigkill - 1) sigm'.mask ≡ 1)
unfolding sys_sigprocmask sigset_contains
sys_sigprocmask-sigkill sigm =
    (refl, omega (arith, bit-bit_or 8 sigm.mask 256, bit-pow2 8, bit-lt 8 sigm.mask))
