-- ===== src/Mm/Uaccess/Faults.antt =====
-- What a copy has done when an access faults.
use dummy_os.Prelude.{
  ℕ, zero, suc, ◌+◌, ◌<◌, ◌≤◌, ◌≡◌, ◌⊎◌, refl, sym, ap, ◌∙◌, subst, Bool, true, false, List, [],
  ◌∷◌, ◌++◌, length, take, drop, ◌==◌, if◌then◌else◌, inl, inr, Status, success, err, efault, arith,
}
use dummy_os.Mm.Uaccess.{uaccess_memcpy, copy_to_user}

-- The first access to fault among the `n` from byte `i` on is that of byte `i + k`, or none does and
-- `k` is `n`.
pub record Stops (faults : ℕ → Bool) (i n k : ℕ) : Type 0 where
  pub before : (j : ℕ) → j < k → faults (i + j) ≡ false
  pub at : (k ≡ n) ⊎ ((k < n) × (faults (i + k) ≡ true))

abbrev pub status_at : ℕ → ℕ → Status
status_at n k = if k == n then success else err efault

Stops-zero : (faults : ℕ → Bool) (i k : ℕ) → Stops faults i 0 k → k ≡ 0
Stops-zero faults i k s = elim s.at [ inl e ↦ e | inr (lt, h) ↦ absurd (omega (arith, lt)) ]

Stops-first : (faults : ℕ → Bool) (i n : ℕ) → Stops faults i (suc n) 0 → faults i ≡ true
Stops-first faults i n s = elim s.at [
  | inl e ↦ absurd (omega (arith, e))
  | inr (lt, h) ↦ subst (λ j. faults j ≡ true) (omega arith) h
]

Stops-next :
    (faults : ℕ → Bool) (i n k : ℕ)
    → Stops faults i (suc n) (suc k)
    → (faults i ≡ false) × Stops faults (suc i) n k
Stops-next faults i n k s = (
  subst (λ j. faults j ≡ false) (omega arith) (s.before 0 (omega arith)),
  record {
    before =
        λ j lt. subst (λ m. faults m ≡ false) (omega arith) (s.before (suc j) (omega (arith, lt)));
    at = elim s.at [
      | inl e ↦ inl (omega (arith, e))
      | inr (lt, h) ↦ inr (omega (arith, lt), subst (λ m. faults m ≡ true) (omega arith) h)
    ];
  },
)

copy_fault :
    (faults : ℕ → Bool) (i n : ℕ) (to from : List ℕ)
    → faults i ≡ true
    → uaccess_memcpy faults i to from (suc n) ≡ (err efault, to)
unfolding uaccess_memcpy
copy_fault faults i n to from h = rw h refl

copy_step :
    (faults : ℕ → Bool) (i n t c : ℕ) (to from : List ℕ)
    → faults i ≡ false
    → uaccess_memcpy faults i (t ∷ to) (c ∷ from) (suc n)
      ≡ (let (status, rest) = uaccess_memcpy faults (suc i) to from n in (status, c ∷ rest))
unfolding uaccess_memcpy
copy_step faults i n t c to from h = rw h refl

not_all : (n : ℕ) → (0 == suc n) ≡ false
not_all n = ground arith

both_suc : (k n : ℕ) → (k == n) ≡ (suc k == suc n)
both_suc k n = ground arith

copy_loop :
    (faults : ℕ → Bool) (i k n : ℕ) (to from : List ℕ)
    → Stops faults i n k
    → n ≤ length to
    → n ≤ length from
    → uaccess_memcpy faults i to from n ≡ (status_at n k, take k from ++ drop k to)
copy_loop faults i k zero to from s room bytes =
    subst (λ m. uaccess_memcpy faults i to from 0 ≡ (status_at 0 m, take m from ++ drop m to))
      (sym (Stops-zero faults i k s)) (unfold uaccess_memcpy in refl)
copy_loop faults i zero (suc n) to from s room bytes =
    copy_fault faults i n to from (Stops-first faults i n s)
    ∙ ap (λ b. (if b then success else err efault, to)) (sym (not_all n))
copy_loop faults i (suc k) (suc n) [] from s room bytes = absurd (omega (arith, room))
copy_loop faults i (suc k) (suc n) (t ∷ to) [] s room bytes = absurd (omega (arith, bytes))
copy_loop faults i (suc k) (suc n) (t ∷ to) (c ∷ from) s room bytes =
    let (fine, s') = Stops-next faults i n k s in
    let rest =
      copy_loop faults (suc i) k n to from s' (omega (arith, room)) (omega (arith, bytes)) in
    copy_step faults i n t c to from fine
    ∙ ap (λ r. (r.0, c ∷ r.1)) rest
    ∙ ap (λ b. (if b then success else err efault, c ∷ (take k from ++ drop k to))) (both_suc k n)

-- Where both sides have `n` bytes and `k` of them are accessed before a fault, the destination of a
-- copy to a process has the first `k` bytes of the source in front of what it had from there on. The
-- copy succeeds if that is all, and returns -EFAULT otherwise.
pub copy_to_user-Stops :
    (faults : ℕ → Bool) (k n : ℕ) (to from : List ℕ)
    → Stops faults 0 n k
    → n ≤ length to
    → n ≤ length from
    → copy_to_user faults to from n ≡ (status_at n k, take k from ++ drop k to)
unfolding copy_to_user
copy_to_user-Stops faults k n to from s room bytes = copy_loop faults 0 k n to from s room bytes
