-- ===== src/Mm/Vmm/Rollback.antt =====
-- What is left of a range of the kernel's space that could not be mapped.
use dummy_os.Prelude.{
  ℕ, zero, suc, ◌+◌, ◌*◌, ◌/◌, ◌%◌, ◌<◌, ◌≤◌, ◌≡◌, refl, sym, ap, ◌∙◌, subst, Option, none,
  Bool-cases, inl, inr, ◌==◌, Errno, err, arith,
}
use dummy_os.Libk.Utils.{word, add32, page_size, page_align_up}
use dummy_os.Mm.Memory.{Memory}
use dummy_os.Mm.Vmm.{VmmInterface, map_range, vmm_map_kernel_range}
use dummy_os.Mm.Vmm.Paging.{
  IsPaging, IsPage, page, page_keeps, page_ok, page_err, Below, unmap_back-view, range_cases,
  err_not_ok,
}

module _ {P : Type 0} (impl : VmmInterface P) (view : Memory × P → ℕ → Option ℕ)
    (Inv : Memory × P → Type 0) (top : ℕ) (paging : IsPaging impl view Inv top) where
  -- One page more.
  Below-next :
      (i virt a : ℕ) (s0 : Memory × P)
      → (Below impl view Inv top paging i virt a → view s0 a ≡ none)
      → view s0 virt ≡ none
      → Below impl view Inv top paging (suc i) (virt + page_size) a
      → view s0 a ≡ none
  Below-next i virt a s0 below here (zero, lt, e) =
      let at : virt ≡ a = omega (arith, e) in subst (λ b. view s0 b ≡ none) at here
  Below-next i virt a s0 below here (suc k, lt, e) = below (k, omega (arith, lt), omega (arith, e))

  Below-suc :
      (i virt a : ℕ)
      → Below impl view Inv top paging i virt a
      → Below impl view Inv top paging (suc i) (virt + page_size) a
  Below-suc i virt a (k, lt, e) = (suc k, omega (arith, lt), omega (arith, e))

  -- What a failure leaves: with `i` pages mapped from a state `s0` in which nothing was there,
  -- everything is as it was.
  map_range_err :
      (left i phys virt prot a : ℕ) (s0 s : Memory × P) (e : Errno)
      → Inv s
      → virt % page_size ≡ 0
      → i * page_size ≤ virt
      → virt + left * page_size ≤ top
      → top < word
      → IsPage top a
      → (Below impl view Inv top paging i virt a → view s0 a ≡ none)
      → ((k : ℕ) → k < left → view s0 (virt + k * page_size) ≡ none)
      → (¬ Below impl view Inv top paging i virt a → view s a ≡ view s0 a)
      → (map_range impl left i phys virt prot s).0 ≡ err e
      → view (map_range impl left i phys virt prot s).1 a ≡ view s0 a
  map_range_err zero i phys virt prot a s0 s e v whole room small ends q below above same h =
      absurd (err_not_ok e (sym h ∙ unfold map_range in refl))
  map_range_err (suc left) i phys virt prot a s0 s e v whole room small ends q below above same h =
      let next : add32 virt page_size ≡ virt + page_size = omega (arith, small, ends) in
      let p : IsPage top virt = (whole, omega (arith, small)) in
      let first : view s0 virt ≡ none =
        subst (λ b. view s0 b ≡ none) (omega arith) (above 0 (omega arith)) in
      elim (range_cases impl view Inv top paging left i phys virt prot s) [
        | inr (e', failed, stops) ↦
            ap (λ r. view r.1 a) stops
            ∙ elim (unmap_back-view impl view Inv top paging i virt a
                (page impl view Inv top paging phys virt prot s).1
                (page_keeps impl view Inv top paging phys virt prot s v p) room whole
                (omega (arith, small)) ends q) [
                  | inl (gone, b) ↦ gone ∙ sym (below b)
                  | inr (kept, out) ↦
                      kept
                      ∙ page_err impl view Inv top paging phys virt prot a s e' v p q failed
                      ∙ same out
                ]
        | inl (fine, goes_on) ↦
            let s' = (page impl view Inv top paging phys virt prot s).1 in
            let rest = λ (v : ℕ). map_range impl left (suc i) (add32 phys page_size) v prot s' in
            let moved = goes_on ∙ ap rest next in
            ap (λ r. view r.1 a) moved
            ∙ map_range_err left (suc i) (add32 phys page_size) (virt + page_size) prot a s0 s' e
                (page_keeps impl view Inv top paging phys virt prot s v p) (omega (arith, whole))
                (omega (arith, room)) (omega (arith, small)) ends q
                (Below-next i virt a s0 below first)
                (λ k lt.
                  subst (λ b. view s0 b ≡ none) (omega arith) (above (suc k) (omega (arith, lt))))
                (λ out.
                  page_ok impl view Inv top paging phys virt prot a s v p q fine
                  ∙ elim (Bool-cases (a == virt)) [
                    | inl at ↦ absurd (out (0, omega arith, ground (arith, at)))
                    | inr off ↦ rw off (same (λ b. out (Below-suc i virt a b)))
                  ])
                (sym (ap (λ r. r.0) moved) ∙ h)
      ]

-- Where nothing was mapped in a range of pages below `top`, a failure to map it leaves every page
-- below `top` with what was behind it.
pub map_range-fails :
    {P : Type 0} (impl : VmmInterface P) (view : Memory × P → ℕ → Option ℕ)
    (Inv : Memory × P → Type 0) (top : ℕ)
    → IsPaging impl view Inv top
    → (phys virt size prot a : ℕ) (s : Memory × P) (e : Errno) → Inv s
    → virt % page_size ≡ 0
    → virt + page_align_up size / page_size * page_size ≤ top
    → top < word
    → IsPage top a
    → ((k : ℕ) → k < page_align_up size / page_size → view s (virt + k * page_size) ≡ none)
    → (vmm_map_kernel_range impl phys virt size prot s).0 ≡ err e
    → view (vmm_map_kernel_range impl phys virt size prot s).1 a ≡ view s a
unfolding vmm_map_kernel_range
map_range-fails impl view Inv top paging phys virt size prot a s e v whole vs ends q free h =
    map_range_err impl view Inv top paging (page_align_up size / page_size) 0 phys virt prot a s s e
      v whole (omega arith) vs ends q (λ (k, lt, at). absurd (omega (arith, lt))) free (λ out. refl)
      h
