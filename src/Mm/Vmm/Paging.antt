-- ===== src/Mm/Vmm/Paging.antt =====
-- What the kernel's page tables look like after one page, and after the pages of a failed range.
use dummy_os.Prelude.{
  ℕ, zero, suc, ◌-◌, ◌*◌, ◌<◌, ◌≤◌, ◌≡◌, ◌⊎◌, refl, sym, ap, ◌∙◌, Bool, false, not, ◌||◌, Option,
  none, some, Bool-cases, inl, inr, ◌==◌, Status, Errno, einval, ok, err, success, if◌then◌else◌,
  arith, subst, ◌/◌, ◌%◌,
}
use dummy_os.Libk.Utils.{word, add32, sub32, page_size, page_is_aligned}
use dummy_os.Mm.Memory.{Memory}
use dummy_os.Mm.Kheap.{vmm_map_kernel_page, vmm_is_userspace_address}
use dummy_os.Mm.Vmm.{VmmInterface, map_range, unmap_back}

-- The page at `a` starts there, and is below `top`.
abbrev pub IsPage : ℕ → ℕ → Type 0
IsPage top a = (a % page_size ≡ 0) × (a < top)

-- What the architecture does to the page tables below `top`, of which `view` tells the frame behind a
-- virtual page, while `Inv` holds: a page that cannot be mapped changes nothing, and after it is
-- unmapped a page has nothing behind it. Other pages are not touched.
pub record IsPaging {P : Type 0} (impl : VmmInterface P) (view : Memory × P → ℕ → Option ℕ)
    (Inv : Memory × P → Type 0) (top : ℕ) : Type 0 where
  pub map_keeps :
      (phys virt prot : ℕ) (s : Memory × P)
      → Inv s
      → IsPage top virt
      → Inv (impl.map_kernel_page phys virt prot s).1
  pub map_ok :
      (phys virt prot a : ℕ) (s : Memory × P)
      → Inv s
      → IsPage top virt
      → IsPage top a
      → (impl.map_kernel_page phys virt prot s).0 ≡ success
      → view (impl.map_kernel_page phys virt prot s).1 a
        ≡ (if a == virt then some (phys / page_size) else view s a)
  pub map_err :
      (phys virt prot a : ℕ) (s : Memory × P) (e : Errno)
      → Inv s
      → IsPage top virt
      → IsPage top a
      → (impl.map_kernel_page phys virt prot s).0 ≡ err e
      → view (impl.map_kernel_page phys virt prot s).1 a ≡ view s a
  pub unmap_keeps :
      (virt : ℕ) (s : Memory × P) → Inv s → IsPage top virt → Inv (impl.unmap_kernel_page virt s).1
  pub unmap :
      (virt a : ℕ) (s : Memory × P)
      → Inv s
      → IsPage top virt
      → IsPage top a
      → view (impl.unmap_kernel_page virt s).1 a ≡ (if a == virt then none else view s a)

pub err_not_ok : (e : Errno) → ¬ (◌≡◌ {A = Status} (err e) success)
err_not_ok e h = absurd (ground arith)

status_cases : (r : Status) → (r ≡ success) ⊎ ((e : Errno) × (r ≡ err e))
status_cases (ok _) = inl refl
status_cases (err e) = inr (e, refl)

module _ {P : Type 0} (impl : VmmInterface P) (view : Memory × P → ℕ → Option ℕ)
    (Inv : Memory × P → Type 0) (top : ℕ) (paging : IsPaging impl view Inv top) where
  pub page : ℕ → ℕ → ℕ → Memory × P → Status × (Memory × P)
  page phys virt prot s = vmm_map_kernel_page impl.map_kernel_page phys virt prot s

  -- The test of `vmm_map_kernel_page`.
  abbrev refuses : ℕ → ℕ → Bool
  refuses phys virt =
      not (page_is_aligned phys) || not (page_is_aligned virt) || vmm_is_userspace_address virt

  page_cases :
      (phys virt prot : ℕ) (s : Memory × P)
      → (page phys virt prot s ≡ (err einval, s))
        ⊎ (page phys virt prot s ≡ impl.map_kernel_page phys virt prot s)
  unfolding page vmm_map_kernel_page
  page_cases phys virt prot s = elim (Bool-cases (refuses phys virt)) [
    | inl refused ↦ inl (rw refused refl)
    | inr fine ↦ inr (rw fine refl)
  ]

  pub page_keeps :
      (phys virt prot : ℕ) (s : Memory × P)
      → Inv s
      → IsPage top virt
      → Inv (page phys virt prot s).1
  page_keeps phys virt prot s v p = elim (page_cases phys virt prot s) [
    | inl refused ↦ subst (λ r. Inv r.1) (sym refused) v
    | inr done ↦ subst (λ r. Inv r.1) (sym done) (paging.map_keeps phys virt prot s v p)
  ]

  pub page_ok :
      (phys virt prot a : ℕ) (s : Memory × P)
      → Inv s
      → IsPage top virt
      → IsPage top a
      → (page phys virt prot s).0 ≡ success
      → view (page phys virt prot s).1 a ≡ (if a == virt then some (phys / page_size) else view s a)
  page_ok phys virt prot a s v p q e = elim (page_cases phys virt prot s) [
    | inl refused ↦ absurd (err_not_ok einval (sym (ap (λ r. r.0) refused) ∙ e))
    | inr done ↦
        ap (λ r. view r.1 a) done
        ∙ paging.map_ok phys virt prot a s v p q (sym (ap (λ r. r.0) done) ∙ e)
  ]

  pub page_err :
      (phys virt prot a : ℕ) (s : Memory × P) (e : Errno)
      → Inv s
      → IsPage top virt
      → IsPage top a
      → (page phys virt prot s).0 ≡ err e
      → view (page phys virt prot s).1 a ≡ view s a
  page_err phys virt prot a s e v p q h = elim (page_cases phys virt prot s) [
    | inl refused ↦ ap (λ r. view r.1 a) refused
    | inr done ↦
        ap (λ r. view r.1 a) done
        ∙ paging.map_err phys virt prot a s e v p q (sym (ap (λ r. r.0) done) ∙ h)
  ]

  -- The address is one of the `i` pages below `virt`.
  abbrev pub Below : ℕ → ℕ → ℕ → Type 0
  Below i virt a = (k : ℕ) × (k < i) × (a ≡ virt - suc k * page_size)

  pub unmap_back-view :
      (i virt a : ℕ) (s : Memory × P)
      → Inv s
      → i * page_size ≤ virt
      → virt % page_size ≡ 0
      → virt ≤ top
      → top < word
      → IsPage top a
      → ((view (unmap_back impl i virt s) a ≡ none) × Below i virt a)
        ⊎ ((view (unmap_back impl i virt s) a ≡ view s a) × ¬ Below i virt a)
  unfolding unmap_back
  unmap_back-view zero virt a s v room whole small ends q =
      inr (refl, λ (k, lt, e). absurd (omega arith))
  unmap_back-view (suc i) virt a s v room whole small ends q =
      let below = sub32 virt page_size in
      let here : below ≡ virt - page_size = omega (arith, room, small, ends) in
      let p : IsPage top below =
        (omega (arith, room, here, whole), omega (arith, room, here, small)) in
      let this = paging.unmap below a s v p q in
      elim (unmap_back-view i below a (impl.unmap_kernel_page below s).1
        (paging.unmap_keeps below s v p) (omega (arith, room, here)) p.0
        (omega (arith, here, small)) ends q) [
          | inl (gone, (k, lt, e)) ↦ inl (gone, (suc k, omega (arith, lt), omega (arith, e, here)))
          | inr (same, out) ↦ elim (Bool-cases (a == below)) [
            | inl at ↦ inl (same ∙ this ∙ rw at refl, (0, omega arith, ground (arith, at, here)))
            | inr off ↦ inr (same ∙ this ∙ rw off refl, not_below i virt a below here off out)
          ]
        ]
    where
      not_below :
          (i virt a below : ℕ)
          → below ≡ virt - page_size
          → (a == below) ≡ false
          → ¬ Below i below a
          → ¬ Below (suc i) virt a
      not_below i virt a below here off out (zero, lt, e) = absurd (ground (arith, here, off, e))
      not_below i virt a below here off out (suc k, lt, e) =
          absurd (out (k, omega (arith, lt), omega (arith, e, here)))

  pub range_cases :
      (left i phys virt prot : ℕ) (s : Memory × P)
      → (((page phys virt prot s).0 ≡ success)
          × (map_range impl (suc left) i phys virt prot s
              ≡ map_range impl left
                  (suc i)
                  (add32 phys page_size)
                  (add32 virt page_size)
                  prot
                  (page phys virt prot s).1))
        ⊎ ((e : Errno) × ((page phys virt prot s).0 ≡ err e)
            × (map_range impl (suc left) i phys virt prot s
                ≡ (err e, unmap_back impl i virt (page phys virt prot s).1)))
  unfolding map_range page
  range_cases left i phys virt prot s =
      elim (status_cases (vmm_map_kernel_page impl.map_kernel_page phys virt prot s).0) [
        | inl fine ↦ inl (fine, rw (map_range, fine) refl)
        | inr (e, failed) ↦ inr (e, failed, rw (map_range, failed) refl)
      ]
