-- ===== src/Mm/X86/Ranges.antt =====
-- `vmm_map_kernel_range` of kernel/mm/vmm.c on the page tables of x86.
mod Tests
use dummy_os.Prelude.{
  ℕ, ◌+◌, ◌*◌, ◌/◌, ◌%◌, ◌<◌, ◌≤◌, ◌≡◌, ◌≢◌, refl, sym, ap, ◌∙◌, ◌==◌, Bool, Option, none, some,
  inl, inr, arith, Errno, Status, err, success, if◌then◌else◌, Bool-cases, true, false, ◌&&◌,
}
use dummy_os.Libk.Utils.{page_size, page_align_up}
use dummy_os.Mm.Memory.{Memory}
use dummy_os.Mm.Vmm.{vmm_map_kernel_range}
use dummy_os.Mm.Vmm.Paging.{IsPage, IsPaging, err_not_ok}
use dummy_os.Mm.Vmm.Rollback.{map_range-fails}
use dummy_os.Mm.X86.{Tables, index_in_pd, temp_index, temp_recursive_entry_start, paging_map}
use dummy_os.Mm.X86.Interface.{impl}
use dummy_os.Mm.X86.Translate.{translate}
use dummy_os.Mm.X86.Map.{same_page, paging_map-Maps}
use dummy_os.Mm.X86.Unmap.{paging_unmap-Unmaps}
use dummy_os.Mm.X86.Spare.{IsSound, paging_map-IsSound, sound-IsFresh, paging_unmap-AreSpare}

-- The frame behind an address.
abbrev pub behind : Memory × Tables → ℕ → Option ℕ
behind (m, s) a = translate s a

below_windows : (a : ℕ) → IsPage temp_recursive_entry_start a → index_in_pd a < temp_index
below_windows a (whole, lt) = omega arith

same_page-eq :
    (a v : ℕ)
    → IsPage temp_recursive_entry_start a
    → IsPage temp_recursive_entry_start v
    → same_page a v ≡ (a == v)
same_page-eq a v (wa, la) (wv, lv) = elim (Bool-cases (a == v)) [
  | inl e ↦ ground (arith, e)
  | inr e ↦ ground (arith, e, wa, la, wv, lv)
]

map_success :
    (phys virt prot a : ℕ) (s : Memory × Tables)
    → IsSound s
    → IsPage temp_recursive_entry_start virt
    → IsPage temp_recursive_entry_start a
    → (paging_map phys virt prot s).0 ≡ success
    → behind (paging_map phys virt prot s).1 a
      ≡ (if a == virt then some (phys / page_size) else behind s a)
map_success phys virt prot a (m, s) v p q h =
    elim (paging_map-Maps phys virt prot a m s v.0 (sound-IsFresh m s v) (below_windows virt p)
      (below_windows a q)).1 [
        | inl (done, to) ↦
            to
            ∙ ap (λ b. if b then some (phys / page_size) else translate s a)
                (same_page-eq a virt q p)
        | inr (e, failed, same) ↦ absurd (err_not_ok e (sym failed ∙ h))
      ]

map_failure :
    (phys virt prot a : ℕ) (s : Memory × Tables) (e : Errno)
    → IsSound s
    → IsPage temp_recursive_entry_start virt
    → IsPage temp_recursive_entry_start a
    → (paging_map phys virt prot s).0 ≡ err e
    → behind (paging_map phys virt prot s).1 a ≡ behind s a
map_failure phys virt prot a (m, s) e v p q h =
    elim (paging_map-Maps phys virt prot a m s v.0 (sound-IsFresh m s v) (below_windows virt p)
      (below_windows a q)).1 [
        | inl (done, to) ↦ absurd (err_not_ok e (sym h ∙ done))
        | inr (e', failed, same) ↦ same
      ]

-- The x86 part of `struct vmm_interface` keeps the laws of the interface below the two recursive
-- windows, while the tables and the free frames are apart.
pub impl-IsPaging : IsPaging impl behind IsSound temp_recursive_entry_start
unfolding impl
impl-IsPaging = record {
  map_keeps =
      λ phys virt prot s v p. paging_map-IsSound phys virt prot s.0 s.1 v (below_windows virt p);
  map_ok = map_success;
  map_err = map_failure;
  unmap_keeps = λ virt s v p. (
    (paging_unmap-Unmaps virt virt s.1 v.0 (below_windows virt p) (below_windows virt p)).0,
    paging_unmap-AreSpare virt s.1 _ v.0 (below_windows virt p) v.1,
  );
  unmap = λ virt a s v p q.
      (paging_unmap-Unmaps virt a s.1 v.0 (below_windows virt p) (below_windows a q)).1
      ∙ ap (λ b. if b then none else translate s.1 a) (same_page-eq a virt q p);
}

-- On the page tables of x86, where the tables and the free frames are apart from each other, the
-- range starts at a page and ends below the two recursive windows, and nothing is mapped in it: if
-- `vmm_map_kernel_range` fails, every page below the windows, inside the range and outside, has
-- behind it what it had before.
pub vmm_map_kernel_range-fails :
    (phys virt size prot a : ℕ) (m : Memory) (s : Tables) (e : Errno)
    → IsSound (m, s)
    → virt % page_size ≡ 0
    → virt + page_align_up size / page_size * page_size ≤ temp_recursive_entry_start
    → IsPage temp_recursive_entry_start a
    → ((k : ℕ) → k < page_align_up size / page_size → translate s (virt + k * page_size) ≡ none)
    → (vmm_map_kernel_range impl phys virt size prot (m, s)).0 ≡ err e
    → translate (vmm_map_kernel_range impl phys virt size prot (m, s)).1.1 a ≡ translate s a
vmm_map_kernel_range-fails phys virt size prot a m s e v whole ends q free h =
    map_range-fails impl behind IsSound temp_recursive_entry_start impl-IsPaging phys virt size prot
      a (m, s) e v whole ends (omega arith) q free h
