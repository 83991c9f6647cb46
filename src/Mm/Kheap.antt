-- ===== src/Mm/Kheap.antt =====
-- kernel/kheap.c: the heap grows page by page, at its end. `vmm_impl->map_kernel_page`, the
-- architecture's part, is a parameter: it may take page frames for its tables, and its own
-- state is of any type.
pub mod Sbrk
mod Tests
use dummy_os.Prelude.{
  ℕ, zero, suc, ◌+◌, ◌*◌, ◌/◌, ◌%◌, Bool, true, false, not, ◌||◌, ltb, ◌==◌, if◌then◌else◌, Result,
  ok, err, Status, success, einval,
}
use dummy_os.Libk.Utils.{word, add32, page_size, page_align_up, page_is_aligned}
use dummy_os.Mm.Memory.{Memory, memory_page_frame_alloc}

abbrev pub kernel_space_start : ℕ
kernel_space_start = 0xc000_0000

abbrev pub vmm_prot_write : ℕ
vmm_prot_write = 1

-- kernel/mm/vmm.c
unfoldable pub vmm_is_userspace_address : ℕ → Bool
vmm_is_userspace_address addr = ltb addr kernel_space_start

module _ {A : Type 0} (map_kernel_page : ℕ → ℕ → ℕ → Memory × A → Status × (Memory × A)) where
  -- kernel/mm/vmm.c
  unfoldable pub vmm_map_kernel_page : ℕ → ℕ → ℕ → Memory × A → Status × (Memory × A)
  unfolding vmm_is_userspace_address
  vmm_map_kernel_page phys virt prot s =
      if not (page_is_aligned phys) || not (page_is_aligned virt) || vmm_is_userspace_address virt
      then (err einval, s)
      else map_kernel_page phys virt prot s

  -- One turn of the loop of `kheap_sbrk`: whether it succeeds, and the new `kheap_end`.
  unfoldable pub sbrk_page : ℕ → Memory × A → Bool × ℕ × (Memory × A)
  sbrk_page kheap_end (m, a) =
      let (frame, m') = memory_page_frame_alloc m in
      if frame == 0
      then (false, kheap_end, (m', a))
      else (let (r, s') = vmm_map_kernel_page frame kheap_end vmm_prot_write (m', a) in
          elim r [ ok _ ↦ (true, add32 kheap_end page_size, s') | err _ ↦ (false, kheap_end, s') ])

  -- `for (i = 0; i < pages && !err; ++i)`, with `left` turns to go: the last `i`, also after an
  -- error one more than before the turn, and `kheap_end`.
  unfoldable pub sbrk_loop : ℕ → ℕ → ℕ → Memory × A → ℕ × ℕ × (Memory × A)
  sbrk_loop zero i kheap_end s = (i, kheap_end, s)
  sbrk_loop (suc left) i kheap_end s =
      let (fine, kheap_end', s') = sbrk_page kheap_end s in
      let rest = sbrk_loop left (i + 1) kheap_end' s' in
      if fine then rest else (i + 1, kheap_end', s')

  -- The number of bytes that the heap is said to have grown, and the new `kheap_end`.
  unfoldable pub kheap_sbrk : ℕ → ℕ → Memory × A → ℕ × ℕ × (Memory × A)
  unfolding sbrk_loop
  kheap_sbrk increment kheap_end s =
      let pages = page_align_up increment / page_size in
      let (i, kheap_end', s') = sbrk_loop pages 0 kheap_end s in
      (i * page_size % word, kheap_end', s')
