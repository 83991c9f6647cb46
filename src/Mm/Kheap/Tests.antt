-- ===== src/Mm/Kheap/Tests.antt =====
-- `kheap_sbrk` on small machines; mapping a page always succeeds there.
use dummy_os.Prelude.{ℕ, ◌≡◌, [], ◌∷◌, arith, refl, Status, success}
use dummy_os.Libk.Utils.{page_size, is_aligned, align_up}
use dummy_os.Mm.Memory.{Memory, descriptor, memory_page_frame_alloc}
use dummy_os.Mm.Kheap.{kheap_sbrk, sbrk_page, vmm_map_kernel_page}
use dummy_os.Mm.Kheap.Sbrk.{Grows, kheap_sbrk_returns, kheap_sbrk_out_of_frames}

abbrev map_any : ℕ → ℕ → ℕ → Memory × Unit {0} → Status × (Memory × Unit {0})
map_any phys virt prot s = (success, s)

abbrev two_frames : Memory
two_frames = record {
  free_page_frames = record { list = descriptor 1 ∷ descriptor 2 ∷ []; n = 2 };
  used_page_frames = record { list = []; n = 0 };
  memory_base = 0x1000;
  memory_top = 0x3000;
  page_frame_descriptors = 0 ∷ 0x1000 ∷ 0x2000 ∷ [];
  early_free_frames = [];
}

abbrev no_frame : Memory
no_frame = record two_frames { free_page_frames = record { list = []; n = 0 } }

-- Three pages are wanted and two are there: the call claims three.
sbrk_three : (kheap_sbrk map_any 0x2001 0xc010_0000 (two_frames, tt)).0 ≡ 0x3000
unfolding kheap_sbrk sbrk_page vmm_map_kernel_page memory_page_frame_alloc is_aligned align_up
sbrk_three = refl

sbrk_three_end : (kheap_sbrk map_any 0x2001 0xc010_0000 (two_frames, tt)).1 ≡ 0xc010_2000
unfolding kheap_sbrk sbrk_page vmm_map_kernel_page memory_page_frame_alloc is_aligned align_up
sbrk_three_end = refl

kheap_sbrk_returns_example :
    Grows map_any 100 0xc010_0000
      (two_frames, tt)
      (kheap_sbrk map_any 100 0xc010_0000 (two_frames, tt))
kheap_sbrk_returns_example =
    kheap_sbrk_returns map_any 100 0xc010_0000 (two_frames, tt) (omega arith)

kheap_sbrk_out_of_frames_example :
    kheap_sbrk map_any 100 0xc010_0000 (no_frame, tt) ≡ (page_size, 0xc010_0000, (no_frame, tt))
kheap_sbrk_out_of_frames_example =
    kheap_sbrk_out_of_frames map_any 100 0xc010_0000 no_frame tt (omega arith) (omega arith) refl
