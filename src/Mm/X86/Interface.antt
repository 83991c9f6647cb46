-- ===== src/Mm/X86/Interface.antt =====
-- arch/x86/mm/vmm.c: the page directories of address spaces, and what x86 fills in for
-- `struct vmm_interface`.
use dummy_os.Prelude.{
  ℕ, Result, Status, ok, err, Errno, enomem, ◌==◌, if◌then◌else◌, Option, none, some,
}
use dummy_os.Mm.Memory.{Memory, memory_page_frame_alloc, memory_page_frame_free}
use dummy_os.Mm.Vmm.{VmmInterface}
use dummy_os.Mm.X86.{Tables, paging_map, paging_unmap, paging_update_prot, frame_of, with_memory}
use dummy_os.Mm.X86.Spaces.{paging_init_pd, paging_copy_page, paging_clear_userspace}

abbrev freed : Errno → Tables → Option (Status × Memory) → Option (Result ℕ × (Memory × Tables))
freed e s none = none
freed e s (some (_, m)) = some (err e, (m, s))

abbrev created : ℕ → Status × (Memory × Tables) → Option (Result ℕ × (Memory × Tables))
created pd (ok _, s) = some (ok pd, s)
created pd (err e, (m, s)) = freed e s (memory_page_frame_free m pd)

-- The physical address of the new page directory; `none` is a failed `kassert`.
unfoldable pub create_pd_and_init_kernel : Memory × Tables → Option (Result ℕ × (Memory × Tables))
create_pd_and_init_kernel (m, s) =
    let (pd, m') = memory_page_frame_alloc m in
    if pd == 0 then some (err enomem, (m', s)) else created pd (paging_init_pd pd (m', s))

abbrev free_pd : ℕ → Option (Memory × Tables) → Option (Memory × Tables)
free_pd cr3 none = none
free_pd cr3 (some (m, s)) = elim (memory_page_frame_free m cr3) [
  | none ↦ none
  | some (_, m') ↦ some (m', s)
]

unfoldable pub x86_vmm_reset : ℕ → Memory × Tables → Option (Memory × Tables)
x86_vmm_reset cr3 s = free_pd cr3 (paging_clear_userspace cr3 s)

-- The list of the other directories is that of `vmm_switch_to`.
unfoldable pub paging_switch_cr3 : ℕ → Tables → Tables
paging_switch_cr3 cr3 s = record s { cr3 = frame_of cr3 }

abbrev on_tables : (Tables → Status × Tables) → Memory × Tables → Status × (Memory × Tables)
on_tables f (m, s) = with_memory m (f s)

unfoldable pub impl : VmmInterface Tables
impl = record {
  copy_page = paging_copy_page;
  map_kernel_page = paging_map;
  unmap_kernel_page = λ vaddr. on_tables (paging_unmap vaddr);
  update_user_page_prot = λ page prot. on_tables (paging_update_prot page prot);
  map_user_page = paging_map;
  unmap_user_page = λ vaddr. on_tables (paging_unmap vaddr);
}
