-- ===== src/Mm/X86.antt =====
-- arch/x86/mm/paging.c: the page tables of x86, with two levels. Physical memory is its frames of
-- 1024 words, each of which is read as an entry; what the processor keeps of the tables besides
-- (`invlpg`) is not in the model.
pub mod Cells
pub mod Sync
pub mod Translate
pub mod Entries
pub mod Table
pub mod Spaces
pub mod Interface
pub mod Map
pub mod Unmap
pub mod Protect
pub mod Share
pub mod Spare
pub mod Ranges
mod Tests
use dummy_os.Prelude.{
  ℕ, zero, suc, ◌+◌, ◌-◌, ◌*◌, ◌/◌, ◌%◌, ◌^◌, Bool, true, false, not, ◌&&◌, ◌||◌, List, [], ◌∷◌,
  ltb, ◌==◌, if◌then◌else◌, Status, success, err, einval, enomem, efault, Option, none, some,
}
use dummy_os.Prelude.Bits.{bit}
use dummy_os.Libk.Utils.{page_size}
use dummy_os.Mm.Memory.{Memory, memory_page_frame_alloc, memory_page_frame_free}
use dummy_os.Mm.Kheap.{kernel_space_start, vmm_prot_write, vmm_is_userspace_address}

-- `pde_t` and `pte_t`; `rest` has the bits that the code leaves alone, and `address` is the number of
-- a frame.
pub record Entry : Type 0 where
  pub present : Bool
  pub read_write : Bool
  pub user : Bool
  pub rest : ℕ
  pub address : ℕ

abbrev pub blank : Entry
blank = record { present = false; read_write = false; user = false; rest = 0; address = 0 }

-- `cr3` is the frame of the page directory, `cell` has the words of a frame, and `vmms` the physical
-- addresses of the page directories of the other address spaces.
pub record Tables : Type 0 where
  pub cr3 : ℕ
  pub cell : ℕ → ℕ → Entry
  pub vmms : List ℕ

abbrev pub recursive_entry_start : ℕ
recursive_entry_start = 4290772992

abbrev pub temp_recursive_entry_start : ℕ
temp_recursive_entry_start = 4286578688

abbrev pub recursive_index : ℕ
recursive_index = 1023

abbrev pub temp_index : ℕ
temp_index = 1022

abbrev pub user_space_pd_entries : ℕ
user_space_pd_entries = 768

abbrev pub index_in_pd : ℕ → ℕ
index_in_pd addr = addr / 4194304

abbrev pub index_in_pt : ℕ → ℕ
index_in_pt addr = addr / 4096 % 1024

-- `p_addr2pd_addr`
abbrev pub frame_of : ℕ → ℕ
frame_of paddr = paddr / 4096

-- The frame behind the virtual page with these two indexes.
abbrev pub frame_behind : Tables → ℕ → ℕ → ℕ
frame_behind s i j = (s.cell (s.cell s.cr3 i).address j).address

unfoldable pub get_page_directory : Tables → ℕ
get_page_directory s = frame_behind s recursive_index recursive_index

unfoldable pub get_page_table : Tables → ℕ → ℕ
get_page_table s pde_index = frame_behind s recursive_index pde_index

unfoldable pub get_temp_page_directory : Tables → ℕ
get_temp_page_directory s = frame_behind s temp_index recursive_index

unfoldable pub get_temp_page_table : Tables → ℕ → ℕ
get_temp_page_table s pde_index = frame_behind s temp_index pde_index

-- A write of one entry, and `memset` of a page.
unfoldable pub put_entry : ℕ → ℕ → Entry → Tables → Tables
put_entry frame i e s = record s {
  cell = λ f j. if (f == frame) && (j == i) then e else s.cell f j;
}

unfoldable pub clear_page : ℕ → Tables → Tables
clear_page frame s = record s { cell = λ f j. if f == frame then blank else s.cell f j }

unfoldable pub make_recursive_entry : ℕ → ℕ → ℕ → Tables → Tables
make_recursive_entry pd pd_phys index s =
    put_entry pd index
      (record (s.cell pd index) {
        present = true;
        read_write = true;
        user = false;
        address = frame_of pd_phys;
      })
      s

unfoldable pub clear_recursive_entry : ℕ → ℕ → Tables → Tables
clear_recursive_entry pd index s = put_entry pd index blank s

unfoldable pub setup_recursive_entry : ℕ → ℕ → Tables → Tables
setup_recursive_entry pd pd_phys s = make_recursive_entry pd pd_phys recursive_index s

unfoldable pub setup_temp_recursive_entry : ℕ → Tables → Tables
setup_temp_recursive_entry pd s = make_recursive_entry (get_page_directory s) pd temp_index s

unfoldable pub reset_temp_recursive_entry : Tables → Tables
reset_temp_recursive_entry s = clear_recursive_entry (get_page_directory s) temp_index s

-- `for (i = first; i < first + n; ++i)`
abbrev pub each : ℕ → ℕ → (ℕ → Tables → Tables) → Tables → Tables
each zero i f s = s
each (suc n) i f s = each n (suc i) f (f i s)

unfoldable pub cleanup_boot_pd : ℕ → Tables → Tables
cleanup_boot_pd pd s =
    let pd_index = index_in_pd kernel_space_start in
    each (1024 - (pd_index + 1)) (pd_index + 1) (λ i. put_entry pd i blank)
      (each pd_index 0 (λ i. put_entry pd i blank) s)

-- The 160 pages below the memory map of the hardware, and the pages from the top of the kernel on.
unfoldable pub cleanup_boot_pt : ℕ → ℕ → Tables → Tables
cleanup_boot_pt pt kernel_top s =
    let low =
      each 160 0 (λ i. put_entry pt (index_in_pt (kernel_space_start + i * page_size)) blank) s in
    each (1024 - index_in_pt kernel_top) (index_in_pt kernel_top) (λ i. put_entry pt i blank) low

-- Where the tables of the boot are, and the top of the kernel, is known to the linker.
unfoldable pub remap_kernel : ℕ → ℕ → ℕ → Tables → Tables
remap_kernel pd pt kernel_top s = record (cleanup_boot_pt pt kernel_top (cleanup_boot_pd pd s)) {
  cr3 = pd;
}

unfoldable pub paging_init : ℕ → ℕ → ℕ → Tables → Tables
paging_init pd pt kernel_top s =
    setup_recursive_entry pd (pd * 4096) (remap_kernel pd pt kernel_top s)

unfoldable pub paging_sync_kernel_space : ℕ → ℕ → Tables → Tables
paging_sync_kernel_space cr3 pdi s =
    let s1 = setup_temp_recursive_entry cr3 s in
    let entry = s1.cell (get_page_directory s1) pdi in
    reset_temp_recursive_entry (put_entry (get_temp_page_directory s1) pdi entry s1)

-- kernel/mm/vmm.c; the list leaves out the current address space.
unfoldable pub vmm_sync_kernel_space : List ℕ → ℕ → Tables → Tables
vmm_sync_kernel_space [] pdi s = s
vmm_sync_kernel_space (cr3 ∷ vmms) pdi s =
    vmm_sync_kernel_space vmms pdi (paging_sync_kernel_space cr3 pdi s)

abbrev pub has_user : ℕ → Bool
has_user prot = bit 2 prot == 1

abbrev pub has_write : ℕ → Bool
has_write prot = bit 0 prot == 1

-- The branch of `paging_map` for an entry of the page directory that is not present.
unfoldable pub add_table : ℕ → ℕ → ℕ → Tables → Tables
add_table page_table vaddr prot s =
    let pdi = index_in_pd vaddr in
    let pd = get_page_directory s in
    let s1 =
      put_entry pd pdi
        (record (s.cell pd pdi) {
          present = true;
          read_write = true;
          user = has_user prot;
          address = frame_of page_table;
        })
        s in
    let s2 = clear_page (get_page_table s1 pdi) s1 in
    if vmm_is_userspace_address vaddr then s2 else vmm_sync_kernel_space s.vmms pdi s2

unfoldable pub set_page : ℕ → ℕ → ℕ → Tables → Status × Tables
set_page paddr vaddr prot s =
    let pt = get_page_table s (index_in_pd vaddr) in
    let pti = index_in_pt vaddr in
    if (s.cell pt pti).present then (err efault, s) else (
      success,
      put_entry pt pti
          (record (s.cell pt pti) {
            present = true;
            read_write = has_write prot;
            user = has_user prot;
            address = frame_of paddr;
          })
          s,
    )

abbrev pub with_memory : Memory → Status × Tables → Status × (Memory × Tables)
with_memory m (r, s) = (r, (m, s))

unfoldable pub paging_map : ℕ → ℕ → ℕ → Memory × Tables → Status × (Memory × Tables)
paging_map paddr vaddr prot (m, s) =
    let (page_table, m') = memory_page_frame_alloc m in
    if (s.cell (get_page_directory s) (index_in_pd vaddr)).present
    then with_memory m (set_page paddr vaddr prot s)
    else if page_table == 0
    then (err enomem, (m', s))
    else with_memory m' (set_page paddr vaddr prot (add_table page_table vaddr prot s))

-- Whether both entries for the address are present.
abbrev pub both_present : Tables → ℕ → Bool
both_present s vaddr =
    (s.cell (get_page_directory s) (index_in_pd vaddr)).present
    && (s.cell (get_page_table s (index_in_pd vaddr)) (index_in_pt vaddr)).present

unfoldable pub paging_unmap : ℕ → Tables → Status × Tables
paging_unmap vaddr s =
    if both_present s vaddr
    then (success, put_entry (get_page_table s (index_in_pd vaddr)) (index_in_pt vaddr) blank s)
    else (err efault, s)

unfoldable pub paging_update_prot : ℕ → ℕ → Tables → Status × Tables
paging_update_prot page prot s =
    let pt = get_page_table s (index_in_pd page) in
    let pti = index_in_pt page in
    if both_present s page
    then (
      success,
      put_entry pt pti
          (record (s.cell pt pti) { read_write = has_write prot; user = has_user prot }) s,
    )
    else (err einval, s)
