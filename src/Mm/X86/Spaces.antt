-- ===== src/Mm/X86/Spaces.antt =====
-- arch/x86/mm/paging.c: whole address spaces, each by the physical address of its page directory,
-- which is reached through the second recursive entry. A frame of data is the words in it.
use dummy_os.Prelude.{
  ℕ, zero, suc, ◌+◌, ◌-◌, ◌*◌, ◌/◌, true, false, ◌==◌, if◌then◌else◌, Option, none, some, Status,
  ok, success, err, enomem,
}
use dummy_os.Mm.Memory.{Memory, memory_page_frame_alloc, memory_page_frame_free}
use dummy_os.Mm.Kheap.{kernel_space_start, vmm_prot_write}
use dummy_os.Mm.X86.{
  Tables, put_entry, clear_page, blank, each, frame_of, frame_behind, index_in_pd, index_in_pt,
  temp_recursive_entry_start, user_space_pd_entries, get_page_directory, get_page_table,
  get_temp_page_directory, get_temp_page_table, setup_recursive_entry, setup_temp_recursive_entry,
  reset_temp_recursive_entry, paging_map, paging_unmap, with_memory,
}

-- The frame behind an address that is mapped.
abbrev frame_of_address : Tables → ℕ → ℕ
frame_of_address s addr = frame_behind s (index_in_pd addr) (index_in_pt addr)

-- The entries of the page directory for the first `nr_pages` pages from `addr` on.
unfoldable pub init_kernel_space : ℕ → ℕ → ℕ → Tables → Tables
init_kernel_space cr3 addr nr_pages s =
    let s1 = setup_temp_recursive_entry cr3 s in
    let pd = get_temp_page_directory s1 in
    let cur_pd = get_page_directory s1 in
    let copy = λ (i : ℕ) (t : Tables). put_entry pd i (t.cell cur_pd i) t in
    reset_temp_recursive_entry (each ((nr_pages + 1023) / 1024) (index_in_pd addr) copy s1)

abbrev then_unmap : ℕ → Status × (Memory × Tables) → Status × (Memory × Tables)
then_unmap pd (err e, s) = (err e, s)
then_unmap pd (ok _, (m, s)) =
    let pd_map = frame_of_address s kernel_space_start in
    with_memory m
      (paging_unmap kernel_space_start (setup_recursive_entry pd_map pd (clear_page pd_map s)))

unfoldable pub init_pd_recursive_entry : ℕ → Memory × Tables → Status × (Memory × Tables)
init_pd_recursive_entry pd s = then_unmap pd (paging_map pd kernel_space_start vmm_prot_write s)

abbrev then_kernel_space : ℕ → Status × (Memory × Tables) → Status × (Memory × Tables)
then_kernel_space cr3 (err e, s) = (err e, s)
then_kernel_space cr3 (ok _, (m, s)) =
    let nr_pages = (temp_recursive_entry_start - kernel_space_start) / 4096 in
    (success, (m, init_kernel_space cr3 kernel_space_start nr_pages s))

unfoldable pub paging_init_pd : ℕ → Memory × Tables → Status × (Memory × Tables)
paging_init_pd cr3 s = then_kernel_space cr3 (init_pd_recursive_entry cr3 s)

-- The inner loop of `paging_clone_current_cow`: each page is shared, and read-only in both tables.
unfoldable pub share_page : ℕ → ℕ → ℕ → Tables → Tables
share_page pt cur_pt j s =
    let shared = record (s.cell cur_pt j) { read_write = false } in
    if (s.cell cur_pt j).present then put_entry cur_pt j shared (put_entry pt j shared s) else s

-- The table that is added to the new directory for entry `i`.
abbrev clone_into : ℕ → ℕ → Tables → Tables
clone_into page_table i s =
    let pd = get_temp_page_directory s in
    let s1 =
      put_entry pd i
        (record (s.cell pd i) {
          present = true;
          read_write = true;
          user = true;
          address = frame_of page_table;
        })
        s in
    let pt = get_temp_page_table s1 i in
    each 1024 0 (share_page pt (get_page_table s1 i)) (clear_page pt s1)

-- The outer loop, for `n` entries from `i` on.
unfoldable pub clone_entries : ℕ → ℕ → Memory × Tables → Status × (Memory × Tables)
clone_entries zero i s = (success, s)
clone_entries (suc n) i (m, s) =
    let (page_table, m') = memory_page_frame_alloc m in
    let next = clone_entries n (suc i) (m', clone_into page_table i s) in
    let skip = clone_entries n (suc i) (m, s) in
    if (s.cell (get_page_directory s) i).present
    then (if page_table == 0 then (err enomem, (m', s)) else next)
    else skip

abbrev then_reset : Status × (Memory × Tables) → Status × (Memory × Tables)
then_reset (err e, s) = (err e, s)
then_reset (ok _, (m, s)) = (success, (m, reset_temp_recursive_entry s))

-- An error leaves the second recursive entry as it is.
unfoldable pub paging_clone_current_cow : ℕ → Memory × Tables → Status × (Memory × Tables)
paging_clone_current_cow cr3 (m, s) =
    then_reset (clone_entries user_space_pd_entries 0 (m, setup_temp_recursive_entry cr3 s))

abbrev copy_and_unmap : ℕ → Status × (Memory × Tables) → Status × (Memory × Tables)
copy_and_unmap src_page (err e, s) = (err e, s)
copy_and_unmap src_page (ok _, (m, s)) =
    let dst = frame_of_address s kernel_space_start in
    let src = frame_of_address s src_page in
    let copied = each 1024 0 (λ j t. put_entry dst j (t.cell src j) t) s in
    (success, (m, (paging_unmap kernel_space_start copied).1))

-- The source page is mapped.
unfoldable pub paging_copy_page : ℕ → ℕ → Memory × Tables → Status × (Memory × Tables)
paging_copy_page src_page dst_frame s =
    copy_and_unmap src_page (paging_map dst_frame kernel_space_start vmm_prot_write s)

-- `none` is a failed `kassert` of `memory_page_frame_free`.
unfoldable pub clear_entries : ℕ → ℕ → Memory × Tables → Option (Memory × Tables)
clear_entries zero i s = some s
clear_entries (suc n) i (m, s) =
    let pd = get_temp_page_directory s in
    let skip = clear_entries n (suc i) (m, s) in
    if (s.cell pd i).present
    then elim (memory_page_frame_free m ((s.cell pd i).address * 4096)) [
      | none ↦ none
      | some (_, m') ↦ clear_entries n (suc i) (m', put_entry pd i blank s)
    ]
    else skip

abbrev cleared : Option (Memory × Tables) → Option (Memory × Tables)
cleared none = none
cleared (some (m, s)) = some (m, reset_temp_recursive_entry s)

unfoldable pub paging_clear_userspace : ℕ → Memory × Tables → Option (Memory × Tables)
paging_clear_userspace cr3 (m, s) =
    cleared (clear_entries user_space_pd_entries 0 (m, setup_temp_recursive_entry cr3 s))
