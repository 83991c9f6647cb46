-- ===== src/Mm/X86/Ranges/Tests.antt =====
-- A range that starts in the last page of a page table and fails in the next one.
use dummy_os.Prelude.{
  ℕ, zero, suc, ◌+◌, ◌*◌, ◌≡◌, ◌⊎◌, refl, true, false, [], ◌==◌, ◌&&◌, if◌then◌else◌, none, err,
  enomem, arith, inl, inr, Bool-cases, ◌/◌, ◌<◌,
}
use dummy_os.Libk.Utils.{page_size, page_align_up, align_up, align_down, is_aligned}
use dummy_os.Mm.Memory.{Memory, memory_page_frame_alloc}
use dummy_os.Mm.Kheap.{vmm_map_kernel_page, vmm_is_userspace_address}
use dummy_os.Mm.Vmm.{vmm_map_kernel_range, map_range, unmap_back}
use dummy_os.Mm.X86.{
  Entry, Tables, blank, get_page_directory, get_page_table, set_page, put_entry, paging_map,
  paging_unmap,
}
use dummy_os.Mm.X86.Interface.{impl}
use dummy_os.Mm.X86.Translate.{IsPaged, translate}
use dummy_os.Mm.X86.Ranges.{vmm_map_kernel_range-fails}

abbrev no_memory : Memory
no_memory = record {
  free_page_frames = record { list = []; n = 0 };
  used_page_frames = record { list = []; n = 0 };
  memory_base = 0;
  memory_top = 65536;
  page_frame_descriptors = [];
  early_free_frames = [];
}

abbrev entry_to : ℕ → Entry
entry_to f = record { present = true; read_write = true; user = false; rest = 0; address = f }

-- The page directory is in frame 7, and the one page table, which is empty, in frame 9.
abbrev kernel_space : Tables
kernel_space = record {
  cr3 = 7;
  cell = λ f j.
      if (f == 7) && (j == 1023)
      then entry_to 7
      else if (f == 7) && (j == 768)
      then entry_to 9
      else blank;
  vmms = [];
}

two_entries : (i : ℕ) → (kernel_space.cell 7 i).present ≡ true → (i ≡ 1023) ⊎ (i ≡ 768)
two_entries i h = elim (Bool-cases (i == 1023)) [
  | inl last ↦ inl (ground (arith, last))
  | inr other ↦ inr (ground (arith, other, h))
]

kernel_space-IsPaged : IsPaged kernel_space
kernel_space-IsPaged = record {
  recursive = refl;
  last = refl;
  temp = refl;
  others = tt;
  apart = λ i j ne pi pj e. elim (two_entries i pi) [
    | inl i_last ↦ elim (two_entries j pj) [
      | inl j_last ↦ ne (omega (arith, i_last, j_last))
      | inr j_table ↦ absurd (ground (arith, i_last, j_table, e))
    ]
    | inr i_table ↦ elim (two_entries j pj) [
      | inl j_last ↦ absurd (ground (arith, i_table, j_last, e))
      | inr j_table ↦ ne (omega (arith, i_table, j_table))
    ]
  ];
  tables = λ i ne h. tt;
}

two_pages : page_align_up 0x2000 ≡ 0x2000
unfolding align_up align_down
two_pages = refl

fails_test :
    (vmm_map_kernel_range impl 0x8000 0xc03f_f000 0x2000 1 (no_memory, kernel_space)).0 ≡ err enomem
unfolding vmm_map_kernel_range map_range vmm_map_kernel_page vmm_is_userspace_address is_aligned
    align_up align_down unmap_back impl paging_map paging_unmap set_page get_page_directory
    get_page_table memory_page_frame_alloc put_entry
fails_test = refl

nothing_there :
    (k : ℕ)
    → k < page_align_up 0x2000 / page_size
    → translate kernel_space (0xc03f_f000 + k * page_size) ≡ none
unfolding translate
nothing_there zero lt = refl
nothing_there (suc zero) lt = refl
nothing_there (suc (suc k)) lt = absurd (omega (arith, lt, two_pages))

vmm_map_kernel_range-fails_example :
    translate
      (vmm_map_kernel_range impl 0x8000 0xc03f_f000 0x2000 1 (no_memory, kernel_space)).1.1
      0xc03f_f000
    ≡ translate kernel_space 0xc03f_f000
vmm_map_kernel_range-fails_example =
    vmm_map_kernel_range-fails 0x8000 0xc03f_f000 0x2000 1 0xc03f_f000 no_memory kernel_space enomem
      (kernel_space-IsPaged, tt) (omega arith) (omega (arith, two_pages)) (omega arith, omega arith)
      nothing_there fails_test
