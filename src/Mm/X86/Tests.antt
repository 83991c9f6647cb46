-- ===== src/Mm/X86/Tests.antt =====
-- Instances of the theorems on the page tables.
use dummy_os.Prelude.{
  ℕ, ◌≡◌, ◌≢◌, ◌↔◌, refl, true, false, [], ◌∷◌, ◌==◌, ◌&&◌, if◌then◌else◌, none, arith, success,
}
use dummy_os.Mm.Memory.{Memory, descriptor, memory_page_frame_alloc}
use dummy_os.Mm.X86.{Entry, Tables, blank, frame_of, paging_map, paging_unmap, paging_update_prot}
use dummy_os.Mm.X86.Translate.{IsPaged, IsFresh, translate}
use dummy_os.Mm.X86.Map.{same_page, Maps, paging_map-Maps}
use dummy_os.Mm.X86.Unmap.{paging_unmap-Unmaps}
use dummy_os.Mm.X86.Protect.{Protects, paging_update_prot-Protects}
use dummy_os.Mm.X86.Share.{Shared, share_page-Shared}

abbrev own_entry : Entry
own_entry = record { present = true; read_write = true; user = false; rest = 0; address = 7 }

-- An empty address space, whose page directory is in frame 7.
abbrev empty_space : Tables
empty_space = record {
  cr3 = 7;
  cell = λ f j. if (f == 7) && (j == 1023) then own_entry else blank;
  vmms = [];
}

only_last : (i : ℕ) → (empty_space.cell 7 i).present ≡ true → i ≡ 1023
only_last i h = ground (arith, h)

empty_space-IsPaged : IsPaged empty_space
empty_space-IsPaged = record {
  recursive = refl;
  last = refl;
  temp = refl;
  others = tt;
  apart = λ i j ne pi pj. absurd (omega (arith, ne, only_last i pi, only_last j pj));
  tables = λ i ne h. absurd (ne (only_last i h));
}

-- One free frame, number 9.
abbrev one_frame : Memory
one_frame = record {
  free_page_frames = record { list = descriptor 0 ∷ []; n = 1 };
  used_page_frames = record { list = []; n = 0 };
  memory_base = 0;
  memory_top = 65536;
  page_frame_descriptors = 36864 ∷ [];
  early_free_frames = [];
}

frame_9-IsFresh : IsFresh empty_space (frame_of (memory_page_frame_alloc one_frame).0)
unfolding memory_page_frame_alloc
frame_9-IsFresh = record {
  not_directory = λ e. absurd (omega (arith, e));
  not_table = λ i h e. ground (arith, h, e);
  not_other = tt;
}

paging_map-Maps_example :
    Maps 20480 4198400 4198404 empty_space
      (paging_map 20480 4198400 1 (one_frame, empty_space)).0
      (paging_map 20480 4198400 1 (one_frame, empty_space)).1.1
paging_map-Maps_example =
    paging_map-Maps 20480 4198400 1 4198404 one_frame empty_space empty_space-IsPaged
      (λ h. frame_9-IsFresh) (omega arith) (omega arith)

abbrev mapped_space : Tables
mapped_space = (paging_map 20480 4198400 1 (one_frame, empty_space)).1.1

mapped_space-IsPaged : IsPaged mapped_space
mapped_space-IsPaged = paging_map-Maps_lem.0
  where
    paging_map-Maps_lem :
        Maps 20480 4198400 4198400 empty_space
          (paging_map 20480 4198400 1 (one_frame, empty_space)).0
          mapped_space
    paging_map-Maps_lem =
        paging_map-Maps 20480 4198400 1 4198400 one_frame empty_space empty_space-IsPaged
          (λ h. frame_9-IsFresh) (omega arith) (omega arith)

paging_unmap-Unmaps_example :
    IsPaged (paging_unmap 4198404 mapped_space).1
    × (translate (paging_unmap 4198404 mapped_space).1 4198400
        ≡ (if same_page 4198400 4198404 then none else translate mapped_space 4198400))
    × (((paging_unmap 4198404 mapped_space).0 ≡ success) ↔ (translate mapped_space 4198404 ≢ none))
paging_unmap-Unmaps_example =
    paging_unmap-Unmaps 4198404 4198400 mapped_space mapped_space-IsPaged (omega arith)
      (omega arith)

paging_update_prot-Protects_example :
    Protects 4198404 0 4198400 mapped_space
      (paging_update_prot 4198404 0 mapped_space).0
      (paging_update_prot 4198404 0 mapped_space).1
paging_update_prot-Protects_example =
    paging_update_prot-Protects 4198404 0 4198400 mapped_space mapped_space-IsPaged (omega arith)

-- One page is mapped, and may be written to, in the table in frame 5.
abbrev one_page : Tables
one_page = record empty_space { cell = λ f j. if (f == 5) && (j == 0) then own_entry else blank }

share_page-Shared_example : Shared 6 5 (λ e. absurd (omega (arith, e))) 1024 0 one_page 0
share_page-Shared_example =
    share_page-Shared 6 5 (λ e. absurd (omega (arith, e))) 1024 0 0 one_page (omega arith)
      (omega arith)
