-- ===== src/Mm/Region/Tests.antt =====
-- Tests of regions and mappings, and examples of the theorems.
use dummy_os.Prelude.{◌≡◌, refl, true, false, [], ◌∷◌, arith, some, ok}
use dummy_os.Mm.Memory.{Memory, descriptor, memory_page_frame_alloc}
use dummy_os.Mm.Region.{
  Store, Region, Mapping, mapping_create, mapping_init, region_create, region_init, alloc_frames,
  mapping_init_of, region_ref, region_unref, put, no_region,
}
use dummy_os.Mm.Region.Alloc.{IsNew, mapping_create-IsNew}

-- Two free frames, at 0x1000 and 0x2000.
abbrev two_free : Store
two_free = record {
  memory = record {
    free_page_frames = record { list = descriptor 1 ∷ descriptor 2 ∷ []; n = 2 };
    used_page_frames = record { list = []; n = 0 };
    memory_base = 0;
    memory_top = 0x3000;
    page_frame_descriptors = 0 ∷ 0x1000 ∷ 0x2000 ∷ [];
    early_free_frames = [];
  };
  regions = λ r. no_region;
}

abbrev mapped : Mapping
mapped = record { flags = 0; start = 0x8000; size = 0x2000; region = 9 }

abbrev both_used : Memory
both_used = record {
  free_page_frames = record { list = []; n = 0 };
  used_page_frames = record { list = descriptor 1 ∷ descriptor 2 ∷ []; n = 2 };
  memory_base = 0;
  memory_top = 0x3000;
  page_frame_descriptors = 0 ∷ 0x1000 ∷ 0x2000 ∷ [];
  early_free_frames = [];
}

abbrev both_frames : Region
both_frames = record { prot = 1; frames = 0x1000 ∷ 0x2000 ∷ []; refcnt = 1 }

-- The region is stored, referenced and unreferenced.
abbrev after : Store
after =
    put (region_ref 9 (put (record two_free { memory = both_used }) 9 both_frames)) 9 both_frames

created_test :
    mapping_create true (some 9) true 0x8000 0x2000 1 0 two_free ≡ some (ok mapped, after)
unfolding mapping_create mapping_init region_create region_init alloc_frames memory_page_frame_alloc
    mapping_init_of region_ref region_unref
created_test = refl

-- A third frame is not there.
exhausted_test : (alloc_frames 3 two_free.memory).0 ≡ false
unfolding alloc_frames memory_page_frame_alloc
exhausted_test = refl

mapping_create-IsNew_example : IsNew 0x8000 0x2000 1 mapped after
mapping_create-IsNew_example =
    mapping_create-IsNew true (some 9) true 0x8000 0x2000 1 0 two_free after mapped (omega arith)
      (omega arith) created_test
