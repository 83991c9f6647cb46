-- ===== src/Mm/Memory/Tests.antt =====
-- Page frames on a small machine: the first megabyte's frames 1 to 3, and two early frames.
use dummy_os.Prelude.{◌-◌, ◌≡◌, refl, [], ◌∷◌, arith, some, success, err, einval}
use dummy_os.Libk.Utils.{word, is_aligned}
use dummy_os.Mm.Memory.{descriptor, early, Memory, memory_page_frame_alloc, memory_page_frame_free}
use dummy_os.Mm.Memory.Frames.{occurs, held, free_conserves}
use dummy_os.Mm.Memory.Counts.{IsCounted, free-alloc, alloc-IsCounted, double_free-not_IsCounted}

abbrev pub small : Memory
small = record {
  free_page_frames = record { list = early 0 ∷ descriptor 2 ∷ []; n = 2 };
  used_page_frames = record { list = descriptor 1 ∷ early 1 ∷ []; n = 2 };
  memory_base = 0x1000;
  memory_top = 0x5000;
  page_frame_descriptors = 0 ∷ 0x1000 ∷ 0x2000 ∷ (word - 1) ∷ (word - 1) ∷ [];
  early_free_frames = 0x3000 ∷ 0x4000 ∷ [];
}

alloc_small : (memory_page_frame_alloc small).0 ≡ 0x3000
unfolding memory_page_frame_alloc
alloc_small = refl

free_unaligned : memory_page_frame_free small 0x1004 ≡ some (err einval, small)
unfolding memory_page_frame_free is_aligned
free_unaligned = refl

free_conserves_example :
    (m' : Memory) × (memory_page_frame_free small 0x4000 ≡ some (success, m'))
    × (held (early 0) m' ≡ 1)
    × (occurs (early 1) m'.free_page_frames.list ≡ 1)
free_conserves_example = free_conserves small (early 1) (early 0) (omega arith) refl

free-alloc_example :
    let (addr, m') = memory_page_frame_alloc small in
    (addr ≡ 0x3000) × (memory_page_frame_free m' addr ≡ some (success, small))
free-alloc_example =
    free-alloc small (early 0) (descriptor 2 ∷ []) (omega arith) refl (omega arith) refl

alloc-IsCounted_test : IsCounted (memory_page_frame_alloc small).1
alloc-IsCounted_test = alloc-IsCounted small (omega arith)

double_free-not_IsCounted_example :
    (m' : Memory) × (memory_page_frame_free small 0x2000 ≡ some (success, m'))
    × (m'.used_page_frames.list ≡ descriptor 1 ∷ early 1 ∷ [])
    × (m'.used_page_frames.n ≡ 1)
    × ¬ IsCounted m'
double_free-not_IsCounted_example =
    double_free-not_IsCounted small (descriptor 2) (omega arith) (omega arith) refl refl
