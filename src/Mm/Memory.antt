-- ===== src/Mm/Memory.antt =====
-- kernel/mm/memory.c: the lists of free and of used page frames.
pub mod Counts
pub mod Frames
mod Tests
use dummy_os.Prelude.{
  ℕ, suc, ◌+◌, ◌-◌, ◌*◌, ◌/◌, ◌^◌, Bool, true, false, not, ◌||◌, List, [], ◌∷◌, ◌++◌, get_or, ltb,
  leb, ◌==◌, if◌then◌else◌, Option, none, some, Status, success, err, einval,
}
use dummy_os.Libk.Utils.{word, add32, sub32, page_size, is_aligned}

-- Which `struct page_frame` is meant: an entry of `page_frame_descriptors` or of
-- `early_free_frames`.
pub data Frame : Type 0 where
  descriptor early : ℕ → Frame

abbrev pub frame_eq : Frame → Frame → Bool
frame_eq (descriptor i) (descriptor j) = i == j
frame_eq (early i) (early j) = i == j
frame_eq _ _ = false

-- `pf_list_t`; the intrusive list is the sequence of its frames.
pub record PfList : Type 0 where
  pub list : List Frame
  pub n : ℕ

-- The static state of memory.c. The two arrays hold the `addr` field of each frame.
pub record Memory : Type 0 where
  pub free_page_frames : PfList
  pub used_page_frames : PfList
  pub memory_base : ℕ
  pub memory_top : ℕ
  pub page_frame_descriptors : List ℕ
  pub early_free_frames : List ℕ

-- `pf->addr`
abbrev pub addr_of : Memory → Frame → ℕ
addr_of m (descriptor i) = get_or m.page_frame_descriptors i 0
addr_of m (early i) = get_or m.early_free_frames i 0

-- `memory_pf_list_insert`
unfoldable pub memory_pf_list_insert : PfList → Frame → PfList
memory_pf_list_insert l pf = record { list = l.list ++ (pf ∷ []); n = add32 l.n 1 }

-- `list_erase` takes a node out of the list that holds it.
unfoldable pub erase : Frame → List Frame → List Frame
erase pf [] = []
erase pf (x ∷ xs) = if frame_eq x pf then xs else x ∷ erase pf xs

unfoldable pub get_page_frame_at : Memory → ℕ → Option Frame
get_page_frame_at m addr =
    if not (is_aligned addr page_size) || ltb addr m.memory_base || leb m.memory_top addr
    then none
    else if get_or m.page_frame_descriptors (addr / page_size) 0 == word - 1
    then some (early (sub32 addr (get_or m.early_free_frames 0 0) / page_size))
    else some (descriptor (addr / page_size))

abbrev pub alloc_from : Memory → List Frame → ℕ × Memory
alloc_from m [] = (0, m)
alloc_from m (pf ∷ rest) = (
  addr_of m pf,
  record m {
    free_page_frames = record { list = rest; n = sub32 m.free_page_frames.n 1 };
    used_page_frames = record {
      list = m.used_page_frames.list ++ (pf ∷ []);
      n = add32 m.used_page_frames.n 1;
    };
  },
)

-- The address of the frame, and 0 (NULL) if no free frame is left.
unfoldable pub memory_page_frame_alloc : Memory → ℕ × Memory
memory_page_frame_alloc m = alloc_from m m.free_page_frames.list

-- The list that holds the frame loses it; the counter that falls is always the used one.
unfoldable pub release : Memory → Frame → Memory
unfolding erase
release m pf = record m {
  used_page_frames = record {
    list = erase pf m.used_page_frames.list;
    n = sub32 m.used_page_frames.n 1;
  };
  free_page_frames = record {
    list = pf ∷ erase pf m.free_page_frames.list;
    n = add32 m.free_page_frames.n 1;
  };
}

abbrev pub free_found : Memory → ℕ → Option Frame → Option (Status × Memory)
free_found m addr none = some (err einval, m)
free_found m addr (some pf) = if addr_of m pf == addr then some (success, release m pf) else none

-- `none` is a failed `kassert`, which halts the kernel.
unfoldable pub memory_page_frame_free : Memory → ℕ → Option (Status × Memory)
unfolding get_page_frame_at
memory_page_frame_free m addr = free_found m addr (get_page_frame_at m addr)

-- `*nb_used_page_frames` and `*nb_free_page_frames`
unfoldable pub memory_statistics : Memory → ℕ × ℕ
memory_statistics m = (m.used_page_frames.n, m.free_page_frames.n)
