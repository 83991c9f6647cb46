-- ===== src/Mm/Region.antt =====
-- kernel/mm/region.c and kernel/mm/mapping.c: regions of page frames, which mappings share. A region
-- is named by its address; an allocation of `kmalloc` or `kcalloc` is given by whether there is
-- memory, and for a region by its address.
pub mod Alloc
mod Tests
use dummy_os.Prelude.{
  ℕ, zero, suc, ◌+◌, ◌-◌, ◌/◌, Bool, true, false, ◌&&◌, List, [], ◌∷◌, ltb, leb, ◌==◌,
  if◌then◌else◌, Option, none, some, Status, Result, ok, success, err, enomem, eoverflow,
}
use dummy_os.Libk.Utils.{add32, sub32, page_size, page_align_up}
use dummy_os.Mm.Memory.{Memory, memory_page_frame_alloc, memory_page_frame_free}

-- `region_t`; `nr_frames` is the length of `frames`.
pub record Region : Type 0 where
  pub prot : ℕ
  pub frames : List ℕ
  pub refcnt : ℕ

-- `mapping_t`, with the address of its region.
pub record Mapping : Type 0 where
  pub flags : ℕ
  pub start : ℕ
  pub size : ℕ
  pub region : ℕ

-- The page frames and the regions.
pub record Store : Type 0 where
  pub memory : Memory
  pub regions : ℕ → Region

abbrev pub put : Store → ℕ → Region → Store
put s r region = record s { regions = λ a. if a == r then region else s.regions a }

-- The loop of `region_reset`; `none` is the failed assertion of a free.
unfoldable pub free_frames : List ℕ → Memory → Option Memory
free_frames [] m = some m
free_frames (f ∷ fs) m =
    if f == 0
    then free_frames fs m
    else elim (memory_page_frame_free m f) [ none ↦ none | some (_, m') ↦ free_frames fs m' ]

-- The fields of a region that is no more.
abbrev pub no_region : Region
no_region = record { prot = 0; frames = []; refcnt = 0 }

abbrev cleared : Store → ℕ → Option Memory → Option Store
cleared s r none = none
cleared s r (some m) = some (put (record s { memory = m }) r no_region)

unfoldable pub region_reset : ℕ → Store → Option Store
region_reset r s = cleared s r (free_frames (s.regions r).frames s.memory)

unfoldable pub region_unref : ℕ → Store → Option Store
unfolding region_reset
region_unref r s =
    let count = sub32 (s.regions r).refcnt 1 in
    let s' = put s r (record (s.regions r) { refcnt = count }) in
    if count == 0 then region_reset r s' else some s'

unfoldable pub region_ref : ℕ → Store → Store
region_ref r s = put s r (record (s.regions r) { refcnt = add32 (s.regions r).refcnt 1 })

unfoldable pub region_get_ref : ℕ → Store → ℕ
region_get_ref r s = (s.regions r).refcnt

-- The frames of a range of physical addresses.
unfoldable pub range_frames : ℕ → ℕ → List ℕ
range_frames zero addr = []
range_frames (suc n) addr = addr ∷ range_frames n (add32 addr page_size)

unfoldable pub region_create_from_range : Option ℕ → Bool → ℕ → ℕ → ℕ → Store → Result ℕ × Store
region_create_from_range none frames start size prot s = (err enomem, s)
region_create_from_range (some r) frames start size prot s =
    let nr_frames = page_align_up size / page_size in
    if frames
    then (ok r, put s r (record { prot = prot; frames = range_frames nr_frames start; refcnt = 1 }))
    else (err enomem, s)

-- The loop of `__region_init`, over an array of zeros: whether every frame was there.
unfoldable pub alloc_frames : ℕ → Memory → Bool × List ℕ × Memory
alloc_frames zero m = (true, [], m)
alloc_frames (suc n) m =
    let (addr, m') = memory_page_frame_alloc m in
    let (frames_ok, frames, m'') = alloc_frames n m' in
    if addr == 0 then (false, [], m') else (frames_ok, addr ∷ frames, m'')

abbrev pub init_failed : ℕ → Store → Option Memory → Option (Status × Store)
init_failed r s none = none
init_failed r s (some m) = some (err enomem, put (record s { memory = m }) r no_region)

-- Only the frames that are there are kept: the others are 0 and no free is made for them.
abbrev pub init_from : ℕ → ℕ → Store → Bool × List ℕ × Memory → Option (Status × Store)
init_from r prot s (true, frames, m) =
    some (
      success,
      put (record s { memory = m }) r (record { prot = prot; frames = frames; refcnt = 1 }),
    )
init_from r prot s (false, frames, m) = init_failed r s (free_frames frames m)

unfoldable pub region_init : ℕ → ℕ → ℕ → Store → Option (Status × Store)
region_init r nr_frames prot s = init_from r prot s (alloc_frames nr_frames s.memory)

abbrev pub created : ℕ → Option (Status × Store) → Option (Result ℕ × Store)
created r none = none
created r (some (ok _, s)) = some (ok r, s)
created r (some (err e, s)) = some (err e, s)

-- `frames` says whether there is memory for the array of frames.
unfoldable pub region_create : Option ℕ → Bool → ℕ → ℕ → Store → Option (Result ℕ × Store)
region_create none frames nr_frames prot s = some (err enomem, s)
region_create (some r) frames nr_frames prot s =
    if frames then created r (region_init r nr_frames prot s) else some (err enomem, s)

unfoldable pub mapping_size_in_pages : Mapping → ℕ
mapping_size_in_pages m = page_align_up m.size / page_size

unfoldable pub mapping_contains_addr : Mapping → ℕ → Bool
mapping_contains_addr m addr = leb m.start addr && ltb addr (add32 m.start m.size)

unfoldable pub mapping_get_end : Mapping → ℕ
mapping_get_end m = sub32 (add32 m.start m.size) 1

-- `mapping_reset`: what is left of the mapping itself is freed by the callers.
unfoldable pub mapping_destroy : Mapping → Store → Option Store
mapping_destroy m s = region_unref m.region s

unfoldable pub mapping_init_of : ℕ → ℕ → ℕ → ℕ → Store → Result Mapping × Store
mapping_init_of region start size flags s =
    if ltb (add32 start size) start then (err eoverflow, s) else (
      ok (record { flags = flags; start = start; size = size; region = region }),
      region_ref region s,
    )

abbrev pub with_result : Result Mapping → Option Store → Option (Result Mapping × Store)
with_result result none = none
with_result result (some s) = some (result, s)

-- The reference of `mapping_init` itself is given back.
abbrev pub unref_after : ℕ → Result Mapping × Store → Option (Result Mapping × Store)
unref_after r (result, s) = with_result result (region_unref r s)

abbrev pub mapping_init_after :
    ℕ → ℕ → ℕ → Option (Result ℕ × Store) → Option (Result Mapping × Store)
mapping_init_after start size flags none = none
mapping_init_after start size flags (some (err e, s)) = some (err e, s)
mapping_init_after start size flags (some (ok r, s)) =
    unref_after r (mapping_init_of r start size flags s)

unfoldable pub mapping_init :
    Option ℕ → Bool → ℕ → ℕ → ℕ → ℕ → Store → Option (Result Mapping × Store)
mapping_init region frames start size prot flags s =
    let end = add32 start size in
    if ltb end start
    then some (err eoverflow, s)
    else mapping_init_after start size flags
        (region_create region frames (sub32 end start / page_size) prot s)

-- `mem` says whether there is memory for the mapping.
unfoldable pub mapping_create :
    Bool → Option ℕ → Bool → ℕ → ℕ → ℕ → ℕ → Store → Option (Result Mapping × Store)
mapping_create mem region frames start size prot flags s =
    if mem then mapping_init region frames start size prot flags s else some (err enomem, s)

unfoldable pub mapping_create_from_range :
    Bool → Option ℕ → Bool → ℕ → ℕ → ℕ → ℕ → ℕ → Store → Option (Result Mapping × Store)
mapping_create_from_range mem region frames mstart pstart size prot flags s =
    if mem
    then mapping_init_after mstart size flags
        (some (region_create_from_range region frames pstart size prot s))
    else some (err enomem, s)

unfoldable pub mapping_copy_create : Bool → Mapping → Store → Result Mapping × Store
mapping_copy_create mem src s = if mem then (ok src, region_ref src.region s) else (err enomem, s)
