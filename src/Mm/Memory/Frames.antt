-- ===== src/Mm/Memory/Frames.antt =====
-- Which frames the two lists hold, before and after a call.
use dummy_os.Prelude.{
  ℕ, suc, ◌+◌, ◌-◌, ◌*◌, ◌/◌, ◌%◌, ◌≤◌, ◌<◌, ◌≡◌, refl, ap, true, false, List, [], ◌∷◌, ◌++◌,
  get_or, leb, arith, some, success, Bool-cases, inl, inr,
}
use dummy_os.Libk.Utils.{word, page_size, is_aligned-page}
use dummy_os.Mm.Memory.{
  Frame, descriptor, early, frame_eq, Memory, addr_of, erase, get_page_frame_at,
  memory_page_frame_alloc, memory_page_frame_free, release, alloc_from,
}

abbrev pub occurs : Frame → List Frame → ℕ
occurs pf [] = 0
occurs pf (x ∷ xs) = elim (frame_eq x pf) [ true ↦ suc (occurs pf xs) | false ↦ occurs pf xs ]

pub frame_eq_refl : (pf : Frame) → frame_eq pf pf ≡ true
frame_eq_refl (descriptor i) = ground arith
frame_eq_refl (early i) = ground arith

frame_eq→eq : (pf pg : Frame) → frame_eq pf pg ≡ true → pf ≡ pg
frame_eq→eq (descriptor i) (descriptor j) h = ground arith
frame_eq→eq (early i) (early j) h = ground arith
frame_eq→eq (descriptor i) (early j) h = cc
frame_eq→eq (early i) (descriptor j) h = cc

occurs-snoc :
    (pf pg : Frame) (xs : List Frame)
    → occurs pf (xs ++ (pg ∷ [])) ≡ occurs pf (pg ∷ []) + occurs pf xs
occurs-snoc pf pg [] = ground arith
occurs-snoc pf pg (x ∷ xs) = ground (arith, occurs-snoc pf pg xs)

-- A frame that the list does not hold is not erased from it.
pub erase_absent : (pf : Frame) (xs : List Frame) → occurs pf xs ≡ 0 → erase pf xs ≡ xs
unfolding erase
erase_absent pf [] h = refl
erase_absent pf (x ∷ xs) h = ground (arith, erase_absent pf xs)

-- Erasing the frame that was pushed last gives the list back.
pub erase-snoc : (pf : Frame) (xs : List Frame) → occurs pf xs ≡ 0 → erase pf (xs ++ (pf ∷ [])) ≡ xs
unfolding erase
erase-snoc pf [] h = ground (arith, frame_eq_refl pf)
erase-snoc pf (x ∷ xs) h = ground (arith, erase-snoc pf xs)

-- One copy of a frame that the list holds is erased, and nothing else.
pub occurs-erase :
    (pf pg : Frame) (xs : List Frame)
    → 0 < occurs pf xs
    → occurs pg xs ≡ occurs pg (pf ∷ []) + occurs pg (erase pf xs)
unfolding erase
occurs-erase pf pg [] h = absurd (omega arith)
occurs-erase pf pg (x ∷ xs) h = elim (Bool-cases (frame_eq x pf)) [
  | inl same ↦ rw same (rw (frame_eq→eq x pf same) (ground arith))
  | inr other ↦ rw other (ground (arith, occurs-erase pf pg xs))
]

-- How often the two lists hold a frame.
abbrev pub held : Frame → Memory → ℕ
held pf m = occurs pf m.free_page_frames.list + occurs pf m.used_page_frames.list

held-alloc_from :
    (m : Memory) (pg : Frame) (free : List Frame)
    → occurs pg free ≡ occurs pg m.free_page_frames.list
    → held pg (alloc_from m free).1 ≡ held pg m
held-alloc_from m pg [] e = refl
held-alloc_from m pg (pf ∷ rest) e = ground (arith, occurs-snoc pg pf m.used_page_frames.list)

-- `memory_page_frame_alloc` moves a frame from one list to the other: each frame is held as often
-- after the call as before it.
pub alloc_conserves : (m : Memory) (pg : Frame) → held pg (memory_page_frame_alloc m).1 ≡ held pg m
unfolding memory_page_frame_alloc
alloc_conserves m pg = held-alloc_from m pg m.free_page_frames.list refl

held-release : (m : Memory) (pf pg : Frame) → held pf m ≡ 1 → held pg (release m pf) ≡ held pg m
unfolding release
held-release m pf pg one = elim (Bool-cases (leb 1 (occurs pf m.used_page_frames.list))) [
  | inl in_used ↦ ground (
    arith,
    occurs-erase pf pg m.used_page_frames.list,
    ap (occurs pg) (erase_absent pf m.free_page_frames.list (ground arith)),
  )
  | inr in_free ↦ ground (
    arith,
    occurs-erase pf pg m.free_page_frames.list,
    ap (occurs pg) (erase_absent pf m.used_page_frames.list (ground arith)),
  )
]

absent-release :
    (m : Memory) (pf : Frame) → held pf m ≡ 1 → occurs pf (release m pf).used_page_frames.list ≡ 0
unfolding release
absent-release m pf one = elim (Bool-cases (leb 1 (occurs pf m.used_page_frames.list))) [
  | inl in_used ↦ ground (arith, occurs-erase pf pf m.used_page_frames.list, frame_eq_refl pf)
  | inr in_free ↦
      ground (arith, ap (occurs pf) (erase_absent pf m.used_page_frames.list (ground arith)))
]

-- What the tables say of a frame: an entry of the descriptor table has the address of its index,
-- and an early frame that of its place behind the first early frame, where the descriptor table
-- has the mark -1.
abbrev pub IsLocated : Memory → Frame → Type 0
IsLocated m (descriptor i) =
    (get_or m.page_frame_descriptors i 0 ≡ i * page_size)
    × (m.memory_base ≤ i * page_size)
    × (i * page_size < m.memory_top)
    × (m.memory_top ≤ word)
    × (0 < i)
IsLocated m (early i) =
    (get_or m.early_free_frames i 0 ≡ get_or m.early_free_frames 0 0 + i * page_size)
    × (get_or m.early_free_frames 0 0 % page_size ≡ 0)
    × (get_or m.page_frame_descriptors (get_or m.early_free_frames i 0 / page_size) 0 ≡ word - 1)
    × (m.memory_base ≤ get_or m.early_free_frames i 0)
    × (get_or m.early_free_frames i 0 < m.memory_top)
    × (m.memory_top ≤ word)
    × (0 < get_or m.early_free_frames 0 0)

-- The address of a frame leads back to the frame.
pub get_page_frame_at-addr_of :
    (m : Memory) (pf : Frame) → IsLocated m pf → get_page_frame_at m (addr_of m pf) ≡ some pf
unfolding get_page_frame_at
get_page_frame_at-addr_of m (descriptor i) h =
    let at : get_or m.page_frame_descriptors i 0 ≡ i * page_size = h.0 in
    rw at (
      let back : i * page_size / page_size ≡ i = omega arith in
      rw (back, at, is_aligned-page) (ground arith))
get_page_frame_at-addr_of m (early i) h = rw is_aligned-page (ground (arith, h))

-- Where a frame is located (the tables give its address back, which is not 0 and lies between
-- `memory_base` and `memory_top`, as they do not for frame 0 or before `memory_init`) and the two
-- lists hold it once, `memory_page_frame_free` of its address succeeds: every frame is held as often
-- as before, and the frame is held by the free list.
pub free_conserves :
    (m : Memory) (pf pg : Frame)
    → IsLocated m pf
    → held pf m ≡ 1
    → (m' : Memory) × (memory_page_frame_free m (addr_of m pf) ≡ some (success, m'))
      × (held pg m' ≡ held pg m)
      × (occurs pf m'.free_page_frames.list ≡ 1)
unfolding memory_page_frame_free
free_conserves m pf pg at one = (
  release m pf,
  rw (get_page_frame_at-addr_of m pf at) (ground arith),
  held-release m pf pg one,
  omega (arith, absent-release m pf one, held-release m pf pf one),
)
