-- ===== src/Mm/Memory/Counts.antt =====
-- The counters of the two lists, and a free after an allocation.
use dummy_os.Prelude.{
  suc, ◌+◌, ◌<◌, ◌≡◌, refl, sym, ap, ◌∙◌, List, [], ◌∷◌, ◌++◌, arith, some, success, length,
  length-append,
}
use dummy_os.Libk.Utils.{word, add32, sub32}
use dummy_os.Mm.Memory.{
  Frame, descriptor, early, Memory, addr_of, erase, memory_page_frame_alloc, memory_page_frame_free,
  release, alloc_from,
}
use dummy_os.Mm.Memory.Frames.{
  occurs, held, IsLocated, get_page_frame_at-addr_of, erase_absent, erase-snoc, frame_eq_refl,
}

-- The counters are the lengths of the lists, and there are fewer than 2 ^ 32 frames.
pub record IsCounted (m : Memory) : Type 0 where
  pub free_n : m.free_page_frames.n ≡ length m.free_page_frames.list
  pub used_n : m.used_page_frames.n ≡ length m.used_page_frames.list
  pub few : length m.free_page_frames.list + length m.used_page_frames.list < word

alloc_from-IsCounted :
    (m : Memory) (free : List Frame)
    → IsCounted m
    → free ≡ m.free_page_frames.list
    → IsCounted (alloc_from m free).1
alloc_from-IsCounted m [] c e = c
alloc_from-IsCounted m (pf ∷ rest) c e =
    let n : suc (length rest) ≡ length m.free_page_frames.list = ap length e in
    let k = length-append m.used_page_frames.list (pf ∷ []) in
    record { free_n = omega (arith, c); used_n = omega (arith, c); few = omega (arith, c) }

-- An allocation keeps the counters true, and without free frames it returns 0 and changes nothing.
pub alloc-IsCounted : (m : Memory) → IsCounted m → IsCounted (memory_page_frame_alloc m).1
unfolding memory_page_frame_alloc
alloc-IsCounted m c = alloc_from-IsCounted m m.free_page_frames.list c refl

length-erase :
    (pf : Frame) (xs : List Frame) → 0 < occurs pf xs → length xs ≡ suc (length (erase pf xs))
unfolding erase
length-erase pf [] h = absurd (omega arith)
length-erase pf (x ∷ xs) h = ground (arith, length-erase pf xs)

-- Freeing a used frame keeps the counters true.
pub release-IsCounted :
    (m : Memory) (pf : Frame)
    → IsCounted m
    → occurs pf m.used_page_frames.list ≡ 1
    → occurs pf m.free_page_frames.list ≡ 0
    → IsCounted (release m pf)
unfolding release
release-IsCounted m pf c used free =
    let kept = ap length (erase_absent pf m.free_page_frames.list free) in
    let fewer = length-erase pf m.used_page_frames.list (omega arith) in
    record { free_n = omega (arith, c); used_n = omega (arith, c); few = omega (arith, c) }

-- A second free of the same frame is not noticed: the call succeeds, and the counter of the used
-- frames is then below the length of the list by one (or has wrapped).
pub double_free-not_IsCounted :
    (m : Memory) (pf : Frame)
    → IsCounted m
    → IsLocated m pf
    → occurs pf m.free_page_frames.list ≡ 1
    → occurs pf m.used_page_frames.list ≡ 0
    → (m' : Memory) × (memory_page_frame_free m (addr_of m pf) ≡ some (success, m'))
      × (m'.used_page_frames.list ≡ m.used_page_frames.list)
      × (m'.used_page_frames.n ≡ sub32 (length m.used_page_frames.list) 1)
      × ¬ IsCounted m'
unfolding memory_page_frame_free release
double_free-not_IsCounted m pf c at free used =
    let same = erase_absent pf m.used_page_frames.list used in
    let kept = ap length same in
    (
      release m pf,
      rw (get_page_frame_at-addr_of m pf at) (ground arith),
      same,
      omega (arith, c),
      λ c'. omega (arith, c, c'.used_n),
    )

IsLocated-alloc_from :
    (m : Memory) (pf pg : Frame) (rest : List Frame)
    → IsLocated m pg
    → IsLocated (alloc_from m (pf ∷ rest)).1 pg
IsLocated-alloc_from m pf (descriptor i) rest at = at
IsLocated-alloc_from m pf (early i) rest at = at

addr_of-alloc_from :
    (m : Memory) (pf pg : Frame) (rest : List Frame)
    → addr_of (alloc_from m (pf ∷ rest)).1 pg ≡ addr_of m pg
addr_of-alloc_from m pf (descriptor i) rest = refl
addr_of-alloc_from m pf (early i) rest = refl

release-alloc_from :
    (m : Memory) (pf : Frame) (rest : List Frame)
    → IsCounted m
    → m.free_page_frames.list ≡ pf ∷ rest
    → held pf m ≡ 1
    → release (alloc_from m (pf ∷ rest)).1 pf ≡ m
unfolding release
release-alloc_from m pf rest c e one = λ i. record m {
  free_page_frames = record { list = free i; n = free_n i };
  used_page_frames = record { list = used i; n = used_n i };
}
  where
    counts : suc (occurs pf rest) ≡ occurs pf m.free_page_frames.list
    counts = ground (arith, ap (occurs pf) (sym e), frame_eq_refl pf)

    free : pf ∷ erase pf rest ≡ m.free_page_frames.list
    free = ap (◌∷◌ pf) (erase_absent pf rest (omega (arith, counts))) ∙ sym e

    used : erase pf (m.used_page_frames.list ++ (pf ∷ [])) ≡ m.used_page_frames.list
    used = erase-snoc pf m.used_page_frames.list (omega (arith, counts))

    many : length m.free_page_frames.list ≡ suc (length rest)
    many = ap length e

    free_n : add32 (sub32 m.free_page_frames.n 1) 1 ≡ m.free_page_frames.n
    free_n = omega (arith, c, many)

    used_n : sub32 (add32 m.used_page_frames.n 1) 1 ≡ m.used_page_frames.n
    used_n = omega (arith, c, many)

-- Where the counters are the lengths of the lists, and the first free frame is located (the tables
-- give its address back, which is not 0 and lies between `memory_base` and `memory_top`, as they do
-- not before `memory_init`) and held once: `memory_page_frame_alloc` gives the address of that frame,
-- and a free of it gives the memory back as it was before the allocation.
pub free-alloc :
    (m : Memory) (pf : Frame) (rest : List Frame)
    → IsCounted m
    → m.free_page_frames.list ≡ pf ∷ rest
    → IsLocated m pf
    → held pf m ≡ 1
    → let (addr, m') = memory_page_frame_alloc m in
      (addr ≡ addr_of m pf) × (memory_page_frame_free m' addr ≡ some (success, m))
unfolding memory_page_frame_alloc memory_page_frame_free
free-alloc m pf rest c e at one = rw e (
    let same = addr_of-alloc_from m pf pf rest in
    let found =
      get_page_frame_at-addr_of (alloc_from m (pf ∷ rest)).1 pf
        (IsLocated-alloc_from m pf pf rest at) in
    (refl, rw (← same) (rw found (ground (arith, release-alloc_from m pf rest c e one)))))
