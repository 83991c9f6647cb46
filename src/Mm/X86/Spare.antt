-- ===== src/Mm/X86/Spare.antt =====
-- The free page frames stay apart from the page tables while `paging_map` and `paging_unmap` change
-- both.
use dummy_os.Prelude.{
  ℕ, ◌<◌, ◌≡◌, ◌≢◌, refl, sym, ap, ◌∙◌, subst, true, List, [], ◌∷◌, ◌==◌, Bool-cases, inl, inr,
}
use dummy_os.Mm.Memory.{
  Memory, Frame, descriptor, early, addr_of, alloc_from, memory_page_frame_alloc,
}
use dummy_os.Mm.X86.{
  Entry, Tables, put_entry, blank, frame_of, index_in_pd, index_in_pt, temp_index, add_table,
  set_page, paging_map, paging_unmap,
}
use dummy_os.Mm.X86.Sync.{directory}
use dummy_os.Mm.X86.Translate.{IsPaged, IsFresh, table_at}
use dummy_os.Mm.X86.Table.{from_false, new_entry, add_table-IsPaged, add_table-IsFresh}
use dummy_os.Mm.X86.Map.{table, same_row, set_page_cases, paging_map-Maps}

abbrev pub Differ : ℕ → List ℕ → Type 0
Differ f [] = Unit
Differ f (g ∷ gs) = (f ≢ g) × Differ f gs

-- The frames are apart from the tables and from each other.
abbrev pub AreSpare : Tables → List ℕ → Type 0
AreSpare s [] = Unit
AreSpare s (f ∷ fs) = IsFresh s f × Differ f fs × AreSpare s fs

abbrev pub spare_of : Memory → List Frame → List ℕ
spare_of m [] = []
spare_of m (pf ∷ pfs) = frame_of (addr_of m pf) ∷ spare_of m pfs

-- The numbers of the free frames.
abbrev pub spare_frames : Memory → List ℕ
spare_frames m = spare_of m m.free_page_frames.list

-- The tables are apart from each other, and the free frames from them and from each other.
abbrev pub IsSound : Memory × Tables → Type 0
IsSound (m, s) = IsPaged s × AreSpare s (spare_frames m)

same_spare :
    (m : Memory) (pf : Frame) (rest fs : List Frame)
    → spare_of (alloc_from m (pf ∷ rest)).1 fs ≡ spare_of m fs
same_spare m pf rest [] = refl
same_spare m pf rest (descriptor i ∷ fs) =
    ap (◌∷◌ (frame_of (addr_of m (descriptor i)))) (same_spare m pf rest fs)
same_spare m pf rest (early i ∷ fs) =
    ap (◌∷◌ (frame_of (addr_of m (early i)))) (same_spare m pf rest fs)

-- What an allocation takes from the spare frames.
abbrev Takes : Tables → ℕ × Memory → Type 0
Takes s (addr, m') =
    (addr ≢ 0 → IsFresh s (frame_of addr) × Differ (frame_of addr) (spare_frames m'))
    × AreSpare s (spare_frames m')

alloc_from-Takes :
    (s : Tables) (m : Memory) (free : List Frame)
    → AreSpare s (spare_frames m)
    → AreSpare s (spare_of m free)
    → Takes s (alloc_from m free)
alloc_from-Takes s m [] h h' = (λ ne. absurd (ne refl), h)
alloc_from-Takes s m (pf ∷ rest) h (fresh, differ, others) =
    let same = sym (same_spare m pf rest rest) in
    (
      λ ne. (fresh, subst (Differ (frame_of (addr_of m pf))) same differ),
      subst (AreSpare s) same others,
    )

alloc-Takes :
    (s : Tables) (m : Memory) → AreSpare s (spare_frames m) → Takes s (memory_page_frame_alloc m)
unfolding memory_page_frame_alloc
alloc-Takes s m h = alloc_from-Takes s m m.free_page_frames.list h h

module _ (vaddr : ℕ) (s : Tables) (p : IsPaged s) (low : index_in_pd vaddr < temp_index)
    (has : (s.cell s.cr3 (index_in_pd vaddr)).present ≡ true) where
  put_table-IsFresh :
      (i f : ℕ) (e : Entry) → IsFresh s f → IsFresh (put_entry (table vaddr s p low has) i e s) f
  unfolding put_entry
  put_table-IsFresh i f e h = record {
    not_directory = h.not_directory;
    not_table = λ k pr q.
        h.not_table k (sym (ap (λ x. x.present) (same_row vaddr s p low has i k e)) ∙ pr)
          (sym (ap (λ x. x.address) (same_row vaddr s p low has i k e)) ∙ q);
    not_other = h.not_other;
  }

  put_table-AreSpare :
      (i : ℕ) (e : Entry) (fs : List ℕ)
      → AreSpare s fs
      → AreSpare (put_entry (table vaddr s p low has) i e s) fs
  put_table-AreSpare i e [] h = tt
  put_table-AreSpare i e (f ∷ fs) (fresh, differ, h) =
      (put_table-IsFresh i f e fresh, differ, put_table-AreSpare i e fs h)

  set_page-AreSpare :
      (paddr prot : ℕ) (fs : List ℕ) → AreSpare s fs → AreSpare (set_page paddr vaddr prot s).1 fs
  set_page-AreSpare paddr prot fs h = elim (set_page_cases vaddr s p low has paddr prot) [
    | inl refused ↦ subst (λ r. AreSpare r.1 fs) (sym refused) h
    | inr (e, mapped, page) ↦
        subst (λ r. AreSpare r.1 fs) (sym mapped) (put_table-AreSpare (index_in_pt vaddr) e fs h)
  ]

add_table-AreSpare :
    (page_table vaddr prot : ℕ) (s : Tables) (fs : List ℕ)
    → IsPaged s
    → IsFresh s (frame_of page_table)
    → index_in_pd vaddr < temp_index
    → Differ (frame_of page_table) fs
    → AreSpare s fs
    → AreSpare (add_table page_table vaddr prot s) fs
add_table-AreSpare page_table vaddr prot s [] p new low d h = tt
add_table-AreSpare page_table vaddr prot s (f ∷ fs) p new low (ne, d) (fresh, differ, h) = (
  add_table-IsFresh page_table vaddr prot s p new low f fresh ne,
  differ,
  add_table-AreSpare page_table vaddr prot s fs p new low d h,
)

paging_map-AreSpare :
    (paddr vaddr prot : ℕ) (m : Memory) (s : Tables)
    → IsSound (m, s)
    → index_in_pd vaddr < temp_index
    → AreSpare
        (paging_map paddr vaddr prot (m, s)).1.1
        (spare_frames (paging_map paddr vaddr prot (m, s)).1.0)
unfolding paging_map
paging_map-AreSpare paddr vaddr prot m s (p, h) low =
    let (new_fresh, left) = alloc-Takes s m h in
    let new = (memory_page_frame_alloc m).0 in
    let dir = directory s p.recursive in
    elim (Bool-cases (s.cell s.cr3 (index_in_pd vaddr)).present) [
      | inl has ↦ rw (dir, has) (set_page-AreSpare vaddr s p low has paddr prot (spare_frames m) h)
      | inr absent ↦ elim (Bool-cases (new == 0)) [
        | inl none_left ↦ rw (dir, absent, none_left) left
        | inr got ↦
            let (f, d) = new_fresh (from_false new 0 got) in
            let rest = spare_frames (memory_page_frame_alloc m).1 in
            rw (dir, absent, got)
              (set_page-AreSpare vaddr (add_table new vaddr prot s)
                (add_table-IsPaged new vaddr prot s p f low) low
                (new_entry new vaddr prot s p f low).0 paddr prot rest
                (add_table-AreSpare new vaddr prot s rest p f low d left))
      ]
    ]

pub paging_map-IsSound :
    (paddr vaddr prot : ℕ) (m : Memory) (s : Tables)
    → IsSound (m, s)
    → index_in_pd vaddr < temp_index
    → IsSound (paging_map paddr vaddr prot (m, s)).1
paging_map-IsSound paddr vaddr prot m s (p, h) low = (
  (paging_map-Maps paddr vaddr prot vaddr m s p (λ ne. ((alloc-Takes s m h).0 ne).0) low low).0,
  paging_map-AreSpare paddr vaddr prot m s (p, h) low,
)

pub sound-IsFresh :
    (m : Memory) (s : Tables)
    → IsSound (m, s)
    → (memory_page_frame_alloc m).0 ≢ 0
    → IsFresh s (frame_of (memory_page_frame_alloc m).0)
sound-IsFresh m s (p, h) ne = ((alloc-Takes s m h).0 ne).0

pub paging_unmap-AreSpare :
    (vaddr : ℕ) (s : Tables) (fs : List ℕ)
    → IsPaged s
    → index_in_pd vaddr < temp_index
    → AreSpare s fs
    → AreSpare (paging_unmap vaddr s).1 fs
unfolding paging_unmap
paging_unmap-AreSpare vaddr s fs p low h =
    let i = index_in_pd vaddr in
    let pti = index_in_pt vaddr in
    let dir = directory s p.recursive in
    let at = table_at s i p.recursive in
    elim (Bool-cases (s.cell s.cr3 i).present) [
      | inr absent ↦ rw (dir, absent) h
      | inl has ↦ elim (Bool-cases (s.cell (s.cell s.cr3 i).address pti).present) [
        | inr free ↦ rw (dir, has, at, free) h
        | inl mapped ↦
            rw (dir, has, at, mapped) (put_table-AreSpare vaddr s p low has pti blank fs h)
      ]
    ]
