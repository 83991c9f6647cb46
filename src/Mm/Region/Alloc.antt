-- ===== src/Mm/Region/Alloc.antt =====
-- The frames of new regions, and the mappings of them.
use dummy_os.Prelude.{
  ℕ, zero, suc, ◌+◌, ◌/◌, ◌<◌, ◌≡◌, refl, sym, ap, ◌∙◌, subst, Bool, true, false, List, [], ◌∷◌,
  length, ltb, ◌==◌, Option, none, some, Bool-cases, inl, inr, Result, ok, err, arith,
}
use dummy_os.Libk.Utils.{word, add32, sub32, page_size}
use dummy_os.Mm.Memory.{Memory, memory_page_frame_alloc}
use dummy_os.Mm.Region.{
  Mapping, Store, alloc_frames, region_init, region_create, region_ref, region_unref, init_from,
  free_frames, put, created, mapping_init_after, with_result, init_failed, mapping_init_of,
  mapping_init, mapping_create,
}

eq_refl : (a : ℕ) → (a == a) ≡ true
eq_refl a = ground arith

abbrev pub AreFrames : List ℕ → Type 0
AreFrames [] = Unit
AreFrames (f ∷ fs) = (0 < f) × AreFrames fs

-- As many frames as asked for, none of them 0.
abbrev pub Full : ℕ → List ℕ → Type 0
Full n frames = (length frames ≡ n) × AreFrames frames

alloc_frames-Full : (n : ℕ) (m : Memory) → (alloc_frames n m).0 ≡ true → Full n (alloc_frames n m).1
unfolding alloc_frames
alloc_frames-Full zero m h = (refl, tt)
alloc_frames-Full (suc n) m h = elim (Bool-cases ((memory_page_frame_alloc m).0 == 0)) [
  | inl out ↦ absurd (false_not_true (sym (rest_out out) ∙ h))
  | inr fine ↦
      let (many, frames) =
        alloc_frames-Full n (memory_page_frame_alloc m).1 (sym (rest_fine fine) ∙ h) in
      let there : 0 < (memory_page_frame_alloc m).0 = ground (arith, fine) in
      rw fine (ap (λ k. suc k) many, (there, frames))
]
  where
    false_not_true : ¬ (false ≡ true)
    false_not_true e = ground arith

    rest_out : ((memory_page_frame_alloc m).0 == 0) ≡ true → (alloc_frames (suc n) m).0 ≡ false
    rest_out out = rw out refl

    rest_fine :
        ((memory_page_frame_alloc m).0 == 0) ≡ false
        → (alloc_frames (suc n) m).0 ≡ (alloc_frames n (memory_page_frame_alloc m).1).0
    rest_fine fine = rw fine refl

-- A mapping that covers the `size` bytes from `start` on, which do not wrap around, with a region of
-- its own that has a frame for each whole page, none of them 0.
pub record IsNew (start size prot : ℕ) (m : Mapping) (s : Store) : Type 0 where
  pub starts : m.start ≡ start
  pub sized : m.size ≡ size
  pub ends : m.start + m.size < word
  pub own : (s.regions m.region).refcnt ≡ 1
  pub protection : (s.regions m.region).prot ≡ prot
  pub frames : Full (size / page_size) (s.regions m.region).frames

abbrev New : ℕ → ℕ → ℕ → Option (Result Mapping × Store) → Type 0
New start size prot none = Unit
New start size prot (some (err e, s)) = Unit
New start size prot (some (ok m, s)) = IsNew start size prot m s

-- A region that is made with its frames.
abbrev NewRegion : ℕ → ℕ → Option (Result ℕ × Store) → Type 0
NewRegion nr_frames prot none = Unit
NewRegion nr_frames prot (some (err e, s)) = Unit
NewRegion nr_frames prot (some (ok r, s)) =
    ((s.regions r).refcnt ≡ 1) × ((s.regions r).prot ≡ prot) × Full nr_frames (s.regions r).frames

init_from-NewRegion :
    (r prot nr_frames : ℕ) (s : Store) (a : Bool × List ℕ × Memory)
    → (a.0 ≡ true → Full nr_frames a.1)
    → NewRegion nr_frames prot (created r (init_from r prot s a))
init_from-NewRegion r prot nr_frames s (true, frames, m) h = rw (eq_refl r) (refl, refl, h refl)
init_from-NewRegion r prot nr_frames s (false, frames, m) h =
    init_failed-NewRegion (free_frames frames m)
  where
    init_failed-NewRegion :
        (o : Option Memory) → NewRegion nr_frames prot (created r (init_failed r s o))
    init_failed-NewRegion none = tt
    init_failed-NewRegion (some m') = tt

region_create-NewRegion :
    (region : Option ℕ) (frames : Bool) (nr_frames prot : ℕ) (s : Store)
    → NewRegion nr_frames prot (region_create region frames nr_frames prot s)
unfolding region_create region_init
region_create-NewRegion none frames nr_frames prot s = tt
region_create-NewRegion (some r) false nr_frames prot s = tt
region_create-NewRegion (some r) true nr_frames prot s =
    init_from-NewRegion r prot nr_frames s (alloc_frames nr_frames s.memory)
      (alloc_frames-Full nr_frames s.memory)

-- A region with two references keeps one.
region_unref-two :
    (r : ℕ) (s : Store)
    → (s.regions r).refcnt ≡ 2
    → region_unref r s ≡ some (put s r (record (s.regions r) { refcnt = 1 }))
unfolding region_unref
region_unref-two r s e = rw (region_unref, e) refl

region_ref-two :
    (r : ℕ) (s : Store) → (s.regions r).refcnt ≡ 1 → ((region_ref r s).regions r).refcnt ≡ 2
unfolding region_ref
region_ref-two r s e = rw (eq_refl r, e) refl

mapping_init_of-fits :
    (r start size flags : ℕ) (s : Store)
    → start + size < word
    → mapping_init_of r start size flags s
      ≡ (ok (record { flags = flags; start = start; size = size; region = r }), region_ref r s)
unfolding mapping_init_of
mapping_init_of-fits r start size flags s fits =
    let no_wrap : ltb (add32 start size) start ≡ false = ground (arith, fits) in rw no_wrap refl

after-New :
    (start size prot flags : ℕ) (created_region : Option (Result ℕ × Store))
    → start + size < word
    → NewRegion (size / page_size) prot created_region
    → New start size prot (mapping_init_after start size flags created_region)
after-New start size prot flags none fits h = tt
after-New start size prot flags (some (err e, s)) fits h = tt
after-New start size prot flags (some (ok r, s)) fits (one, p, n) =
    let two = region_unref-two r (region_ref r s) (region_ref-two r s one) in
    let m : Mapping = record { flags = flags; start = start; size = size; region = r } in
    rw (mapping_init_of-fits r start size flags s fits) (
      subst (λ o. New start size prot (with_result (ok m) o)) (sym two)
        (record {
          starts = refl;
          sized = refl;
          ends = fits;
          own = rw (eq_refl r) refl;
          protection = rw (eq_refl r) (unfold region_ref in rw (eq_refl r) p);
          frames = rw (eq_refl r) (unfold region_ref in rw (eq_refl r) n);
        }))

mapping_init-New :
    (region : Option ℕ) (frames : Bool) (start size prot flags : ℕ) (s : Store)
    → start < word
    → size < word
    → New start size prot (mapping_init region frames start size prot flags s)
unfolding mapping_init
mapping_init-New region frames start size prot flags s starts sized =
    elim (Bool-cases (ltb (add32 start size) start)) [
      | inl wraps ↦ rw wraps tt
      | inr fine ↦
          let fits : start + size < word = ground (arith, fine, starts, sized) in
          let same : sub32 (add32 start size) start ≡ size = omega (arith, fits) in
          rw (fine, same)
            (after-New start size prot flags _ fits
              (region_create-NewRegion region frames (size / page_size) prot s))
    ]

-- For a start and a size of 32 bits, a mapping that `mapping_create` returns covers the bytes that
-- were asked for without wrapping around, and it alone holds its region, which has the protection
-- that was asked for and a frame, none of them 0, for each whole page of the size: a size that is
-- not a multiple of a page has a last page without a frame.
pub mapping_create-IsNew :
    (mem : Bool) (region : Option ℕ) (frames : Bool) (start size prot flags : ℕ) (s s' : Store)
    (m : Mapping)
    → start < word
    → size < word
    → mapping_create mem region frames start size prot flags s ≡ some (ok m, s')
    → IsNew start size prot m s'
unfolding mapping_create
mapping_create-IsNew true region frames start size prot flags s s' m starts sized e =
    subst (New start size prot) e
      (mapping_init-New region frames start size prot flags s starts sized)
mapping_create-IsNew false region frames start size prot flags s s' m starts sized e =
    absurd (ground arith)
