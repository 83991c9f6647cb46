-- ===== src/Mm/Kheap/Sbrk.antt =====
-- What `kheap_sbrk` maps, and what it returns.
use dummy_os.Prelude.{
  ℕ, zero, suc, ◌+◌, ◌-◌, ◌*◌, ◌/◌, ◌%◌, ◌≤◌, ◌<◌, ◌≡◌, ◌⊎◌, inl, inr, [], Bool, true, false, ◌==◌,
  refl, ◌∙◌, subst, Status, Errno, ok, err, success, arith, Bool-cases,
}
use dummy_os.Libk.Utils.{word, add32, page_size, page_align_up, align_up-page}
use dummy_os.Mm.Memory.{Memory, memory_page_frame_alloc}
use dummy_os.Mm.Kheap.{sbrk_page, sbrk_loop, kheap_sbrk, vmm_map_kernel_page, vmm_prot_write}

module _ {A : Type 0} (map_kernel_page : ℕ → ℕ → ℕ → Memory × A → Status × (Memory × A)) where
  -- A free page frame is mapped, writable, at `kheap_end`.
  abbrev pub MapsPage : ℕ → Memory × A → Memory × A → Type 0
  MapsPage kheap_end (m, a) s' =
      let (frame, m') = memory_page_frame_alloc m in
      (0 < frame)
      × (vmm_map_kernel_page map_kernel_page frame kheap_end vmm_prot_write (m', a) ≡ (success, s'))

  -- There is no free page frame, or it cannot be mapped at `kheap_end`.
  abbrev pub FailsPage : ℕ → Memory × A → Memory × A → Type 0
  FailsPage kheap_end (m, a) s' =
      let (frame, m') = memory_page_frame_alloc m in
      ((frame ≡ 0) × (s' ≡ (m', a)))
      ⊎ ((e : Errno) × (vmm_map_kernel_page map_kernel_page frame kheap_end vmm_prot_write (m', a)
            ≡ (err e, s')))

  -- `n` pages are mapped one after the other, from `kheap_end` on.
  abbrev pub MapsPages : ℕ → ℕ → Memory × A → Memory × A → Type 0
  MapsPages zero kheap_end s s' = s' ≡ s
  MapsPages (suc n) kheap_end s s' =
      (s1 : Memory × A) × MapsPage kheap_end s s1 × MapsPages n (kheap_end + page_size) s1 s'

  -- After `n` pages the next one fails.
  abbrev pub StopsAfter : ℕ → ℕ → Memory × A → Memory × A → Type 0
  StopsAfter n kheap_end s s' =
      (s1 : Memory × A) × MapsPages n kheap_end s s1 × FailsPage (kheap_end + n * page_size) s1 s'

  -- What a turn of the loop comes to.
  abbrev Turn : ℕ → Memory × A → Bool × ℕ × (Memory × A) → Type 0
  Turn kheap_end s r =
      ((r.0 ≡ true) × (r.1 ≡ add32 kheap_end page_size) × MapsPage kheap_end s r.2)
      ⊎ ((r.0 ≡ false) × (r.1 ≡ kheap_end) × FailsPage kheap_end s r.2)

  mapped-Turn :
      (kheap_end : ℕ) (m : Memory) (a : A) (r : Status × (Memory × A))
      → 0 < (memory_page_frame_alloc m).0
      → vmm_map_kernel_page map_kernel_page
          (memory_page_frame_alloc m).0
          kheap_end
          vmm_prot_write
          ((memory_page_frame_alloc m).1, a)
        ≡ r
      → Turn kheap_end
          (m, a)
          (elim r.0 [
            | ok _ ↦ (true, add32 kheap_end page_size, r.1)
            | err _ ↦ (false, kheap_end, r.1)
          ])
  mapped-Turn kheap_end m a (ok u, s') there e = inl (refl, refl, (there, e))
  mapped-Turn kheap_end m a (err c, s') there e = inr (refl, refl, inr (c, e))

  sbrk_page-Turn :
      (kheap_end : ℕ) (s : Memory × A) → Turn kheap_end s (sbrk_page map_kernel_page kheap_end s)
  unfolding sbrk_page
  sbrk_page-Turn kheap_end (m, a) = elim (Bool-cases ((memory_page_frame_alloc m).0 == 0)) [
    | inl out ↦
        let none_left : (memory_page_frame_alloc m).0 ≡ 0 = ground (arith, out) in
        rw out (inr (refl, refl, inl (none_left, refl)))
    | inr there ↦
        let some_left : 0 < (memory_page_frame_alloc m).0 = ground (arith, there) in
        rw there (mapped-Turn kheap_end m a _ some_left refl)
  ]

  -- What the loop comes to.
  abbrev Loop : ℕ → ℕ → ℕ → Memory × A → ℕ × ℕ × (Memory × A) → Type 0
  Loop left i kheap_end s (j, kheap_end', s') =
      ((j ≡ i + left) × (kheap_end' ≡ kheap_end + left * page_size) × MapsPages left kheap_end s s')
      ⊎ ((n : ℕ) × (n < left)
          × (j ≡ i + n + 1)
          × (kheap_end' ≡ kheap_end + n * page_size)
          × StopsAfter n kheap_end s s')

  Loop-step :
      (left i kheap_end : ℕ) (s s1 : Memory × A) (r : ℕ × ℕ × (Memory × A))
      → MapsPage kheap_end s s1
      → Loop left (i + 1) (kheap_end + page_size) s1 r
      → Loop (suc left) i kheap_end s r
  Loop-step left i kheap_end s s1 r maps (inl (all, at, rest)) =
      inl (omega arith, omega arith, (s1, maps, rest))
  Loop-step left i kheap_end s s1 (j, e', s') maps (inr (n, lt, turns, at, (s2, rest, fails))) =
      let e : kheap_end + page_size + n * page_size ≡ kheap_end + suc n * page_size = omega arith in
      inr (
        suc n,
        omega arith,
        omega arith,
        omega arith,
        (s2, (s1, maps, rest), subst (λ v. FailsPage v s2 s') e fails),
      )

  sbrk_loop-Loop :
      (left i kheap_end : ℕ) (s : Memory × A)
      → kheap_end + left * page_size < word
      → Loop left i kheap_end s (sbrk_loop map_kernel_page left i kheap_end s)
  unfolding sbrk_loop
  sbrk_loop-Loop zero i kheap_end s room = inl (omega arith, omega arith, refl)
  sbrk_loop-Loop (suc left) i kheap_end s room = elim (sbrk_page-Turn kheap_end s) [
    | inl (fine, to, maps) ↦
        let s1 = (sbrk_page map_kernel_page kheap_end s).2 in
        let next : (sbrk_page map_kernel_page kheap_end s).1 ≡ kheap_end + page_size =
          to ∙ omega (arith, room) in
        rw (fine, next)
          (Loop-step left i kheap_end s s1 _ maps
            (sbrk_loop-Loop left (i + 1) (kheap_end + page_size) s1 (omega (arith, room))))
    | inr (stops, to, fails) ↦
        let s1 = (sbrk_page map_kernel_page kheap_end s).2 in
        let here : kheap_end ≡ kheap_end + 0 * page_size = omega arith in
        rw stops (
          inr (
            0,
            omega arith,
            omega arith,
            to ∙ here,
            (s, refl, subst (λ v. FailsPage v s s1) here fails),
          ))
  ]

  -- What `kheap_sbrk` returns, with the new end of the heap and the new state.
  abbrev pub Grows : ℕ → ℕ → Memory × A → ℕ × ℕ × (Memory × A) → Type 0
  Grows increment kheap_end s (returned, kheap_end', s') =
      (returned % page_size ≡ 0)
      × (((increment ≤ returned)
            × (returned < increment + page_size)
            × (kheap_end' ≡ kheap_end + returned)
            × MapsPages (returned / page_size) kheap_end s s')
          ⊎ ((n : ℕ) × (n * page_size < increment)
              × (kheap_end' ≡ kheap_end + n * page_size)
              × (returned ≡ n * page_size + page_size)
              × StopsAfter n kheap_end s s'))

  -- Where the end of the heap, the request and a page more are below 2 ^ 32 together, `kheap_sbrk`
  -- returns whole pages. Either, for every page of the request, `memory_page_frame_alloc` gave a
  -- frame that is not 0 and it was mapped, writable, at its place behind the old end of the heap, and
  -- the end moved by the number of bytes returned, which is less than a page above the request; or
  -- the first `n` pages were mapped so, fewer than asked for, for the next one there was no frame
  -- or its mapping failed, the end moved by `n` pages, and the number returned is one page more.
  pub kheap_sbrk_returns :
      (increment kheap_end : ℕ) (s : Memory × A)
      → kheap_end + increment + page_size < word
      → Grows increment kheap_end s (kheap_sbrk map_kernel_page increment kheap_end s)
  unfolding kheap_sbrk
  kheap_sbrk_returns increment kheap_end s room =
      let up = align_up-page increment (omega arith) in
      let pages = page_align_up increment / page_size in
      let (j, kheap_end', s') = sbrk_loop map_kernel_page pages 0 kheap_end s in
      elim (sbrk_loop-Loop pages 0 kheap_end s (omega (arith, up))) [
        | inl (all, at, maps) ↦
            let whole : pages ≡ j * page_size % word / page_size = omega (arith, up, all) in
            (
              omega arith,
              inl (
                omega (arith, up),
                omega (arith, up),
                omega (arith, up),
                subst (λ n. MapsPages n kheap_end s s') whole maps,
              ),
            )
        | inr (n, lt, turns, at, stops) ↦
            (omega arith, inr (n, omega (arith, up), at, omega (arith, up), stops))
      ]

  sbrk_loop_fails :
      (left kheap_end : ℕ) (m : Memory) (a : A)
      → m.free_page_frames.list ≡ []
      → sbrk_loop map_kernel_page (suc left) 0 kheap_end (m, a) ≡ (1, kheap_end, (m, a))
  unfolding sbrk_loop sbrk_page memory_page_frame_alloc
  sbrk_loop_fails left kheap_end m a none_left = rw (none_left, memory_page_frame_alloc)

  -- With no page frame left, `kheap_sbrk` maps nothing and returns the size of a page.
  pub kheap_sbrk_out_of_frames :
      (increment kheap_end : ℕ) (m : Memory) (a : A)
      → 0 < increment
      → increment + page_size < word
      → m.free_page_frames.list ≡ []
      → kheap_sbrk map_kernel_page increment kheap_end (m, a) ≡ (page_size, kheap_end, (m, a))
  unfolding kheap_sbrk
  kheap_sbrk_out_of_frames increment kheap_end m a pos room none_left =
      let up = align_up-page increment (omega arith) in
      let pages = page_align_up increment / page_size in
      let some_pages : pages ≡ suc (pages - 1) = omega (arith, up) in
      let stops = sbrk_loop_fails (pages - 1) kheap_end m a none_left in rw (some_pages, stops)
