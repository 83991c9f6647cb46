-- ===== src/Mm/Kmalloc/Alloc.antt =====
-- `kmalloc` on the store, against first fit on the list of blocks.
use dummy_os.Prelude.{
  ℕ, zero, suc, ◌+◌, ◌^◌, ◌<◌, ◌≡◌, refl, ap, ◌∙◌, ◌⊎◌, inl, inr, Bool, true, false, ◌||◌, List, [],
  ◌∷◌, length, ltb, ◌==◌, Option, none, some, arith, Bool-cases,
}
use dummy_os.Libk.Utils.{word, add32}
use dummy_os.Mm.Kmalloc.{Store, extend, alloc_at, alloc_from, find_block}
use dummy_os.Mm.Kmalloc.Chain.{Block, link, IsBlockSize, Chain, total, Chain-cons}
use dummy_os.Mm.Kmalloc.FirstFit.{carve, grow, first_fit}
use dummy_os.Mm.Kmalloc.Blocks.{Agrees, take_block-carve, take_block-below, append-take, widen-take}

module _ {S : Type 0} (kheap_sbrk : ℕ → S → ℕ × S) (size : ℕ) (s : S) (min : IsBlockSize size)
    (max : size < 2 ^ 31) where
  abbrev increment : ℕ
  increment = (kheap_sbrk size s).0

  abbrev without_state : ℕ × Store × S → ℕ × Store
  without_state r = (r.0, r.1)

  extend-grow :
      (m : Store) (a : ℕ) (b : Block)
      → Chain m a (b ∷ [])
      → IsBlockSize increment ⊎ (increment ≡ 0)
      → a + b.size + increment < word
      → Agrees m a (without_state (extend kheap_sbrk m size a s)) (grow size increment a b)
  unfolding extend grow
  extend-grow m a b (h, big, fits, c) (inr nothing) room =
      rw nothing (record { result = refl; chain = (h, big, fits, c); below = λ q lt. refl })
  extend-grow m a b (h, big, fits, c) (inl more) room = elim (Bool-cases b.used) [
    | inl taken ↦
        simp (not_zero, h.used_ok, taken, h.size_ok, end)
          (append-take m size a increment b min max (h, big, fits, c) more room)
    | inr free ↦
        simp (not_zero, h.used_ok, free)
          (simp free at (widen-take m size a increment b min max (h, big, fits, c) more room))
  ]
    where
      not_zero : (increment == 0) ≡ false
      not_zero = ground arith

      end : add32 a b.size ≡ a + b.size
      end = omega arith

  first_fit-link :
      (a e : ℕ) (b : Block) (bs : List Block) → link e (first_fit size increment a (b ∷ bs)).1 ≡ e
  unfolding first_fit grow carve
  first_fit-link a e b [] = ground arith
  first_fit-link a e b (c ∷ bs) = ground arith

  -- The code's test for a block that does not serve.
  abbrev passes : Block → Bool
  passes b = ltb b.size size || b.used

  alloc_at-fits :
      (m : Store) (a : ℕ) (b : Block) (bs : List Block)
      → Chain m a (b ∷ bs)
      → passes b ≡ false
      → Agrees m a (without_state (alloc_at kheap_sbrk m size a s)) (carve size a b bs)
  unfolding alloc_at
  alloc_at-fits m a b bs (h, big, fits, c) e =
      simp (h.size_ok, h.used_ok, e)
        (let taken = take_block-carve m size a b bs (h, big, fits, c) min max in
          record {
            result = taken.0;
            chain = taken.1;
            below = λ q lt. take_block-below m size a q b bs (h, big, fits, c) min max lt;
          })

  alloc_from_last :
      (m : Store) (fuel a : ℕ) (b : Block)
      → Chain m a (b ∷ [])
      → alloc_from kheap_sbrk m (suc fuel) size a s ≡ some (alloc_at kheap_sbrk m size a s)
  unfolding alloc_from
  alloc_from_last m fuel a b (h, big, fits, c) = ground arith

  alloc_from_fits :
      (m : Store) (fuel a : ℕ) (b : Block) (bs : List Block)
      → Chain m a (b ∷ bs)
      → passes b ≡ false
      → alloc_from kheap_sbrk m (suc fuel) size a s ≡ some (alloc_at kheap_sbrk m size a s)
  unfolding alloc_from
  alloc_from_fits m fuel a b bs (h, big, fits, c) e = ground arith

  find_block_pass :
      (m : Store) (fuel a : ℕ) (b d : Block) (bs : List Block)
      → Chain m a (b ∷ d ∷ bs)
      → passes b ≡ true
      → find_block m (suc fuel) a size ≡ find_block m fuel (a + b.size) size
  unfolding find_block
  find_block_pass m fuel a b d bs (h, big, fits, c) e =
      let on : (a + b.size == 0) ≡ false = ground arith in
      simp (h.next_ok, h.size_ok, h.used_ok, e, on)

  alloc_from_pass :
      (m : Store) (fuel a : ℕ) (b d : Block) (bs : List Block)
      → Chain m a (b ∷ d ∷ bs)
      → passes b ≡ true
      → alloc_from kheap_sbrk m (suc fuel) size a s
        ≡ alloc_from kheap_sbrk m fuel size (a + b.size) s
  unfolding alloc_from
  alloc_from_pass m fuel a b d bs (h, big, fits, c) e =
      ap (λ (f : Option ℕ). pick f) (find_block_pass m fuel a b d bs (h, big, fits, c) e)
    where
      pick : Option ℕ → Option (ℕ × Store × S)
      pick f = elim f [ none ↦ none | some q ↦ some (alloc_at kheap_sbrk m size q s) ]

  alloc_at-grows :
      (m : Store) (a : ℕ) (b : Block)
      → Chain m a (b ∷ [])
      → passes b ≡ true
      → IsBlockSize increment ⊎ (increment ≡ 0)
      → a + b.size + increment < word
      → Agrees m a (without_state (alloc_at kheap_sbrk m size a s)) (grow size increment a b)
  unfolding alloc_at
  alloc_at-grows m a b (h, big, fits, c) e inc room =
      simp (h.size_ok, h.used_ok, e) (extend-grow m a b (h, big, fits, c) inc room)

  -- A call on the chain `b ∷ bs` from `a` on, with fuel for each block, does what `first_fit` does.
  pub alloc_from-first_fit :
      (bs : List Block) (b : Block) (m : Store) (fuel a : ℕ)
      → Chain m a (b ∷ bs)
      → length bs < fuel
      → IsBlockSize increment ⊎ (increment ≡ 0)
      → a + total (b ∷ bs) + increment < word
      → (r : ℕ × Store × S) × (alloc_from kheap_sbrk m fuel size a s ≡ some r)
        × Agrees m a (without_state r) (first_fit size increment a (b ∷ bs))
  unfolding first_fit
  alloc_from-first_fit bs b m zero a c enough inc room = absurd (omega arith)
  alloc_from-first_fit [] b m (suc fuel) a c enough inc room = (
    alloc_at kheap_sbrk m size a s,
    alloc_from_last m fuel a b c,
    elim (Bool-cases (passes b)) [
      | inl pass ↦ rw pass (alloc_at-grows m a b c pass inc (omega arith))
      | inr serves ↦ rw serves (alloc_at-fits m a b [] c serves)
    ],
  )
  alloc_from-first_fit (d ∷ bs) b m (suc fuel) a c enough inc room = elim (Bool-cases (passes b)) [
    | inl pass ↦
        let (r, e, agrees) =
          alloc_from-first_fit bs d m fuel (a + b.size) c.3 (omega arith) inc (omega arith) in
        (
          r,
          alloc_from_pass m fuel a b d bs c pass ∙ e,
          rw pass (record {
            result = agrees.result;
            chain =
                Chain-cons m r.1 a b d bs _ c agrees.chain
                  (first_fit-link (a + b.size) (a + b.size) d bs)
                  (agrees.below a (omega (arith, c.1)));
            below = λ q lt. agrees.below q (omega arith);
          }),
        )
    | inr serves ↦ (
      alloc_at kheap_sbrk m size a s,
      alloc_from_fits m fuel a b (d ∷ bs) c serves,
      rw serves (alloc_at-fits m a b (d ∷ bs) c serves),
    )
  ]
