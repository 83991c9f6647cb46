-- ===== src/Mm/Kmalloc/FirstFit.antt =====
-- First fit on the list of blocks: what `kmalloc` is to do.
use dummy_os.Prelude.{
  ℕ, ◌+◌, ◌-◌, ◌*◌, ◌≤◌, ◌<◌, ◌≡◌, refl, ap, ◌⊎◌, inl, inr, true, false, ◌||◌, List, [], ◌∷◌, ltb,
  ◌==◌, if◌then◌else◌, arith, Bool-cases,
}
use dummy_os.Mm.Kmalloc.{Store}
use dummy_os.Mm.Kmalloc.Chain.{Block, Chain, used_blocks}

-- Take the block at `a`, the first of the list.
unfoldable pub carve : ℕ → ℕ → Block → List Block → ℕ × List Block
carve size a b bs =
    if ltb b.size size
    then (0, b ∷ bs)
    else if ltb (size * 2) b.size
    then (
      a + 16,
      record { size = size; used = true } ∷ record { size = b.size - size; used = false } ∷ bs,
    )
    else (a + 16, record b { used = true } ∷ bs)

-- The last block did not serve: the heap grew by `increment`.
unfoldable pub grow : ℕ → ℕ → ℕ → Block → ℕ × List Block
grow size increment a b =
    if increment == 0
    then (0, b ∷ [])
    else if b.used
    then (let (r, bs) = carve size (a + b.size) (record { size = increment; used = false }) [] in
        (r, b ∷ bs))
    else carve size a (record b { size = b.size + increment }) []

-- First fit; the last block may grow.
unfoldable pub first_fit : ℕ → ℕ → ℕ → List Block → ℕ × List Block
first_fit size increment a [] = (0, [])
first_fit size increment a (b ∷ []) =
    if ltb b.size size || b.used then grow size increment a b else carve size a b []
first_fit size increment a (b ∷ c ∷ bs) =
    let (r, rest) = first_fit size increment (a + b.size) (c ∷ bs) in
    if ltb b.size size || b.used then (r, b ∷ rest) else carve size a b (c ∷ bs)

-- Of the used blocks `us`, one more is there: with the data at `r`, and at least `size` bytes long.
pub data Placed (r size : ℕ) : List (ℕ × ℕ) → List (ℕ × ℕ) → Type 0 where
  here : {p n : ℕ} {us : List (ℕ × ℕ)} → r ≡ p + 16 → size ≤ n → Placed r size us ((p, n) ∷ us)
  there : {u : ℕ × ℕ} {us vs : List (ℕ × ℕ)} → Placed r size us vs → Placed r size (u ∷ us) (u ∷ vs)

-- The used blocks are not empty, and each begins behind the end of the one before.
abbrev pub Apart : ℕ → List (ℕ × ℕ) → Type 0
Apart e [] = Unit {0}
Apart e ((p, n) ∷ us) = (e ≤ p) × (0 < n) × Apart (p + n) us

Apart-mono : (e f : ℕ) (us : List (ℕ × ℕ)) → e ≤ f → Apart f us → Apart e us
Apart-mono e f [] h a = tt
Apart-mono e f ((p, n) ∷ us) h (q, pos, a) = (omega arith, pos, a)

pub used_blocks-Apart :
    (m : Store) (a : ℕ) (bs : List Block) → Chain m a bs → Apart a (used_blocks a bs)
used_blocks-Apart m a [] c = tt
used_blocks-Apart m a (b ∷ bs) (h, big, fits, c) = elim (Bool-cases b.used) [
  | inl taken ↦ rw taken (omega arith, omega arith, used_blocks-Apart m (a + b.size) bs c)
  | inr free ↦ rw free (
      Apart-mono a (a + b.size) (used_blocks (a + b.size) bs) (omega arith)
        (used_blocks-Apart m (a + b.size) bs c))
]

-- A result and a list of blocks: no block is taken, or the one of the result is.
abbrev pub Allocates : ℕ → ℕ → List (ℕ × ℕ) → ℕ × List Block → Type 0
Allocates size a us out =
    ((out.0 ≡ 0) × (used_blocks a out.1 ≡ us)) ⊎ Placed out.0 size us (used_blocks a out.1)

carve-Allocates :
    (size a : ℕ) (b : Block) (bs : List Block)
    → b.used ≡ false
    → Allocates size a (used_blocks a (b ∷ bs)) (carve size a b bs)
unfolding carve
carve-Allocates size a b bs free = elim (Bool-cases (ltb b.size size)) [
  | inl small ↦ rw small (inl (refl, refl))
  | inr large ↦ elim (Bool-cases (ltb (size * 2) b.size)) [
    | inl wide ↦
        let e : a + size + (b.size - size) ≡ a + b.size = ground arith in
        rw (large, wide, free, e) (inr (here refl (omega arith)))
    | inr tight ↦ rw (large, tight, free) (inr (here refl (ground arith)))
  ]
]

-- In front of blocks in which something is allocated, another block may stand.
Allocates-cons :
    (size a : ℕ) (b : Block) (us : List (ℕ × ℕ)) (out : ℕ × List Block)
    → Allocates size (a + b.size) us out
    → Allocates size a (elim b.used [ true ↦ (a, b.size) ∷ us | false ↦ us ]) (out.0, b ∷ out.1)
Allocates-cons size a b us out h = elim (Bool-cases b.used) [
  | inl taken ↦
      rw taken
        (elim h [ inl (e, same) ↦ inl (e, ap (◌∷◌ (a, b.size)) same) | inr p ↦ inr (there p) ])
  | inr free ↦ rw free h
]

grow-Allocates :
    (size increment a : ℕ) (b : Block)
    → Allocates size a (used_blocks a (b ∷ [])) (grow size increment a b)
unfolding grow
grow-Allocates size increment a b = elim (Bool-cases (increment == 0)) [
  | inl nothing ↦ rw nothing (inl (refl, refl))
  | inr more ↦ elim (Bool-cases b.used) [
    | inl taken ↦
        simp (more, taken)
          (simp taken at (
            Allocates-cons size a b []
              (carve size (a + b.size) (record { size = increment; used = false }) [])
              (carve-Allocates size (a + b.size) (record { size = increment; used = false }) []
                refl)))
    | inr free ↦
        simp (more, free)
          (carve-Allocates size a (record { size = b.size + increment; used = false }) [] refl)
  ]
]

-- First fit takes at most one block, large enough, and leaves the other used blocks alone.
pub first_fit-Allocates :
    (size increment a : ℕ) (b : Block) (bs : List Block)
    → Allocates size a (used_blocks a (b ∷ bs)) (first_fit size increment a (b ∷ bs))
unfolding first_fit
first_fit-Allocates size increment a b [] = elim (Bool-cases (ltb b.size size || b.used)) [
  | inl pass ↦ rw pass (grow-Allocates size increment a b)
  | inr serves ↦ rw serves (carve-Allocates size a b [] (ground arith))
]
first_fit-Allocates size increment a b (c ∷ bs) =
    let rest = first_fit-Allocates size increment (a + b.size) c bs in
    elim (Bool-cases (ltb b.size size || b.used)) [
      | inl pass ↦ rw pass (
          Allocates-cons size a b (used_blocks (a + b.size) (c ∷ bs))
            (first_fit size increment (a + b.size) (c ∷ bs)) rest)
      | inr serves ↦ rw serves (carve-Allocates size a b (c ∷ bs) (ground arith))
    ]

Placed-mono :
    {r size size' : ℕ} {us vs : List (ℕ × ℕ)}
    → size' ≤ size
    → Placed r size us vs
    → Placed r size' us vs
Placed-mono h (here e q) = here e (omega arith)
Placed-mono h (there p) = there (Placed-mono h p)

pub Allocates-mono :
    (size size' a : ℕ) (us : List (ℕ × ℕ)) (out : ℕ × List Block)
    → size' ≤ size
    → Allocates size a us out
    → Allocates size' a us out
Allocates-mono size size' a us out h (inl n) = inl n
Allocates-mono size size' a us out h (inr p) = inr (Placed-mono h p)
