-- ===== src/Mm/Kmalloc/Free.antt =====
-- `kfree` on the store, against the list of blocks.
use dummy_os.Prelude.{
  ℕ, zero, suc, ◌+◌, ◌%◌, ◌≤◌, ◌<◌, ◌≡◌, refl, ap, ◌∙◌, inl, inr, Bool, true, false, ◌&&◌, ◌||◌,
  List, [], ◌∷◌, length, ◌==◌, if◌then◌else◌, some, arith, Bool-cases,
}
use dummy_os.Libk.Utils.{word, add32, sub32, is_aligned, is_aligned-16}
use dummy_os.Mm.Kmalloc.{Store, write, merge, merged, kfree, magic_value}
use dummy_os.Mm.Kmalloc.Chain.{
  Block, link, Chain, total, Chain-agree, Chain-cons, Chain-total, used_blocks,
}

-- How many bytes the free blocks at the front have, and the blocks behind them.
unfoldable pub absorb : List Block → ℕ × List Block
absorb [] = (0, [])
absorb (c ∷ cs) = let (k, rest) = absorb cs in if c.used then (0, c ∷ cs) else (c.size + k, rest)

-- The loop of `kfree` goes over the free blocks, and stops at the rest.
merge-absorb :
    (m : Store) (fuel a n : ℕ) (bs : List Block)
    → Chain m a bs
    → length bs < fuel
    → 0 < a
    → n + total bs < word
    → let (k, rest) = absorb bs in
      (merge m fuel (link a bs) n ≡ some (link (a + k) rest, n + k))
      × Chain m (a + k) rest
      × ((k % 16 ≡ 0) × (k ≤ total bs))
      × (used_blocks (a + k) rest ≡ used_blocks a bs)
unfolding absorb merge
merge-absorb m zero a n bs c enough pos room = absurd (omega arith)
merge-absorb m (suc fuel) a n [] c enough pos room =
    (ground arith, tt, (omega arith, omega arith), refl)
merge-absorb m (suc fuel) a n (b ∷ bs) (h, big, fits, c) enough pos room =
    let on : (a == 0) ≡ false = ground arith in
    elim (Bool-cases b.used) [
      | inl taken ↦
          let here_still : a + 0 ≡ a = omega arith in
          simp (h.used_ok, taken, on)
            (simp here_still
              (ap (λ t. some (a, t)) (omega arith), (h, big, fits, c), (refl, omega arith), refl))
      | inr free ↦
          let rest =
            merge-absorb m fuel (a + b.size) (n + b.size) bs c (omega arith) (omega arith)
              (omega arith) in
          let k = (absorb bs).0 in
          let sum : add32 n b.size ≡ n + b.size = omega arith in
          let at : a + (b.size + k) ≡ a + b.size + k = omega arith in
          let many : n + (b.size + k) ≡ n + b.size + k = omega arith in
          simp (h.used_ok, free, on, h.next_ok, h.size_ok, sum, at, many)
            (rest.0, rest.1, (omega (arith, rest.2), omega (arith, rest.2)), rest.3)
    ]

-- The list of used blocks without the block whose data is at `ptr`, and whether it has it.
abbrev pub without : ℕ → List (ℕ × ℕ) → List (ℕ × ℕ)
without ptr [] = []
without ptr ((p, n) ∷ us) = if ptr == p + 16 then us else (p, n) ∷ without ptr us

abbrev pub owns : ℕ → List (ℕ × ℕ) → Bool
owns ptr [] = false
owns ptr ((p, n) ∷ us) = ptr == p + 16 || owns ptr us

-- What `kfree` leaves of the heap from `a` on.
pub record Frees (m : Store) (a ptr : ℕ) (bs : List Block) (m' : Store) : Type 0 where
  pub left : List Block
  pub chain : Chain m' a left
  pub used : used_blocks a left ≡ without ptr (used_blocks a bs)
  pub front : link a left ≡ a
  pub below : (q : ℕ) → q < a → m' q ≡ m q

-- A call of `kfree` on the data of a used block, with the loop's result.
kfree_header :
    (m : Store) (fuel ptr a n next : ℕ) (joined : ℕ × ℕ)
    → ptr ≡ a + 16
    → (0 < a) × (a % 16 ≡ 0) × (a + 16 < word)
    → ((m a).magic ≡ magic_value) × ((m a).used ≡ true) × ((m a).size ≡ n) × ((m a).next ≡ next)
    → merge m fuel next n ≡ some joined
    → kfree fuel m ptr
      ≡ some (write m a (record (m a) { next = joined.0; size = joined.1; used = false }))
unfolding kfree merged
kfree_header m fuel ptr a n next joined e (pos, aligned, high) (magic, used, size, next_ok) joins =
    let at : sub32 ptr 16 ≡ a = omega arith in
    let whole : is_aligned ptr 16 ≡ true = is_aligned-16 ptr ∙ ground arith in
    let some_ptr : (ptr == 0) ≡ false = ground arith in
    simp (at, whole, some_ptr, magic, used, size, next_ok, joins)

-- The first block of the chain is freed.
free_first :
    (m : Store) (fuel a : ℕ) (b : Block) (bs : List Block)
    → Chain m a (b ∷ bs)
    → b.used ≡ true
    → length bs < fuel
    → 0 < a
    → a % 16 ≡ 0
    → a + b.size + total bs < word
    → (m' : Store) × (kfree fuel m (a + 16) ≡ some m') × Frees m a (a + 16) (b ∷ bs) m'
free_first m fuel a b bs (h, big, fits, c) taken enough pos aligned room =
    let (joins, rest, (whole, less), same) =
      merge-absorb m fuel (a + b.size) b.size bs c enough (omega arith) (omega arith) in
    let k = (absorb bs).0 in
    let m' = write m a (record (m a) {
      next = link (a + b.size + k) (absorb bs).1;
      size = b.size + k;
      used = false;
    }) in
    let e : a + (b.size + k) ≡ a + b.size + k = omega arith in
    let is_free : Block = record { size = b.size + k; used = false } in
    (
      m',
      kfree_header m fuel (a + 16) a b.size (link (a + b.size) bs) _ (omega arith) (ground arith)
          (ground (arith, h)) joins,
      record {
        left = is_free ∷ (absorb bs).1;
        chain = (
          ground arith,
          (omega arith, omega arith),
          omega arith,
          rw e (Chain-agree m m' (a + b.size + k) (absorb bs).1 (λ q le. ground arith) rest),
        );
        used = ap (λ t. used_blocks t (absorb bs).1) e ∙ same ∙ rw taken (ground arith);
        front = refl;
        below = λ q lt. ground arith;
      },
    )

-- A block in front of those in which `kfree` worked.
Frees-cons :
    (m m' : Store) (a ptr : ℕ) (b c : Block) (bs : List Block)
    → Chain m a (b ∷ c ∷ bs)
    → (ptr == a + 16) && b.used ≡ false
    → Frees m (a + b.size) ptr (c ∷ bs) m'
    → Frees m a ptr (b ∷ c ∷ bs) m'
Frees-cons m m' a ptr b c bs (h, big, fits, rest) other f = record {
  left = b ∷ f.left;
  chain =
      Chain-cons m m' a b c bs f.left (h, big, fits, rest) f.chain f.front
        (f.below a (omega arith));
  used = elim (Bool-cases b.used) [
    | inl taken ↦
        let ne : (ptr == a + 16) ≡ false = ground arith in
        rw (taken, ne) (ap (◌∷◌ (a, b.size)) f.used)
    | inr free ↦ rw free f.used
  ];
  front = refl;
  below = λ q lt. f.below q (omega arith);
}

owns-cons :
    (ptr a : ℕ) (b : Block) (bs : List Block)
    → owns ptr (used_blocks a (b ∷ bs))
      ≡ ((ptr == a + 16) && b.used || owns ptr (used_blocks (a + b.size) bs))
owns-cons ptr a b bs = elim (Bool-cases b.used) [
  | inl taken ↦ rw taken (ground arith)
  | inr free ↦ rw free (ground arith)
]

-- A call of `kfree` with the pointer of a used block on a heap whose headers make a chain from `a`
-- on, with fuel for each block: it returns, the headers make a
-- chain again, and its used blocks are those from before without the block of the pointer.
pub kfree-Frees :
    (bs : List Block) (b : Block) (m : Store) (fuel a ptr : ℕ)
    → Chain m a (b ∷ bs)
    → length bs < fuel
    → 0 < a
    → a % 16 ≡ 0
    → owns ptr (used_blocks a (b ∷ bs)) ≡ true
    → (m' : Store) × (kfree fuel m ptr ≡ some m') × Frees m a ptr (b ∷ bs) m'
kfree-Frees [] b m fuel a ptr c enough pos aligned has =
    let first : ptr ≡ a + 16 = ground (arith, owns-cons ptr a b []) in
    let taken : b.used ≡ true = ground (arith, owns-cons ptr a b []) in
    rw first
      (free_first m fuel a b [] c taken enough pos aligned (omega (arith, Chain-total m a b [] c)))
kfree-Frees (d ∷ bs) b m fuel a ptr c enough pos aligned has =
    elim (Bool-cases ((ptr == a + 16) && b.used)) [
      | inl first ↦
          let e : ptr ≡ a + 16 = ground arith in
          let taken : b.used ≡ true = ground arith in
          rw e (
            free_first m fuel a b (d ∷ bs) c taken enough pos aligned
              (omega (arith, Chain-total m a b (d ∷ bs) c)))
      | inr later ↦
          let still : owns ptr (used_blocks (a + b.size) (d ∷ bs)) ≡ true =
            ground (arith, owns-cons ptr a b (d ∷ bs)) in
          let (m', runs, frees) =
            kfree-Frees bs d m fuel (a + b.size) ptr c.3 (omega arith) (omega arith)
              (omega (arith, c.1)) still in
          (m', runs, Frees-cons m m' a ptr b d bs c later frees)
    ]
