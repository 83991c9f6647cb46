-- ===== src/Mm/Kmalloc/Chain.antt =====
-- The chain of blocks that the headers in the store make, and the list of its blocks.
use dummy_os.Prelude.{
  ℕ, ◌+◌, ◌*◌, ◌%◌, ◌≤◌, ◌<◌, ◌≡◌, Bool, true, false, List, [], ◌∷◌, length, arith,
}
use dummy_os.Libk.Utils.{word}
use dummy_os.Mm.Kmalloc.{Store, magic_value}

pub record Block : Type 0 where
  pub size : ℕ
  pub used : Bool

-- The `next` of a block that ends at `e`, in front of the blocks `bs`.
abbrev pub link : ℕ → List Block → ℕ
link e [] = 0
link e (b ∷ bs) = e

-- The header at `a` is that of the block `b`.
pub record IsHeader (m : Store) (a next : ℕ) (b : Block) : Type 0 where
  pub magic_ok : (m a).magic ≡ magic_value
  pub next_ok : (m a).next ≡ next
  pub size_ok : (m a).size ≡ b.size
  pub used_ok : (m a).used ≡ b.used

-- Sizes of blocks are positive multiples of the alignment.
abbrev pub IsBlockSize : ℕ → Type 0
IsBlockSize n = (16 ≤ n) × (n % 16 ≡ 0)

-- From the address `a` on, the blocks `bs` tile the heap, each next to the one before.
abbrev pub Chain : Store → ℕ → List Block → Type 0
Chain m a [] = Unit {0}
Chain m a (b ∷ bs) =
    IsHeader m a (link (a + b.size) bs) b
    × IsBlockSize b.size
    × (a + b.size < word)
    × Chain m (a + b.size) bs

abbrev pub total : List Block → ℕ
total [] = 0
total (b ∷ bs) = b.size + total bs

-- A store that agrees from `a` on has the same chain from `a` on.
pub Chain-agree :
    (m m' : Store) (a : ℕ) (bs : List Block)
    → ((q : ℕ) → a ≤ q → m' q ≡ m q)
    → Chain m a bs
    → Chain m' a bs
Chain-agree m m' a [] same c = c
Chain-agree m m' a (b ∷ bs) same (h, big, fits, c) = (
  ground (arith, same a (omega arith)),
  big,
  fits,
  Chain-agree m m' (a + b.size) bs (λ q le. same q (omega arith)) c,
)

-- The rest of a chain is replaced by another, which is not empty.
pub Chain-cons :
    (m m' : Store) (a : ℕ) (b c : Block) (bs bs' : List Block)
    → Chain m a (b ∷ c ∷ bs)
    → Chain m' (a + b.size) bs'
    → link (a + b.size) bs' ≡ a + b.size
    → m' a ≡ m a
    → Chain m' a (b ∷ bs')
Chain-cons m m' a b c bs bs' (h, big, fits, _) rest front same = (ground arith, big, fits, rest)

-- The end of a chain is an address, and the blocks are few.
pub Chain-total :
    (m : Store) (a : ℕ) (b : Block) (bs : List Block)
    → Chain m a (b ∷ bs)
    → (a + total (b ∷ bs) < word) × (length (b ∷ bs) * 16 ≤ total (b ∷ bs))
Chain-total m a b [] (h, big, fits, c) = omega arith
Chain-total m a b (d ∷ bs) (h, big, fits, c) = omega (arith, Chain-total m (a + b.size) d bs c)

-- The used blocks, with their addresses.
abbrev pub used_blocks : ℕ → List Block → List (ℕ × ℕ)
used_blocks a [] = []
used_blocks a (b ∷ bs) = elim b.used [
  | true ↦ (a, b.size) ∷ used_blocks (a + b.size) bs
  | false ↦ used_blocks (a + b.size) bs
]
