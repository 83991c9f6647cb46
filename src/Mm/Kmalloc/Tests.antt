-- ===== src/Mm/Kmalloc/Tests.antt =====
-- The allocator on a heap of 256 bytes at 0x1000, with a used block, a free one and a used one.
use dummy_os.Prelude.{ℕ, ◌≡◌, refl, true, false, List, [], ◌∷◌, arith, some, ◌==◌, if◌then◌else◌}
use dummy_os.Mm.Kmalloc.{Store, kfree, magic_value}
use dummy_os.Mm.Kmalloc.Chain.{Block, Chain}
use dummy_os.Mm.Kmalloc.Free.{Frees, kfree-Frees}

abbrev no_sbrk : ℕ → Unit {0} → ℕ × Unit {0}
no_sbrk size s = (0, s)

abbrev blocks : List Block
blocks =
    record { size = 32; used = true }
    ∷ record { size = 160; used = false }
    ∷ record { size = 64; used = true }
    ∷ []

abbrev store : Store
store a =
    if a == 0x1000
    then record { magic = magic_value; next = 0x1020; size = 32; used = true }
    else if a == 0x1020
    then record { magic = magic_value; next = 0x10c0; size = 160; used = false }
    else if a == 0x10c0
    then record { magic = magic_value; next = 0; size = 64; used = true }
    else record { magic = 0; next = 0; size = 0; used = false }

store-Chain : Chain store 0x1000 blocks
store-Chain = ground arith

abbrev used : List (ℕ × ℕ)
used = (0x1000, 32) ∷ (0x10c0, 64) ∷ []

kfree-Frees_example :
    (m' : Store) × (kfree 5 store 0x1010 ≡ some m') × Frees store 0x1000 0x1010 blocks m'
kfree-Frees_example =
    kfree-Frees (record { size = 160; used = false } ∷ record { size = 64; used = true } ∷ [])
      (record { size = 32; used = true }) store 5 0x1000 0x1010 store-Chain (omega arith)
      (omega arith) (omega arith) refl
