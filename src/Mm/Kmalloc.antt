-- ===== src/Mm/Kmalloc.antt =====
-- kernel/kmalloc.c: the kernel allocator, a chain of blocks that tiles the heap. Headers lie in
-- a store that gives what the memory at an address reads as; the data of the blocks is not in it.
-- Interrupts are off from the search to the return, so that a call is one step.
pub mod Chain
pub mod FirstFit
pub mod Blocks
pub mod Alloc
pub mod Free
pub mod RoundTrip
mod Tests
use dummy_os.Prelude.{
  ℕ, zero, suc, ◌+◌, ◌*◌, ◌/◌, ◌%◌, ◌^◌, Bool, true, false, not, ◌&&◌, ◌||◌, ltb, ◌==◌,
  if◌then◌else◌, Option, none, some,
}
use dummy_os.Libk.Utils.{word, add32, sub32, align_up, is_aligned}

abbrev pub magic_value : ℕ
magic_value = 0xc001b10c

abbrev pub alignment : ℕ
alignment = 16

-- `sizeof(memory_block_header_t)` on the 32-bit targets
abbrev pub header_size : ℕ
header_size = 16

-- `memory_block_header_t`; `next` is 0 for NULL.
pub record Header : Type 0 where
  pub magic : ℕ
  pub next : ℕ
  pub size : ℕ
  pub used : Bool

abbrev pub Store : Type 0
Store = ℕ → Header

abbrev pub write : Store → ℕ → Header → Store
write m p h q = if p == q then h else m q

abbrev pub make_memory_block : Store → ℕ → ℕ → ℕ → Bool → Store
make_memory_block m p next size used =
    write m p (record { magic = magic_value; next = next; size = size; used = used })

unfoldable pub kmalloc_init : Store → ℕ → ℕ → Store
kmalloc_init m kheap_start kheap_size = make_memory_block m kheap_start 0 kheap_size false

-- `size` with the header, and rounded up.
unfoldable pub block_size : ℕ → ℕ
block_size size = align_up (add32 size header_size) alignment

-- `while (block->next && (block->size < size || block->used)) block = block->next;`
-- `none` is out of fuel.
unfoldable pub find_block : Store → ℕ → ℕ → ℕ → Option ℕ
find_block m zero p size = none
find_block m (suc fuel) p size =
    let rest = find_block m fuel (m p).next size in
    if not ((m p).next == 0) && (ltb (m p).size size || (m p).used) then rest else some p

-- The block at `p` is cut to `size` bytes, and the rest is a free block behind it.
unfoldable pub split_block : Store → ℕ → ℕ → Store
split_block m size p =
    let orig_size = (m p).size in
    let second_part = add32 p size in
    let m1 = write m p (record (m p) { size = size }) in
    let m2 = make_memory_block m1 second_part (m1 p).next (sub32 orig_size size) false in
    write m2 p (record (m2 p) { next = second_part })

unfoldable pub set_used : Store → ℕ → Store
set_used m p = write m p (record (m p) { used = true })

-- From "couldn't allocate enough" to the return: the block at `p` is split if it is large, and
-- taken. The result is the pointer to the data, or 0 for NULL.
unfoldable pub take_block : Store → ℕ → ℕ → ℕ × Store
take_block m size p =
    if ltb (m p).size size
    then (0, m)
    else if ltb (size * 2 % word) (m p).size
    then (add32 p header_size, set_used (split_block m size p) p)
    else (add32 p header_size, set_used m p)

-- A free block of `increment` bytes behind the last block, at `p`.
unfoldable pub append_block : Store → ℕ → ℕ → Store
append_block m p increment =
    let new = add32 p (m p).size in
    let m1 = make_memory_block m new 0 increment false in write m1 p (record (m1 p) { next = new })

unfoldable pub widen_block : Store → ℕ → ℕ → Store
widen_block m p increment = write m p (record (m p) { size = add32 (m p).size increment })

-- What `kheap_sbrk` does to the rest of the machine, and how much it says to have added.
module _ {S : Type 0} (kheap_sbrk : ℕ → S → ℕ × S) where
  -- The last block grows by what `kheap_sbrk` added, or a new one follows it.
  unfoldable pub extend : Store → ℕ → ℕ → S → ℕ × Store × S
  extend m size p s =
      let (increment, s') = kheap_sbrk size s in
      if increment == 0
      then (0, m, s')
      else if (m p).used
      then (let (r, m') = take_block (append_block m p increment) size (add32 p (m p).size) in
          (r, m', s'))
      else (let (r, m') = take_block (widen_block m p increment) size p in (r, m', s'))

  unfoldable pub alloc_at : Store → ℕ → ℕ → S → ℕ × Store × S
  alloc_at m size p s =
      if ltb (m p).size size || (m p).used
      then extend m size p s
      else (let (r, m') = take_block m size p in (r, m', s))

  -- The search from the block at `p`, and the rest of the call.
  unfoldable pub alloc_from : Store → ℕ → ℕ → ℕ → S → Option (ℕ × Store × S)
  unfolding find_block
  alloc_from m fuel size p s = elim (find_block m fuel p size) [
    | none ↦ none
    | some q ↦ some (alloc_at m size q s)
  ]

  unfoldable pub kmalloc : ℕ → ℕ → Store → ℕ → S → Option (ℕ × Store × S)
  unfolding alloc_from block_size
  kmalloc fuel kheap_start m size s = alloc_from m fuel (block_size size) kheap_start s

-- `for (next = block->next; next && !next->used; next = next->next) merge_size += next->size;`
unfoldable pub merge : Store → ℕ → ℕ → ℕ → Option (ℕ × ℕ)
merge m zero next merge_size = none
merge m (suc fuel) next merge_size =
    let rest = merge m fuel (m next).next (add32 merge_size (m next).size) in
    if not (next == 0) && not (m next).used then rest else some (next, merge_size)

unfoldable pub merged : Store → ℕ → Option (ℕ × ℕ) → Option Store
merged m p none = none
merged m p (some (next, merge_size)) =
    some (write m p (record (m p) { next = next; size = merge_size; used = false }))

unfoldable pub kfree : ℕ → Store → ℕ → Option Store
kfree fuel m ptr =
    if ptr == 0 || not (is_aligned ptr alignment)
    then some m
    else (let p = sub32 ptr header_size in
        if not ((m p).magic == magic_value) || not (m p).used
        then some m
        else merged m p (merge m fuel (m p).next (m p).size))
