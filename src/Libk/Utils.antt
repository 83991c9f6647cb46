-- ===== src/Libk/Utils.antt =====
-- include/libk/utils.h and the page macros of include/kernel/mm/memory.h, on 32-bit words.
use Prim.Native.Nat.{bit_and}
use dummy_os.Prelude.{ℕ, ◌+◌, ◌-◌, ◌*◌, ◌/◌, ◌%◌, ◌^◌, ◌≤◌, ◌<◌, ◌≡◌, ◌∙◌, ap, Bool, ◌==◌, arith}
use dummy_os.Prelude.Bits.{bit_and-low_mask, bit_and-high_mask}

abbrev pub word : ℕ
word = 2 ^ 32

-- `a + b` and `a - b` on `uintptr_t`, which wrap.
abbrev pub add32 : ℕ → ℕ → ℕ
add32 a b = (a + b) % word

abbrev pub sub32 : ℕ → ℕ → ℕ
sub32 a b = (a + word - b) % word

-- `~((alignment) - 1)` is `2 ^ 32 - alignment`.
unfoldable pub align_down : ℕ → ℕ → ℕ
align_down v alignment = bit_and v (word - 1 - sub32 alignment 1)

unfoldable pub align_up : ℕ → ℕ → ℕ
unfolding align_down
align_up v alignment = align_down (sub32 (add32 v alignment) 1) alignment

unfoldable pub is_aligned : ℕ → ℕ → Bool
is_aligned v alignment = bit_and v (sub32 alignment 1) == 0

abbrev pub page_size : ℕ
page_size = 0x1000

abbrev pub page_align_down : ℕ → ℕ
page_align_down addr = align_down addr page_size

abbrev pub page_align_up : ℕ → ℕ
page_align_up addr = align_up addr page_size

abbrev pub page_is_aligned : ℕ → Bool
page_is_aligned addr = is_aligned addr page_size

pub align_down-page : (v : ℕ) → v < word → align_down v page_size ≡ v / page_size * page_size
unfolding align_down
align_down-page v h = bit_and-high_mask 12 20 v ∙ omega arith

pub align_down-16 : (v : ℕ) → v < word → align_down v 16 ≡ v / 16 * 16
unfolding align_down
align_down-16 v h = bit_and-high_mask 4 28 v ∙ omega arith

-- Where the sum does not wrap, the least multiple that is not below.
pub align_up-page :
    (v : ℕ) → v + page_size ≤ word → align_up v page_size ≡ (v + 4095) / page_size * page_size
unfolding align_up
align_up-page v h =
    align_down-page (sub32 (add32 v page_size) 1) (omega arith)
    ∙ ap (λ t. t / page_size * page_size) {y = v + 4095} (omega arith)

pub align_up-16 : (v : ℕ) → v + 16 ≤ word → align_up v 16 ≡ (v + 15) / 16 * 16
unfolding align_up
align_up-16 v h =
    align_down-16 (sub32 (add32 v 16) 1) (omega arith)
    ∙ ap (λ t. t / 16 * 16) {y = v + 15} (omega arith)

pub is_aligned-page : (v : ℕ) → is_aligned v page_size ≡ (v % page_size == 0)
unfolding is_aligned
is_aligned-page v = ap (λ t. t == 0) (bit_and-low_mask 12 v)

pub is_aligned-16 : (v : ℕ) → is_aligned v 16 ≡ (v % 16 == 0)
unfolding is_aligned
is_aligned-16 v = ap (λ t. t == 0) (bit_and-low_mask 4 v)
