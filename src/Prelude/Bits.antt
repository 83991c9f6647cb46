-- ===== src/Prelude/Bits.antt =====
-- The bits of a C word: `bit i a` is the bit of `a` with the weight 2 ^ i, and the operators
-- `&`, `|` of C act on each bit by itself.
use Prim.Native.Nat.{
  ℕ, zero, suc, ◌+◌, ◌*◌, ◌/◌, ◌%◌, ◌≤◌, ◌<◌, min, max, bit_and, bit_or, digits, bit_and-bitwise,
  bit_or-bitwise,
}
use mathlib.Core.Path.{◌≡◌, refl, ◌∙◌, ap, ap₂}
use native.Mathlib.Omega.{arith}
use native.Mathlib.Nat.{
  mul-add-mod_self_left, mod-eq_of_lt, mod-lt, mod-add-div, mul_comm, div-div-eq-div-mul,
}

-- Both operations go digit by digit, on fuel; more fuel than the first number changes nothing.
module _ (rest : ℕ → ℕ) (on_digits : ℕ → ℕ → ℕ) where
  spare_fuel :
      (a b less more : ℕ)
      → less ≤ more
      → a ≤ less
      → digits rest on_digits more a b ≡ digits rest on_digits less a b
  spare_fuel zero b zero zero grows enough = refl
  spare_fuel zero b zero (suc more) grows enough = refl
  spare_fuel zero b (suc less) zero grows enough = absurd (omega arith)
  spare_fuel zero b (suc less) (suc more) grows enough = refl
  spare_fuel (suc a) b zero more grows enough = absurd (omega arith)
  spare_fuel (suc a) b (suc less) zero grows enough = absurd (omega arith)
  spare_fuel (suc a) b (suc less) (suc more) grows enough =
      let same = spare_fuel (suc a / 2) (b / 2) less more (omega arith) (omega arith) in
      omega (arith, same)

pub bit_and_step : (a b : ℕ) → bit_and a b ≡ bit_and (a / 2) (b / 2) * 2 + min (a % 2) (b % 2)
bit_and_step zero b = omega (arith, bit_and-bitwise 0 b, bit_and-bitwise 0 (b / 2))
bit_and_step (suc a) b = omega (
  arith,
  bit_and-bitwise (suc a) b,
  bit_and-bitwise (suc a / 2) (b / 2),
  spare_fuel (λ b. zero) min (suc a / 2) (b / 2) (suc a / 2) a (omega arith) (omega arith),
)

pub bit_or_step : (a b : ℕ) → bit_or a b ≡ bit_or (a / 2) (b / 2) * 2 + max (a % 2) (b % 2)
bit_or_step zero b = omega (arith, bit_or-bitwise 0 b, bit_or-bitwise 0 (b / 2))
bit_or_step (suc a) b = omega (
  arith,
  bit_or-bitwise (suc a) b,
  bit_or-bitwise (suc a / 2) (b / 2),
  spare_fuel (λ b. b) max (suc a / 2) (b / 2) (suc a / 2) a (omega arith) (omega arith),
)

unfoldable pub bit : ℕ → ℕ → ℕ
bit zero a = a % 2
bit (suc i) a = bit i (a / 2)

pub bit-bit_and : (i a b : ℕ) → bit i (bit_and a b) ≡ min (bit i a) (bit i b)
unfolding bit
bit-bit_and zero a b = omega (arith, bit_and_step a b)
bit-bit_and (suc i) a b =
    ap (bit i) {x = bit_and a b / 2} (omega (arith, bit_and_step a b))
    ∙ bit-bit_and i (a / 2) (b / 2)

pub bit-bit_or : (i a b : ℕ) → bit i (bit_or a b) ≡ max (bit i a) (bit i b)
unfolding bit
bit-bit_or zero a b = omega (arith, bit_or_step a b)
bit-bit_or (suc i) a b =
    ap (bit i) {x = bit_or a b / 2} (omega (arith, bit_or_step a b)) ∙ bit-bit_or i (a / 2) (b / 2)

pub bit-lt : (i a : ℕ) → bit i a < 2
unfolding bit
bit-lt zero a = omega arith
bit-lt (suc i) a = bit-lt i (a / 2)

bit_and-even : (a m : ℕ) → bit_and a (m * 2) ≡ bit_and (a / 2) m * 2
bit_and-even a m =
    bit_and_step a (m * 2)
    ∙ ap₂ (λ h r. bit_and (a / 2) h * 2 + r) {x = m * 2 / 2} {y = m} {v = 0} (omega arith)
        (omega arith)
    ∙ omega arith

bit_and-odd : (a m : ℕ) → bit_and a (m * 2 + 1) ≡ bit_and (a / 2) m * 2 + a % 2
bit_and-odd a m =
    bit_and_step a (m * 2 + 1)
    ∙ ap₂ (λ h r. bit_and (a / 2) h * 2 + r) {x = (m * 2 + 1) / 2} {y = m} (omega arith)
        (omega arith)

bit_and-zero_fuel : (n a : ℕ) → a ≤ n → bit_and a 0 ≡ 0
bit_and-zero_fuel n zero h = bit_and-bitwise 0 0
bit_and-zero_fuel zero (suc a) h = absurd (omega arith)
bit_and-zero_fuel (suc n) (suc a) h =
    omega (arith, bit_and-even (suc a) 0, bit_and-zero_fuel n (suc a / 2) (omega arith))

-- The mask of the `k` low bits, `(1 << k) - 1`.
abbrev pub low_mask : ℕ → ℕ
low_mask zero = 0
low_mask (suc k) = low_mask k * 2 + 1

-- The mask of the `n` bits above the `k` lowest: `~((1 << k) - 1)` in a word of `k + n` bits.
abbrev pub high_mask : ℕ → ℕ → ℕ
high_mask zero n = low_mask n
high_mask (suc k) n = high_mask k n * 2

abbrev pub pow2 : ℕ → ℕ
pow2 zero = 1
pow2 (suc k) = pow2 k * 2

pow2_pos : (k : ℕ) → 0 < pow2 k
pow2_pos zero = omega arith
pow2_pos (suc k) = omega (arith, pow2_pos k)

-- The lowest bit of a remainder by an even number, and the rest.
half_mod : (a p : ℕ) → 0 < p → a % (p * 2) ≡ a / 2 % p * 2 + a % 2
half_mod a p h =
    ap (λ t. t % (p * 2)) whole
    ∙ mul-add-mod_self_left (p * 2) (a / 2 / p) (a / 2 % p * 2 + a % 2)
    ∙ mod-eq_of_lt (omega (arith, mod-lt (a / 2) h))
  where
    whole : a ≡ p * 2 * (a / 2 / p) + (a / 2 % p * 2 + a % 2)
    whole = omega (arith, mod-add-div (a / 2) p)

-- `a & mask` is the remainder by the power of two.
pub bit_and-low_mask : (k a : ℕ) → bit_and a (low_mask k) ≡ a % pow2 k
bit_and-low_mask zero a = omega (arith, bit_and-zero_fuel a a (omega arith))
bit_and-low_mask (suc k) a =
    bit_and-odd a (low_mask k)
    ∙ omega (arith, bit_and-low_mask k (a / 2), half_mod a (pow2 k) (pow2_pos k))

-- `a & ~mask` clears the low bits.
pub bit_and-high_mask : (k n a : ℕ) → bit_and a (high_mask k n) ≡ a / pow2 k % pow2 n * pow2 k
bit_and-high_mask zero n a =
    bit_and-low_mask n a ∙ ap (λ t. t % pow2 n) {y = a / 1} (omega arith) ∙ omega arith
bit_and-high_mask (suc k) n a =
    bit_and-even a (high_mask k n)
    ∙ ap (λ t. t * 2) (bit_and-high_mask k n (a / 2))
    ∙ ap (λ t. t % pow2 n * pow2 k * 2)
        (div-div-eq-div-mul a 2 (pow2 k) ∙ ap (λ t. a / t) (mul_comm 2 (pow2 k)))
    ∙ omega arith
