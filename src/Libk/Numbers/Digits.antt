-- ===== src/Libk/Numbers/Digits.antt =====
-- The digits of a number, and reading them.
use native.Mathlib.Nat.{mod-add-div}
use dummy_os.Prelude.{
  ℕ, zero, suc, ◌+◌, ◌*◌, ◌/◌, ◌%◌, ◌^◌, ◌<◌, ◌≤◌, ◌≡◌, refl, ap, ap₂, ◌∙◌, List, [], ◌∷◌, ◌++◌,
  length, append_assoc, length-append, some, leb, ltb, true, false, arith, Bool-cases, inl, inr,
  ◌==◌,
}
use dummy_os.Libk.Utils.{word}
use dummy_os.Libk.Numbers.{digits, digit_value, charset, strntol_loop, isdigit, isupper, islower}

-- The other way round.
abbrev pub reverse : List ℕ → List ℕ
reverse [] = []
reverse (x ∷ xs) = reverse xs ++ (x ∷ [])

pub length-reverse : (xs : List ℕ) → length (reverse xs) ≡ length xs
length-reverse [] = refl
length-reverse (x ∷ xs) = omega (arith, length-append (reverse xs) (x ∷ []), length-reverse xs)

digit_value-charset : (d : ℕ) → d < 16 → digit_value (charset d) ≡ some d
unfolding digit_value isdigit isupper islower charset
digit_value-charset d h = ground arith

-- Reading one digit.
strntol_loop-charset :
    (ys : List ℕ) (base i value d : ℕ)
    → d < base
    → base ≤ 16
    → value * base + d < 2 ^ 31
    → strntol_loop (charset d ∷ ys) base i (value, true)
      ≡ strntol_loop ys base (suc i) (value * base + d, true)
unfolding strntol_loop
strntol_loop-charset ys base i value d h small fits =
    let e : (value * base % word + d) % word ≡ value * base + d = ground arith in
    let fits_base : leb base d ≡ false = ground arith in
    let fits_long : ltb (value * base + d) (2 ^ 31) ≡ true = ground (arith, fits) in
    rw (strntol_loop, digit_value-charset d (omega arith), fits_base, e, fits_long) refl

abbrev pub pow10 : ℕ → ℕ
pow10 zero = 1
pow10 (suc n) = 10 * pow10 n

pow10_pos : (n : ℕ) → 1 < pow10 n → 0 < n
pow10_pos zero h = omega arith
pow10_pos (suc n) h = omega arith

quotient_pow10 : (value base p : ℕ) → 10 ≤ base → value < 10 * p → value / base < p
quotient_pow10 value base p h q = grind (arith, mod-add-div value base)

-- Each is a digit in the sense of `charset`.
abbrev pub AreDigits : List ℕ → Type 0
AreDigits [] = Unit
AreDigits (c ∷ cs) = ((d : ℕ) × (d < 16) × (c ≡ charset d)) × AreDigits cs

-- The digits that are written for a value: at most as many as there is fuel, one at least, and
-- they read as the value.
pub record Writes (fuel value base : ℕ) (ds : List ℕ) : Type 0 where
  pub runs : digits fuel value base ≡ some ds
  pub few : length ds ≤ fuel
  pub some_digit : 0 < length ds
  pub are_digits : AreDigits ds
  pub reads :
      (i : ℕ) (ys : List ℕ)
      → strntol_loop (reverse ds ++ ys) base i (0, true)
        ≡ strntol_loop ys base (i + length ds) (value, true)

pub digits-Writes :
    (fuel value base : ℕ)
    → 10 ≤ base
    → base ≤ 16
    → value < 2 ^ 31
    → 0 < fuel
    → value < pow10 fuel
    → (ds : List ℕ) × Writes fuel value base ds
unfolding digits
digits-Writes zero value base ten small fits pos enough = absurd (omega arith)
digits-Writes (suc fuel) value base ten small fits pos enough =
    let d = value % base in
    let digit : d < base = grind arith in
    let whole : value / base * base + d ≡ value = grind (arith, mod-add-div value base) in
    elim (Bool-cases (value / base == 0)) [
      | inl last ↦ (
        charset d ∷ [],
        record {
          runs = rw last refl;
          few = omega arith;
          some_digit = omega arith;
          are_digits = ((d, omega arith, refl), tt);
          reads = λ i ys.
              strntol_loop-charset ys base i 0 d digit small (omega arith)
              ∙ ap₂ (λ k v. strntol_loop ys base k (v, true)) (omega arith) (grind (arith, whole));
        },
      )
      | inr more ↦
          let below = quotient_pow10 value base (pow10 fuel) ten enough in
          let left : 0 < fuel = pow10_pos fuel (ground (arith, below)) in
          let (ds, w) =
            digits-Writes fuel (value / base) base ten small (omega (arith, whole)) left below in
          (
            charset d ∷ ds,
            record {
              runs = rw (more, w.runs) refl;
              few = omega (arith, w.few);
              some_digit = omega arith;
              are_digits = ((d, omega arith, refl), w.are_digits);
              reads = λ i ys.
                  ap (λ t. strntol_loop t base i (0, true))
                    (append_assoc (reverse ds) (charset d ∷ []) ys)
                  ∙ w.reads i (charset d ∷ ys)
                  ∙ strntol_loop-charset ys base (i + length ds) (value / base) d digit small
                      (omega (arith, whole))
                  ∙ ap₂ (λ k v. strntol_loop ys base k (v, true)) (omega arith) whole;
            },
          )
    ]
