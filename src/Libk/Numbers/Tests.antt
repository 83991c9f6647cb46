-- ===== src/Libk/Numbers/Tests.antt =====
-- Numbers to text and back on concrete inputs.
use dummy_os.Prelude.{ℕ, ◌≡◌, refl, List, [], ◌∷◌, some, true, arith, tabulate}
use dummy_os.Libk.Numbers.{
  strntol, strntol_loop, skip_spaces, digit_value, isspace, isblank, isdigit, isupper, islower,
  print_unsigned_integer,
}
use dummy_os.Libk.Numbers.RoundTrip.{strntol-print_unsigned_integer}

-- " -0x1fg" in base 16: the value is -31, and `endptr` is at the `g`.
strntol_hex :
    strntol (b' ' ∷ b'-' ∷ b'0' ∷ b'x' ∷ b'1' ∷ b'f' ∷ b'g' ∷ []) 7 16 ≡ (6, 0xffff_ffe1, true)
unfolding strntol strntol_loop skip_spaces digit_value isspace isblank isdigit isupper islower
strntol_hex = refl

-- Of "0x1", one byte is to be read in base 16: the `x` behind it is looked at all the same.
strntol_behind : strntol (b'0' ∷ b'x' ∷ b'1' ∷ []) 1 16 ≡ (2, 0, true)
unfolding strntol strntol_loop skip_spaces digit_value isspace isblank isdigit isupper islower
strntol_behind = refl

abbrev zeros : List ℕ
zeros = tabulate 24 (λ k. 0)

strntol-print_unsigned_integer_example :
    (str' : List ℕ) × (pos : ℕ) × (print_unsigned_integer 24 2026 10 (zeros, 0) ≡ some (str', pos))
    × (strntol str' pos 10 ≡ (pos, 2026, true))
strntol-print_unsigned_integer_example =
    strntol-print_unsigned_integer zeros 24 2026 10 (omega arith) (omega arith) (omega arith)
      (omega arith) (omega arith) (omega arith) refl
