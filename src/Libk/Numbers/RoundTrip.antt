-- ===== src/Libk/Numbers/RoundTrip.antt =====
-- What `print_unsigned_integer` leaves in its buffer, and reading it with `strntol`.
use dummy_os.Prelude.{
  ℕ, zero, suc, ◌^◌, ◌<◌, ◌≤◌, ◌≡◌, refl, sym, ap, ◌∙◌, subst, List, [], ◌∷◌, ◌++◌, length,
  length-set, append_nil, take, set, get_or, get_or-set_ne, ◌==◌, leb, Bool-cases, inl, inr, some,
  ltb, false, true, arith,
}
use dummy_os.Libk.Utils.{word, sub32}
use dummy_os.Libk.Numbers.{
  charset, strntol_loop, strntol, print_unsigned_integer, put_digits, putchar, skip_spaces, isspace,
}
use dummy_os.Libk.Numbers.Digits.{reverse, AreDigits, digits-Writes}

take-set :
    (xs : List ℕ) (n v : ℕ) → n < length xs → take (suc n) (set xs n v) ≡ take n xs ++ (v ∷ [])
take-set [] n v h = absurd (omega arith)
take-set (x ∷ xs) zero v h = refl
take-set (x ∷ xs) (suc n) v h = ap (◌∷◌ x) (take-set xs n v (omega arith))

-- With room for them, the digits follow one another from the start of the buffer on.
put_digits_lem :
    (size : ℕ) (ds str : List ℕ)
    → length ds < size
    → size < word
    → size ≤ length str
    → let (str', pos) = put_digits size ds (str, 0) in
      (pos ≡ length ds) × (take pos str' ≡ reverse ds) × (length str' ≡ length str)
unfolding put_digits putchar
put_digits_lem size [] str fits small room = (refl, refl, refl)
put_digits_lem size (d ∷ ds) str fits small room =
    let (pos, text, same) = put_digits_lem size ds str (omega arith) small room in
    let (str', p) = put_digits size ds (str, 0) in
    let test : ltb p (sub32 size 1) ≡ true = ground (arith, pos) in
    rw test (
      ap suc pos,
      take-set str' p d (omega (arith, pos, same)) ∙ ap (λ xs. xs ++ (d ∷ [])) text,
      length-set str' p d ∙ same,
    )

-- A digit is no space, no sign and no `x`.
abbrev IsPlain : ℕ → Type 0
IsPlain c = (isspace c ≡ false) × (c < b'x') × (b'0' ≤ c)

charset-IsPlain : (d : ℕ) → d < 16 → IsPlain (charset d)
unfolding isspace charset
charset-IsPlain d h = ground arith

Plain : List ℕ → Type 0
Plain [] = Unit
Plain (c ∷ cs) = IsPlain c × Plain cs

Plain-snoc : (xs : List ℕ) (c : ℕ) → Plain xs → IsPlain c → Plain (xs ++ (c ∷ []))
unfolding Plain
Plain-snoc [] c h p = (p, tt)
Plain-snoc (x ∷ xs) c (q, h) p = (q, Plain-snoc xs c h p)

reverse-Plain : (ds : List ℕ) → AreDigits ds → Plain (reverse ds)
unfolding Plain
reverse-Plain [] h = tt
reverse-Plain (c ∷ cs) ((d, small, e), h) =
    Plain-snoc (reverse cs) c (reverse-Plain cs h) (subst IsPlain (sym e) (charset-IsPlain d small))

-- A text of digits has nothing to skip, if the second byte of the memory is no `x` either.
strntol-Plain :
    (nptr : List ℕ) (size base : ℕ)
    → base ≤ 36
    → 0 < size
    → size ≤ length nptr
    → Plain (take size nptr)
    → (get_or nptr 1 0 == b'x') ≡ false
    → strntol nptr size base ≡ strntol_loop (take size nptr) base 0 (0, true)
unfolding strntol skip_spaces Plain
strntol-Plain nptr zero base small pos room h other = absurd (omega arith)
strntol-Plain [] (suc n) base small pos room h other = absurd (omega arith)
strntol-Plain (c ∷ cs) (suc n) base small pos room ((space, x, zero_c), h) other =
    let fine : ltb 36 base ≡ false = ground (arith, small) in
    let minus : (c == b'-') ≡ false = ground (arith, zero_c) in
    let plus : (c == b'+') ≡ false = ground (arith, zero_c) in
    rw (strntol, skip_spaces, fine, space, minus, plus, other) (ground arith)

second_of : (xs : List ℕ) (n : ℕ) → 1 < n → Plain (take n xs) → (get_or xs 1 0 == b'x') ≡ false
unfolding Plain
second_of [] n more h = refl
second_of (c ∷ []) n more h = refl
second_of (c ∷ d ∷ xs) zero more h = absurd (omega arith)
second_of (c ∷ d ∷ xs) (suc zero) more h = absurd (omega arith)
second_of (c ∷ d ∷ xs) (suc (suc n)) more (p, ((space, x, zero_d), h)) = ground (arith, x)

-- One digit leaves the second byte of the buffer as it was.
one_digit :
    (size : ℕ) (ds str : List ℕ)
    → 1 < size
    → size < word
    → length ds ≡ 1
    → get_or (put_digits size ds (str, 0)).0 1 0 ≡ get_or str 1 0
unfolding put_digits putchar
one_digit size [] str room small one = absurd (omega arith)
one_digit size (d ∷ []) str room small one =
    let test : ltb 0 (sub32 size 1) ≡ true = ground (arith, room, small) in
    rw test (get_or-set_ne str 0 1 d 0 (λ e. absurd (omega (arith, e))))
one_digit size (d ∷ c ∷ ds) str room small one = absurd (omega arith)

-- For a base from 10 to 16, which are those that `vsnprintf` prints in and `strntol` reads, a value
-- that a signed `long` has, a size above 20 and below 2 ^ 32 that the buffer has at least, and a
-- buffer the second byte of which is no `x`: `print_unsigned_integer` writes the value at the start
-- of the buffer, and `strntol` of what it wrote, in that buffer, gives the value, without overflow,
-- and stops at the end.
pub strntol-print_unsigned_integer :
    (str : List ℕ) (size value base : ℕ)
    → 10 ≤ base
    → base ≤ 16
    → value < 2 ^ 31
    → 20 < size
    → size < word
    → size ≤ length str
    → (get_or str 1 0 == b'x') ≡ false
    → (str' : List ℕ) × (pos : ℕ) × (print_unsigned_integer size value base (str, 0)
        ≡ some (str', pos))
      × (strntol str' pos base ≡ (pos, value, true))
unfolding print_unsigned_integer
strntol-print_unsigned_integer str size value base ten small fits room in_word storage no_x =
    let (ds, w) = digits-Writes 20 value base ten small fits (omega arith) (omega arith) in
    let (at, text, same) = put_digits_lem size ds str (omega (arith, w.few)) in_word storage in
    let (str', pos) = put_digits size ds (str, 0) in
    let plain : Plain (take pos str') = subst Plain (sym text) (reverse-Plain ds w.are_digits) in
    let second : (get_or str' 1 0 == b'x') ≡ false = elim (Bool-cases (leb pos 1)) [
      | inr more ↦ second_of str' pos (ground (arith, more)) plain
      | inl one ↦
          ap (λ c. c == b'x')
            (one_digit size ds str (omega arith) in_word (ground (arith, one, at, w.some_digit)))
          ∙ no_x
    ] in
    (
      str',
      pos,
      rw (print_unsigned_integer, w.runs) refl,
      strntol-Plain str' pos base (omega arith) (omega (arith, at, w.some_digit))
            (omega (arith, at, same, w.few, storage)) plain second
          ∙ ap (λ s. strntol_loop s base 0 (0, true)) (text ∙ sym (append_nil (reverse ds)))
          ∙ w.reads 0 []
          ∙ unfold strntol_loop in ap (λ k. (k, value, true)) (omega (arith, at)),
    )
