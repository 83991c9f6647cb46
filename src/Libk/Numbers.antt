-- ===== src/Libk/Numbers.antt =====
-- libk/ctype.c, libk/strtol.c and libk/vsnprintf.c: classes of characters, and numbers to text and
-- back. A `long` and a `long long` are their two's complement.
pub mod Digits
pub mod RoundTrip
mod Tests
use dummy_os.Prelude.{
  ℕ, zero, suc, ◌+◌, ◌-◌, ◌*◌, ◌/◌, ◌%◌, ◌^◌, Bool, true, false, not, ◌&&◌, ◌||◌, List, [], ◌∷◌,
  ◌++◌, length, set, take, drop, ltb, leb, ◌==◌, if◌then◌else◌, Option, none, some, get_or,
}
use dummy_os.Libk.Utils.{word, add32, sub32}
use dummy_os.Libk.Strings.{head, tail, strlen}

unfoldable pub isdigit : ℕ → Bool
isdigit c = leb b'0' c && leb c b'9'

unfoldable pub isupper : ℕ → Bool
isupper c = leb b'A' c && leb c b'Z'

unfoldable pub islower : ℕ → Bool
islower c = leb b'a' c && leb c b'z'

unfoldable pub isalpha : ℕ → Bool
unfolding isupper islower
isalpha c = isupper c || islower c

unfoldable pub isalnum : ℕ → Bool
unfolding isalpha isdigit
isalnum c = isalpha c || isdigit c

unfoldable pub isblank : ℕ → Bool
isblank c = (c == 32) || (c == 9)

unfoldable pub isspace : ℕ → Bool
unfolding isblank
isspace c = isblank c || (c == 12) || (c == 10) || (c == 13) || (c == 11)

-- The value of a digit of any base, `none` for another character.
unfoldable pub digit_value : ℕ → Option ℕ
digit_value d =
    if isdigit d
    then some (d - b'0')
    else if isupper d
    then some (d - (b'A' - 10))
    else if islower d
    then some (d - (b'a' - 10))
    else none

-- The last loop of `strntol`, on the text that is left, with `i` and `value`, a signed `long` of 32
-- bits: the flag says that it has not overflowed, which C leaves undefined; the value wraps around.
unfoldable pub strntol_loop : List ℕ → ℕ → ℕ → ℕ × Bool → ℕ × ℕ × Bool
strntol_loop [] base i (value, fits) = (i, value, fits)
strntol_loop (d ∷ ds) base i (value, fits) = elim (digit_value d) [
  | none ↦ (i, value, fits)
  | some dval ↦
      (let next : ℕ × Bool =
          (add32 (value * base % word) dval, fits && ltb (value * base + dval) (2 ^ 31)) in
        let rest = strntol_loop ds base (suc i) next in
        if leb base dval then (i, value, fits) else rest)
]

-- `while (i < size && isspace(nptr[i])) ++i;` on the text, and `i`.
unfoldable pub skip_spaces : List ℕ → ℕ → ℕ
skip_spaces [] i = i
skip_spaces (c ∷ cs) i = let rest = skip_spaces cs (suc i) in if isspace c then rest else i

-- From the sign on.
abbrev pub skip_sign : List ℕ → ℕ → ℕ
skip_sign nptr i = if (get_or nptr i 0 == b'-') || (get_or nptr i 0 == b'+') then suc i else i

-- The bytes at `i` and behind it are read, whether or not they are below `size`.
abbrev pub skip_prefix : List ℕ → ℕ → ℕ → ℕ
skip_prefix nptr base i =
    if (base == 16) && (get_or nptr i 0 == b'0') && (get_or nptr (suc i) 0 == b'x')
    then i + 2
    else i

abbrev pub signed : Bool → ℕ × ℕ × Bool → ℕ × ℕ × Bool
signed negative (i, value, fits) = (i, if negative then sub32 0 value else value, fits)

-- `strntol`, where `nptr` is the memory from the pointer on, `size` bytes at least: the offset that
-- goes to `endptr`, which may be above `size` by the prefix, the value, and whether it has not
-- overflowed.
unfoldable pub strntol : List ℕ → ℕ → ℕ → ℕ × ℕ × Bool
strntol nptr size base =
    let text = take size nptr in
    let i = skip_spaces text 0 in
    let start = skip_prefix nptr base (skip_sign nptr i) in
    if ltb 36 base
    then (0, 0, true)
    else if leb size i
    then (0, 0, true)
    else signed (get_or nptr i 0 == b'-') (strntol_loop (drop start text) base start (0, true))

-- `putchar` of vsnprintf.c: the buffer, and `*pos`. `size - 1` wraps at 0.
unfoldable pub putchar : ℕ → ℕ → List ℕ × ℕ → List ℕ × ℕ
putchar size c (str, pos) = if ltb pos (sub32 size 1) then (set str pos c, suc pos) else (str, pos)

-- `charset[d]`
unfoldable pub charset : ℕ → ℕ
charset d = if ltb d 10 then b'0' + d else b'a' + (d - 10)

-- The `do` loop of `print_unsigned_integer`, the last digit first; `none` is out of fuel.
unfoldable pub digits : ℕ → ℕ → ℕ → Option (List ℕ)
digits zero value base = none
digits (suc fuel) value base =
    let rest = digits fuel (value / base) base in
    if value / base == 0
    then some (charset (value % base) ∷ [])
    else elim rest [ none ↦ none | some ds ↦ some (charset (value % base) ∷ ds) ]

-- Its second loop writes the digits of `buffer` from the last to the first.
unfoldable pub put_digits : ℕ → List ℕ → List ℕ × ℕ → List ℕ × ℕ
put_digits size [] out = out
put_digits size (d ∷ ds) out = putchar size d (put_digits size ds out)

-- `buffer` has 20 characters, which is the fuel.
unfoldable pub print_unsigned_integer : ℕ → ℕ → ℕ → List ℕ × ℕ → Option (List ℕ × ℕ)
print_unsigned_integer size value base out = elim (digits 20 value base) [
  | none ↦ none
  | some ds ↦ some (put_digits size ds out)
]

-- `value` has 64 bits.
unfoldable pub print_integer : ℕ → ℕ → List ℕ × ℕ → Option (List ℕ × ℕ)
print_integer size value out =
    if leb (2 ^ 63) value
    then print_unsigned_integer size (2 ^ 64 - value) 10 (putchar size b'-' out)
    else print_unsigned_integer size value 10 out
