-- ===== src/Libk/Strings/Copy.antt =====
-- The copies of strings, against the texts that the strings hold.
use dummy_os.Prelude.{
  ℕ, zero, suc, ◌+◌, ◌-◌, ◌<◌, ◌≤◌, ◌≡◌, refl, List, [], ◌∷◌, ◌++◌, take, length, ltb,
  if◌then◌else◌, arith,
}
use dummy_os.Libk.Utils.{word, sub32}
use dummy_os.Libk.Strings.{strlen, strcat, strlcpy, strlcpy_loop, write_string, at_offset}
use dummy_os.Libk.Strings.Compare.{text}

pub strlen-text : (s : List ℕ) → strlen s ≡ length (text s)
unfolding strlen text
strlen-text [] = refl
strlen-text (c ∷ cs) = ground (arith, strlen-text cs)

write_string-text :
    (dest src : List ℕ) → length (text src) < length dest → text (write_string dest src) ≡ text src
unfolding write_string text
write_string-text [] src h = ground arith
write_string-text (d ∷ ds) [] h = ground arith
write_string-text (d ∷ ds) (c ∷ cs) h = ground (arith, write_string-text ds cs)

at_offset-text :
    (str src : List ℕ)
    → length (text str) + length (text src) < length str
    → text (at_offset (strlen str) (λ p. write_string p src) str) ≡ text str ++ text src
unfolding strlen text
at_offset-text [] src h = ground arith
at_offset-text (c ∷ cs) src h =
    ground (arith, at_offset-text cs src, write_string-text (c ∷ cs) src)

-- Where the destination has room for both texts and the byte that ends them, `strcat` puts the
-- text that is appended behind the text that was there.
pub strcat-text :
    (str append : List ℕ)
    → length (text str) + length (text append) < length str
    → text (strcat str append) ≡ text str ++ text append
unfolding strcat
strcat-text str append room = at_offset-text str append room

strlcpy_loop-text :
    (dest src : List ℕ) (n : ℕ)
    → n < length dest
    → let (dest', k) = strlcpy_loop dest src n in
      (text dest' ≡ take n (text src))
      × (k ≡ (if ltb (strlen src) n then suc (strlen src) else strlen src))
unfolding strlcpy_loop text strlen
strlcpy_loop-text [] src n h = ground arith
strlcpy_loop-text (d ∷ ds) src zero h = ground arith
strlcpy_loop-text (d ∷ ds) [] (suc n) h = ground arith
strlcpy_loop-text (d ∷ ds) (c ∷ cs) (suc n) h = ground (arith, strlcpy_loop-text ds cs n)

-- With a size that is not 0 and that the destination has, `strlcpy` leaves as much of the text as
-- fits in front of the byte that ends it. It returns the length of the text if that is cut or
-- just fits, and one more otherwise.
pub strlcpy-text :
    (dest src : List ℕ) (size : ℕ)
    → 0 < size
    → size ≤ length dest
    → size < word
    → let (dest', k) = strlcpy dest src size in
      (text dest' ≡ take (size - 1) (text src))
      × (k ≡ (if ltb (strlen src) (size - 1) then suc (strlen src) else strlen src))
unfolding strlcpy
strlcpy-text dest src size pos fits small =
    let e : sub32 size 1 ≡ size - 1 = omega arith in
    rw e (strlcpy_loop-text dest src (size - 1) (omega arith))
