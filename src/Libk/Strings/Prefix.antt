-- ===== src/Libk/Strings/Prefix.antt =====
-- The functions that copy at most so many bytes, against the texts that the strings hold.
use dummy_os.Prelude.{
  ℕ, zero, suc, ◌+◌, ◌<◌, ◌≤◌, ◌≡◌, refl, ap, List, [], ◌∷◌, ◌++◌, take, length, arith,
}
use dummy_os.Libk.Strings.{strlen, strncpy, strncat, memset, write_prefix, at_offset, tail}
use dummy_os.Libk.Strings.Compare.{text}

-- All bytes are 0.
abbrev pub AreZeros : List ℕ → Type 0
AreZeros [] = Unit
AreZeros (c ∷ cs) = (c ≡ 0) × AreZeros cs

pub memset-AreZeros : (s : List ℕ) → AreZeros (memset s 0 (length s))
unfolding memset
memset-AreZeros [] = tt
memset-AreZeros (c ∷ cs) = (refl, memset-AreZeros cs)

pub length-memset : (s : List ℕ) (c n : ℕ) → length (memset s c n) ≡ length s
unfolding memset
length-memset s c zero = refl
length-memset [] c (suc n) = refl
length-memset (d ∷ ds) c (suc n) = ap suc (length-memset ds c n)

text-zeros : (s : List ℕ) → AreZeros s → text s ≡ []
unfolding text
text-zeros [] h = refl
text-zeros (c ∷ cs) (e, h) = ground (arith, e)

text-memset : (d : ℕ) (ds : List ℕ) (n : ℕ) → text (memset (d ∷ ds) 0 (suc n)) ≡ []
unfolding memset text
text-memset d ds n = refl

pub length-strncpy : (dest src : List ℕ) (n : ℕ) → length (strncpy dest src n) ≡ length dest
unfolding strncpy
length-strncpy dest src zero = refl
length-strncpy [] src (suc n) = refl
length-strncpy (d ∷ ds) src (suc n) =
    ground (arith, length-strncpy ds (tail src) n, length-memset (d ∷ ds) 0 (suc n))

-- Into a buffer of zeros with room behind the copy.
pub strncpy-text :
    (dest src : List ℕ) (n : ℕ)
    → AreZeros dest
    → n < length dest
    → text (strncpy dest src n) ≡ text (take n src)
unfolding strncpy text
strncpy-text dest src zero z room = text-zeros dest z
strncpy-text [] src (suc n) z room = absurd (omega (arith, room))
strncpy-text (d ∷ ds) [] (suc n) z room = unfold memset in refl
strncpy-text (d ∷ ds) (c ∷ cs) (suc n) (e, z) room =
    ground (arith, strncpy-text ds cs n z (omega (arith, room)), text-memset d ds n)

write_prefix-text :
    (dest src : List ℕ) (n : ℕ)
    → length (take n (text src)) < length dest
    → text (write_prefix dest src n) ≡ take n (text src)
unfolding write_prefix text
write_prefix-text [] src n h = absurd (omega (arith, h))
write_prefix-text (d ∷ ds) src zero h = ground arith
write_prefix-text (d ∷ ds) [] (suc n) h = ground arith
write_prefix-text (d ∷ ds) (c ∷ cs) (suc n) h = ground (arith, write_prefix-text ds cs n)

at_offset-text :
    (str src : List ℕ) (n : ℕ)
    → length (text str) + length (take n (text src)) < length str
    → text (at_offset (strlen str) (λ p. write_prefix p src n) str) ≡ text str ++ take n (text src)
unfolding strlen text
at_offset-text [] src n h = absurd (omega (arith, h))
at_offset-text (c ∷ cs) src n h =
    ground (arith, at_offset-text cs src n, write_prefix-text (c ∷ cs) src n)

-- Where the destination has room, `strncat` puts up to `count` bytes of the text that is appended
-- behind the text that was there.
pub strncat-text :
    (str append : List ℕ) (count : ℕ)
    → length (text str) + length (take count (text append)) < length str
    → text (strncat str append count) ≡ text str ++ take count (text append)
unfolding strncat
strncat-text str append count room = at_offset-text str append count room

-- As many bytes as the text has, or more, hold all of it.
pub take-text : (s : List ℕ) (n : ℕ) → strlen s ≤ n → take n (text s) ≡ text s
unfolding strlen text
take-text [] zero h = refl
take-text [] (suc n) h = refl
take-text (c ∷ cs) zero h = ground (arith, h)
take-text (c ∷ cs) (suc n) h = ground (arith, take-text cs n)

pub text-take : (s : List ℕ) (n : ℕ) → strlen s ≤ n → text (take n s) ≡ text s
unfolding strlen text
text-take [] zero h = refl
text-take [] (suc n) h = refl
text-take (c ∷ cs) zero h = ground (arith, h)
text-take (c ∷ cs) (suc n) h = ground (arith, text-take cs n)

pub strlen-le : (s : List ℕ) → strlen s ≤ length s
unfolding strlen
strlen-le [] = omega arith
strlen-le (c ∷ cs) = ground (arith, strlen-le cs)

-- Into a buffer of just the size of the text.
pub strncpy-exact :
    (dest src : List ℕ) → length dest ≡ strlen src → strncpy dest src (strlen src) ≡ text src
unfolding strlen text strncpy
strncpy-exact [] [] h = refl
strncpy-exact (d ∷ ds) [] h = absurd (omega (arith, h))
strncpy-exact [] (c ∷ cs) h = ground (arith, h)
strncpy-exact (d ∷ ds) (c ∷ cs) h = ground (arith, strncpy-exact ds cs)
