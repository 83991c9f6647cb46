-- ===== src/Libk/Strings.antt =====
-- libk/str*.c and libk/mem*.c. Memory from a pointer on is the list of its bytes, and a read behind
-- the list gives 0. A function that writes returns the bytes of its destination after the call, in
-- which a write behind the end is lost.
pub mod Compare
pub mod Copy
pub mod Prefix
mod Tests
use dummy_os.Prelude.{
  ℕ, zero, suc, ◌+◌, ◌-◌, ◌^◌, ◌%◌, Bool, List, [], ◌∷◌, ◌==◌, if◌then◌else◌, Option, none, some,
}
use dummy_os.Libk.Utils.{word, sub32}

-- `*s`
abbrev pub head : List ℕ → ℕ
head [] = 0
head (c ∷ cs) = c

-- `s + 1`
abbrev pub tail : List ℕ → List ℕ
tail [] = []
tail (c ∷ cs) = cs

unfoldable pub strlen : List ℕ → ℕ
strlen [] = 0
strlen (c ∷ cs) = if c == 0 then 0 else suc (strlen cs)

unfoldable pub strnlen : List ℕ → ℕ → ℕ
strnlen s zero = 0
strnlen [] (suc n) = 0
strnlen (c ∷ cs) (suc n) = if c == 0 then 0 else suc (strnlen cs n)

-- The results of the comparisons are of type `int`, here its two's complement.
unfoldable pub strcmp : List ℕ → List ℕ → ℕ
strcmp [] s2 = sub32 0 (head s2)
strcmp (c ∷ cs) s2 =
    let rest = strcmp cs (tail s2) in
    if c == head s2 then if c == 0 then 0 else rest else sub32 c (head s2)

unfoldable pub strncmp : List ℕ → List ℕ → ℕ → ℕ
strncmp s1 s2 zero = 0
strncmp s1 s2 (suc n) =
    let rest = strncmp (tail s1) (tail s2) n in
    if head s1 == head s2 then if head s1 == 0 then 0 else rest else sub32 (head s1) (head s2)

unfoldable pub memcmp : List ℕ → List ℕ → ℕ → ℕ
memcmp s1 s2 zero = 0
memcmp s1 s2 (suc n) =
    let rest = memcmp (tail s1) (tail s2) n in
    if head s1 == head s2 then rest else sub32 (head s1) (head s2)

unfoldable pub memcpy : List ℕ → List ℕ → ℕ → List ℕ
memcpy dest src zero = dest
memcpy [] src (suc n) = []
memcpy (d ∷ ds) src (suc n) = head src ∷ memcpy ds (tail src) n

unfoldable pub memset : List ℕ → ℕ → ℕ → List ℕ
memset dest c zero = dest
memset [] c (suc n) = []
memset (d ∷ ds) c (suc n) = c ∷ memset ds c n

-- The second loop pads with 0.
unfoldable pub strncpy : List ℕ → List ℕ → ℕ → List ℕ
strncpy dest src zero = dest
strncpy [] src (suc n) = []
strncpy (d ∷ ds) src (suc n) =
    let rest = strncpy ds (tail src) n in
    if head src == 0 then memset (d ∷ ds) 0 (suc n) else head src ∷ rest

unfoldable pub strcpy : List ℕ → List ℕ → List ℕ
strcpy dest [] = dest
strcpy [] (c ∷ cs) = []
strcpy (d ∷ ds) (c ∷ cs) = let rest = strcpy ds cs in if c == 0 then d ∷ ds else c ∷ rest

-- `*p = 0`
abbrev pub end_string : List ℕ → List ℕ
end_string [] = []
end_string (d ∷ ds) = 0 ∷ ds

-- The loop of `strcat`, and the byte 0 after it.
unfoldable pub write_string : List ℕ → List ℕ → List ℕ
write_string dest [] = end_string dest
write_string [] (c ∷ cs) = []
write_string (d ∷ ds) (c ∷ cs) =
    let rest = write_string ds cs in if c == 0 then end_string (d ∷ ds) else c ∷ rest

-- The same with at most `count` bytes, of `strncat`.
unfoldable pub write_prefix : List ℕ → List ℕ → ℕ → List ℕ
write_prefix dest src zero = end_string dest
write_prefix dest [] (suc n) = end_string dest
write_prefix [] (c ∷ cs) (suc n) = []
write_prefix (d ∷ ds) (c ∷ cs) (suc n) =
    let rest = write_prefix ds cs n in if c == 0 then end_string (d ∷ ds) else c ∷ rest

-- `f` on the memory from `p + n` on.
abbrev pub at_offset : ℕ → (List ℕ → List ℕ) → List ℕ → List ℕ
at_offset zero f p = f p
at_offset (suc n) f [] = []
at_offset (suc n) f (c ∷ cs) = c ∷ at_offset n f cs

unfoldable pub strcat : List ℕ → List ℕ → List ℕ
strcat str append = at_offset (strlen str) (λ p. write_string p append) str

unfoldable pub strncat : List ℕ → List ℕ → ℕ → List ℕ
strncat str append count = at_offset (strlen str) (λ p. write_prefix p append count) str

-- The loop of `strlcpy` with `--size` at `n`: the destination, and `src - src0` at the end.
unfoldable pub strlcpy_loop : List ℕ → List ℕ → ℕ → List ℕ × ℕ
strlcpy_loop dest src zero = (end_string dest, strlen src)
strlcpy_loop [] [] (suc n) = ([], 1)
strlcpy_loop (d ∷ ds) [] (suc n) = (0 ∷ ds, 1)
strlcpy_loop dest (c ∷ cs) (suc n) =
    let (rest, k) = strlcpy_loop (tail dest) cs n in
    elim dest [
      | [] ↦ ([], if c == 0 then 1 else suc k)
      | d ∷ ds ↦ if c == 0 then (0 ∷ ds, 1) else (c ∷ rest, suc k)
    ]

-- `--size` wraps at 0.
unfoldable pub strlcpy : List ℕ → List ℕ → ℕ → List ℕ × ℕ
strlcpy dest src size = strlcpy_loop dest src (sub32 size 1)

-- `strdup`, with the memory that `kmalloc` gave for a length, if any.
unfoldable pub strdup : (ℕ → Option (List ℕ)) → List ℕ → Option (List ℕ)
strdup kmalloc str = elim (kmalloc (strlen str)) [
  | none ↦ none
  | some dup ↦ some (strncpy dup str (strlen str))
]
