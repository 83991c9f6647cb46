-- ===== src/Libk/Strings/Compare.antt =====
-- The comparisons of strings, against the texts that the strings hold.
use dummy_os.Prelude.{ℕ, zero, suc, ◌<◌, ◌≡◌, ◌↔◌, List, [], ◌∷◌, take, ◌==◌, if◌then◌else◌, arith}
use dummy_os.Libk.Strings.{strcmp, strncmp}

-- The bytes of a string, up to its end.
unfoldable pub text : List ℕ → List ℕ
text [] = []
text (c ∷ cs) = if c == 0 then [] else c ∷ text cs

-- Each is an `unsigned char`.
abbrev pub Bytes : List ℕ → Type 0
Bytes [] = Unit
Bytes (c ∷ cs) = (c < 256) × Bytes cs

-- For two strings of bytes, `strcmp` returns 0 if and only if their texts are equal.
pub strcmp-text : (s1 s2 : List ℕ) → Bytes s1 → Bytes s2 → (strcmp s1 s2 ≡ 0) ↔ (text s1 ≡ text s2)
unfolding strcmp text
strcmp-text [] [] p q = ground arith
strcmp-text [] (d ∷ ds) p q = ground arith
strcmp-text (c ∷ cs) [] p q = ground (arith, strcmp-text cs [])
strcmp-text (c ∷ cs) (d ∷ ds) p q = ground (arith, strcmp-text cs ds p.1 q.1)

-- For two strings of bytes, `strncmp` returns 0 if and only if the first `size` bytes of their
-- texts are equal.
pub strncmp-text :
    (s1 s2 : List ℕ) (size : ℕ)
    → Bytes s1
    → Bytes s2
    → (strncmp s1 s2 size ≡ 0) ↔ (take size (text s1) ≡ take size (text s2))
unfolding strncmp text
strncmp-text s1 s2 zero p q = ground arith
strncmp-text [] [] (suc n) p q = ground arith
strncmp-text [] (d ∷ ds) (suc n) p q = ground arith
strncmp-text (c ∷ cs) [] (suc n) p q = ground arith
strncmp-text (c ∷ cs) (d ∷ ds) (suc n) p q = ground (arith, strncmp-text cs ds n p.1 q.1)
