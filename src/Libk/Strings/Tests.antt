-- ===== src/Libk/Strings/Tests.antt =====
-- Strings on concrete inputs.
use dummy_os.Prelude.{ℕ, ◌≡◌, ◌↔◌, ◌++◌, refl, List, [], ◌∷◌, take, arith, ltb, if◌then◌else◌}
use dummy_os.Libk.Strings.{strcmp, strncmp, strcat, strlcpy, strlen, strlcpy_loop, strncpy, memset}
use dummy_os.Libk.Strings.Compare.{text, strcmp-text, strncmp-text}
use dummy_os.Libk.Strings.Copy.{strcat-text, strlcpy-text}

abbrev ab : List ℕ
ab = b'a' ∷ b'b' ∷ 0 ∷ []

abbrev abc : List ℕ
abc = b'a' ∷ b'b' ∷ b'c' ∷ 0 ∷ []

abbrev room : List ℕ
room = b'x' ∷ 0 ∷ 7 ∷ 7 ∷ 7 ∷ []

-- The whole of "ab" fits, and 3 is returned.
strlcpy_fits : strlcpy room ab 5 ≡ (b'a' ∷ b'b' ∷ 0 ∷ 7 ∷ 7 ∷ [], 3)
unfolding strlcpy strlcpy_loop
strlcpy_fits = refl

strncpy_pads : strncpy room ab 4 ≡ b'a' ∷ b'b' ∷ 0 ∷ 0 ∷ 7 ∷ []
unfolding strncpy memset
strncpy_pads = refl

equal_test : (strcmp ab abc ≡ 0) ↔ (text ab ≡ text abc)
equal_test = strcmp-text ab abc (omega arith) (omega arith)

strncmp-text_test : (strncmp ab abc 2 ≡ 0) ↔ (take 2 (text ab) ≡ take 2 (text abc))
strncmp-text_test = strncmp-text ab abc 2 (omega arith) (omega arith)

append_test : text (strcat room ab) ≡ text room ++ text ab
unfolding text
append_test = strcat-text room ab (omega arith)

strlcpy-text_example :
    let (dest', k) = strlcpy room ab 3 in
    (text dest' ≡ take 2 (text ab)) × (k ≡ (if ltb (strlen ab) 2 then 3 else strlen ab))
unfolding strlen
strlcpy-text_example = strlcpy-text room ab 3 (omega arith) (omega arith) (omega arith)
