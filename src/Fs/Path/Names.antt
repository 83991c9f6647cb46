-- ===== src/Fs/Path/Names.antt =====
-- The names in a path, on lists of characters.
use dummy_os.Prelude.{
  ℕ, ◌<◌, ◌≤◌, ◌≡◌, refl, sym, ap, ◌∙◌, false, List, [], ◌∷◌, ◌++◌, length, take, drop,
  append_assoc, append_nil, ◌⊎◌, arith, Bool-cases, inl, inr, ◌==◌, if◌then◌else◌,
}
use dummy_os.Fs.Path.{
  slash, first_x, first_slash, first_non_slash, slash_predicate, non_slash_predicate,
}

-- A name that has a character.
abbrev name_of : List ℕ → List (List ℕ)
name_of [] = []
name_of (c ∷ cs) = (c ∷ cs) ∷ []

unfoldable pub split : List ℕ → List ℕ → List (List ℕ)
split cur [] = name_of cur
split cur (c ∷ cs) = if c == slash then name_of cur ++ split [] cs else split (cur ++ (c ∷ [])) cs

-- What stands between the slashes of `s`, the empty strings left out.
abbrev pub names : List ℕ → List (List ℕ)
names s = split [] s

-- `s` from the first character that is not a slash on, its characters up to the first slash, and
-- those from it on.
unfoldable pub skip : List ℕ → List ℕ
skip [] = []
skip (c ∷ cs) = if c == slash then skip cs else c ∷ cs

unfoldable pub word : List ℕ → List ℕ
word [] = []
word (c ∷ cs) = if c == slash then [] else c ∷ word cs

unfoldable pub rest : List ℕ → List ℕ
rest [] = []
rest (c ∷ cs) = if c == slash then c ∷ cs else rest cs

pub names-skip : (s : List ℕ) → names (skip s) ≡ names s
unfolding skip split
names-skip [] = refl
names-skip (c ∷ cs) = ground (arith, names-skip cs)

split-word : (s cur : List ℕ) (c : ℕ) → split (c ∷ cur) s ≡ (c ∷ (cur ++ word s)) ∷ names (rest s)
unfolding split word rest
split-word [] cur c = ap (λ t. (c ∷ t) ∷ []) (sym (append_nil cur))
split-word (x ∷ xs) cur c = elim (Bool-cases (x == slash)) [
  | inl e ↦ rw e (rw e (ap (λ t. (c ∷ t) ∷ split [] xs) (sym (append_nil cur))))
  | inr e ↦ rw e (
      split-word xs (cur ++ (x ∷ [])) c
      ∙ ap (λ t. (c ∷ t) ∷ names (rest xs)) (append_assoc cur (x ∷ []) (word xs)))
]

-- The first name, and the others.
pub names_cons :
    (c : ℕ) (cs : List ℕ)
    → (c == slash) ≡ false
    → names (c ∷ cs) ≡ word (c ∷ cs) ∷ names (rest (c ∷ cs))
unfolding word rest
names_cons c cs e = unfold split in rw e (split-word cs [] c)

-- Skipping leaves nothing, or a string that starts with a name.
pub skip_cases :
    (s : List ℕ)
    → (skip s ≡ []) ⊎ ((c : ℕ) × (cs : List ℕ) × (skip s ≡ c ∷ cs) × ((c == slash) ≡ false))
unfolding skip
skip_cases [] = inl refl
skip_cases (c ∷ cs) = elim (Bool-cases (c == slash)) [
  | inl e ↦ rw e (skip_cases cs)
  | inr e ↦ rw e (inr (c, cs, refl, e))
]

pub length-skip : (s : List ℕ) → length (skip s) ≤ length s
unfolding skip
length-skip [] = omega arith
length-skip (c ∷ cs) = ground (arith, length-skip cs)

pub length-rest : (s : List ℕ) → length (rest s) ≤ length s
unfolding rest
length-rest [] = omega arith
length-rest (c ∷ cs) = ground (arith, length-rest cs)

-- The two searches of the code, over the whole of a string.
pub first_non_slash-skip :
    (s : List ℕ)
    → (first_non_slash s (length s) ≤ length s) × (drop (first_non_slash s (length s)) s ≡ skip s)
unfolding first_non_slash first_x non_slash_predicate slash_predicate skip
first_non_slash-skip [] = (omega arith, refl)
first_non_slash-skip (c ∷ cs) = ground (arith, first_non_slash-skip cs)

pub first_slash-word :
    (s : List ℕ)
    → (first_slash s (length s) ≤ length s)
      × (take (first_slash s (length s)) s ≡ word s)
      × (drop (first_slash s (length s)) s ≡ rest s)
unfolding first_slash first_x slash_predicate word rest
first_slash-word [] = (omega arith, refl, refl)
first_slash-word (c ∷ cs) = ground (arith, first_slash-word cs)

-- The first name takes characters off a string that starts with one.
pub word_cons :
    (c : ℕ) (cs : List ℕ)
    → (c == slash) ≡ false
    → (0 < length (word (c ∷ cs))) × (length (rest (c ∷ cs)) < length (c ∷ cs))
unfolding word rest
word_cons c cs e = ground (arith, length-rest cs)
