-- ===== src/Mm/Vmm/Range.antt =====
-- Whether a range of addresses is free.
use dummy_os.Prelude.{
  ℕ, zero, suc, ◌+◌, ◌*◌, ◌^◌, ◌<◌, ◌≤◌, ◌≡◌, ◌↔◌, refl, sym, ap, ◌∙◌, subst, Bool, true, false,
  List, [], ◌∷◌, Option, none, some, Option-cases, Bool-cases, inl, inr, ltb, arith,
}
use dummy_os.Libk.Utils.{word, add32, page_size}
use dummy_os.Mm.Region.{Mapping, mapping_contains_addr}
use dummy_os.Mm.Vmm.{find_mapping, range_is_free, vmm_range_is_free}

-- No mapping has the byte at `a`.
abbrev pub NoneHas : List Mapping → ℕ → Type 0
NoneHas [] a = Unit
NoneHas (m ∷ ms) a = ¬ ((m.start ≤ a) × (a < m.start + m.size)) × NoneHas ms a

-- The mappings do not wrap around.
abbrev pub AllEnd : List Mapping → Type 0
AllEnd [] = Unit
AllEnd (m ∷ ms) = (m.start + m.size < word) × AllEnd ms

none_not_some : {A : Type 0} (a : A) → ¬ (some a ≡ none)
none_not_some a e = ground arith

contains_bytes :
    (m : Mapping) (a : ℕ)
    → m.start + m.size < word
    → mapping_contains_addr m a ≡ true
    → (m.start ≤ a) × (a < m.start + m.size)
unfolding mapping_contains_addr
contains_bytes m a fits h = (ground (arith, fits, h), ground (arith, fits, h))

misses_bytes :
    (m : Mapping) (a : ℕ)
    → m.start + m.size < word
    → mapping_contains_addr m a ≡ false
    → ¬ ((m.start ≤ a) × (a < m.start + m.size))
unfolding mapping_contains_addr
misses_bytes m a fits h (le, lt) = ground (arith, fits, h, le, lt)

-- The search for a mapping finds none if and only if none has the byte.
find_mapping-NoneHas :
    (ms : List Mapping) (a : ℕ) → AllEnd ms → (find_mapping ms a ≡ none) ↔ NoneHas ms a
unfolding find_mapping
find_mapping-NoneHas [] a fits = (λ e. tt, λ h. refl)
find_mapping-NoneHas (m ∷ ms) a (fits, others) = elim (Bool-cases (mapping_contains_addr m a)) [
  | inl has ↦
      rw has
        (λ e. absurd (none_not_some m e), λ (h, rest). absurd (h (contains_bytes m a fits has)))
  | inr has_not ↦
      let (to, from) = find_mapping-NoneHas ms a others in
      rw has_not (λ e. (misses_bytes m a fits has_not, to e), λ (h, rest). from rest)
]

-- No mapping has the first byte of a page, counted from `addr`, that starts below `end`.
abbrev pub IsFree : List Mapping → ℕ → ℕ → Type 0
IsFree ms addr end = (k : ℕ) → addr + k * page_size < end → NoneHas ms (addr + k * page_size)

abbrev pub Answers : Option Bool → List Mapping → ℕ → ℕ → Type 0
Answers r ms addr end = (b : Bool) × (r ≡ some b) × ((b ≡ true) ↔ IsFree ms addr end)

free_here : (ms : List Mapping) (addr end : ℕ) → addr < end → IsFree ms addr end → NoneHas ms addr
free_here ms addr end lt free =
    let e : addr + 0 * page_size ≡ addr = omega arith in subst (NoneHas ms) e (free 0 (omega arith))

IsFree-cons :
    (ms : List Mapping) (addr end : ℕ)
    → NoneHas ms addr
    → IsFree ms (addr + page_size) end
    → IsFree ms addr end
IsFree-cons ms addr end here free zero lt =
    let e : addr + 0 * page_size ≡ addr = omega arith in subst (NoneHas ms) (sym e) here
IsFree-cons ms addr end here free (suc k) lt =
    let e : addr + page_size + k * page_size ≡ addr + suc k * page_size = omega arith in
    subst (NoneHas ms) e (free k (omega arith))

IsFree-tail :
    (ms : List Mapping) (addr end : ℕ) → IsFree ms addr end → IsFree ms (addr + page_size) end
IsFree-tail ms addr end free k lt =
    let e : addr + suc k * page_size ≡ addr + page_size + k * page_size = omega arith in
    subst (NoneHas ms) e (free (suc k) (omega arith))

nothing_left : (ms : List Mapping) (addr end : ℕ) → end ≤ addr → IsFree ms addr end
nothing_left ms addr end le k lt = absurd (omega (arith, le, lt))

true_iff : {A : Type 0} → A → (true ≡ true) ↔ A
true_iff a = (λ e. a, λ a. refl)

false_iff : {A : Type 0} → ¬ A → (false ≡ true) ↔ A
false_iff not_a = (λ e. absurd (ground arith), λ a. absurd (not_a a))

range_done :
    (fuel : ℕ) (ms : List Mapping) (addr end : ℕ)
    → ltb addr end ≡ false
    → range_is_free (suc fuel) ms addr end ≡ some true
unfolding range_is_free
range_done fuel ms addr end done = rw done refl

range_found :
    (fuel : ℕ) (ms : List Mapping) (addr end : ℕ) (m : Mapping)
    → ltb addr end ≡ true
    → find_mapping ms addr ≡ some m
    → range_is_free (suc fuel) ms addr end ≡ some false
unfolding range_is_free
range_found fuel ms addr end m more found = rw (more, found) refl

range_next :
    (fuel : ℕ) (ms : List Mapping) (addr end : ℕ)
    → ltb addr end ≡ true
    → find_mapping ms addr ≡ none
    → range_is_free (suc fuel) ms addr end ≡ range_is_free fuel ms (add32 addr page_size) end
unfolding range_is_free
range_next fuel ms addr end more here = rw (more, here) refl

range_is_free-Answers :
    (n : ℕ) (ms : List Mapping) (addr end : ℕ)
    → end ≤ addr + n * page_size
    → end + page_size ≤ word
    → AllEnd ms
    → Answers (range_is_free (suc n) ms addr end) ms addr end
range_is_free-Answers zero ms addr end enough small fits =
    let done : ltb addr end ≡ false = ground (arith, enough) in
    (
      true,
      range_done zero ms addr end done,
      true_iff (nothing_left ms addr end (omega (arith, enough))),
    )
range_is_free-Answers (suc n) ms addr end enough small fits = elim (Bool-cases (ltb addr end)) [
  | inr done ↦ (
    true,
    range_done (suc n) ms addr end done,
    true_iff (nothing_left ms addr end (ground (arith, done))),
  )
  | inl more ↦
      let lt : addr < end = ground (arith, more) in
      elim (Option-cases (find_mapping ms addr)) [
        | inr (m, found) ↦ (
          false,
          range_found (suc n) ms addr end m more found,
          false_iff (λ free.
              none_not_some m (
                sym found ∙ (find_mapping-NoneHas ms addr fits).1 (free_here ms addr end lt free))),
        )
        | inl here ↦
            let next : add32 addr page_size ≡ addr + page_size = omega (arith, lt, small) in
            let (b, runs, (to, from)) =
              range_is_free-Answers n ms (addr + page_size) end (omega (arith, enough)) small
                fits in
            (
              b,
              range_next (suc n) ms addr end more here
                  ∙ ap (λ a. range_is_free (suc n) ms a end) next
                  ∙ runs,
              (
                λ e. IsFree-cons ms addr end ((find_mapping-NoneHas ms addr fits).0 here) (to e),
                λ free. from (IsFree-tail ms addr end free),
              ),
            )
      ]
]

-- Where no mapping wraps around, and for a range that ends at least a page below the end of the
-- addresses, `vmm_range_is_free` ends and says that the range is free if and only if none of the
-- mappings has, between its start and its start plus its size, the first byte of one of the pages
-- of the range, counted from its start.
pub vmm_range_is_free-Answers :
    (ms : List Mapping) (start end : ℕ)
    → AllEnd ms
    → end + page_size ≤ word
    → Answers (vmm_range_is_free ms start end) ms start end
unfolding vmm_range_is_free
vmm_range_is_free-Answers ms start end fits small =
    range_is_free-Answers (2 ^ 20) ms start end (omega (arith, small)) small fits
