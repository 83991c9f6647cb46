-- ===== src/Fs/Path/Walk.antt =====
-- The components that a path is taken apart into.
use dummy_os.Prelude.{
  ℕ, zero, suc, ◌+◌, ◌^◌, ◌<◌, ◌≤◌, ◌≡◌, refl, sym, ap, ap₂, ◌∙◌, subst, true, false, List, [], ◌∷◌,
  length, take, drop, drop-drop, length-drop, length-take, take_all, ◌⊎◌, arith, inl, inr,
  if◌then◌else◌, Option, some, none,
}
use dummy_os.Fs.Path.{
  VfsPath, add16, sub16, first_slash, first_non_slash, vfs_path_get_str, vfs_path_empty,
  build_component_path, vfs_path_first_component, vfs_path_component_next, vfs_path_copy_init,
}
use dummy_os.Fs.Path.Names
use dummy_os.Fs.Path.Names.{
  word_cons, names, skip, word, rest, names-skip, names_cons, skip_cases, length-skip, length-rest,
  first_non_slash-skip, first_slash-word,
}

-- The path ends where its string does, and no offset wraps.
pub record IsWhole (p : VfsPath) : Type 0 where
  pub ends : p.offset + p.size ≡ length p.base_str.str
  pub small : length p.base_str.str < 2 ^ 16

-- The characters of a path.
abbrev pub visible : VfsPath → List ℕ
visible p = take p.size (drop p.offset p.base_str.str)

-- `c` is the first component of `s`, and ends where the rest of `s` begins, up to the end of the
-- string.
pub record IsFirst (s : List ℕ) (c : VfsPath) : Type 0 where
  pub component : visible c ≡ word (skip s)
  pub behind : drop (c.offset + c.size) c.base_str.str ≡ rest (skip s)
  pub inside : c.offset + c.size ≤ length c.base_str.str
  pub in_word : length c.base_str.str < 2 ^ 16

pub length_whole : (p : VfsPath) → IsWhole p → length (drop p.offset p.base_str.str) ≡ p.size
length_whole p w = omega (arith, w.ends, length-drop p.offset p.base_str.str)

pub visible_whole : (p : VfsPath) → IsWhole p → visible p ≡ drop p.offset p.base_str.str
visible_whole p w =
    ap (λ n. take n (drop p.offset p.base_str.str)) (sym (length_whole p w))
    ∙ take_all (drop p.offset p.base_str.str)

-- The two searches find the first component.
pub build-IsFirst : (p : VfsPath) → IsWhole p → IsFirst (visible p) (build_component_path p)
unfolding build_component_path vfs_path_get_str
build-IsFirst p w =
    let s = drop p.offset p.base_str.str in
    let len = length_whole p w in
    let k = first_non_slash s p.size in
    let (k_in, skipped) =
      subst (λ n. (first_non_slash s n ≤ length s) × (drop (first_non_slash s n) s ≡ skip s)) len
        (first_non_slash-skip s) in
    let left : length (drop k s) ≡ sub16 p.size k =
      omega (arith, length-drop k s, w.ends, w.small, len, k_in) in
    let n = first_slash (drop k s) (sub16 p.size k) in
    let (n_in, found, after) =
      subst
        (λ m.
          (first_slash (drop k s) m ≤ length (drop k s))
          × (take (first_slash (drop k s) m) (drop k s) ≡ word (drop k s))
          × (drop (first_slash (drop k s) m) (drop k s) ≡ rest (drop k s)))
        left (first_slash-word (drop k s)) in
    let offset : add16 p.offset k ≡ p.offset + k = omega (arith, w.ends, w.small, k_in, len) in
    let size : sub16 (add16 k n) k ≡ n =
      omega (arith, w.ends, w.small, k_in, len, n_in, length-drop k s) in
    let window : drop (p.offset + k) p.base_str.str ≡ drop k s =
      sym (drop-drop k p.offset p.base_str.str) in
    let whole = visible_whole p w in
    let start : drop k s ≡ skip (visible p) = skipped ∙ ap skip (sym whole) in
    record {
      component =
          ap₂ (λ a b. take a (drop b p.base_str.str)) size offset
          ∙ ap (take n) window
          ∙ found
          ∙ ap word start;
      behind =
          ap₂ (λ a b. drop (a + b) p.base_str.str) offset size
          ∙ sym (drop-drop n (p.offset + k) p.base_str.str)
          ∙ ap (drop n) window
          ∙ after
          ∙ ap rest start;
      inside = omega (arith, offset, size, w.ends, k_in, len, n_in, length-drop k s);
      in_word = w.small;
    }

-- The next component is the first one of what is behind.
pub next-IsFirst :
    (s : List ℕ) (c : VfsPath) → IsFirst s c → IsFirst (rest (skip s)) (vfs_path_component_next c)
unfolding vfs_path_component_next
next-IsFirst s c f =
    let offset : add16 c.offset c.size ≡ c.offset + c.size = omega (arith, f.inside, f.in_word) in
    let q = record c {
      offset = add16 c.offset c.size;
      size = sub16 (length c.base_str.str) (add16 c.offset c.size);
    } in
    let w : IsWhole q = record {
      ends = omega (arith, offset, f.inside, f.in_word);
      small = f.in_word;
    } in
    subst (λ t. IsFirst t (build_component_path q))
      (visible_whole q w ∙ ap (λ k. drop k c.base_str.str) offset ∙ f.behind) (build-IsFirst q w)

pub length-visible :
    (p : VfsPath) → p.offset + p.size ≤ length p.base_str.str → length (visible p) ≡ p.size
length-visible p inside =
    length-take p.size (drop p.offset p.base_str.str)
      (omega (arith, inside, length-drop p.offset p.base_str.str))

-- A component is empty if and only if no name is left.
pub empty_cases :
    (s : List ℕ) (c : VfsPath)
    → IsFirst s c
    → ((vfs_path_empty c ≡ true) × (names s ≡ []))
      ⊎ ((vfs_path_empty c ≡ false)
          × (names s ≡ visible c ∷ names (rest (skip s)))
          × (length (rest (skip s)) < length s))
unfolding vfs_path_empty
empty_cases s c f =
    let size = length-visible c f.inside in
    let at : length (word (skip s)) ≡ c.size = ap length (sym f.component) ∙ size in
    elim (skip_cases s) [
      | inl nil ↦
          let none_left : c.size ≡ 0 = sym at ∙ unfold word in ap (λ t. length (word t)) nil in
          inl (ground (arith, none_left), sym (names-skip s) ∙ unfold Names.split in ap names nil)
      | inr (x, xs, e, name) ↦
          let (some_left, fewer) = word_cons x xs name in
          inr (
            ground (arith, at, ap (λ t. length (word t)) e, some_left),
            sym (names-skip s)
                ∙ ap names e
                ∙ names_cons x xs name
                ∙ ap₂ (λ a b. a ∷ names b) (ap word (sym e) ∙ sym f.component) (ap rest (sym e)),
            omega (arith, ap (λ t. length (rest t)) e, fewer, ap length e, length-skip s),
          )
    ]

-- The loop that the callers of the two functions make: the components until one is empty.
unfoldable pub components : ℕ → VfsPath → Option (List (List ℕ))
components zero c = none
components (suc fuel) c =
    let others = components fuel (vfs_path_component_next c) in
    if vfs_path_empty c
    then some []
    else elim others [ none ↦ none | some vs ↦ some (visible c ∷ vs) ]

components-IsFirst :
    (fuel : ℕ) (s : List ℕ) (c : VfsPath)
    → IsFirst s c
    → length s < fuel
    → components fuel c ≡ some (names s)
unfolding components
components-IsFirst zero s c f enough = absurd (omega arith)
components-IsFirst (suc fuel) s c f enough = elim (empty_cases s c f) [
  | inl (e, nil) ↦ rw (e, nil) refl
  | inr (e, more, fewer) ↦
      rw
        (
          e,
          more,
          components-IsFirst fuel (rest (skip s)) (vfs_path_component_next c) (next-IsFirst s c f)
              (omega (arith, fewer, enough)),
        )
        refl
]

-- For a path that ends where its string does, taking the first component and then the next one
-- until it is empty ends, within as many turns as the path has characters and one more, and the
-- components are the names in the path, in order.
pub components-names :
    (fuel : ℕ) (p : VfsPath)
    → IsWhole p
    → p.size < fuel
    → components fuel (vfs_path_first_component p) ≡ some (names (visible p))
unfolding vfs_path_first_component vfs_path_copy_init
components-names fuel p w enough =
    components-IsFirst fuel (visible p) (build_component_path p) (build-IsFirst p w)
      (omega (arith, length-visible p (omega (arith, w.ends)), enough))
