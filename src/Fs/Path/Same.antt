-- ===== src/Fs/Path/Same.antt =====
-- When two paths count as the same.
use dummy_os.Prelude.{
  ℕ, zero, suc, ◌+◌, ◌<◌, ◌≤◌, ◌≡◌, ◌↔◌, refl, sym, ap, ap₂, ◌∙◌, Bool, true, false, List, [], ◌∷◌,
  length, take, drop, arith, Bool-cases, inl, inr, Option, some,
}
use dummy_os.Libk.Strings.{strncmp}
use dummy_os.Libk.Strings.Compare.{text, Bytes, strncmp-text}
use dummy_os.Fs.Path.{
  VfsPath, path_string_equals, path_same_loop, path_same, vfs_path_same, vfs_path_get_str,
  vfs_path_first_component, vfs_path_component_next, vfs_path_copy_init, build_component_path,
}
use dummy_os.Fs.Path.Names.{names, skip, rest}
use dummy_os.Fs.Path.Walk.{
  IsWhole, IsFirst, visible, build-IsFirst, next-IsFirst, empty_cases, length-visible,
}

-- The characters are bytes, and none is 0.
abbrev pub IsText : List ℕ → Type 0
IsText [] = Unit
IsText (c ∷ cs) = (0 < c) × (c < 256) × IsText cs

text_all : (s : List ℕ) → IsText s → text s ≡ s
unfolding text
text_all [] h = refl
text_all (c ∷ cs) (pos, byte, h) = ground (arith, text_all cs h)

IsText-Bytes : (s : List ℕ) → IsText s → Bytes s
IsText-Bytes [] h = tt
IsText-Bytes (c ∷ cs) (pos, byte, h) = (byte, IsText-Bytes cs h)

IsText-drop : (n : ℕ) (s : List ℕ) → IsText s → IsText (drop n s)
IsText-drop zero s h = h
IsText-drop (suc n) [] h = tt
IsText-drop (suc n) (c ∷ cs) (pos, byte, h) = IsText-drop n cs h

-- What two paths are for their comparison: windows inside strings of text, which are the same
-- string if their addresses are.
pub record AreTexts (p1 p2 : VfsPath) : Type 0 where
  pub inside1 : p1.offset + p1.size ≤ length p1.base_str.str
  pub inside2 : p2.offset + p2.size ≤ length p2.base_str.str
  pub text1 : IsText p1.base_str.str
  pub text2 : IsText p2.base_str.str
  pub shared : p1.base_str.id ≡ p2.base_str.id → p1.base_str.str ≡ p2.base_str.str

strncmp-visible :
    (p1 p2 : VfsPath)
    → AreTexts p1 p2
    → p1.size ≡ p2.size
    → (strncmp (vfs_path_get_str p1) (vfs_path_get_str p2) p1.size ≡ 0) ↔ (visible p1 ≡ visible p2)
unfolding vfs_path_get_str
strncmp-visible p1 p2 t same =
    let s1 = drop p1.offset p1.base_str.str in
    let s2 = drop p2.offset p2.base_str.str in
    let h1 = IsText-drop p1.offset p1.base_str.str t.text1 in
    let h2 = IsText-drop p2.offset p2.base_str.str t.text2 in
    let (to, from) = strncmp-text s1 s2 p1.size (IsText-Bytes s1 h1) (IsText-Bytes s2 h2) in
    let e1 : take p1.size (text s1) ≡ visible p1 = ap (take p1.size) (text_all s1 h1) in
    let e2 : take p1.size (text s2) ≡ visible p2 =
      ap (take p1.size) (text_all s2 h2) ∙ ap (λ k. take k s2) same in
    (λ h. sym e1 ∙ to h ∙ e2, λ h. from (e1 ∙ h ∙ sym e2))

same_window :
    (p1 p2 : VfsPath)
    → AreTexts p1 p2
    → p1.base_str.id ≡ p2.base_str.id
    → p1.offset ≡ p2.offset
    → p1.size ≡ p2.size
    → visible p1 ≡ visible p2
same_window p1 p2 t id offset size =
    ap (λ k. take k (drop p1.offset p1.base_str.str)) size
    ∙ ap (λ k. take p2.size (drop k p1.base_str.str)) offset
    ∙ ap (λ s. take p2.size (drop p2.offset s)) (t.shared id)

-- Strictly equal paths show the same characters, and only they do.
pub path_string_equals-visible :
    (p1 p2 : VfsPath)
    → AreTexts p1 p2
    → (path_string_equals p1 p2 ≡ true) ↔ (visible p1 ≡ visible p2)
unfolding path_string_equals
path_string_equals-visible p1 p2 t =
    let same_size : visible p1 ≡ visible p2 → p1.size ≡ p2.size =
      λ e. sym (length-visible p1 t.inside1) ∙ ap length e ∙ length-visible p2 t.inside2 in
    ground (arith, same_window p1 p2 t, strncmp-visible p1 p2 t, same_size)

-- What the comparison of two rests of paths comes to.
abbrev pub Decides : Option Bool → List (List ℕ) → List (List ℕ) → Type 0
Decides r ns1 ns2 = (b : Bool) × (r ≡ some b) × ((b ≡ true) ↔ (ns1 ≡ ns2))

next-AreTexts :
    (s1 s2 : List ℕ) (c1 c2 : VfsPath)
    → IsFirst s1 c1
    → IsFirst s2 c2
    → AreTexts c1 c2
    → AreTexts (vfs_path_component_next c1) (vfs_path_component_next c2)
unfolding vfs_path_component_next build_component_path
next-AreTexts s1 s2 c1 c2 f1 f2 t = record {
  inside1 = (next-IsFirst s1 c1 f1).inside;
  inside2 = (next-IsFirst s2 c2 f2).inside;
  text1 = t.text1;
  text2 = t.text2;
  shared = t.shared;
}

build-AreTexts :
    (p1 p2 : VfsPath)
    → IsWhole p1
    → IsWhole p2
    → AreTexts p1 p2
    → AreTexts (build_component_path p1) (build_component_path p2)
unfolding build_component_path
build-AreTexts p1 p2 w1 w2 t = record {
  inside1 = (build-IsFirst p1 w1).inside;
  inside2 = (build-IsFirst p2 w2).inside;
  text1 = t.text1;
  text2 = t.text2;
  shared = t.shared;
}

both_names :
    (r : Option Bool) (v1 v2 : List ℕ) (ns1 ns2 : List (List ℕ))
    → v1 ≡ v2
    → Decides r ns1 ns2
    → Decides r (v1 ∷ ns1) (v2 ∷ ns2)
both_names r v1 v2 ns1 ns2 e (b, runs, (to, from)) =
    (b, runs, (λ h. ap₂ ◌∷◌ e (to h), λ h. from (tail_eq h)))
  where
    tail_eq : v1 ∷ ns1 ≡ v2 ∷ ns2 → ns1 ≡ ns2
    tail_eq h = ground arith

cons_not_nil : (v : List ℕ) (ns : List (List ℕ)) → ¬ (◌≡◌ {A = List (List ℕ)} (v ∷ ns) [])
cons_not_nil v ns e = absurd (ground arith)

first_eq : (v w : List ℕ) (ns ms : List (List ℕ)) → v ∷ ns ≡ w ∷ ms → v ≡ w
first_eq v w ns ms e = ground arith

differs : {b : Bool} → b ≡ false → ¬ (b ≡ true)
differs e h = ground arith

-- The answer "not the same" for lists that differ.
not_same : (ns1 ns2 : List (List ℕ)) → ¬ (ns1 ≡ ns2) → (false ≡ true) ↔ (ns1 ≡ ns2)
not_same ns1 ns2 differ = (λ h. absurd (false_not_true h), λ e. absurd (differ e))
  where
    false_not_true : ¬ (false ≡ true)
    false_not_true h = ground arith

path_same_loop-Decides :
    (fuel : ℕ) (s1 s2 : List ℕ) (c1 c2 : VfsPath)
    → IsFirst s1 c1
    → IsFirst s2 c2
    → AreTexts c1 c2
    → length s1 < fuel
    → Decides (path_same_loop fuel c1 c2) (names s1) (names s2)
unfolding path_same_loop
path_same_loop-Decides zero s1 s2 c1 c2 f1 f2 t enough = absurd (omega arith)
path_same_loop-Decides (suc fuel) s1 s2 c1 c2 f1 f2 t enough = elim (empty_cases s1 c1 f1) [
  | inl (e1, nil1) ↦ elim (empty_cases s2 c2 f2) [
    | inl (e2, nil2) ↦ (true, rw (path_same_loop, e1, e2) refl, (λ h. nil1 ∙ sym nil2, λ h. refl))
    | inr (e2, more2, fewer2) ↦ (
      false,
      rw (path_same_loop, e1, e2) refl,
      not_same (names s1) (names s2)
          (λ e. cons_not_nil (visible c2) (names (rest (skip s2))) (sym more2 ∙ sym e ∙ nil1)),
    )
  ]
  | inr (e1, more1, fewer1) ↦ elim (empty_cases s2 c2 f2) [
    | inl (e2, nil2) ↦ (
      false,
      rw (path_same_loop, e1, e2) refl,
      not_same (names s1) (names s2)
          (λ e. cons_not_nil (visible c1) (names (rest (skip s1))) (sym more1 ∙ e ∙ nil2)),
    )
    | inr (e2, more2, fewer2) ↦
        let (to, from) = path_string_equals-visible c1 c2 t in
        elim (Bool-cases (path_string_equals c1 c2)) [
          | inr differ ↦ (
            false,
            rw (path_same_loop, e1, e2, differ) refl,
            not_same (names s1) (names s2) (λ e. differs differ (
                from (
                  first_eq (visible c1) (visible c2) (names (rest (skip s1)))
                    (names (rest (skip s2))) (sym more1 ∙ e ∙ more2)))),
          )
          | inl equal ↦
              let then_same =
                path_same_loop-Decides fuel (rest (skip s1)) (rest (skip s2))
                  (vfs_path_component_next c1) (vfs_path_component_next c2) (next-IsFirst s1 c1 f1)
                  (next-IsFirst s2 c2 f2) (next-AreTexts s1 s2 c1 c2 f1 f2 t)
                  (omega (arith, fewer1, enough)) in
              rw (path_same_loop, e1, e2, equal, more1, more2)
                (both_names _ (visible c1) (visible c2) (names (rest (skip s1)))
                  (names (rest (skip s2))) (to equal) then_same)
        ]
  ]
]

-- For two paths of text that end where their strings do, the comparison ends within as many turns
-- as the first path has characters and one more, and says that they are the same if and only if
-- they have the same names in the same order.
pub vfs_path_same-names :
    (fuel : ℕ) (p1 p2 : VfsPath)
    → IsWhole p1
    → IsWhole p2
    → AreTexts p1 p2
    → p1.size < fuel
    → Decides (vfs_path_same fuel p1 p2) (names (visible p1)) (names (visible p2))
unfolding vfs_path_same path_same vfs_path_first_component vfs_path_copy_init
vfs_path_same-names fuel p1 p2 w1 w2 t enough =
    let (to, from) = path_string_equals-visible p1 p2 t in
    elim (Bool-cases (path_string_equals p1 p2)) [
      | inl equal ↦ (true, rw (vfs_path_same, equal) refl, (λ h. ap names (to equal), λ h. refl))
      | inr differ ↦
          rw (vfs_path_same, differ)
            (path_same_loop-Decides fuel (visible p1) (visible p2) (build_component_path p1)
              (build_component_path p2) (build-IsFirst p1 w1) (build-IsFirst p2 w2)
              (build-AreTexts p1 p2 w1 w2 t) (omega (arith, length-visible p1 t.inside1, enough)))
    ]
