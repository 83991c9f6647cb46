-- ===== src/Fs/Ramfs/Search.antt =====
-- The search of the archive for a full name, `lookup_fullname`.
use dummy_os.Prelude.{
  ℕ, zero, suc, ◌<◌, ◌≡◌, ◌↔◌, refl, sym, ap, ◌∙◌, subst, Bool, true, false, List, [], ◌∷◌, length,
  Option, some, Result, ok, err, enoent, arith, Bool-cases, inl, inr,
}
use dummy_os.Libk.Strings.Compare.{Bytes}
use dummy_os.Fs.Path.{VfsPath, vfs_path_same}
use dummy_os.Fs.Path.Names.{names}
use dummy_os.Fs.Path.Walk.{IsWhole, visible}
use dummy_os.Fs.Path.Same.{IsText, AreTexts, vfs_path_same-names}
use dummy_os.Fs.Ramfs.{path_turns, ustar_header_get_next_header, ustar_header_valid}
use dummy_os.Fs.Ramfs.Nodes.{find_header, lookup_fullname, inode_found}
use dummy_os.Fs.Ramfs.FullName.{full_name, full_name-IsText, Supplies, Fits, IsPathOf, current_path}

-- The valid headers from `p` on, each of which has a name that fits, up to the first that is not
-- valid.
abbrev pub Headers : List ℕ → ℕ → List ℕ → Type 0
Headers fs p [] = ustar_header_valid fs p ≡ false
Headers fs p (h ∷ hs) =
    (p ≡ h)
    × (ustar_header_valid fs h ≡ true)
    × Fits fs h
    × Headers fs (ustar_header_get_next_header fs h) hs

-- The result of a search for the names `ns`: the first header with these names, or that there is none.
pub data FirstNamed (fs : List ℕ) (ns : List (List ℕ)) : List ℕ → Result ℕ → Type 0 where
  nowhere : FirstNamed fs ns [] (err enoent)
  here : {h : ℕ} {hs : List ℕ} → names (full_name fs h) ≡ ns → FirstNamed fs ns (h ∷ hs) (ok h)
  later :
      {h : ℕ} {hs : List ℕ} {r : Result ℕ}
      → ¬ (names (full_name fs h) ≡ ns)
      → FirstNamed fs ns hs r
      → FirstNamed fs ns (h ∷ hs) r

-- A path that can be sought: text, up to the end of its string.
pub record IsSought (p : VfsPath) : Type 0 where
  pub whole : IsWhole p
  pub chars : IsText p.base_str.str

module _ (fs buf : List ℕ) (memory : ℕ → ℕ → Option (ℕ × List ℕ)) (fullname : VfsPath)
    (sought : IsSought fullname) (size : length buf ≡ 256)
    (supplies : Supplies memory fullname.base_str.id) (bytes : Bytes fs) where
  -- The comparison with the path of a header.
  same_names :
      (h : ℕ) (cur : VfsPath)
      → IsPathOf cur (full_name fs h) fullname.base_str.id
      → (b : Bool) × (vfs_path_same path_turns fullname cur ≡ some b)
        × ((b ≡ true) ↔ (names (visible fullname) ≡ names (full_name fs h)))
  same_names h cur is =
      let texts : AreTexts fullname cur = record {
        inside1 = omega (arith, sought.whole.ends);
        inside2 = omega (arith, is.whole.ends);
        text1 = sought.chars;
        text2 = subst IsText (sym is.string) (full_name-IsText fs h bytes);
        shared = λ e. absurd (is.elsewhere (sym e));
      } in
      let small : fullname.size < path_turns =
        omega (arith, sought.whole.ends, sought.whole.small) in
      let (b, runs, (to, from)) =
        vfs_path_same-names path_turns fullname cur sought.whole is.whole texts small in
      let shown = ap names is.shows in (b, runs, (λ e. to e ∙ shown, λ e. from (e ∙ sym shown)))

  find_header-FirstNamed :
      (hs : List ℕ) (fuel turn p : ℕ)
      → Headers fs p hs
      → length hs < fuel
      → (r : Result ℕ) × (find_header fuel memory turn fs buf fullname p ≡ some r)
        × FirstNamed fs (names (visible fullname)) hs r
  unfolding find_header
  find_header-FirstNamed hs zero turn p headers enough = absurd (omega (arith, enough))
  find_header-FirstNamed [] (suc fuel) turn p ends enough =
      (err enoent, rw (find_header, ends) refl, nowhere)
  find_header-FirstNamed (h ∷ hs) (suc fuel) turn p (at, valid, fits, headers) enough =
      let (cur, made, is) =
        current_path fs buf memory fullname.base_str.id size supplies h turn fits in
      let (b, runs, (to, from)) = same_names h cur is in
      let (r, found, first) =
        find_header-FirstNamed hs fuel (suc turn) (ustar_header_get_next_header fs h) headers
          (omega (arith, enough)) in
      elim (Bool-cases b) [
        | inl same ↦ (
          ok h,
          rw (at, find_header, valid, made, runs, same) (ap (λ k. some (ok k)) at),
          here (sym (to same)),
        )
        | inr other ↦ (
          r,
          rw (at, find_header, valid, made, runs, other)
              (ap
                  (λ q.
                    find_header fuel memory (suc turn) fs buf fullname
                      (ustar_header_get_next_header fs q))
                  at
                ∙ found),
          later (λ e. differs b other (from (sym e))) first,
        )
      ]
    where
      differs : (b : Bool) → b ≡ false → ¬ (b ≡ true)
      differs b e h = ground arith

-- With memory for every allocation, in an archive of bytes whose headers have names that fit into
-- the buffer, and for a path of text up to the end of its string, the search ends, within as many
-- turns as there are headers and one more, with the first header whose full name has the names of
-- the path, or with ENOENT if there is none; a header that is found becomes the inode.
pub lookup_fullname-FirstNamed :
    (fs : List ℕ) (memory : ℕ → ℕ → Option (ℕ × List ℕ)) (fullname : VfsPath)
    → IsSought fullname
    → Supplies memory fullname.base_str.id
    → Bytes fs
    → (mem : Bool) (hs : List ℕ) (fuel turn p : ℕ) → Headers fs p hs
    → length hs < fuel
    → (r : Result ℕ) × (lookup_fullname fuel memory mem turn fs p fullname
        ≡ inode_found mem fs (some r))
      × FirstNamed fs (names (visible fullname)) hs r
unfolding lookup_fullname
lookup_fullname-FirstNamed fs memory fullname sought supplies bytes mem hs fuel turn p headers
      enough =
    let (address, buf, given, size, other) = supplies turn 256 in
    let (r, found, first) =
      find_header-FirstNamed fs buf memory fullname sought size supplies bytes hs fuel (suc turn) p
        headers enough in
    (r, rw (given, found) refl, first)
