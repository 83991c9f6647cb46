-- ===== src/Fs/Path/Tests.antt =====
-- Tests of the paths, and examples of the theorems.
use dummy_os.Prelude.{◌≡◌, refl, some, [], ◌∷◌, arith, true, ok}
use dummy_os.Fs.Path.{
  VfsPath, vfs_path_first_component, vfs_path_same, vfs_path_basename, vfs_path_dirname,
  vfs_path_init, vfs_path_str_same, vfs_path_string_create, path_string_equals, path_same,
  path_same_loop, vfs_path_empty, build_component_path, first_non_slash, first_x,
  vfs_path_copy_init, non_slash_predicate, slash_predicate, vfs_path_get_str, first_slash,
  vfs_path_component_next, vfs_path_ignore_trailing_slashes, trailing_slashes, basename_start,
}
use dummy_os.Libk.Strings.{strncpy, strncmp}
use dummy_os.Fs.Path.Names.{names}
use dummy_os.Fs.Path.Walk.{IsWhole, visible, components, components-names}
use dummy_os.Fs.Path.Same.{AreTexts, Decides, vfs_path_same-names}

-- "//a/bc/" and "/a//bc"
abbrev one : VfsPath
one = record {
  base_str = record { id = 1; str = b'/' ∷ b'/' ∷ b'a' ∷ b'/' ∷ b'b' ∷ b'c' ∷ b'/' ∷ [] };
  offset = 0;
  size = 7;
}

abbrev two : VfsPath
two = record {
  base_str = record { id = 2; str = b'/' ∷ b'a' ∷ b'/' ∷ b'/' ∷ b'b' ∷ b'c' ∷ [] };
  offset = 0;
  size = 6;
}

one-IsWhole : IsWhole one
one-IsWhole = record { ends = refl; small = omega arith }

two-IsWhole : IsWhole two
two-IsWhole = record { ends = refl; small = omega arith }

both-AreTexts : AreTexts one two
both-AreTexts = record {
  inside1 = omega arith;
  inside2 = omega arith;
  text1 = ground arith;
  text2 = ground arith;
  shared = λ h. absurd (omega (arith, h));
}

components-names_example : components 8 (vfs_path_first_component one) ≡ some (names (visible one))
components-names_example = components-names 8 one one-IsWhole (omega arith)

vfs_path_same-names_example :
    Decides (vfs_path_same 8 one two) (names (visible one)) (names (visible two))
vfs_path_same-names_example =
    vfs_path_same-names 8 one two one-IsWhole two-IsWhole both-AreTexts (omega arith)

basename_test : visible (vfs_path_basename one) ≡ b'b' ∷ b'c' ∷ []
unfolding vfs_path_basename vfs_path_ignore_trailing_slashes trailing_slashes vfs_path_copy_init
    vfs_path_get_str basename_start
basename_test = refl

-- The directory of "//a/bc/" is "//a", and its components are those of the whole string.
dirname_test : vfs_path_dirname (some (3, 0 ∷ [])) one ≡ ok (record one { size = 3 })
unfolding vfs_path_dirname vfs_path_ignore_trailing_slashes trailing_slashes vfs_path_copy_init
    vfs_path_get_str basename_start
dirname_test = refl

prefix_test :
    components 8 (vfs_path_first_component (record one { size = 3 }))
    ≡ some ((b'a' ∷ []) ∷ (b'b' ∷ b'c' ∷ []) ∷ [])
unfolding components vfs_path_empty vfs_path_first_component build_component_path first_non_slash
    first_x vfs_path_copy_init non_slash_predicate slash_predicate vfs_path_get_str first_slash
    vfs_path_component_next
prefix_test = refl

str_same_test :
    vfs_path_str_same 8 (some (3, 0 ∷ 0 ∷ 0 ∷ 0 ∷ [])) one (b'a' ∷ b'/' ∷ b'b' ∷ b'c' ∷ []) 4
    ≡ some true
unfolding vfs_path_str_same vfs_path_init vfs_path_string_create vfs_path_same path_string_equals
    path_same path_same_loop strncpy strncmp vfs_path_empty vfs_path_first_component
    build_component_path first_non_slash first_x vfs_path_copy_init non_slash_predicate
    slash_predicate vfs_path_get_str first_slash vfs_path_component_next
str_same_test = refl
