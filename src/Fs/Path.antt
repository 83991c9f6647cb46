-- ===== src/Fs/Path.antt =====
-- fs/path.c: paths as windows on a shared string. The string of a path never changes; `id` is the
-- address of its `string_t`, and how many paths share it is not in the model. An allocation is
-- given by its result. Sizes and offsets have 16 bits.
pub mod Names
pub mod Walk
pub mod Same
mod Tests
use dummy_os.Prelude.{
  ℕ, zero, suc, ◌+◌, ◌-◌, ◌^◌, ◌%◌, Bool, true, false, not, ◌&&◌, ◌||◌, List, [], ◌∷◌, length,
  get_or, take, drop, ltb, ◌==◌, if◌then◌else◌, Option, none, some, Result, ok, err, enomem,
  enametoolong,
}
use dummy_os.Libk.Strings.{head, tail, strncpy, strncmp}

abbrev pub vfs_path_max_len : ℕ
vfs_path_max_len = 2048

abbrev pub add16 : ℕ → ℕ → ℕ
add16 a b = (a + b) % 2 ^ 16

abbrev pub sub16 : ℕ → ℕ → ℕ
sub16 a b = (a + 2 ^ 16 - b) % 2 ^ 16

-- `string_t`; `size` is the length of `str`.
pub record String : Type 0 where
  pub id : ℕ
  pub str : List ℕ

-- `vfs_path_t`, and `vfs_path_component_t`, which holds one.
pub record VfsPath : Type 0 where
  pub base_str : String
  pub offset : ℕ
  pub size : ℕ

abbrev pub slash : ℕ
slash = b'/'

unfoldable pub slash_predicate : ℕ → Bool
slash_predicate c = c == slash

unfoldable pub non_slash_predicate : ℕ → Bool
unfolding slash_predicate
non_slash_predicate c = not (slash_predicate c)

unfoldable pub first_x : List ℕ → ℕ → (ℕ → Bool) → ℕ
first_x str zero predicate = 0
first_x str (suc n) predicate =
    let rest = suc (first_x (tail str) n predicate) in if predicate (head str) then 0 else rest

unfoldable pub first_slash : List ℕ → ℕ → ℕ
first_slash str size = first_x str size slash_predicate

unfoldable pub first_non_slash : List ℕ → ℕ → ℕ
first_non_slash str size = first_x str size non_slash_predicate

-- `vfs_path_string_create`: `memory` is the address of the new string and the bytes allocated for
-- its characters, if there is memory for both.
unfoldable pub vfs_path_string_create : Option (ℕ × List ℕ) → List ℕ → ℕ → Result String
vfs_path_string_create none path size = err enomem
vfs_path_string_create (some (id, bytes)) path size =
    ok (record { id = id; str = strncpy bytes path size })

abbrev pub path_of : ℕ → Result String → Result VfsPath
path_of size (err e) = err e
path_of size (ok str) = ok (record { base_str = str; offset = 0; size = size })

unfoldable pub vfs_path_init : Option (ℕ × List ℕ) → List ℕ → ℕ → Result VfsPath
vfs_path_init memory path_str size =
    if ltb vfs_path_max_len size
    then err enametoolong
    else path_of size (vfs_path_string_create memory path_str size)

-- `mem` says whether there is memory for the new `vfs_path_t`.
unfoldable pub vfs_path_create : Bool → Option (ℕ × List ℕ) → List ℕ → ℕ → Result VfsPath
vfs_path_create mem memory path size = if mem then vfs_path_init memory path size else err enomem

-- `vfs_path_copy_init` and `vfs_path_copy_create`
unfoldable pub vfs_path_copy_init : VfsPath → VfsPath
vfs_path_copy_init path = path

unfoldable pub vfs_path_copy_create : Bool → VfsPath → Result VfsPath
vfs_path_copy_create mem path = if mem then ok (vfs_path_copy_init path) else err enomem

abbrev pub moved : ℕ → ℕ → Result VfsPath → Result VfsPath
moved relative_offset size (err e) = err e
moved relative_offset size (ok p) =
    ok (record p { offset = add16 p.offset relative_offset; size = size })

unfoldable pub vfs_path_create_from : Bool → VfsPath → ℕ → ℕ → Result VfsPath
vfs_path_create_from mem path relative_offset size =
    if ltb vfs_path_max_len size
    then err enametoolong
    else moved relative_offset size (vfs_path_copy_create mem path)

unfoldable pub vfs_path_get_str : VfsPath → List ℕ
vfs_path_get_str path = drop path.offset path.base_str.str

unfoldable pub vfs_path_absolute : VfsPath → Bool
unfolding vfs_path_get_str
vfs_path_absolute path = if ltb 0 path.size then head (vfs_path_get_str path) == slash else false

unfoldable pub vfs_path_empty : VfsPath → Bool
vfs_path_empty path = path.size == 0

unfoldable pub build_component_path : VfsPath → VfsPath
build_component_path path =
    let str = vfs_path_get_str path in
    let start = first_non_slash str path.size in
    let end = add16 start (first_slash (drop start str) (sub16 path.size start)) in
    record path { offset = add16 path.offset start; size = sub16 end start }

unfoldable pub vfs_path_first_component : VfsPath → VfsPath
vfs_path_first_component path = build_component_path (vfs_path_copy_init path)

-- The rest of the string, not of the path that the component was taken from.
unfoldable pub vfs_path_component_next : VfsPath → VfsPath
vfs_path_component_next path =
    let offset = add16 path.offset path.size in
    build_component_path
      (record path { offset = offset; size = sub16 (length path.base_str.str) offset })

-- The loop of `vfs_path_ignore_trailing_slashes` on a path of `size` bytes.
unfoldable pub trailing_slashes : List ℕ → ℕ → ℕ
trailing_slashes str zero = 0
trailing_slashes str (suc zero) = 1
trailing_slashes str (suc (suc n)) =
    let rest = trailing_slashes str (suc n) in
    if get_or str (suc n) 0 == slash then rest else suc (suc n)

unfoldable pub vfs_path_ignore_trailing_slashes : VfsPath → VfsPath
vfs_path_ignore_trailing_slashes path = record path {
  size = trailing_slashes (vfs_path_get_str path) path.size;
}

-- `basename_start` as an offset in the path.
unfoldable pub basename_start : List ℕ → ℕ → ℕ
basename_start str zero = 0
basename_start str (suc n) =
    let rest = basename_start str n in if get_or str n 0 == slash then suc n else rest

unfoldable pub vfs_path_basename : VfsPath → VfsPath
vfs_path_basename path =
    let basename = vfs_path_ignore_trailing_slashes (vfs_path_copy_init path) in
    let start = basename_start (vfs_path_get_str basename) basename.size in
    record basename { offset = add16 basename.offset start; size = sub16 basename.size start }

-- The last branch of `vfs_path_dirname`, for a size that is not 0.
abbrev pub dirname_rest : VfsPath → VfsPath
dirname_rest path =
    let dirname = vfs_path_ignore_trailing_slashes path in
    record dirname { size = if dirname.size == 0 then 1 else dirname.size }

unfoldable pub vfs_path_dirname : Option (ℕ × List ℕ) → VfsPath → Result VfsPath
vfs_path_dirname memory path =
    let dirname = vfs_path_ignore_trailing_slashes (vfs_path_copy_init path) in
    let size = basename_start (vfs_path_get_str dirname) dirname.size in
    if size == 0
    then vfs_path_init memory (b'.' ∷ []) 1
    else ok (dirname_rest (record dirname { size = size }))

-- The test for the same object is not in the model: such an object has the same string, offset
-- and size.
unfoldable pub path_string_equals : VfsPath → VfsPath → Bool
path_string_equals p1 p2 =
    if (p1.base_str.id == p2.base_str.id) && (p1.offset == p2.offset) && (p1.size == p2.size)
    then true
    else (p1.size == p2.size) && (strncmp (vfs_path_get_str p1) (vfs_path_get_str p2) p1.size == 0)

-- The loop of `path_same` on the components of both paths; `none` is out of fuel.
unfoldable pub path_same_loop : ℕ → VfsPath → VfsPath → Option Bool
path_same_loop zero c1 c2 = none
path_same_loop (suc fuel) c1 c2 =
    let rest = path_same_loop fuel (vfs_path_component_next c1) (vfs_path_component_next c2) in
    if not (vfs_path_empty c1) && not (vfs_path_empty c2) && path_string_equals c1 c2
    then rest
    else some (vfs_path_empty c1 && vfs_path_empty c2)

unfoldable pub path_same : ℕ → VfsPath → VfsPath → Option Bool
path_same fuel p1 p2 =
    path_same_loop fuel (vfs_path_first_component p1) (vfs_path_first_component p2)

unfoldable pub vfs_path_same : ℕ → VfsPath → VfsPath → Option Bool
vfs_path_same fuel p1 p2 = if path_string_equals p1 p2 then some true else path_same fuel p1 p2

unfoldable pub vfs_path_str_same : ℕ → Option (ℕ × List ℕ) → VfsPath → List ℕ → ℕ → Option Bool
vfs_path_str_same fuel memory p s size = elim (vfs_path_init memory s size) [
  | err _ ↦ some false
  | ok sp ↦ vfs_path_same fuel p sp
]
