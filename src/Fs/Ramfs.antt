-- ===== src/Fs/Ramfs.antt =====
-- fs/ramfs/ramfs.c: a read-only file system in an archive in memory, of which `fs` is the bytes. A
-- header is named by its offset, and the root directory has none. An allocation is given by its
-- result: `memory` has the address and the bytes of each, by its number and its size.
pub mod Reading
pub mod Nodes
pub mod FullName
pub mod Search
mod Tests
use dummy_os.Prelude.{
  ℕ, zero, suc, ◌+◌, ◌-◌, ◌^◌, ◌%◌, Bool, true, false, not, ◌&&◌, ◌||◌, List, [], ◌∷◌, ◌++◌, length,
  get_or, take, drop, tabulate, ltb, leb, ◌==◌, if◌then◌else◌, Option, none, some, Result, ok, err,
  enomem, erange, erofs, enoent, einval, eisdir, eoverflow,
}
use dummy_os.Libk.Utils.{add32, sub32, align_up}
use dummy_os.Libk.Strings.{strlen, strncpy, strncat, memset, memcmp, memcpy}
use dummy_os.Libk.Numbers.{strntol}
use dummy_os.Fs.Path.{
  VfsPath, vfs_path_init, vfs_path_get_str, vfs_path_same, vfs_path_create, vfs_path_dirname,
  vfs_path_basename,
}

abbrev pub ustar_block_size : ℕ
ustar_block_size = 512

-- Enough turns for any path, whose size has 16 bits.
abbrev pub path_turns : ℕ
path_turns = 2 ^ 16

-- `enum vfs_node_type`
pub data NodeType : Type 0 where
  regular directory symlink chardev blockdev fifo : NodeType

-- The fields of `struct ustar_header` that are used.
abbrev pub field_at : ℕ → ℕ → List ℕ → ℕ → List ℕ
field_at offset size fs h = take size (drop (h + offset) fs)

unfoldable pub name_field : List ℕ → ℕ → List ℕ
name_field fs h = field_at 0 100 fs h

-- The memory from the size field on, which has 12 bytes.
unfoldable pub size_field : List ℕ → ℕ → List ℕ
size_field fs h = drop (h + 124) fs

unfoldable pub typeflag : List ℕ → ℕ → ℕ
typeflag fs h = get_or fs (h + 156) 0

unfoldable pub linkname_field : List ℕ → ℕ → List ℕ
linkname_field fs h = field_at 157 100 fs h

unfoldable pub prefix_field : List ℕ → ℕ → List ℕ
prefix_field fs h = field_at 345 155 fs h

-- `none` is the value -1 for a type that is not supported.
unfoldable pub ustar2vfs_type : ℕ → Option NodeType
ustar2vfs_type t =
    if (t == b'0') || (t == 0)
    then some regular
    else if t == b'2'
    then some symlink
    else if t == b'3'
    then some chardev
    else if t == b'4'
    then some blockdev
    else if t == b'5'
    then some directory
    else if t == b'6'
    then some fifo
    else none

unfoldable pub name_field_len : List ℕ → ℕ → ℕ
name_field_len name field_size =
    if get_or name (field_size - 1) 0 == 0 then strlen name else field_size

unfoldable pub ustar_header_prefix_len : List ℕ → ℕ → ℕ
ustar_header_prefix_len fs h = name_field_len (prefix_field fs h) 155

unfoldable pub ustar_header_name_len : List ℕ → ℕ → ℕ
ustar_header_name_len fs h = name_field_len (name_field fs h) 100

unfoldable pub ustar_header_linkname_len : List ℕ → ℕ → ℕ
ustar_header_linkname_len fs h = name_field_len (linkname_field fs h) 100

-- The number that the size field has in octal.
unfoldable pub file_size : List ℕ → ℕ → ℕ
file_size fs h = (strntol (size_field fs h) 12 8).1

unfoldable pub ustar_header_get_next_header : List ℕ → ℕ → ℕ
ustar_header_get_next_header fs h =
    add32 (h + ustar_block_size) (align_up (file_size fs h) ustar_block_size)

abbrev pub tmagic : List ℕ
tmagic = b'u' ∷ b's' ∷ b't' ∷ b'a' ∷ b'r' ∷ 0 ∷ []

unfoldable pub ustar_header_valid : List ℕ → ℕ → Bool
ustar_header_valid fs h = memcmp (drop (h + 257) fs) tmagic 6 == 0

abbrev pub prefix_len_of : List ℕ → Option ℕ → ℕ
prefix_len_of fs none = 0
prefix_len_of fs (some h) = ustar_header_prefix_len fs h

abbrev pub name_len_of : List ℕ → Option ℕ → ℕ
name_len_of fs none = 0
name_len_of fs (some h) = ustar_header_name_len fs h

-- Prefix and name of a header, in a buffer of zeros.
unfoldable pub put_fullname : List ℕ → Option ℕ → List ℕ → List ℕ
put_fullname fs none buf = buf
put_fullname fs (some h) buf =
    strncat (strncpy buf (prefix_field fs h) (ustar_header_prefix_len fs h)) (name_field fs h)
      (ustar_header_name_len fs h)

abbrev append_path : Option VfsPath → List ℕ → List ℕ
append_path none buf = buf
append_path (some p) buf = strncat (strncat buf (b'/' ∷ 0 ∷ []) 1) (vfs_path_get_str p) p.size

abbrev append_size : Option VfsPath → ℕ
append_size none = 0
append_size (some p) = p.size

-- The buffer, of which `buf` are the bytes before the call.
unfoldable pub ustar_header_fullname_init :
    List ℕ → List ℕ → Option ℕ → Option VfsPath → Result (List ℕ)
ustar_header_fullname_init fs buf h append =
    let full_len = prefix_len_of fs h + name_len_of fs h + append_size append + 2 in
    let zeros = memset buf 0 (length buf) in
    if leb full_len (length buf)
    then ok (append_path append (put_fullname fs h zeros))
    else err erange

abbrev fullname_in : List ℕ → Option ℕ → Option VfsPath → Option (ℕ × List ℕ) → Result (List ℕ)
fullname_in fs h append none = err enomem
fullname_in fs h append (some (_, buf)) = ustar_header_fullname_init fs buf h append

-- The size that `kmalloc` is asked for goes by the path that is appended.
unfoldable pub ustar_header_fullname_create :
    (ℕ → ℕ → Option (ℕ × List ℕ)) → ℕ → List ℕ → Option ℕ → Option VfsPath → Result (List ℕ)
ustar_header_fullname_create memory turn fs h append =
    let append_len : ℕ = elim append [ none ↦ 0 | some p ↦ p.size + 1 ] in
    fullname_in fs h append (memory turn (prefix_len_of fs h + name_len_of fs h + append_len + 1))

abbrev pub path_of_string : (ℕ → ℕ → Option (ℕ × List ℕ)) → ℕ → Result (List ℕ) → Result VfsPath
path_of_string memory turn (err e) = err e
path_of_string memory turn (ok str) = vfs_path_init (memory turn (strlen str)) str (strlen str)

unfoldable pub ustar_header_fullname_init_path_init :
    (ℕ → ℕ → Option (ℕ × List ℕ)) → ℕ → List ℕ → List ℕ → Option ℕ → Result VfsPath
ustar_header_fullname_init_path_init memory turn fs buf h =
    path_of_string memory turn (ustar_header_fullname_init fs buf h none)

unfoldable pub ustar_header_is_device : List ℕ → ℕ → Bool
ustar_header_is_device fs h = (typeflag fs h == b'3') || (typeflag fs h == b'4')
