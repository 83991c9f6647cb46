-- ===== src/Fs/Ramfs/Nodes.antt =====
-- fs/ramfs/ramfs.c: the inodes and the files of the file system, and the search for a name.
use dummy_os.Prelude.{
  ℕ, zero, suc, ◌+◌, ◌^◌, Bool, true, false, not, List, take, drop, ltb, if◌then◌else◌, Option,
  none, some, Result, ok, err, enomem, erofs, enoent, einval, eisdir, eoverflow,
}
use dummy_os.Libk.Utils.{add32, sub32}
use dummy_os.Libk.Numbers.{strntol}
use dummy_os.Fs.Path.{vfs_path_dirname, vfs_path_basename, VfsPath, vfs_path_same, vfs_path_create}
use dummy_os.Fs.Ramfs.{
  ustar_header_fullname_init, ustar_block_size, path_turns, NodeType, typeflag, linkname_field,
  ustar2vfs_type, ustar_header_linkname_len, file_size, ustar_header_get_next_header,
  ustar_header_valid, ustar_header_fullname_create, path_of_string,
  ustar_header_fullname_init_path_init, ustar_header_is_device, directory,
}

-- `struct ramfs_inode_info` with what its `struct vfs_inode` says; `data` is an offset.
pub record Inode : Type 0 where
  pub header : Option ℕ
  pub data_start : ℕ
  pub data_size : ℕ
  pub type : NodeType
  pub size : ℕ
  pub major : ℕ
  pub minor : ℕ

abbrev blank_inode : Inode
blank_inode = record {
  header = none;
  data_start = 0;
  data_size = 0;
  type = directory;
  size = 0;
  major = 0;
  minor = 0;
}

-- `mem` says whether there is memory for the inode.
unfoldable pub ramfs_inode_info_create : Bool → List ℕ → Option ℕ → Result Inode
ramfs_inode_info_create mem fs header =
    if mem
    then ok (elim header [
      | none ↦ blank_inode
      | some h ↦ record blank_inode {
        header = some h;
        data_start = h + ustar_block_size;
        data_size = file_size fs h;
      }
    ])
    else err enomem

abbrev device_numbers : List ℕ → ℕ → Inode → Inode
device_numbers fs h inode = record inode {
  major = (strntol (drop (h + 329) fs) 8 8).1;
  minor = (strntol (drop (h + 337) fs) 8 8).1;
}

-- The read of an inode that has a header `h`.
unfoldable pub ramfs_read_inode : List ℕ → ℕ → Inode → Result Inode
ramfs_read_inode fs h inode = elim (ustar2vfs_type (typeflag fs h)) [
  | none ↦ err einval
  | some t ↦
      (let read = record inode { type = t; size = file_size fs h; major = 0; minor = 0 } in
        ok (if ustar_header_is_device fs h then device_numbers fs h read else read))
]

-- The loop of `lookup_fullname`: the header that is found, `err enoent` if none is, and the outer
-- `none` is out of fuel. Each turn makes a path, and an error ends the loop.
unfoldable pub find_header :
    ℕ → (ℕ → ℕ → Option (ℕ × List ℕ)) → ℕ → List ℕ → List ℕ → VfsPath → ℕ → Option (Result ℕ)
find_header zero memory turn fs buf fullname fh = none
find_header (suc fuel) memory turn fs buf fullname fh =
    let rest =
      find_header fuel memory (suc turn) fs buf fullname (ustar_header_get_next_header fs fh) in
    if not (ustar_header_valid fs fh)
    then some (err enoent)
    else elim (ustar_header_fullname_init_path_init memory turn fs buf (some fh)) [
      | err e ↦ some (err e)
      | ok cur ↦ elim (vfs_path_same path_turns fullname cur) [
        | none ↦ none
        | some same ↦ if same then some (ok fh) else rest
      ]
    ]

abbrev pub inode_found : Bool → List ℕ → Option (Result ℕ) → Option (Result Inode)
inode_found mem fs none = none
inode_found mem fs (some (err e)) = some (err e)
inode_found mem fs (some (ok h)) = some (ramfs_inode_info_create mem fs (some h))

abbrev lookup_in :
    ℕ
    → (ℕ → ℕ → Option (ℕ × List ℕ))
    → Bool
    → ℕ
    → List ℕ
    → ℕ
    → VfsPath
    → Option (ℕ × List ℕ)
    → Option (Result Inode)
lookup_in fuel memory mem turn fs fh fullname none = some (err enomem)
lookup_in fuel memory mem turn fs fh fullname (some (_, buf)) =
    inode_found mem fs (find_header fuel memory turn fs buf fullname fh)

-- The buffer has 256 bytes.
unfoldable pub lookup_fullname :
    ℕ → (ℕ → ℕ → Option (ℕ × List ℕ)) → Bool → ℕ → List ℕ → ℕ → VfsPath → Option (Result Inode)
lookup_fullname fuel memory mem turn fs fh fullname =
    lookup_in fuel memory mem (suc turn) fs fh fullname (memory turn 256)

abbrev lookup_path :
    ℕ → (ℕ → ℕ → Option (ℕ × List ℕ)) → Bool → List ℕ → ℕ → Result VfsPath → Option (Result Inode)
lookup_path fuel memory mem fs next (err e) = some (err e)
lookup_path fuel memory mem fs next (ok p) = lookup_fullname fuel memory mem 2 fs next p

-- The search starts behind the directory's header, for the root at the start of the archive.
unfoldable pub ramfs_lookup :
    ℕ → (ℕ → ℕ → Option (ℕ × List ℕ)) → Bool → List ℕ → Inode → VfsPath → Option (Result Inode)
ramfs_lookup fuel memory mem fs this name =
    let next : ℕ = elim this.header [ none ↦ 0 | some h ↦ ustar_header_get_next_header fs h ] in
    lookup_path fuel memory mem fs next
      (path_of_string memory 1 (ustar_header_fullname_create memory 0 fs this.header (some name)))

unfoldable pub ramfs_readlink : Bool → Option (ℕ × List ℕ) → List ℕ → ℕ → Result VfsPath
ramfs_readlink mem memory fs h =
    vfs_path_create mem memory (linkname_field fs h) (ustar_header_linkname_len fs h)

-- `struct vfs_file`, as far as the file system uses it: the offset, of 32 bits with a sign.
abbrev signed_lt : ℕ → ℕ → Bool
signed_lt a b = ltb (add32 a (2 ^ 31)) (add32 b (2 ^ 31))

pub data Whence : Type 0 where
  seek_set seek_cur seek_end seek_other : Whence

-- The new offset, which is also returned.
unfoldable pub ramfs_lseek : Inode → ℕ → ℕ → Whence → Result ℕ
ramfs_lseek inode cur offset seek_set = ok offset
ramfs_lseek inode cur offset seek_cur =
    let new = add32 cur offset in if signed_lt new cur then err einval else ok new
ramfs_lseek inode cur offset seek_end =
    let new = sub32 (sub32 inode.data_size offset) 1 in
    if ltb inode.data_size new then err eoverflow else ok new
ramfs_lseek inode cur offset seek_other = err einval

abbrev pub is_directory : NodeType → Bool
is_directory directory = true
is_directory _ = false

-- The bytes that are copied into the buffer, whose number is returned, and the new offset.
unfoldable pub ramfs_read : List ℕ → Inode → ℕ → ℕ → Result (List ℕ × ℕ)
ramfs_read fs inode cur count =
    let left = sub32 inode.data_size cur in
    let n = if ltb left count then left else count in
    if is_directory inode.type
    then err eisdir
    else ok (take n (drop (add32 inode.data_start cur) fs), add32 cur n)

unfoldable pub ramfs_write : ℕ → Result ℕ
ramfs_write count = err erofs

abbrev split_name : (ℕ → ℕ → Option (ℕ × List ℕ)) → ℕ → Result VfsPath → Result (VfsPath × VfsPath)
split_name memory turn (err e) = err e
split_name memory turn (ok fullname) = elim (vfs_path_dirname (memory turn 1) fullname) [
  | err e ↦ err e
  | ok dirname ↦ ok (dirname, vfs_path_basename fullname)
]

-- Both parts are asked for; `buf` is the buffer for the full name.
unfoldable pub ustar_header_dirname_basename :
    (ℕ → ℕ → Option (ℕ × List ℕ)) → ℕ → List ℕ → List ℕ → ℕ → Result (VfsPath × VfsPath)
ustar_header_dirname_basename memory turn fs buf h =
    split_name memory (suc turn)
      (path_of_string memory turn (ustar_header_fullname_init fs buf (some h) none))
