-- ===== src/Fs/Ramfs/Tests.antt =====
-- Runs of the archive, and instances of its theorems.
use dummy_os.Prelude.{
  ℕ, suc, ◌+◌, ◌≡◌, refl, Bool, true, List, [], ◌∷◌, ◌++◌, tabulate, length-tabulate, take, drop,
  ltb, ◌&&◌, Option, some, Result, ok, arith,
}
use dummy_os.Libk.Strings.Compare.{Bytes}
use dummy_os.Fs.Path.{VfsPath}
use dummy_os.Fs.Path.Names.{names}
use dummy_os.Fs.Path.Walk.{visible}
use dummy_os.Libk.Strings.{memcmp, strlen}
use dummy_os.Libk.Numbers.{
  strntol, strntol_loop, digit_value, skip_spaces, isspace, isdigit, islower, isupper,
}
use dummy_os.Libk.Utils.{align_up, align_down, is_aligned}
use dummy_os.Fs.Ramfs.{
  ustar_header_valid, ustar_header_prefix_len, ustar_header_name_len, name_field, prefix_field,
  name_field_len, ustar_header_get_next_header, file_size, size_field, regular,
}
use dummy_os.Fs.Ramfs.Nodes.{Inode, inode_found, lookup_fullname, ramfs_read, ramfs_lseek, seek_set}
use dummy_os.Fs.Ramfs.Reading.{read_all, read_all-take, smaller}
use dummy_os.Fs.Ramfs.FullName.{Supplies}
use dummy_os.Fs.Ramfs.Search.{Headers, FirstNamed, lookup_fullname-FirstNamed}

abbrev three_bytes : Inode
three_bytes = record {
  header = some 0;
  data_start = 1;
  data_size = 3;
  type = regular;
  size = 3;
  major = 0;
  minor = 0;
}

read_all-take_example :
    read_all (9 ∷ 1 ∷ 2 ∷ 3 ∷ 9 ∷ []) three_bytes 0 (2 ∷ 5 ∷ [])
    ≡ ok (take (smaller 3 7) (drop 1 (9 ∷ 1 ∷ 2 ∷ 3 ∷ 9 ∷ [])), 0 + smaller 3 7)
read_all-take_example =
    read_all-take (9 ∷ 1 ∷ 2 ∷ 3 ∷ 9 ∷ []) three_bytes 0 (2 ∷ 5 ∷ [])
      (record { file = refl; fits = omega arith; inside = omega arith })

-- An offset behind the end is taken, and a read from there does not stop at the end of the data.
read_behind_test : ramfs_read (9 ∷ 1 ∷ 2 ∷ 3 ∷ 9 ∷ []) three_bytes 4 1 ≡ ok ([], 5)
unfolding ramfs_read
read_behind_test = refl

seek_behind_test : ramfs_lseek three_bytes 0 4 seek_set ≡ ok 4
unfolding ramfs_lseek
seek_behind_test = refl

abbrev zeros : ℕ → List ℕ
zeros n = tabulate n (λ k. 0)

abbrev empty_file : ℕ → List ℕ
empty_file c = (c ∷ zeros 256) ++ (b'u' ∷ b's' ∷ b't' ∷ b'a' ∷ b'r' ∷ 0 ∷ zeros 249)

-- Two empty files, `a` and `b`.
abbrev archive : List ℕ
archive = empty_file b'a' ++ empty_file b'b' ++ zeros 512

abbrev path_b : VfsPath
path_b = record { base_str = record { id = 0; str = b'/' ∷ b'b' ∷ [] }; offset = 0; size = 2 }

abbrev memory_at : ℕ → ℕ → Option (ℕ × List ℕ)
memory_at turn n = some (suc turn, zeros n)

memory_at-Supplies : Supplies memory_at 0
memory_at-Supplies turn n =
    (suc turn, zeros n, refl, length-tabulate n (λ k. 0), λ e. absurd (omega (arith, e)))

abbrev all_bytes : List ℕ → Bool
all_bytes [] = true
all_bytes (c ∷ cs) = ltb c 256 && all_bytes cs

all_bytes-Bytes : (s : List ℕ) → all_bytes s ≡ true → Bytes s
all_bytes-Bytes [] h = tt
all_bytes-Bytes (c ∷ cs) h = (ground (arith, h), all_bytes-Bytes cs (ground (arith, h)))

archive-Headers : Headers archive 0 (0 ∷ 512 ∷ [])
unfolding ustar_header_valid memcmp ustar_header_prefix_len ustar_header_name_len name_field
    prefix_field name_field_len strlen ustar_header_get_next_header file_size size_field strntol
    strntol_loop digit_value skip_spaces isspace align_up align_down is_aligned isdigit islower
    isupper
archive-Headers = (refl, refl, omega arith, (refl, refl, omega arith, refl))

lookup_fullname-FirstNamed_example :
    (r : Result ℕ) × (lookup_fullname 3 memory_at true 0 archive 0 path_b
      ≡ inode_found true archive (some r))
    × FirstNamed archive (names (visible path_b)) (0 ∷ 512 ∷ []) r
lookup_fullname-FirstNamed_example =
    lookup_fullname-FirstNamed archive memory_at path_b
      (record {
        whole = record { ends = refl; small = omega arith };
        chars = (omega arith, omega arith, (omega arith, omega arith, tt));
      })
      memory_at-Supplies (all_bytes-Bytes archive refl) true (0 ∷ 512 ∷ []) 3 0 0 archive-Headers
      (omega arith)
