-- ===== src/Fs/Ramfs/Reading.antt =====
-- Reads of one open file, one after the other.
use dummy_os.Prelude.{
  ℕ, zero, suc, ◌+◌, ◌-◌, ◌<◌, ◌≤◌, ◌≡◌, refl, sym, ap, ap₂, ◌∙◌, false, List, [], ◌∷◌, ◌++◌, take,
  drop, drop-drop, ltb, if◌then◌else◌, Result, ok, err, arith,
}
use dummy_os.Libk.Utils.{word, add32, sub32}
use dummy_os.Fs.Ramfs.Nodes.{is_directory, Inode, ramfs_read}

abbrev pub smaller : ℕ → ℕ → ℕ
smaller left count = if ltb left count then left else count

-- The bytes of all reads, each of which asks for the next of `counts`, and the last offset.
abbrev with_first : List ℕ → Result (List ℕ × ℕ) → Result (List ℕ × ℕ)
with_first bytes (err e) = err e
with_first bytes (ok (more, last)) = ok (bytes ++ more, last)

unfoldable pub read_all : List ℕ → Inode → ℕ → List ℕ → Result (List ℕ × ℕ)
read_all fs inode cur [] = ok ([], cur)
read_all fs inode cur (count ∷ counts) = elim (ramfs_read fs inode cur count) [
  | err e ↦ err e
  | ok (bytes, next) ↦ with_first bytes (read_all fs inode next counts)
]

abbrev pub sum : List ℕ → ℕ
sum [] = 0
sum (n ∷ ns) = n + sum ns

smaller_more :
    (size cur count rest : ℕ)
    → smaller (size - cur) count + smaller (size - (cur + smaller (size - cur) count)) rest
      ≡ smaller (size - cur) (count + rest)
smaller_more size cur count rest = ground arith

take_more : (m n : ℕ) (xs : List ℕ) → take m xs ++ take n (drop m xs) ≡ take (m + n) xs
take_more zero n xs = ap (λ k. take k xs) {x = n} {y = zero + n} (omega arith)
take_more (suc m) zero [] = ground arith
take_more (suc m) (suc n) [] =
    sym (ap (λ k. take k []) {x = suc m + suc n} {y = suc (m + suc n)} (omega arith))
take_more (suc m) n (x ∷ xs) =
    ap (◌∷◌ x) (take_more m n xs)
    ∙ sym (ap (λ k. take k (x ∷ xs)) {x = suc m + n} {y = suc (m + n)} (omega arith))

-- What an open file that is not a directory keeps: the archive fits into the memory, and the offset
-- is not past the end.
pub record IsReadable (inode : Inode) (cur : ℕ) : Type 0 where
  pub file : is_directory inode.type ≡ false
  pub fits : inode.data_start + inode.data_size < word
  pub inside : cur ≤ inode.data_size

read_once :
    (fs : List ℕ) (inode : Inode) (cur count : ℕ)
    → IsReadable inode cur
    → ramfs_read fs inode cur count
      ≡ ok (
        take (smaller (inode.data_size - cur) count) (drop (inode.data_start + cur) fs),
        cur + smaller (inode.data_size - cur) count,
      )
unfolding ramfs_read
read_once fs inode cur count r =
    let left : sub32 inode.data_size cur ≡ inode.data_size - cur =
      omega (arith, r.fits, r.inside) in
    let from : add32 inode.data_start cur ≡ inode.data_start + cur =
      omega (arith, r.fits, r.inside) in
    let to : add32 cur (smaller (inode.data_size - cur) count)
        ≡ cur + smaller (inode.data_size - cur) count =
      ground (arith, r.fits, r.inside) in
    rw (r.file, left, from, to) refl

take_on :
    (fs : List ℕ) (start n more : ℕ)
    → take n (drop start fs) ++ take more (drop (start + n) fs) ≡ take (n + more) (drop start fs)
take_on fs start n more =
    ap (λ d. take n (drop start fs) ++ take more d) (sym (drop-drop n start fs))
    ∙ take_more n more (drop start fs)

read_all-cons :
    (fs : List ℕ) (inode : Inode) (cur count next : ℕ) (counts bytes : List ℕ)
    → ramfs_read fs inode cur count ≡ ok (bytes, next)
    → read_all fs inode cur (count ∷ counts) ≡ with_first bytes (read_all fs inode next counts)
unfolding read_all
read_all-cons fs inode cur count next counts bytes e = rw (read_all, e) refl

-- Reads one after the other give, for a file inside the archive that is not a directory and an
-- offset not past its end, the bytes of the file from the offset on, as many as were asked for in
-- all or as there are, and leave the offset behind them.
pub read_all-take :
    (fs : List ℕ) (inode : Inode) (cur : ℕ) (counts : List ℕ)
    → IsReadable inode cur
    → read_all fs inode cur counts
      ≡ ok (
        take (smaller (inode.data_size - cur) (sum counts)) (drop (inode.data_start + cur) fs),
        cur + smaller (inode.data_size - cur) (sum counts),
      )
unfolding read_all
read_all-take fs inode cur [] r =
    let none_left : smaller (inode.data_size - cur) 0 ≡ 0 = ground arith in
    rw none_left (ap (λ n. ok ([], n)) {x = cur} {y = cur + 0} (omega arith))
read_all-take fs inode cur (count ∷ counts) r =
    let n = smaller (inode.data_size - cur) count in
    let more = smaller (inode.data_size - (cur + n)) (sum counts) in
    let inside : cur + n ≤ inode.data_size = ground (arith, r.inside) in
    let r' : IsReadable inode (cur + n) = record {
      file = r.file;
      fits = r.fits;
      inside = inside;
    } in
    let total : n + more ≡ smaller (inode.data_size - cur) (count + sum counts) =
      smaller_more inode.data_size cur count (sum counts) in
    let start = inode.data_start + cur in
    let moved : inode.data_start + (cur + n) ≡ start + n = omega arith in
    let bytes : take n (drop start fs) ++ take more (drop (inode.data_start + (cur + n)) fs)
        ≡ take (n + more) (drop start fs) =
      ap (λ k. take n (drop start fs) ++ take more (drop k fs)) moved ∙ take_on fs start n more in
    read_all-cons fs inode cur count (cur + n) counts (take n (drop start fs))
      (read_once fs inode cur count r)
    ∙ ap (with_first (take n (drop start fs))) (read_all-take fs inode (cur + n) counts r')
    ∙ ap₂ (λ b k. ok (b, k)) (bytes ∙ ap (λ k. take k (drop start fs)) total)
        (omega arith ∙ ap (λ k. cur + k) total)
