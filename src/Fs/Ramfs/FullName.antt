-- ===== src/Fs/Ramfs/FullName.antt =====
-- The full name of a header, in the buffer and as a path.
use dummy_os.Prelude.{
  ℕ, zero, suc, ◌+◌, ◌≤◌, ◌≡◌, ◌≢◌, refl, sym, ap, ap₂, ◌∙◌, true, false, List, [], ◌∷◌, ◌++◌,
  length, length-append, take, drop, take_all, ltb, leb, ◌==◌, Option, none, some, ok, arith,
  Bool-cases, inl, inr,
}
use dummy_os.Libk.Strings.{strlen, strncpy, memset}
use dummy_os.Libk.Strings.Compare.{text, Bytes}
use dummy_os.Libk.Strings.Prefix.{
  memset-AreZeros, length-memset, length-strncpy, strncpy-text, strncat-text, take-text, text-take,
  strlen-le, strncpy-exact,
}
use dummy_os.Fs.Path.{VfsPath, vfs_path_init, vfs_path_string_create}
use dummy_os.Fs.Path.Walk.{IsWhole, visible}
use dummy_os.Fs.Path.Same.{IsText}
use dummy_os.Fs.Ramfs.{
  name_field, prefix_field, name_field_len, ustar_header_prefix_len, ustar_header_name_len,
  put_fullname, ustar_header_fullname_init, ustar_header_fullname_init_path_init,
}

-- The full name of a header: its prefix and its name, each up to its first 0.
unfoldable pub full_name : List ℕ → ℕ → List ℕ
full_name fs h = text (prefix_field fs h) ++ text (name_field fs h)

-- There is memory for every path, at an address other than `id`.
abbrev pub Supplies : (ℕ → ℕ → Option (ℕ × List ℕ)) → ℕ → Type 0
Supplies memory id =
    (turn n : ℕ)
    → (address : ℕ) × (bytes : List ℕ) × (memory turn n ≡ some (address, bytes))
      × (length bytes ≡ n)
      × (address ≢ id)

length-text : (s : List ℕ) → length (text s) ≡ strlen s
unfolding strlen text
length-text [] = refl
length-text (c ∷ cs) = ground (arith, length-text cs)

length-take_le : (n : ℕ) (s : List ℕ) → length (take n s) ≤ n
length-take_le zero s = omega arith
length-take_le (suc n) [] = omega arith
length-take_le (suc n) (c ∷ cs) = omega (arith, length-take_le n cs)

Bytes-take : (n : ℕ) (s : List ℕ) → Bytes s → Bytes (take n s)
Bytes-take zero s b = tt
Bytes-take (suc n) [] b = tt
Bytes-take (suc n) (c ∷ cs) (byte, b) = (byte, Bytes-take n cs b)

Bytes-drop : (n : ℕ) (s : List ℕ) → Bytes s → Bytes (drop n s)
Bytes-drop zero s b = b
Bytes-drop (suc n) [] b = tt
Bytes-drop (suc n) (c ∷ cs) (byte, b) = Bytes-drop n cs b

text-IsText : (s : List ℕ) → Bytes s → IsText (text s)
unfolding text
text-IsText [] b = tt
text-IsText (c ∷ cs) (byte, b) = elim (Bool-cases (c == 0)) [
  | inl ends ↦ rw ends tt
  | inr other ↦ rw other (ground (arith, other), byte, text-IsText cs b)
]

IsText-append : (s t : List ℕ) → IsText s → IsText t → IsText (s ++ t)
IsText-append [] t hs ht = ht
IsText-append (c ∷ cs) t (pos, byte, hs) ht = (pos, byte, IsText-append cs t hs ht)

pub full_name-IsText : (fs : List ℕ) (h : ℕ) → Bytes fs → IsText (full_name fs h)
unfolding full_name prefix_field name_field
full_name-IsText fs h b =
    IsText-append (text (prefix_field fs h)) (text (name_field fs h))
      (text-IsText (prefix_field fs h) (Bytes-take 155 _ (Bytes-drop (h + 345) fs b)))
      (text-IsText (name_field fs h) (Bytes-take 100 _ (Bytes-drop (h + 0) fs b)))

-- The length that is computed for a field covers the text in it.
field_covers : (field : List ℕ) (n : ℕ) → length field ≤ n → strlen field ≤ name_field_len field n
unfolding name_field_len
field_covers field n h = ground (arith, strlen-le field)

prefix_covers : (fs : List ℕ) (h : ℕ) → strlen (prefix_field fs h) ≤ ustar_header_prefix_len fs h
unfolding ustar_header_prefix_len prefix_field
prefix_covers fs h = field_covers (prefix_field fs h) 155 (length-take_le 155 _)

name_covers : (fs : List ℕ) (h : ℕ) → strlen (name_field fs h) ≤ ustar_header_name_len fs h
unfolding ustar_header_name_len name_field
name_covers fs h = field_covers (name_field fs h) 100 (length-take_le 100 _)

-- Prefix and name of the header fit into the 256 bytes of the buffer.
abbrev pub Fits : List ℕ → ℕ → Type 0
Fits fs h = ustar_header_prefix_len fs h + ustar_header_name_len fs h ≤ 254

put_fullname-text :
    (fs buf : List ℕ) (h : ℕ)
    → length buf ≡ 256
    → Fits fs h
    → text (put_fullname fs (some h) (memset buf 0 (length buf))) ≡ full_name fs h
unfolding put_fullname full_name
put_fullname-text fs buf h size fits =
    let zeros = memset buf 0 (length buf) in
    let room : length zeros ≡ 256 = length-memset buf 0 (length buf) ∙ size in
    let pn = ustar_header_prefix_len fs h in
    let nn = ustar_header_name_len fs h in
    let prefix_in = prefix_covers fs h in
    let name_in = name_covers fs h in
    let first : text (strncpy zeros (prefix_field fs h) pn) ≡ text (prefix_field fs h) =
      strncpy-text zeros (prefix_field fs h) pn (memset-AreZeros buf) (omega (arith, room, fits))
      ∙ text-take (prefix_field fs h) pn prefix_in in
    let second : take nn (text (name_field fs h)) ≡ text (name_field fs h) =
      take-text (name_field fs h) nn name_in in
    let len = length-strncpy zeros (prefix_field fs h) pn in
    strncat-text (strncpy zeros (prefix_field fs h) pn) (name_field fs h) nn (
      omega (
        arith,
        ap length first,
        length-text (prefix_field fs h),
        ap length second,
        length-text (name_field fs h),
        prefix_in,
        name_in,
        len,
        room,
        fits,
      ))
    ∙ ap₂ ◌++◌ first second

pub length-full_name : (fs : List ℕ) (h : ℕ) → Fits fs h → length (full_name fs h) ≤ 254
unfolding full_name
length-full_name fs h fits = omega (
  arith,
  length-append (text (prefix_field fs h)) (text (name_field fs h)),
  length-text (prefix_field fs h),
  length-text (name_field fs h),
  prefix_covers fs h,
  name_covers fs h,
  fits,
)

-- What a path made of a text is.
pub record IsPathOf (p : VfsPath) (s : List ℕ) (id : ℕ) : Type 0 where
  pub whole : IsWhole p
  pub shows : visible p ≡ s
  pub string : p.base_str.str ≡ s
  pub elsewhere : p.base_str.id ≢ id

init_path :
    (buf bytes s : List ℕ) (address id : ℕ)
    → text buf ≡ s
    → length bytes ≡ strlen buf
    → length s ≤ 254
    → address ≢ id
    → (p : VfsPath) × (vfs_path_init (some (address, bytes)) buf (strlen buf) ≡ ok p)
      × IsPathOf p s id
unfolding vfs_path_init vfs_path_string_create
init_path buf bytes s address id shown size small other =
    let p : VfsPath = record {
      base_str = record { id = address; str = s };
      offset = 0;
      size = strlen buf;
    } in
    let len : length s ≡ strlen buf = ap length (sym shown) ∙ length-text buf in
    let fits : ltb 2048 (strlen buf) ≡ false = ground (arith, len, small) in
    (
      p,
      rw fits (
          ap
            (λ t. ok (record {
              base_str = record { id = address; str = t };
              offset = 0;
              size = strlen buf;
            }))
            (strncpy-exact bytes buf size ∙ shown)),
      record {
        whole = record { ends = omega (arith, len); small = omega (arith, small) };
        shows = ap (λ n. take n s) (sym len) ∙ take_all s;
        string = refl;
        elsewhere = other;
      },
    )

fullname_init :
    (fs buf : List ℕ) (h : ℕ)
    → length buf ≡ 256
    → Fits fs h
    → ustar_header_fullname_init fs buf (some h) none
      ≡ ok (put_fullname fs (some h) (memset buf 0 (length buf)))
unfolding ustar_header_fullname_init
fullname_init fs buf h size fits =
    let room : leb (ustar_header_prefix_len fs h + ustar_header_name_len fs h + 0 + 2) (length buf)
        ≡ true =
      ground (arith, size, fits) in
    rw room refl

module _ (fs buf : List ℕ) (memory : ℕ → ℕ → Option (ℕ × List ℕ)) (id : ℕ) (size : length buf ≡ 256)
    (supplies : Supplies memory id) where
  pub current_path :
      (h turn : ℕ)
      → Fits fs h
      → (p : VfsPath) × (ustar_header_fullname_init_path_init memory turn fs buf (some h) ≡ ok p)
        × IsPathOf p (full_name fs h) id
  unfolding ustar_header_fullname_init_path_init
  current_path h turn fits =
      let full = put_fullname fs (some h) (memset buf 0 (length buf)) in
      let (address, bytes, given, long, other) = supplies turn (strlen full) in
      let (p, made, is) =
        init_path full bytes (full_name fs h) address id (put_fullname-text fs buf h size fits) long
          (length-full_name fs h fits) other in
      (p, rw (fullname_init fs buf h size fits, given) made, is)
