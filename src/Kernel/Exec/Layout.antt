-- ===== src/Kernel/Exec/Layout.antt =====
-- Where the program finds its arguments.
use dummy_os.Prelude.{
  ℕ, suc, ◌+◌, ◌-◌, ◌*◌, ◌<◌, ◌≤◌, ◌≡◌, ◌⊎◌, refl, sym, ap, ◌∙◌, Bool, false, List, [], ◌∷◌, length,
  length-take, get_or, tabulate, length-tabulate, tabulate_ext, success, arith, inl, inr,
}
use dummy_os.Libk.Utils.{word}
use dummy_os.Mm.Uaccess.{copy_to_user, uaccess_memcpy}
use dummy_os.Kernel.Exec.{UserArg, bytes_of, replace, store_user, then_store, arg_bytes, copy_args}

-- No access to `n` bytes from `addr` on faults.
abbrev pub Fine : (ℕ → Bool) → ℕ → ℕ → Type 0
Fine faults addr n = (a : ℕ) → addr ≤ a → a < addr + n → faults a ≡ false

memcpy_whole :
    (faults : ℕ → Bool) (i : ℕ) (to from : List ℕ)
    → length to ≡ length from
    → Fine faults i (length from)
    → uaccess_memcpy faults i to from (length from) ≡ (success, from)
unfolding uaccess_memcpy
memcpy_whole faults i [] [] e fine = refl
memcpy_whole faults i (t ∷ ts) [] e fine = absurd (omega (arith, e))
memcpy_whole faults i [] (c ∷ cs) e fine = absurd (omega (arith, e))
memcpy_whole faults i (t ∷ ts) (c ∷ cs) e fine =
    rw
      (
        uaccess_memcpy,
        fine i (omega arith) (omega arith),
        memcpy_whole faults (suc i) ts cs (omega (arith, e))
            (λ a lo hi. fine a (omega (arith, lo)) (omega (arith, hi))),
      )
      refl

-- The memory after bytes are stored where no access faults.
store_whole :
    (faults : ℕ → Bool) (addr : ℕ) (bytes : List ℕ) (mem : ℕ → ℕ)
    → Fine faults addr (length bytes)
    → store_user faults addr bytes mem ≡ (success, replace addr bytes mem)
unfolding store_user copy_to_user
store_whole faults addr bytes mem fine =
    rw
      (memcpy_whole (λ i. faults (addr + i)) 0 (tabulate (length bytes) (λ i. mem (addr + i))) bytes
        (length-tabulate (length bytes) (λ i. mem (addr + i)))
        (λ j lo hi. fine (addr + j) (omega arith) (omega (arith, hi))))
      refl

replace_off :
    (addr : ℕ) (bytes : List ℕ) (mem : ℕ → ℕ) (a : ℕ)
    → (a < addr) ⊎ (addr + length bytes ≤ a)
    → replace addr bytes mem a ≡ mem a
replace_off addr bytes mem a h = ground (arith, h)

-- The bytes and the pointer at an address.
abbrev pub bytes_at : (ℕ → ℕ) → ℕ → ℕ → List ℕ
bytes_at mem addr n = tabulate n (λ k. mem (addr + k))

abbrev pub pointer_at : (ℕ → ℕ) → ℕ → ℕ
pointer_at mem addr =
    mem addr + mem (addr + 1) * 256 + mem (addr + 2) * 65536 + mem (addr + 3) * 16777216

tabulate-get_or : (bytes : List ℕ) → tabulate (length bytes) (λ k. get_or bytes k 0) ≡ bytes
tabulate-get_or [] = refl
tabulate-get_or (b ∷ bs) = ap (◌∷◌ b) (tabulate-get_or bs)

bytes_at-replace :
    (addr : ℕ) (bytes : List ℕ) (mem : ℕ → ℕ)
    → bytes_at (replace addr bytes mem) addr (length bytes) ≡ bytes
bytes_at-replace addr bytes mem =
    tabulate_ext (length bytes) (λ k. replace addr bytes mem (addr + k)) (λ k. get_or bytes k 0)
      (λ k lt.
        ground (arith, lt, ap (λ m. get_or bytes m 0) {x = addr + k - addr} {y = k} (omega arith)))
    ∙ tabulate-get_or bytes

pointer_at-replace :
    (addr v : ℕ) (mem : ℕ → ℕ) → v < word → pointer_at (replace addr (bytes_of v) mem) addr ≡ v
pointer_at-replace addr v mem small = ground (arith, small)

-- The memory with the arguments, whose pointers are from `p` on, and their bytes from `start` on.
abbrev pub laid : ℕ → ℕ → List UserArg → (ℕ → ℕ) → ℕ → ℕ
laid p start [] mem = replace p (bytes_of 0) mem
laid p start (a ∷ rest) mem =
    laid (p + 4) (start + (a.len + 1)) rest
      (replace p (bytes_of start) (replace start (arg_bytes a) mem))

abbrev pub total : List UserArg → ℕ
total [] = 0
total (a ∷ rest) = a.len + 1 + total rest

-- Each string has a 0 at its length.
abbrev pub AreArgs : List UserArg → Type 0
AreArgs [] = Unit
AreArgs (a ∷ rest) = (a.len < length a.str) × AreArgs rest

length-arg_bytes : (a : UserArg) → a.len < length a.str → length (arg_bytes a) ≡ a.len + 1
length-arg_bytes a h = length-take (a.len + 1) a.str (omega (arith, h))

pub laid_off :
    (p start : ℕ) (args : List UserArg) (mem : ℕ → ℕ) (x : ℕ)
    → AreArgs args
    → p + (length args + 1) * 4 ≤ start
    → (x < p) ⊎ ((p + (length args + 1) * 4 ≤ x) × (x < start))
    → laid p start args mem x ≡ mem x
laid_off p start [] mem x are room h = ground (arith, h)
laid_off p start (a ∷ rest) mem x (ends, are) room h =
    let inner = replace start (arg_bytes a) mem in
    laid_off (p + 4) (start + (a.len + 1)) rest (replace p (bytes_of start) inner) x are
      (omega (arith, room)) (ground (arith, h, room))
    ∙ replace_off p (bytes_of start) inner x (ground (arith, h))
    ∙ replace_off start (arg_bytes a) mem x (ground (arith, h, room))

-- The program finds its arguments from `p` on, with a null pointer behind them.
abbrev pub Finds : (ℕ → ℕ) → ℕ → List UserArg → Type 0
Finds mem p [] = pointer_at mem p ≡ 0
Finds mem p (a ∷ rest) =
    (bytes_at mem (pointer_at mem p) (a.len + 1) ≡ arg_bytes a) × Finds mem (p + 4) rest

pub laid-Finds :
    (p start : ℕ) (args : List UserArg) (mem : ℕ → ℕ)
    → AreArgs args
    → p + (length args + 1) * 4 ≤ start
    → start + total args < word
    → Finds (laid p start args mem) p args
laid-Finds p start [] mem are room small = pointer_at-replace p 0 mem (omega arith)
laid-Finds p start (a ∷ rest) mem (ends, are) room small =
    let inner = replace start (arg_bytes a) mem in
    let outer = replace p (bytes_of start) inner in
    let size = length-arg_bytes a ends in
    let next : p + 4 + (length rest + 1) * 4 ≤ start + (a.len + 1) = omega (arith, room) in
    let off =
      λ (x : ℕ)
          (h : (x < p + 4) ⊎ ((p + 4 + (length rest + 1) * 4 ≤ x) × (x < start + (a.len + 1)))).
        laid_off (p + 4) (start + (a.len + 1)) rest outer x are next h in
    let pointer : pointer_at (laid p start (a ∷ rest) mem) p ≡ start = omega (
      arith,
      off p (inl (omega arith)),
      off (p + 1) (inl (omega arith)),
      off (p + 2) (inl (omega arith)),
      off (p + 3) (inl (omega arith)),
      pointer_at-replace p start inner (omega (arith, small)),
    ) in
    let bytes : bytes_at (laid p start (a ∷ rest) mem) start (a.len + 1) ≡ arg_bytes a =
      tabulate_ext (a.len + 1) (λ k. laid p start (a ∷ rest) mem (start + k))
        (λ k. inner (start + k))
        (λ k lt.
          off (start + k) (inr (omega (arith, room), omega (arith, lt)))
          ∙ replace_off p (bytes_of start) inner (start + k) (inr (omega (arith, room))))
      ∙ ap (bytes_at inner start) (sym size)
      ∙ bytes_at-replace start (arg_bytes a) mem in
    (
      ap (λ q. bytes_at (laid p start (a ∷ rest) mem) q (a.len + 1)) pointer ∙ bytes,
      laid-Finds (p + 4) (start + (a.len + 1)) rest outer are next (omega (arith, small)),
    )

pub copy_args-laid :
    (faults : ℕ → Bool) (array i start n : ℕ) (args : List UserArg) (mem : ℕ → ℕ)
    → AreArgs args
    → Fine faults array n
    → array + (i + length args + 1) * 4 ≤ start
    → start + total args ≤ array + n
    → copy_args faults array i start args (success, mem)
      ≡ (success, laid (array + i * 4) start args mem)
unfolding copy_args
copy_args-laid faults array i start n [] mem are fine room ends =
    store_whole faults (array + i * 4) (bytes_of 0) mem
      (λ a lo hi. fine a (omega (arith, lo)) (omega (arith, hi, room, ends)))
copy_args-laid faults array i start n (a ∷ rest) mem (long, are) fine room ends =
    let inner = replace start (arg_bytes a) mem in
    let size = length-arg_bytes a long in
    let first =
      store_whole faults start (arg_bytes a) mem
        (λ x lo hi. fine x (omega (arith, lo, room)) (omega (arith, hi, size, ends))) in
    let second =
      store_whole faults (array + i * 4) (bytes_of start) inner
        (λ x lo hi. fine x (omega (arith, lo)) (omega (arith, hi, room, ends))) in
    let on = copy_args faults array (suc i) (start + (a.len + 1)) rest in
    ap (λ r. on (then_store faults (array + i * 4) (bytes_of start) r)) first
    ∙ ap on second
    ∙ copy_args-laid faults array (suc i) (start + (a.len + 1)) n rest
        (replace (array + i * 4) (bytes_of start) inner) are fine (omega (arith, room))
        (omega (arith, ends))
    ∙ ap
        (λ q. (
          success,
          laid q (start + (a.len + 1)) rest (replace (array + i * 4) (bytes_of start) inner),
        ))
        {x = array + suc i * 4} {y = array + i * 4 + 4} (omega arith)
