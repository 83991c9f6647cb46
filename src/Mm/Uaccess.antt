-- ===== src/Mm/Uaccess.antt =====
-- kernel/mm/uaccess.c: copies between the kernel and a process. `faults` says at which byte of the
-- user's side an access faults, which ends the copy; a kernel buffer is the list of its bytes.
pub mod Faults
mod Tests
use dummy_os.Prelude.{
  ℕ, zero, suc, Bool, false, List, [], ◌∷◌, ◌==◌, Option, none, some, enomem, if◌then◌else◌, Status,
  Result, ok, success, err, efault,
}
use dummy_os.Libk.Strings.{head, tail}

-- `uaccess_memcpy`, from byte `i` on: what is returned and what the destination holds.
unfoldable pub uaccess_memcpy : (ℕ → Bool) → ℕ → List ℕ → List ℕ → ℕ → Status × List ℕ
uaccess_memcpy faults i to from zero = (success, to)
uaccess_memcpy faults i to from (suc n) =
    let (status, rest) = uaccess_memcpy faults (suc i) (tail to) (tail from) n in
    if faults i then (err efault, to) else (status, head from ∷ rest)

unfoldable pub copy_to_user : (ℕ → Bool) → List ℕ → List ℕ → ℕ → Status × List ℕ
copy_to_user faults to from n = uaccess_memcpy faults 0 to from n

unfoldable pub copy_from_user : (ℕ → Bool) → List ℕ → List ℕ → ℕ → Status × List ℕ
copy_from_user faults to from n = uaccess_memcpy faults 0 to from n

-- The loop of `strnlen_user`, from byte `i` on, which is also the length so far.
unfoldable pub strnlen_from : (ℕ → Bool) → ℕ → List ℕ → ℕ → Result ℕ
strnlen_from faults i str zero = ok i
strnlen_from faults i str (suc n) =
    let rest = strnlen_from faults (suc i) (tail str) n in
    if faults i then err efault else if head str == 0 then ok i else rest

unfoldable pub strnlen_user : (ℕ → Bool) → List ℕ → ℕ → Result ℕ
strnlen_user faults str n = strnlen_from faults 0 str n

-- The loop of `memset_user`.
unfoldable pub memset_from : (ℕ → Bool) → ℕ → List ℕ → ℕ → ℕ → Status × List ℕ
memset_from faults i s c zero = (success, s)
memset_from faults i s c (suc size) =
    let (status, rest) = memset_from faults (suc i) (tail s) c size in
    if faults i then (err efault, s) else (status, c ∷ rest)

unfoldable pub memset_user : (ℕ → Bool) → List ℕ → ℕ → ℕ → Status × List ℕ
memset_user faults s c size = memset_from faults 0 s c size

-- `while (*src) ++src`, from byte `i` on.
unfoldable pub skip_from : (ℕ → Bool) → ℕ → List ℕ → Result ℕ
skip_from reads i [] = ok i
skip_from reads i (c ∷ cs) =
    let rest = skip_from reads (suc i) cs in
    if reads i then err efault else if c == 0 then ok i else rest

abbrev write_nul : List ℕ → List ℕ
write_nul [] = []
write_nul (c ∷ cs) = 0 ∷ cs

-- `uaccess_strlcpy`, from byte `i` on with `n` left: `reads` and `writes` say where an access to the
-- source and to the destination faults. A source that ends before the size is not given its end.
unfoldable pub strlcpy_from : (ℕ → Bool) → (ℕ → Bool) → ℕ → List ℕ → List ℕ → ℕ → Result ℕ × List ℕ
strlcpy_from reads writes i dest src zero = (skip_from reads i src, dest)
strlcpy_from reads writes i dest src (suc zero) =
    if writes i then (err efault, dest) else (skip_from reads i src, write_nul dest)
strlcpy_from reads writes i dest src (suc (suc n)) =
    let (result, rest) = strlcpy_from reads writes (suc i) (tail dest) (tail src) (suc n) in
    if reads i
    then (err efault, dest)
    else if head src == 0
    then (ok i, dest)
    else if writes i
    then (err efault, dest)
    else (result, head src ∷ rest)

unfoldable pub strlcpy_to_user : (ℕ → Bool) → List ℕ → List ℕ → ℕ → Result ℕ × List ℕ
strlcpy_to_user faults dest src n = strlcpy_from (λ i. false) faults 0 dest src n

unfoldable pub strlcpy_from_user : (ℕ → Bool) → List ℕ → List ℕ → ℕ → Result ℕ × List ℕ
strlcpy_from_user faults dest src n = strlcpy_from faults (λ i. false) 0 dest src n

abbrev dup_of : Result ℕ × List ℕ → Result (Option (List ℕ))
dup_of (ok _, copy) = ok (some copy)
dup_of (err e, copy) = err e

abbrev dup_into : (ℕ → Bool) → List ℕ → ℕ → Option (List ℕ) → Result (Option (List ℕ))
dup_into faults str size none = err enomem
dup_into faults str size (some copy) = dup_of (strlcpy_from_user faults copy str (suc size))

-- `kmalloc` gives the bytes of an allocation, if there is memory. The empty string has no copy, and
-- 0 is returned.
unfoldable pub strndup_from_user :
    (ℕ → Bool) → (ℕ → Option (List ℕ)) → List ℕ → ℕ → Result (Option (List ℕ))
strndup_from_user faults kmalloc str n = elim (strnlen_user faults str n) [
  | err e ↦ err e
  | ok size ↦ if size == 0 then ok none else dup_into faults str size (kmalloc (suc size))
]
