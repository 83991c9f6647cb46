-- ===== src/Libk/Deque/Spec.antt =====
-- What a deque promises: a sequence of at most `cap` bytes, open at both ends.
use dummy_os.Prelude.{
  ℕ, List, [], ◌∷◌, ◌++◌, length, leb, if◌then◌else◌, Result, ok, err, Status, success, enospc,
  espipe,
}

unfoldable pub last : ℕ → List ℕ → ℕ
last x [] = x
last x (y ∷ ys) = last y ys

unfoldable pub but_last : ℕ → List ℕ → List ℕ
but_last x [] = []
but_last x (y ∷ ys) = x ∷ but_last y ys

module _ (cap : ℕ) where
  unfoldable pub push_front : List ℕ → ℕ → Status × List ℕ
  push_front xs b = if leb cap (length xs) then (err enospc, xs) else (success, b ∷ xs)

  unfoldable pub push_back : List ℕ → ℕ → Status × List ℕ
  push_back xs b = if leb cap (length xs) then (err enospc, xs) else (success, xs ++ (b ∷ []))

unfoldable pub pop_front : List ℕ → Result ℕ × List ℕ
pop_front [] = (err espipe, [])
pop_front (x ∷ xs) = (ok x, xs)

unfoldable pub pop_back : List ℕ → Result ℕ × List ℕ
pop_back [] = (err espipe, [])
pop_back (x ∷ xs) = (ok (last x xs), but_last x xs)
