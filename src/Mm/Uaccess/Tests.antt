-- ===== src/Mm/Uaccess/Tests.antt =====
-- Tests of the copies, and examples of the theorems.
use dummy_os.Prelude.{
  ◌≡◌, refl, ◌==◌, [], ◌∷◌, ◌++◌, take, drop, inr, arith, ok, err, efault, some, tabulate, false,
}
use dummy_os.Mm.Uaccess.{
  copy_to_user, strnlen_user, strnlen_from, memset_user, memset_from, strndup_from_user,
  strlcpy_from_user, strlcpy_to_user, strlcpy_from, skip_from,
}
use dummy_os.Mm.Uaccess.Faults.{Stops, status_at, copy_to_user-Stops}

-- The third byte faults.
third-Stops : Stops (λ j. j == 2) 0 4 2
third-Stops = record { before = λ j lt. ground (arith, lt); at = inr (omega arith, refl) }

copy_to_user-Stops_example :
    copy_to_user (λ j. j == 2) (0 ∷ 0 ∷ 0 ∷ 0 ∷ []) (1 ∷ 2 ∷ 3 ∷ 4 ∷ []) 4
    ≡ (status_at 4 2, take 2 (1 ∷ 2 ∷ 3 ∷ 4 ∷ []) ++ drop 2 (0 ∷ 0 ∷ 0 ∷ 0 ∷ []))
copy_to_user-Stops_example =
    copy_to_user-Stops (λ j. j == 2) 2 4 (0 ∷ 0 ∷ 0 ∷ 0 ∷ []) (1 ∷ 2 ∷ 3 ∷ 4 ∷ []) third-Stops
      (omega arith) (omega arith)

strnlen_test : strnlen_user (λ j. j == 9) (b'a' ∷ b'b' ∷ 0 ∷ []) 8 ≡ ok 2
unfolding strnlen_user strnlen_from
strnlen_test = refl

memset_test : memset_user (λ j. j == 1) (1 ∷ 1 ∷ []) 7 2 ≡ (err efault, 7 ∷ 1 ∷ [])
unfolding memset_user memset_from
memset_test = refl

strndup_test :
    strndup_from_user (λ j. false) (λ n. some (tabulate n (λ i. 9))) (b'a' ∷ b'b' ∷ 0 ∷ []) 8
    ≡ ok (some (b'a' ∷ b'b' ∷ 0 ∷ []))
unfolding strndup_from_user strnlen_user strnlen_from strlcpy_from_user strlcpy_from skip_from
strndup_test = refl

-- A source that is shorter than the size is not ended.
unended_test :
    (strlcpy_to_user (λ j. false) (9 ∷ 9 ∷ 9 ∷ 9 ∷ []) (b'a' ∷ 0 ∷ []) 4).1 ≡ b'a' ∷ 9 ∷ 9 ∷ 9 ∷ []
unfolding strlcpy_to_user strlcpy_from
unended_test = refl
