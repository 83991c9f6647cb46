-- ===== src/Fs/Tty/Edit.antt =====
-- What typing does to the buffer of a tty.
use Prim.Native.Nat.{bit_and}
use dummy_os.Prelude.{
  ℕ, ◌-◌, ◌<◌, ◌≡◌, refl, sym, ap, subst, ◌∙◌, true, false, List, [], ◌∷◌, ◌++◌, length, arith,
  Bool-cases, inl, inr, not, ◌≢◌, length-append, if◌then◌else◌, ◌==◌, success, ◌&&◌,
}
use dummy_os.Libk.Deque.{Deque, deque_empty, deque_pop_back, deque_push_back}
use dummy_os.Libk.Deque.Bounds.{IsValid}
use dummy_os.Libk.Deque.Spec
use dummy_os.Libk.Deque.Window.{contents}
use dummy_os.Libk.Deque.Push.{push_back_cases}
use dummy_os.Libk.Deque.Pop.{contents_of_empty, pop_back_refines, back_refines, pop_back-snoc}
use dummy_os.Fs.Tty.{
  Tty, tty_input_c, push, erase, is_intr, is_erase, l_flag, icanon, isig, newline, echoed,
  count_line, backspace,
}

echoed-buffer : (c : ℕ) (tty : Tty) → (echoed c tty).buffer ≡ tty.buffer
echoed-buffer c tty = ground arith

count_line-buffer : (c : ℕ) (tty : Tty) → (count_line c tty).buffer ≡ tty.buffer
count_line-buffer c tty = ground arith

echoed-termios : (c : ℕ) (tty : Tty) → (echoed c tty).termios ≡ tty.termios
echoed-termios c tty = ground arith

count_line-termios : (c : ℕ) (tty : Tty) → (count_line c tty).termios ≡ tty.termios
count_line-termios c tty = ground arith

push-buffer :
    (tty : Tty) (c : ℕ) (dq' : Deque)
    → deque_push_back tty.buffer c ≡ (success, dq')
    → ((push tty c).1.buffer ≡ dq') × ((push tty c).1.termios ≡ tty.termios)
unfolding push
push-buffer tty c dq' e =
    rw e (echoed-buffer c _ ∙ count_line-buffer c _, echoed-termios c _ ∙ count_line-termios c _)

snoc_ne : (xs : List ℕ) (c : ℕ) → xs ++ (c ∷ []) ≢ []
snoc_ne xs c e = omega (arith, ap length e, length-append xs (c ∷ []))

-- With the last byte of the buffer given, erasing takes it off unless it is a newline.
pub erase-buffer :
    (tty : Tty) (xs : List ℕ) (c : ℕ)
    → IsValid tty.buffer
    → contents tty.buffer ≡ xs ++ (c ∷ [])
    → contents (erase tty).1.buffer ≡ (if c == newline then contents tty.buffer else xs)
unfolding erase
erase-buffer tty xs c v e = elim (Bool-cases (deque_empty tty.buffer)) [
  | inl none_left ↦ absurd (snoc_ne xs c (sym e ∙ contents_of_empty tty.buffer v none_left))
  | inr some_left ↦
      let peek =
        back_refines tty.buffer v
        ∙ ap (λ ys. (Spec.pop_back ys).0) e
        ∙ ap (λ p. p.0) (pop_back-snoc xs c) in
      let rest : contents (deque_pop_back tty.buffer).1 ≡ xs =
        ap (λ p. p.1) (pop_back_refines tty.buffer v)
        ∙ ap (λ ys. (Spec.pop_back ys).1) e
        ∙ ap (λ p. p.1) (pop_back-snoc xs c) in
      rw (some_left, peek)
        (elim (Bool-cases (c == newline)) [
          | inl line_end ↦ rw line_end refl
          | inr other ↦ rw other (ap contents (echoed-buffer backspace _) ∙ rest)
        ])
]

-- The character `c` is kept as it is: it is neither the erase character, nor, with signals on, the
-- interrupt character.
abbrev pub IsPlain : Tty → ℕ → Type 0
IsPlain tty c =
    ((l_flag tty isig && is_intr tty c) ≡ false) × ((l_flag tty icanon && is_erase tty c) ≡ false)

-- The character `e` erases: the tty is in canonical mode, and `e` does not interrupt.
abbrev pub IsErase : Tty → ℕ → Type 0
IsErase tty e =
    ((l_flag tty isig && is_intr tty e) ≡ false) × ((l_flag tty icanon && is_erase tty e) ≡ true)

IsErase-subst :
    (tty tty' : Tty) (e : ℕ) → tty'.termios ≡ tty.termios → IsErase tty e → IsErase tty' e
unfolding l_flag is_intr is_erase
IsErase-subst tty tty' e same h =
    subst
      (λ t.
        (((not (bit_and t.c_lflag isig == 0)) && (e == t.vintr)) ≡ false)
        × (((not (bit_and t.c_lflag icanon == 0)) && (e == t.verase)) ≡ true))
      (sym same) h

-- In a valid buffer with room, typing a plain character puts it at the end. Typing the erase
-- character then takes it back, unless it is a newline, which stays.
pub input-erase :
    (tty : Tty) (c e : ℕ)
    → IsValid tty.buffer
    → length (contents tty.buffer) < tty.buffer.size - 1
    → IsPlain tty c
    → IsErase tty e
    → let typed = (tty_input_c tty c).1 in
      (contents typed.buffer ≡ contents tty.buffer ++ (c ∷ []))
      × (contents (tty_input_c typed e).1.buffer
          ≡ (if c == newline then contents typed.buffer else contents tty.buffer))
unfolding tty_input_c
input-erase tty c e v room (no_intr, no_erase) erases = elim (push_back_cases tty.buffer c v) [
  | inl (full, more) ↦ absurd (omega arith)
  | inr (dq', free, few, pushes, holds, v', same) ↦
      let (at, modes) = push-buffer tty c dq' pushes in
      let typed = (push tty c).1 in
      let (no_intr', erases') = IsErase-subst tty typed e modes erases in
      let longer : contents typed.buffer ≡ contents tty.buffer ++ (c ∷ []) =
        ap contents at ∙ holds in
      rw (no_intr, no_erase)
        (
          longer,
          rw (no_intr', erases')
              (erase-buffer typed (contents tty.buffer) c (subst IsValid (sym at) v') longer),
        )
]
