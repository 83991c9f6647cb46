-- ===== src/Fs/Tty/Lines.antt =====
-- What a read of a tty returns, by the bytes in its buffer.
use dummy_os.Prelude.{
  ℕ, zero, suc, ◌<◌, ◌≡◌, refl, sym, ap, subst, ◌∙◌, Bool, true, false, ◌&&◌, ◌||◌, List, [], ◌∷◌,
  ◌++◌, length, arith, append_nil, append_assoc, Bool-cases, inl, inr, ◌==◌, if◌then◌else◌, Option,
  some,
}
use dummy_os.Libk.Deque.Bounds.{IsValid}
use dummy_os.Libk.Deque.Spec
use dummy_os.Libk.Deque.Window.{contents}
use dummy_os.Libk.Deque.Pop.{pop_front_cases, front_refines}
use dummy_os.Fs.Tty.{
  Tty, ReadStep, returned, asleep, tty_read_loop, tty_read, is_eof, l_flag, icanon, newline,
  newline_read, popped, at_end,
}

-- The bytes that a read takes off `xs`, those that it leaves, and whether it is complete: it ends
-- before the end of file character, after `count` bytes, or after a newline if `canon`.
unfoldable pub line : Bool → ℕ → ℕ → ℕ → List ℕ → List ℕ × List ℕ × Bool
line canon eof count n [] = ([], [], false)
line canon eof count n (c ∷ cs) =
    let (front, rest, complete) = line canon eof count (suc n) cs in
    if c == eof
    then ([], c ∷ cs, true)
    else if (suc n == count) || (canon && (c == newline))
    then (c ∷ [], cs, true)
    else (c ∷ front, rest, complete)

abbrev pub step_of : Bool → List ℕ → Tty → ReadStep
step_of true got tty = returned got tty
step_of false got tty = asleep got tty

-- The step that the loop makes is the one that `line` describes.
abbrev pub Reads : List ℕ → List ℕ × List ℕ × Bool → Option ReadStep → Type 0
Reads got (front, rest, complete) step =
    (tty' : Tty) × (step ≡ some (step_of complete (got ++ front) tty'))
    × (contents tty'.buffer ≡ rest)
    × IsValid tty'.buffer

Reads-suc :
    (got front rest : List ℕ) (c : ℕ) (complete : Bool) (step : Option ReadStep)
    → Reads (got ++ (c ∷ [])) (front, rest, complete) step
    → Reads got (c ∷ front, rest, complete) step
Reads-suc got front rest c complete step (tty', e, holds, v) = (
  tty',
  subst (λ xs. step ≡ some (step_of complete xs tty')) (append_assoc got (c ∷ []) front) e,
  holds,
  v,
)

loop-Reads :
    (fuel self count n : ℕ) (got : List ℕ) (tty : Tty)
    → IsValid tty.buffer
    → length (contents tty.buffer) < fuel
    → Reads got
        (line (l_flag tty icanon) tty.termios.veof count n (contents tty.buffer))
        (tty_read_loop fuel self count got n tty)
unfolding tty_read_loop line l_flag is_eof Spec.pop_front
loop-Reads zero self count n got tty v enough = absurd (omega arith)
loop-Reads (suc fuel) self count n got tty v enough = elim (pop_front_cases tty.buffer v) [
  | inl (e, pops, nil) ↦
      let tty' = record tty { wq = tty.wq ++ (self ∷ []) } in
      rw nil (tty', rw e (ap (λ xs. some (asleep xs tty')) (sym (append_nil got))), nil, v)
  | inr (c, dq', e, pops, holds, v', same) ↦
      let peek = front_refines tty.buffer v ∙ ap (λ xs. (Spec.pop_front xs).0) holds in
      let tty' = popped (newline_read c tty) in
      let pop : tty'.buffer ≡ dq' = ap (λ p. p.1) pops in
      let rest : contents tty'.buffer ≡ contents dq' = ap contents pop in
      let valid : IsValid tty'.buffer = subst IsValid (sym pop) v' in
      rw (holds, e, peek)
        (elim (Bool-cases (c == tty.termios.veof)) [
          | inl eof ↦ rw eof (
            newline_read c tty,
            ap (λ xs. some (returned xs (newline_read c tty))) (sym (append_nil got)),
            holds,
            v,
          )
          | inr more ↦ rw more (elim (Bool-cases (at_end tty (suc n) count c)) [
            | inl last ↦ rw last (tty', refl, rest, valid)
            | inr on ↦
                let step = tty_read_loop fuel self count (got ++ (c ∷ [])) (suc n) tty' in
                let then_read =
                  loop-Reads fuel self count (suc n) (got ++ (c ∷ [])) tty' valid
                    (omega (arith, ap length rest, ap length holds, enough)) in
                rw on (
                  Reads-suc got _ _ c _ step (
                    subst
                      (λ xs.
                        Reads (got ++ (c ∷ []))
                          (line (l_flag tty icanon) tty.termios.veof count (suc n) xs) step)
                      rest then_read))
          ])
        ])
]

-- With more fuel than there are bytes in the buffer, a read takes a step: it returns the first
-- line of the buffer, as `line` describes it, and leaves the rest, or waits with all that there is.
pub tty_read-Reads :
    (fuel self count : ℕ) (tty : Tty)
    → IsValid tty.buffer
    → length (contents tty.buffer) < fuel
    → Reads []
        (line (l_flag tty icanon) tty.termios.veof count 0 (contents tty.buffer))
        (tty_read fuel self count tty)
unfolding tty_read
tty_read-Reads fuel self count tty v enough = loop-Reads fuel self count 0 [] tty v enough

-- A read that finds the end of file character first returns no byte and leaves the character in
-- the buffer, where the next read finds it again.
pub tty_read-eof :
    (fuel self count : ℕ) (tty : Tty) (xs : List ℕ)
    → IsValid tty.buffer
    → contents tty.buffer ≡ tty.termios.veof ∷ xs
    → length (contents tty.buffer) < fuel
    → (tty' : Tty) × (tty_read fuel self count tty ≡ some (returned [] tty'))
      × (contents tty'.buffer ≡ tty.termios.veof ∷ xs)
unfolding line
tty_read-eof fuel self count tty xs v e enough =
    let (tty', step, rest, valid) =
      subst
        (λ ys.
          Reads [] (line (l_flag tty icanon) tty.termios.veof count 0 ys)
            (tty_read fuel self count tty))
        e (tty_read-Reads fuel self count tty v enough) in
    let at_eof : (tty.termios.veof == tty.termios.veof) ≡ true = ground arith in
    (tty', rw at_eof at step, rw at_eof at rest)
