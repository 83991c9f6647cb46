-- ===== src/Kernel/Sched/Queues.antt =====
-- The ready queues as one list, the highest priority first.
use dummy_os.Prelude.{
  ℕ, zero, suc, ◌<◌, ◌≤◌, ◌≡◌, ◌⊎◌, refl, sym, ap, ap₂, ◌∙◌, subst, true, false, List, [], ◌∷◌,
  ◌++◌, append_assoc, leb, ◌==◌, if◌then◌else◌, arith, Bool-cases, inl, inr,
}
use dummy_os.Kernel.Sched.{update, list_empty, without, chained, elem, first_non_empty_from}

-- The queues of the priorities below `n`, one behind the other.
unfoldable pub ready_below : (ℕ → List ℕ) → ℕ → List ℕ
ready_below queues zero = []
ready_below queues (suc n) = queues n ++ ready_below queues n

-- A thread put behind those of its priority or of a higher one.
unfoldable pub insert : (ℕ → ℕ) → ℕ → List ℕ → List ℕ
insert priority t [] = t ∷ []
insert priority t (u ∷ us) =
    let rest = insert priority t us in
    if leb (priority t) (priority u) then u ∷ rest else t ∷ u ∷ us

-- All threads of the list have priority `p`.
abbrev pub HavePriority : (ℕ → ℕ) → ℕ → List ℕ → Type 0
HavePriority priority p [] = Unit
HavePriority priority p (u ∷ us) = (priority u ≡ p) × HavePriority priority p us

-- All have a lower one.
abbrev AreBelow : (ℕ → ℕ) → ℕ → List ℕ → Type 0
AreBelow priority p [] = Unit
AreBelow priority p (u ∷ us) = (priority u < p) × AreBelow priority p us

module _ (priority : ℕ → ℕ) where
  pub insert-append :
      (t p : ℕ) (us vs : List ℕ)
      → HavePriority priority p us
      → priority t ≤ p
      → insert priority t (us ++ vs) ≡ us ++ insert priority t vs
  unfolding insert
  insert-append t p [] vs h le = refl
  insert-append t p (u ∷ us) vs (e, h) le = ground (arith, insert-append t p us vs h le)

  insert_front :
      (t : ℕ) (us : List ℕ) → AreBelow priority (priority t) us → insert priority t us ≡ t ∷ us
  unfolding insert
  insert_front t [] h = refl
  insert_front t (u ∷ us) (lt, h) = ground arith

  below_weaken : (p q : ℕ) (us : List ℕ) → p ≤ q → AreBelow priority p us → AreBelow priority q us
  below_weaken p q [] le h = tt
  below_weaken p q (u ∷ us) le (lt, h) = (omega arith, below_weaken p q us le h)

  AreBelow-append :
      (p q : ℕ) (us vs : List ℕ)
      → HavePriority priority p us
      → p < q
      → AreBelow priority q vs
      → AreBelow priority q (us ++ vs)
  AreBelow-append p q [] vs h lt hs = hs
  AreBelow-append p q (u ∷ us) vs (e, h) lt hs = (omega arith, AreBelow-append p q us vs h lt hs)

  ready_below-AreBelow :
      (queues : ℕ → List ℕ) (n : ℕ)
      → ((p : ℕ) → HavePriority priority p (queues p))
      → AreBelow priority n (ready_below queues n)
  unfolding ready_below
  ready_below-AreBelow queues zero h = tt
  ready_below-AreBelow queues (suc n) h =
      AreBelow-append n (suc n) (queues n) (ready_below queues n) (h n) (omega arith) (
        below_weaken n (suc n) (ready_below queues n) (omega arith)
          (ready_below-AreBelow queues n h))

  pub HavePriority-snoc :
      (t p : ℕ) (us : List ℕ)
      → HavePriority priority p us
      → priority t ≡ p
      → HavePriority priority p (us ++ (t ∷ []))
  HavePriority-snoc t p [] h e = (e, tt)
  HavePriority-snoc t p (u ∷ us) (eu, h) e = (eu, HavePriority-snoc t p us h e)

  pub HavePriority-without :
      (t p : ℕ) (us : List ℕ) → HavePriority priority p us → HavePriority priority p (without t us)
  unfolding without
  HavePriority-without t p [] h = tt
  HavePriority-without t p (u ∷ us) (e, h) =
      let rest = HavePriority-without t p us h in
      elim (Bool-cases (u == t)) [ inl same ↦ rw same rest | inr other ↦ rw other (e, rest) ]

-- A queue that is not below `n` does not matter.
pub ready_below-update :
    (queues : ℕ → List ℕ) (p : ℕ) (us : List ℕ) (n : ℕ)
    → n ≤ p
    → ready_below (update queues p us) n ≡ ready_below queues n
unfolding ready_below
ready_below-update queues p us zero le = refl
ready_below-update queues p us (suc n) le =
    ground (arith, ready_below-update queues p us n (omega arith))

-- A thread at the back of the queue of its priority is inserted into the list.
pub ready_below-push :
    (priority : ℕ → ℕ) (queues : ℕ → List ℕ) (t n : ℕ)
    → ((p : ℕ) → HavePriority priority p (queues p))
    → priority t < n
    → ready_below (update queues (priority t) (queues (priority t) ++ (t ∷ []))) n
      ≡ insert priority t (ready_below queues n)
unfolding ready_below
ready_below-push priority queues t zero h lt = absurd (omega arith)
ready_below-push priority queues t (suc n) h lt =
    let p = priority t in
    let pushed = update queues p (queues p ++ (t ∷ [])) in
    elim (Bool-cases (n == p)) [
      | inl same ↦
          let e : n ≡ p = ground arith in
          let kept = ready_below-update queues p (queues p ++ (t ∷ [])) n (omega arith) in
          let front = insert_front priority t (ready_below queues n) (
            below_weaken priority n p (ready_below queues n) (omega arith)
              (ready_below-AreBelow priority queues n h)) in
          let passed =
            insert-append priority t n (queues n) (ready_below queues n) (h n) (omega arith) in
          let this : pushed n ≡ queues n ++ (t ∷ []) = rw (same, e) refl in
          ap₂ ◌++◌ this kept
          ∙ append_assoc (queues n) (t ∷ []) (ready_below queues n)
          ∙ ap (◌++◌ (queues n)) (sym front)
          ∙ sym passed
      | inr other ↦
          let lower : p < n = ground arith in
          let this : pushed n ≡ queues n = rw other refl in
          ap₂ ◌++◌ this (ready_below-push priority queues t n h lower)
          ∙ sym (insert-append priority t n (queues n) (ready_below queues n) (h n) (omega arith))
    ]

without-append : (t : ℕ) (us vs : List ℕ) → without t (us ++ vs) ≡ without t us ++ without t vs
unfolding without
without-append t [] vs = refl
without-append t (u ∷ us) vs = ground (arith, without-append t us vs)

pub ready_below-without :
    (t : ℕ) (queues : ℕ → List ℕ) (n : ℕ)
    → ready_below (λ p. without t (queues p)) n ≡ without t (ready_below queues n)
unfolding ready_below without
ready_below-without t queues zero = refl
ready_below-without t queues (suc n) =
    ap (◌++◌ (without t (queues n))) (ready_below-without t queues n)
    ∙ sym (without-append t (queues n) (ready_below queues n))

pub nil_of : (us : List ℕ) → list_empty us ≡ true → us ≡ []
nil_of [] e = refl
nil_of (u ∷ us) e = absurd (ground arith)

-- The search finds the queue that the list starts with.
pub first_non_empty_from-ready :
    (queues : ℕ → List ℕ) (n : ℕ)
    → (first_non_empty_from queues n ≤ n)
      × (ready_below queues (suc n)
          ≡ queues (first_non_empty_from queues n)
            ++ ready_below queues (first_non_empty_from queues n))
      × ((first_non_empty_from queues n ≡ 0)
          ⊎ (list_empty (queues (first_non_empty_from queues n)) ≡ false))
unfolding first_non_empty_from ready_below
first_non_empty_from-ready queues zero = (omega arith, refl, inl refl)
first_non_empty_from-ready queues (suc n) =
    let (le, same, found) = first_non_empty_from-ready queues n in
    elim (Bool-cases (list_empty (queues (suc n)))) [
      | inl e ↦ rw e (
        omega (arith, le),
        ap (λ us. us ++ (queues n ++ ready_below queues n)) (nil_of (queues (suc n)) e) ∙ same,
        found,
      )
      | inr e ↦ rw e (omega arith, refl, inr e)
    ]

not_eq : (a b : ℕ) → b < a → (a == b) ≡ false
not_eq a b lt = ground arith

updated : (queues : ℕ → List ℕ) (p : ℕ) (us : List ℕ) → update queues p us p ≡ us
updated queues p us = ground arith

ready_below_nil :
    (queues : ℕ → List ℕ) (n : ℕ)
    → queues n ≡ []
    → ready_below queues (suc n) ≡ ready_below queues n
unfolding ready_below
ready_below_nil queues n e = ap (λ us. us ++ ready_below queues n) e

first_non_empty_from_empty :
    (queues : ℕ → List ℕ) (n : ℕ)
    → list_empty (queues (suc n)) ≡ true
    → first_non_empty_from queues (suc n) ≡ first_non_empty_from queues n
unfolding first_non_empty_from
first_non_empty_from_empty queues n e = rw e refl

first_non_empty_from_found :
    (queues : ℕ → List ℕ) (n : ℕ)
    → list_empty (queues (suc n)) ≡ false
    → first_non_empty_from queues (suc n) ≡ suc n
unfolding first_non_empty_from
first_non_empty_from_found queues n e = rw e refl

-- Taking threads off the queue that is found takes them off the start of the list.
pub ready_below-pop :
    (queues : ℕ → List ℕ) (us : List ℕ) (n : ℕ)
    → ready_below (update queues (first_non_empty_from queues n) us) (suc n)
      ≡ us ++ ready_below queues (first_non_empty_from queues n)
ready_below-pop queues us zero = unfold first_non_empty_from ready_below in refl
ready_below-pop queues us (suc n) =
    let (le, same, found) = first_non_empty_from-ready queues n in
    let p = first_non_empty_from queues n in
    let Goal =
      λ (q : ℕ). ready_below (update queues q us) (suc (suc n)) ≡ us ++ ready_below queues q in
    elim (Bool-cases (list_empty (queues (suc n)))) [
      | inl e ↦ subst Goal (sym (first_non_empty_from_empty queues n e)) (
          ready_below_nil (update queues p us) (suc n)
            (rw (not_eq (suc n) p (omega (arith, le))) (nil_of (queues (suc n)) e))
          ∙ ready_below-pop queues us n)
      | inr e ↦ subst Goal (sym (first_non_empty_from_found queues n e)) (
          unfold ready_below in
          ap₂ ◌++◌ (updated queues (suc n) us)
            (ready_below-update queues (suc n) us (suc n) (omega arith)))
    ]

without-absent : (t : ℕ) (us : List ℕ) → elem t us ≡ false → without t us ≡ us
unfolding without
without-absent t [] h = refl
without-absent t (u ∷ us) h = ground (arith, without-absent t us)

-- A thread that is on no queue is not in the list.
pub without-chained :
    (t : ℕ) (queues : ℕ → List ℕ) (n : ℕ)
    → chained t queues n ≡ false
    → without t (ready_below queues n) ≡ ready_below queues n
unfolding ready_below without
without-chained t queues zero h = refl
without-chained t queues (suc n) h =
    without-append t (queues n) (ready_below queues n)
    ∙ ap₂ ◌++◌ (without-absent t (queues n) (ground arith))
        (without-chained t queues n (ground arith))
