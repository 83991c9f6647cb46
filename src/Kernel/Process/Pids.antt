-- ===== src/Kernel/Process/Pids.antt =====
-- The first free entry of a table, and the registration of processes.
use dummy_os.Prelude.{
  ℕ, zero, suc, ◌+◌, ◌<◌, ◌≡◌, ◌≢◌, ◌⊎◌, refl, ap, ◌∙◌, true, ◌&&◌, List, [], ◌∷◌, length, get_or,
  set, ltb, leb, ◌==◌, Option, none, some, Bool-cases, inl, inr, ok, err, enospc, arith,
}
use dummy_os.Kernel.Process.{
  free_from, find_free_pid, process_register, process_register_pid, process_get, tail_of,
}

-- Entry `k` is free, and those before it are not.
pub record IsLowest (table : List ℕ) (k : ℕ) : Type 0 where
  pub inside : k < length table
  pub free : get_or table k 0 ≡ 0
  pub taken : (i : ℕ) → i < k → get_or table i 0 ≢ 0

-- No entry is free.
abbrev pub IsFull : List ℕ → Type 0
IsFull table = (i : ℕ) → i < length table → get_or table i 0 ≢ 0

abbrev pub Finds : List ℕ → ℕ → Option ℕ → Type 0
Finds table n r = ((r ≡ none) × IsFull table) ⊎ ((k : ℕ) × (r ≡ some (n + k)) × IsLowest table k)

IsFull-cons : (p : ℕ) (ps : List ℕ) → p ≢ 0 → IsFull ps → IsFull (p ∷ ps)
IsFull-cons p ps here full zero lt = here
IsFull-cons p ps here full (suc i) lt = full i (omega (arith, lt))

IsLowest-cons : (p k : ℕ) (ps : List ℕ) → p ≢ 0 → IsLowest ps k → IsLowest (p ∷ ps) (suc k)
IsLowest-cons p k ps here l = record {
  inside = omega (arith, l.inside);
  free = l.free;
  taken = before;
}
  where
    before : (i : ℕ) → i < suc k → get_or (p ∷ ps) i 0 ≢ 0
    before zero lt = here
    before (suc i) lt = l.taken i (omega (arith, lt))

pub free_from-Finds : (table : List ℕ) (n : ℕ) → Finds table n (free_from table n)
unfolding free_from
free_from-Finds [] n = inl (refl, λ i lt. absurd (omega (arith, lt)))
free_from-Finds (p ∷ ps) n = elim (Bool-cases (p == 0)) [
  | inl free ↦ rw free (
      inr (
        0,
        ap some (omega arith),
        record {
          inside = omega arith;
          free = ground (arith, free);
          taken = λ i lt. absurd (omega (arith, lt));
        },
      ))
  | inr used ↦ rw used (elim (free_from-Finds ps (suc n)) [
    | inl (e, full) ↦ inl (e, IsFull-cons p ps (ground (arith, used)) full)
    | inr (k, e, l) ↦
        inr (suc k, e ∙ ap some (omega arith), IsLowest-cons p k ps (ground (arith, used)) l)
  ])
]

pub get_or-set : (table : List ℕ) (k v : ℕ) → k < length table → get_or (set table k v) k 0 ≡ v
get_or-set [] k v lt = absurd (omega (arith, lt))
get_or-set (p ∷ ps) zero v lt = refl
get_or-set (p ∷ ps) (suc k) v lt = get_or-set ps k v (omega (arith, lt))

pub get_or-set_other :
    (table : List ℕ) (k v i : ℕ) → i ≢ k → get_or (set table k v) i 0 ≡ get_or table i 0
get_or-set_other [] k v i other = refl
get_or-set_other (p ∷ ps) zero v zero other = absurd (other refl)
get_or-set_other (p ∷ ps) zero v (suc i) other = refl
get_or-set_other (p ∷ ps) (suc k) v zero other = refl
get_or-set_other (p ∷ ps) (suc k) v (suc i) other =
    get_or-set_other ps k v i (λ e. other (ap suc e))

-- What registering a process comes to: a full table, or the lowest free pid.
abbrev pub Registers : ℕ → ℕ → List ℕ → Type 0
Registers proc old table =
    (IsFull (tail_of table) × (process_register proc old table ≡ (err enospc, table, old)))
    ⊎ ((k : ℕ) × IsLowest (tail_of table) k
        × (process_register proc old table ≡ (ok (suc k), set table (suc k) proc, suc k))
        × (process_get (set table (suc k) proc) (suc k) ≡ proc))

register_free :
    (proc old k p0 : ℕ) (ps : List ℕ)
    → (ltb 0 k && leb k 64) ≡ true
    → (get_or (p0 ∷ ps) k 0 == 0) ≡ true
    → process_register_pid proc (some k) old (p0 ∷ ps) ≡ (ok k, set (p0 ∷ ps) k proc, k)
unfolding process_register_pid
register_free proc old k p0 ps fits free = ground (arith, fits, free)

got :
    (proc k : ℕ) (table : List ℕ)
    → (ltb 0 k && leb k 64) ≡ true
    → process_get table k ≡ get_or table k 0
unfolding process_get
got proc k table fits = ground (arith, fits)

-- Registering a process fails with ENOSPC, and changes nothing, if no pid from 1 to 64 is free.
-- Otherwise the process gets the lowest free pid, and is found under it.
pub process_register-Registers :
    (proc old p0 : ℕ) (ps : List ℕ) → length ps ≡ 64 → Registers proc old (p0 ∷ ps)
unfolding process_register find_free_pid
process_register-Registers proc old p0 ps size = elim (free_from-Finds ps 1) [
  | inl (e, full) ↦
      inl (full, rw (process_register, find_free_pid, e) (unfold process_register_pid in refl))
  | inr (k, e, l) ↦
      let fits : (ltb 0 (suc k) && leb (suc k) 64) ≡ true = ground (arith, l.inside, size) in
      let free : (get_or ps k 0 == 0) ≡ true = ground (arith, l.free) in
      let at : free_from ps 1 ≡ some (suc k) = e ∙ ap some (omega arith) in
      inr (
        k,
        l,
        rw (process_register, find_free_pid, at) (register_free proc old (suc k) p0 ps fits free),
        got proc (suc k) (p0 ∷ set ps k proc) fits ∙ get_or-set ps k proc l.inside,
      )
]
