-- ===== src/Mm/X86/Share.antt =====
-- The pages that `paging_clone_current_cow` shares between two page tables.
use dummy_os.Prelude.{
  ℕ, zero, suc, ◌+◌, ◌<◌, ◌≤◌, ◌≡◌, ◌≢◌, refl, sym, ap, ap₂, ◌∙◌, subst, true, false, ◌==◌,
  if◌then◌else◌, arith, Bool-cases, inl, inr,
}
use dummy_os.Mm.X86.{Entry, Tables, each, put_entry}
use dummy_os.Mm.X86.Cells.{put_self, put_frame, put_index}
use dummy_os.Mm.X86.Spaces.{share_page}
use dummy_os.Mm.X86.Table.{to_equal, from_false}

-- An entry that may not be written to.
abbrev pub read_only : Entry → Entry
read_only e = record e { read_write = false }

module _ (pt cur_pt : ℕ) (apart : pt ≢ cur_pt) where
  abbrev shared_at : ℕ → Tables → Tables
  shared_at i s =
      put_entry cur_pt i (read_only (s.cell cur_pt i))
        (put_entry pt i (read_only (s.cell cur_pt i)) s)

  share_page_has :
      (i : ℕ) (s : Tables)
      → (s.cell cur_pt i).present ≡ true
      → share_page pt cur_pt i s ≡ shared_at i s
  unfolding share_page
  share_page_has i s has = ap (λ b. if b then shared_at i s else s) has

  share_page_absent :
      (i : ℕ) (s : Tables) → (s.cell cur_pt i).present ≡ false → share_page pt cur_pt i s ≡ s
  unfolding share_page
  share_page_absent i s absent = ap (λ b. if b then shared_at i s else s) absent

  share_page_other :
      (i f j : ℕ) (s : Tables) → j ≢ i → (share_page pt cur_pt i s).cell f j ≡ s.cell f j
  share_page_other i f j s ne = elim (Bool-cases (s.cell cur_pt i).present) [
    | inr absent ↦ ap (λ t. t.cell f j) (share_page_absent i s absent)
    | inl has ↦
        let shared = read_only (s.cell cur_pt i) in
        ap (λ t. t.cell f j) (share_page_has i s has)
        ∙ put_index cur_pt f i j shared (put_entry pt i shared s) ne
        ∙ put_index pt f i j shared s ne
  ]

  share_page_cur :
      (i : ℕ) (s : Tables)
      → (share_page pt cur_pt i s).cell cur_pt i
        ≡ (if (s.cell cur_pt i).present then read_only (s.cell cur_pt i) else s.cell cur_pt i)
  share_page_cur i s =
      let e = s.cell cur_pt i in
      elim (Bool-cases e.present) [
        | inr absent ↦
            ap (λ t. t.cell cur_pt i) (share_page_absent i s absent)
            ∙ ap (λ b. if b then read_only e else e) (sym absent)
        | inl has ↦
            ap (λ t. t.cell cur_pt i) (share_page_has i s has)
            ∙ put_self cur_pt i (read_only e) (put_entry pt i (read_only e) s)
            ∙ ap (λ b. if b then read_only e else e) (sym has)
      ]

  share_page_new :
      (i : ℕ) (s : Tables)
      → (share_page pt cur_pt i s).cell pt i
        ≡ (if (s.cell cur_pt i).present then read_only (s.cell cur_pt i) else s.cell pt i)
  share_page_new i s =
      let e = s.cell cur_pt i in
      elim (Bool-cases e.present) [
        | inr absent ↦
            ap (λ t. t.cell pt i) (share_page_absent i s absent)
            ∙ ap (λ b. if b then read_only e else s.cell pt i) (sym absent)
        | inl has ↦
            ap (λ t. t.cell pt i) (share_page_has i s has)
            ∙ put_frame cur_pt pt i i (read_only e) (put_entry pt i (read_only e) s) apart
            ∙ put_self pt i (read_only e) s
            ∙ ap (λ b. if b then read_only e else s.cell pt i) (sym has)
      ]

  share_below :
      (n i f j : ℕ) (s : Tables) → j < i → (each n i (share_page pt cur_pt) s).cell f j ≡ s.cell f j
  share_below zero i f j s below = refl
  share_below (suc n) i f j s below =
      share_below n (suc i) f j (share_page pt cur_pt i s) (omega (arith, below))
      ∙ share_page_other i f j s (λ e. absurd (omega (arith, below, e)))

  -- Entry `j` after the loop over `n` entries from `i` on.
  abbrev pub Shared : ℕ → ℕ → Tables → ℕ → Type 0
  Shared n i s j =
      ((each n i (share_page pt cur_pt) s).cell cur_pt j
        ≡ (if (s.cell cur_pt j).present then read_only (s.cell cur_pt j) else s.cell cur_pt j))
      × ((each n i (share_page pt cur_pt) s).cell pt j
          ≡ (if (s.cell cur_pt j).present then read_only (s.cell cur_pt j) else s.cell pt j))

  -- After the loop over `n` entries from `i` on, where the two tables are in different frames, each of
  -- these entries that was present is the same in both tables and may be written to in neither, and
  -- one that was not present has stayed as it was in both.
  pub share_page-Shared : (n i j : ℕ) (s : Tables) → i ≤ j → j < i + n → Shared n i s j
  share_page-Shared zero i j s from below = absurd (omega (arith, from, below))
  share_page-Shared (suc n) i j s from below =
      let t = share_page pt cur_pt i s in
      elim (Bool-cases (i == j)) [
        | inl here ↦ subst (Shared (suc n) i s) (to_equal i j here) (
          share_below n (suc i) cur_pt i t (omega arith) ∙ share_page_cur i s,
          share_below n (suc i) pt i t (omega arith) ∙ share_page_new i s,
        )
        | inr there ↦
            let ne = from_false i j there in
            let (cur, new) =
              share_page-Shared n (suc i) j t (omega (arith, from, ne)) (omega (arith, below)) in
            let same_cur = share_page_other i cur_pt j s (λ e. ne (sym e)) in
            let same_new = share_page_other i pt j s (λ e. ne (sym e)) in
            (
              cur ∙ ap (λ e. if e.present then read_only e else e) same_cur,
              new ∙ ap₂ (λ e g. if e.present then read_only e else g) same_cur same_new,
            )
      ]
