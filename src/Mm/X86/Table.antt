-- ===== src/Mm/X86/Table.antt =====
-- The directory and the tables after `add_table`.
use dummy_os.Prelude.{
  ℕ, ◌<◌, ◌≡◌, ◌≢◌, ◌⊎◌, refl, sym, ap, ◌∙◌, subst, Bool, true, false, ◌==◌, arith, Bool-cases, inl,
  inr,
}
use dummy_os.Mm.X86.{
  Tables, put_entry, clear_page, frame_of, index_in_pd, index_in_pt, recursive_index, temp_index,
  add_table,
}
use dummy_os.Mm.X86.Sync.{NotIn, AreOthers, Stays-IsRecursive, Stays-AreOthers}
use dummy_os.Mm.X86.Entries.{page_of, translate_same, translate_absent, translate_entry}
use dummy_os.Mm.X86.Translate.{
  translate, IsPaged, IsFresh, add_table-Stays, with_table-IsRecursive, with_table-AreOthers,
  done_cr3, with_table_row, add_table_row, add_table_empty, add_table_other,
}

-- The table of an entry is not the directory.
pub not_cr3 :
    (s : Tables) (i : ℕ)
    → IsPaged s
    → i < temp_index
    → (s.cell s.cr3 i).present ≡ true
    → (s.cell s.cr3 i).address ≢ s.cr3
not_cr3 s i p low h e =
    p.apart i recursive_index (λ k. absurd (omega (arith, low, k))) h p.last (e ∙ sym p.recursive)

pub not_equal : (i j : ℕ) → i ≢ j → (i == j) ≡ false
not_equal i j h = ground (arith, h)

pub equal : (i : ℕ) → (i == i) ≡ true
equal i = ground arith

pub to_equal : (i j : ℕ) → (i == j) ≡ true → i ≡ j
to_equal i j h = ground (arith, h)

pub from_false : (i j : ℕ) → (i == j) ≡ false → i ≢ j
from_false i j h = ground (arith, h)

absurd_bool : {b : Bool} → b ≡ false → ¬ (b ≡ true)
absurd_bool e h = ground arith

module _ (page_table vaddr prot : ℕ) (s : Tables) (p : IsPaged s)
    (fresh : IsFresh s (frame_of page_table)) (low : index_in_pd vaddr < temp_index) where
  abbrev t : Tables
  t = add_table page_table vaddr prot s

  abbrev pdi : ℕ
  pdi = index_in_pd vaddr

  cr3_eq : t.cr3 ≡ s.cr3
  cr3_eq = done_cr3 page_table vaddr prot s p fresh low

  row : (j : ℕ) → j ≢ temp_index → j ≢ index_in_pd vaddr → t.cell t.cr3 j ≡ s.cell s.cr3 j
  row j other old =
      ap (λ c. t.cell c j) cr3_eq
      ∙ add_table_row page_table vaddr prot s p fresh low j other
      ∙ (rw (not_equal j (index_in_pd vaddr) old) refl)

  pub new_entry :
      (t.cell t.cr3 pdi).present ≡ true × (t.cell t.cr3 pdi).address ≡ frame_of page_table
  new_entry =
      let same =
        ap (λ c. t.cell c pdi) cr3_eq
        ∙ add_table_row page_table vaddr prot s p fresh low pdi
            (λ e. absurd (omega (arith, low, e))) in
      (
        ap (λ e. e.present) same ∙ rw (equal pdi) refl,
        ap (λ e. e.address) same ∙ rw (equal pdi) refl,
      )

  temp_absent : (t.cell t.cr3 temp_index).present ≡ false
  unfolding clear_page put_entry
  temp_absent =
      let row = with_table_row page_table vaddr prot s p fresh low temp_index in
      let differs = not_equal temp_index pdi (λ e. absurd (omega (arith, low, e))) in
      ap (λ c. (t.cell c temp_index).present) cr3_eq
      ∙ (add_table-Stays page_table vaddr prot s p fresh low).temp
          (ap (λ e. e.present) row ∙ rw differs p.temp)

  vmms_eq : t.vmms ≡ s.vmms
  unfolding clear_page put_entry
  vmms_eq = (add_table-Stays page_table vaddr prot s p fresh low).same_vmms

  -- An entry that is present is the new one or an old one.
  entry_cases :
      (j : ℕ)
      → (t.cell t.cr3 j).present ≡ true
      → ((j ≡ pdi) × ((t.cell t.cr3 j).address ≡ frame_of page_table))
        ⊎ ((t.cell t.cr3 j ≡ s.cell s.cr3 j) × ((s.cell s.cr3 j).present ≡ true))
  entry_cases j h = elim (Bool-cases (j == temp_index)) [
    | inl at ↦ absurd (
        absurd_bool temp_absent
          (subst (λ k. (t.cell t.cr3 k).present ≡ true) (to_equal j temp_index at) h))
    | inr off ↦ elim (Bool-cases (j == pdi)) [
      | inl new ↦
          let e = to_equal j pdi new in inl (e, ap (λ k. (t.cell t.cr3 k).address) e ∙ new_entry.1)
      | inr old ↦
          let same = row j (from_false j temp_index off) (from_false j pdi old) in
          inr (same, sym (ap (λ e. e.present) same) ∙ h)
    ]
  ]

  entries_apart :
      (i j : ℕ)
      → i ≢ j
      → (t.cell t.cr3 i).present ≡ true
      → (t.cell t.cr3 j).present ≡ true
      → (t.cell t.cr3 i).address ≢ (t.cell t.cr3 j).address
  entries_apart i j ne pi pj = elim (entry_cases i pi) [
    | inl (ei, ai) ↦ elim (entry_cases j pj) [
      | inl (ej, aj) ↦ absurd (ne (ei ∙ sym ej))
      | inr (same, h) ↦ (λ e. fresh.not_table j h (ap (λ x. x.address) (sym same) ∙ sym e ∙ ai))
    ]
    | inr (same, h) ↦ elim (entry_cases j pj) [
      | inl (ej, aj) ↦ (λ e. fresh.not_table i h (ap (λ x. x.address) (sym same) ∙ e ∙ aj))
      | inr (same_j, h_j) ↦ (λ e.
          p.apart i j ne h h_j (ap (λ x. x.address) (sym same) ∙ e ∙ ap (λ x. x.address) same_j))
    ]
  ]

  entry_tables :
      (i : ℕ)
      → i ≢ recursive_index
      → (t.cell t.cr3 i).present ≡ true
      → NotIn t.vmms (t.cell t.cr3 i).address
  entry_tables i ne h = elim (entry_cases i h) [
    | inl (e, a) ↦ rw (vmms_eq, a) fresh.not_other
    | inr (same, h) ↦ rw (vmms_eq, same) (p.tables i ne h)
  ]

  other_directories : AreOthers t.vmms t
  unfolding clear_page put_entry
  other_directories =
      subst (λ v. AreOthers v t) (sym vmms_eq)
        (Stays-AreOthers s.vmms s.vmms _ t (add_table-Stays page_table vaddr prot s p fresh low)
          (with_table-AreOthers page_table vaddr prot s p fresh low))

  pub add_table-IsPaged : IsPaged t
  add_table-IsPaged = record {
    recursive =
        Stays-IsRecursive s.vmms _ t (add_table-Stays page_table vaddr prot s p fresh low)
          (with_table-IsRecursive page_table vaddr prot s p fresh low);
    last =
        ap (λ x. x.present)
          (row recursive_index (λ e. absurd (omega (arith, e)))
            (λ e. absurd (omega (arith, low, e))))
        ∙ p.last;
    temp = temp_absent;
    others = other_directories;
    apart = entries_apart;
    tables = entry_tables;
  }

  -- Another fresh frame stays one.
  pub add_table-IsFresh : (g : ℕ) → IsFresh s g → frame_of page_table ≢ g → IsFresh t g
  add_table-IsFresh g h ne = record {
    not_directory = λ e. h.not_directory (e ∙ cr3_eq);
    not_table = λ i pr e. elim (entry_cases i pr) [
      | inl (at, new) ↦ ne (sym new ∙ e)
      | inr (same, pr') ↦ h.not_table i pr' (ap (λ x. x.address) (sym same) ∙ e)
    ];
    not_other = subst (λ v. NotIn v g) (sym vmms_eq) h.not_other;
  }

  pub add_table-translate :
      (a : ℕ)
      → (s.cell s.cr3 pdi).present ≡ false
      → index_in_pd a < temp_index
      → translate t a ≡ translate s a
  add_table-translate a absent user = elim (Bool-cases (index_in_pd a == pdi)) [
    | inl here ↦
        let e = to_equal (index_in_pd a) pdi here in
        let blank_entry =
          ap page_of (add_table_empty page_table vaddr prot s p fresh low (index_in_pt a)) in
        translate_entry t a (frame_of page_table)
          (ap (λ k. (t.cell t.cr3 k).present) e ∙ new_entry.0)
          (ap (λ k. (t.cell t.cr3 k).address) e ∙ new_entry.1)
        ∙ blank_entry
        ∙ sym (translate_absent s a (ap (λ k. (s.cell s.cr3 k).present) e ∙ absent))
    | inr there ↦
        translate_same s t a
          (row (index_in_pd a) (λ e. absurd (omega (arith, user, e)))
            (from_false (index_in_pd a) pdi there))
          (λ h.
            add_table_other page_table vaddr prot s p fresh low _ (index_in_pt a)
              (fresh.not_table (index_in_pd a) h) (not_cr3 s (index_in_pd a) p user h)
              (p.tables (index_in_pd a) (λ e. absurd (omega (arith, user, e))) h))
  ]
