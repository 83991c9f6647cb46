-- ===== src/Mm/X86/Map.antt =====
-- What `paging_map` and `paging_unmap` do to the translation of addresses.
use dummy_os.Prelude.{
  ℕ, ◌<◌, ◌≡◌, ◌≢◌, ◌⊎◌, refl, sym, ap, ◌∙◌, subst, Bool, true, ◌&&◌, ◌==◌, if◌then◌else◌, some,
  arith, Bool-cases, inl, inr, Status, success, err, efault, enomem, Errno,
}
use dummy_os.Mm.Memory.{Memory, memory_page_frame_alloc}
use dummy_os.Mm.X86.{
  Entry, Tables, put_entry, frame_of, index_in_pd, index_in_pt, recursive_index, temp_index,
  has_user, has_write, add_table, set_page, paging_map,
}
use dummy_os.Mm.X86.Cells.{put_self, put_frame, put_index}
use dummy_os.Mm.X86.Sync.{NotIn, directory}
use dummy_os.Mm.X86.Translate.{translate, entry_at, IsPaged, IsFresh, table_at, same_others}
use dummy_os.Mm.X86.Entries.{
  entry_at_same, entry_at_entry, translate-entry_at, address_of, kept, page_of,
}
use dummy_os.Mm.X86.Table.{
  not_cr3, to_equal, from_false, new_entry, add_table-IsPaged, add_table-translate,
}

-- The addresses are in the same page.
abbrev pub same_page : ℕ → ℕ → Bool
same_page a v = (index_in_pd a == index_in_pd v) && (index_in_pt a == index_in_pt v)

address_of-kept : (e : Entry) → address_of (kept e) ≡ page_of e
address_of-kept e = elim (Bool-cases e.present) [ inl h ↦ rw h refl | inr h ↦ rw h refl ]

module _ (vaddr : ℕ) (s : Tables) (p : IsPaged s) (low : index_in_pd vaddr < temp_index)
    (has : (s.cell s.cr3 (index_in_pd vaddr)).present ≡ true) where
  abbrev pub table : ℕ
  table = (s.cell s.cr3 (index_in_pd vaddr)).address

  apart_from : s.cr3 ≢ table
  apart_from e = not_cr3 s (index_in_pd vaddr) p low has (sym e)

  pub same_row : (i j : ℕ) (e : Entry) → (put_entry table i e s).cell s.cr3 j ≡ s.cell s.cr3 j
  same_row i j e = put_frame table s.cr3 i j e s apart_from

  pub put_table-IsPaged : (i : ℕ) (e : Entry) → IsPaged (put_entry table i e s)
  unfolding put_entry
  put_table-IsPaged i e = record {
    recursive = ap (λ x. x.address) (same_row i recursive_index e) ∙ p.recursive;
    last = ap (λ x. x.present) (same_row i recursive_index e) ∙ p.last;
    temp = ap (λ x. x.present) (same_row i temp_index e) ∙ p.temp;
    others =
        same_others s.vmms s (put_entry table i e s) table refl
          (p.tables (index_in_pd vaddr) (λ k. absurd (omega (arith, low, k))) has)
          (λ g other. put_frame table g i recursive_index e s other) p.others;
    apart = λ k j ne pk pj q.
        p.apart k j ne (sym (ap (λ x. x.present) (same_row i k e)) ∙ pk)
          (sym (ap (λ x. x.present) (same_row i j e)) ∙ pj)
          (sym (ap (λ x. x.address) (same_row i k e)) ∙ q ∙ ap (λ x. x.address) (same_row i j e));
    tables = λ k ne pk.
        subst (NotIn s.vmms) (sym (ap (λ x. x.address) (same_row i k e)))
          (p.tables k ne (sym (ap (λ x. x.present) (same_row i k e)) ∙ pk));
  }

  pub put_table-entry_at :
      (e : Entry) (a : ℕ)
      → entry_at (put_entry table (index_in_pt vaddr) e s) a
        ≡ (if same_page a vaddr then kept e else entry_at s a)
  unfolding put_entry
  put_table-entry_at e a =
      let pti = index_in_pt vaddr in
      let i = index_in_pd a in
      let t = put_entry table pti e s in
      elim (Bool-cases (i == index_in_pd vaddr)) [
        | inr there ↦ rw there (
            entry_at_same s t a (same_row pti i e) (λ h.
              put_frame table (s.cell s.cr3 i).address pti (index_in_pt a) e s
                (p.apart i (index_in_pd vaddr) (from_false i (index_in_pd vaddr) there) h has)))
        | inl here ↦
            let at = to_equal i (index_in_pd vaddr) here in
            let row = same_row pti i e ∙ ap (s.cell s.cr3) at in
            let reads =
              entry_at_entry t a table (ap (λ x. x.present) row ∙ has) (ap (λ x. x.address) row) in
            elim (Bool-cases (index_in_pt a == pti)) [
              | inl page ↦
                  rw (here, page)
                    (reads
                      ∙ ap (λ k. kept (t.cell table k)) (to_equal (index_in_pt a) pti page)
                      ∙ ap kept (put_self table pti e s))
              | inr other ↦
                  rw (here, other)
                    (reads
                      ∙ ap kept (
                          put_index table table pti (index_in_pt a) e s
                            (from_false (index_in_pt a) pti other))
                      ∙ sym (
                          entry_at_entry s a table (ap (λ k. (s.cell s.cr3 k).present) at ∙ has)
                            (ap (λ k. (s.cell s.cr3 k).address) at)))
            ]
      ]

  pub put_table-translate :
      (e : Entry) (a : ℕ)
      → translate (put_entry table (index_in_pt vaddr) e s) a
        ≡ (if same_page a vaddr then page_of e else translate s a)
  put_table-translate e a =
      translate-entry_at (put_entry table (index_in_pt vaddr) e s) a
      ∙ ap address_of (put_table-entry_at e a)
      ∙ (elim (Bool-cases (same_page a vaddr)) [
        | inr other ↦ rw other (sym (translate-entry_at s a))
        | inl same ↦ rw same (address_of-kept e)
      ])

  pub set_page_cases :
      (paddr prot : ℕ)
      → (set_page paddr vaddr prot s ≡ (err efault, s))
        ⊎ ((e : Entry) × (set_page paddr vaddr prot s
              ≡ (success, put_entry table (index_in_pt vaddr) e s))
            × (page_of e ≡ some (frame_of paddr)))
  unfolding set_page
  set_page_cases paddr prot =
      let pti = index_in_pt vaddr in
      let at = table_at s (index_in_pd vaddr) p.recursive in
      elim (Bool-cases (s.cell table pti).present) [
        | inl taken ↦ inl (rw (at, taken) refl)
        | inr free ↦ inr (
          record (s.cell table pti) {
            present = true;
            read_write = has_write prot;
            user = has_user prot;
            address = frame_of paddr;
          },
          rw (at, free) refl,
          refl,
        )
      ]

-- What a call that maps or does not map a page comes to, for an address `a`: the new tables are still
-- apart, and the page is mapped with the rest as before, or there is an error with all as before.
abbrev pub Maps : ℕ → ℕ → ℕ → Tables → Status → Tables → Type 0
Maps paddr vaddr a s r t =
    IsPaged t
    × (((r ≡ success)
          × (translate t a ≡ (if same_page a vaddr then some (frame_of paddr) else translate s a)))
        ⊎ ((e : Errno) × (r ≡ err e) × (translate t a ≡ translate s a)))

set_page-Maps :
    (paddr vaddr prot a : ℕ) (s : Tables)
    → IsPaged s
    → index_in_pd vaddr < temp_index
    → index_in_pd a < temp_index
    → (s.cell s.cr3 (index_in_pd vaddr)).present ≡ true
    → Maps paddr vaddr a s (set_page paddr vaddr prot s).0 (set_page paddr vaddr prot s).1
set_page-Maps paddr vaddr prot a s p low user has =
    elim (set_page_cases vaddr s p low has paddr prot) [
      | inl refused ↦
          subst (λ r. Maps paddr vaddr a s r.0 r.1) (sym refused) (p, inr (efault, refl, refl))
      | inr (e, mapped, page) ↦
          subst (λ r. Maps paddr vaddr a s r.0 r.1) (sym mapped)
            (
              put_table-IsPaged vaddr s p low has (index_in_pt vaddr) e,
              inl (
                refl,
                put_table-translate vaddr s p low has e a
                    ∙ ap (λ x. if same_page a vaddr then x else translate s a) page,
              ),
            )
    ]

-- Where the tables are apart from each other and a frame that is allocated is apart from them, and
-- below the two recursive windows, `paging_map` keeps the tables apart, and an address is translated
-- as before, but for the addresses of the page when the call succeeds: the new frame is behind them.
pub paging_map-Maps :
    (paddr vaddr prot a : ℕ) (m : Memory) (s : Tables)
    → IsPaged s
    → ((memory_page_frame_alloc m).0 ≢ 0 → IsFresh s (frame_of (memory_page_frame_alloc m).0))
    → index_in_pd vaddr < temp_index
    → index_in_pd a < temp_index
    → Maps paddr vaddr a s
        (paging_map paddr vaddr prot (m, s)).0
        (paging_map paddr vaddr prot (m, s)).1.1
unfolding paging_map
paging_map-Maps paddr vaddr prot a m s p fresh low user =
    let new = (memory_page_frame_alloc m).0 in
    let dir = directory s p.recursive in
    elim (Bool-cases (s.cell s.cr3 (index_in_pd vaddr)).present) [
      | inl has ↦ rw (dir, has) (set_page-Maps paddr vaddr prot a s p low user has)
      | inr absent ↦ elim (Bool-cases (new == 0)) [
        | inl none_left ↦ rw (dir, absent, none_left) (p, inr (enomem, refl, refl))
        | inr got ↦
            let f = fresh (from_false new 0 got) in
            let t = add_table new vaddr prot s in
            let same = add_table-translate new vaddr prot s p f low a absent user in
            rw (dir, absent, got, sym same)
              (set_page-Maps paddr vaddr prot a t (add_table-IsPaged new vaddr prot s p f low) low
                user (new_entry new vaddr prot s p f low).0)
      ]
    ]
