-- ===== src/Mm/X86/Translate.antt =====
-- The translation of addresses by the tables, and what keeps the tables apart.
use dummy_os.Prelude.{
  ℕ, ◌<◌, ◌≡◌, ◌≢◌, refl, sym, ap, ◌∙◌, subst, true, false, ◌&&◌, List, [], ◌∷◌, ◌==◌,
  if◌then◌else◌, Option, none, some, arith, Bool-cases, inl, inr,
}
use dummy_os.Mm.Kheap.{vmm_is_userspace_address}
use dummy_os.Mm.X86.{
  Entry, Tables, put_entry, clear_page, blank, frame_of, index_in_pd, index_in_pt, recursive_index,
  temp_index, has_user, get_page_table, vmm_sync_kernel_space, add_table,
}
use dummy_os.Mm.X86.Cells.{put_self, put_frame, clear_page_self, clear_page_frame}
use dummy_os.Mm.X86.Sync.{
  IsRecursive, NotIn, AreOthers, Stays, Stays-refl, directory, put_entry-IsRecursive,
  vmm_sync_kernel_space-Stays,
}

-- The entry of the page table for an address, if both entries are present.
unfoldable pub entry_at : Tables → ℕ → Option Entry
entry_at s a =
    let pde = s.cell s.cr3 (index_in_pd a) in
    let pte = s.cell pde.address (index_in_pt a) in
    if pde.present && pte.present then some pte else none

-- The frame behind an address, if both entries are present.
unfoldable pub translate : Tables → ℕ → Option ℕ
translate s a =
    let pde = s.cell s.cr3 (index_in_pd a) in
    let pte = s.cell pde.address (index_in_pt a) in
    if pde.present && pte.present then some pte.address else none

-- Each entry of the directory has a table of its own, and the other directories are apart from it.
pub record IsPaged (s : Tables) : Type 0 where
  pub recursive : IsRecursive s
  pub last : (s.cell s.cr3 recursive_index).present ≡ true
  pub temp : (s.cell s.cr3 temp_index).present ≡ false
  pub others : AreOthers s.vmms s
  pub apart :
      (i j : ℕ)
      → i ≢ j
      → (s.cell s.cr3 i).present ≡ true
      → (s.cell s.cr3 j).present ≡ true
      → (s.cell s.cr3 i).address ≢ (s.cell s.cr3 j).address
  pub tables :
      (i : ℕ)
      → i ≢ recursive_index
      → (s.cell s.cr3 i).present ≡ true
      → NotIn s.vmms (s.cell s.cr3 i).address

-- No directory and no table is in the frame.
pub record IsFresh (s : Tables) (f : ℕ) : Type 0 where
  pub not_directory : f ≢ s.cr3
  pub not_table : (i : ℕ) → (s.cell s.cr3 i).present ≡ true → (s.cell s.cr3 i).address ≢ f
  pub not_other : NotIn s.vmms f

pub table_at : (s : Tables) (i : ℕ) → IsRecursive s → get_page_table s i ≡ (s.cell s.cr3 i).address
unfolding get_page_table
table_at s i r = ap (λ f. (s.cell f i).address) r

directory_out : (os : List ℕ) (s : Tables) → AreOthers os s → NotIn os s.cr3
directory_out [] s h = tt
directory_out (o ∷ os) s (apart, own, h) = (λ e. apart (sym e), directory_out os s h)

-- The last entries of the other directories have not changed.
pub same_others :
    (os : List ℕ) (s t : Tables) (f : ℕ)
    → t.cr3 ≡ s.cr3
    → NotIn os f
    → ((g : ℕ) → g ≢ f → t.cell g recursive_index ≡ s.cell g recursive_index)
    → AreOthers os s
    → AreOthers os t
same_others [] s t f e out same h = tt
same_others (o ∷ os) s t f e (differs, out) same (apart, own, h) = (
  λ k. apart (k ∙ e),
  ap (λ x. x.address) (same (frame_of o) (λ k. differs (sym k))) ∙ own,
  same_others os s t f e out same h,
)

module _ (page_table vaddr prot : ℕ) (s : Tables) (p : IsPaged s)
    (fresh : IsFresh s (frame_of page_table)) (low : index_in_pd vaddr < temp_index) where
  abbrev pdi : ℕ
  pdi = index_in_pd vaddr

  abbrev f : ℕ
  f = frame_of page_table

  abbrev entry : Entry
  entry = record (s.cell s.cr3 pdi) {
    present = true;
    read_write = true;
    user = has_user prot;
    address = f;
  }

  -- The directory with its new entry, and the empty table.
  abbrev with_table : Tables
  with_table = clear_page f (put_entry s.cr3 pdi entry s)

  pub with_table_row :
      (j : ℕ) → with_table.cell s.cr3 j ≡ (if j == pdi then entry else s.cell s.cr3 j)
  unfolding clear_page put_entry
  with_table_row j = ground (arith, fresh.not_directory)

  with_table_last : (g : ℕ) → g ≢ f → with_table.cell g recursive_index ≡ s.cell g recursive_index
  unfolding clear_page put_entry
  with_table_last g other = ground (arith, other, low)

  pub with_table-IsRecursive : IsRecursive with_table
  unfolding clear_page put_entry
  with_table-IsRecursive =
      ap (λ x. x.address) (with_table_last s.cr3 (λ e. fresh.not_directory (sym e))) ∙ p.recursive

  abbrev done : Tables
  done = add_table page_table vaddr prot s

  add_table-with_table : done ≡ (
      if vmm_is_userspace_address vaddr
      then with_table
      else vmm_sync_kernel_space s.vmms pdi with_table)
  unfolding add_table put_entry
  add_table-with_table =
      let s1 = put_entry s.cr3 pdi entry s in
      let at : get_page_table s1 pdi ≡ f =
        table_at s1 pdi (put_entry-IsRecursive s.cr3 pdi entry s (omega (arith, low)) p.recursive)
        ∙ ap (λ x. x.address) (put_self s.cr3 pdi entry s) in
      rw (directory s p.recursive, at) refl

  pub with_table-AreOthers : AreOthers s.vmms with_table
  unfolding clear_page put_entry
  with_table-AreOthers =
      same_others s.vmms s with_table f refl fresh.not_other with_table_last p.others

  pub add_table-Stays : Stays s.vmms with_table done
  add_table-Stays =
      subst (λ t. Stays s.vmms with_table t) (sym add_table-with_table)
        (elim (Bool-cases (vmm_is_userspace_address vaddr)) [
          | inl u ↦ rw u (Stays-refl s.vmms with_table)
          | inr k ↦ rw k (
              vmm_sync_kernel_space-Stays s.vmms pdi with_table with_table-IsRecursive
                with_table-AreOthers low)
        ])

  pub done_cr3 : done.cr3 ≡ s.cr3
  unfolding clear_page put_entry
  done_cr3 = add_table-Stays.same_cr3

  -- The directory afterwards.
  pub add_table_row :
      (j : ℕ) → j ≢ temp_index → done.cell s.cr3 j ≡ (if j == pdi then entry else s.cell s.cr3 j)
  unfolding clear_page put_entry
  add_table_row j other =
      add_table-Stays.cells s.cr3 j (directory_out s.vmms s p.others) (λ (e, k). other k)
      ∙ with_table_row j

  -- The new table is empty.
  pub add_table_empty : (j : ℕ) → done.cell f j ≡ blank
  unfolding clear_page put_entry
  add_table_empty j =
      add_table-Stays.cells f j fresh.not_other (λ (e, k). fresh.not_directory e)
      ∙ clear_page_self f j (put_entry s.cr3 pdi entry s)

  -- Other tables stay.
  pub add_table_other : (g j : ℕ) → g ≢ f → g ≢ s.cr3 → NotIn s.vmms g → done.cell g j ≡ s.cell g j
  unfolding clear_page put_entry
  add_table_other g j new dir out =
      add_table-Stays.cells g j out (λ (e, k). dir e)
      ∙ clear_page_frame f g j (put_entry s.cr3 pdi entry s) new
      ∙ put_frame s.cr3 g pdi j entry s dir
