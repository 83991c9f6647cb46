-- ===== src/Mm/X86/Unmap.antt =====
-- What `paging_unmap` does to the translation of addresses.
use dummy_os.Prelude.{
  ℕ, ◌<◌, ◌≡◌, ◌≢◌, ◌↔◌, refl, sym, ap, ap₂, ◌∙◌, ◌&&◌, if◌then◌else◌, Option, none, some, arith,
  Bool-cases, inl, inr, Status, success, err, efault,
}
use dummy_os.Mm.X86.{Tables, blank, index_in_pd, index_in_pt, temp_index, paging_unmap}
use dummy_os.Mm.X86.Sync.{directory}
use dummy_os.Mm.X86.Translate.{translate, IsPaged, table_at}
use dummy_os.Mm.X86.Entries.{translate_entry, translate_absent}
use dummy_os.Mm.X86.Table.{to_equal}
use dummy_os.Mm.X86.Map.{same_page, put_table-IsPaged, put_table-translate}

moved :
    (s : Tables) (a b : ℕ)
    → index_in_pd a ≡ index_in_pd b
    → index_in_pt a ≡ index_in_pt b
    → translate s a ≡ translate s b
unfolding translate
moved s a b i j =
    ap₂
      (λ k l.
        if (s.cell s.cr3 k).present && (s.cell (s.cell s.cr3 k).address l).present
        then some (s.cell (s.cell s.cr3 k).address l).address
        else none)
      i j

-- What is behind an address of the page is behind all of them.
pub same_behind :
    (s : Tables) (vaddr a : ℕ)
    → (if same_page a vaddr then translate s vaddr else translate s a) ≡ translate s a
same_behind s vaddr a = elim (Bool-cases (same_page a vaddr)) [
  | inr other ↦ rw other refl
  | inl same ↦
      let i = to_equal (index_in_pd a) (index_in_pd vaddr) (ground (arith, same)) in
      let j = to_equal (index_in_pt a) (index_in_pt vaddr) (ground (arith, same)) in
      rw same (sym (moved s a vaddr i j))
]

-- Addresses of one page have the same frame behind them.
nothing_behind :
    (s : Tables) (vaddr a : ℕ)
    → translate s vaddr ≡ none
    → translate s a ≡ (if same_page a vaddr then none else translate s a)
nothing_behind s vaddr a e =
    sym (same_behind s vaddr a) ∙ ap (λ x. if same_page a vaddr then x else translate s a) e

fails : {r : Option ℕ} → r ≡ none → (◌≡◌ {A = Status} (err efault) success) ↔ (r ≢ none)
fails e = (λ h. absurd (err_ok h), λ h. absurd (h e))
  where
    err_ok : ¬ (◌≡◌ {A = Status} (err efault) success)
    err_ok h = ground arith

something : {f : ℕ} → ¬ (some f ≡ none)
something h = ground arith

-- Where the tables are apart from each other, and below the two recursive windows, `paging_unmap`
-- keeps them apart, and leaves nothing behind the addresses of the page and other addresses as they
-- were; it fails, and changes nothing, only if the page had nothing behind it.
pub paging_unmap-Unmaps :
    (vaddr a : ℕ) (s : Tables)
    → IsPaged s
    → index_in_pd vaddr < temp_index
    → index_in_pd a < temp_index
    → IsPaged (paging_unmap vaddr s).1
      × (translate (paging_unmap vaddr s).1 a ≡ (if same_page a vaddr then none else translate s a))
      × (((paging_unmap vaddr s).0 ≡ success) ↔ (translate s vaddr ≢ none))
unfolding paging_unmap
paging_unmap-Unmaps vaddr a s p low user =
    let i = index_in_pd vaddr in
    let pti = index_in_pt vaddr in
    let dir = directory s p.recursive in
    let at = table_at s i p.recursive in
    let table = (s.cell s.cr3 i).address in
    elim (Bool-cases (s.cell s.cr3 i).present) [
      | inr absent ↦
          let behind = translate_absent s vaddr absent in
          rw (dir, absent) (p, nothing_behind s vaddr a behind, fails behind)
      | inl has ↦
          let reads = translate_entry s vaddr table has refl in
          elim (Bool-cases (s.cell table pti).present) [
            | inr free ↦
                let behind : translate s vaddr ≡ none = rw (reads, free) refl in
                rw (dir, has, at, free) (p, nothing_behind s vaddr a behind, fails behind)
            | inl mapped ↦
                let behind : translate s vaddr ≡ some (s.cell table pti).address =
                  rw (reads, mapped) refl in
                rw (dir, has, at, mapped)
                  (
                    put_table-IsPaged vaddr s p low has pti blank,
                    put_table-translate vaddr s p low has blank a,
                    (λ h e. something (sym behind ∙ e), λ h. refl),
                  )
          ]
    ]
