-- ===== src/Mm/X86/Protect.antt =====
-- What `paging_update_prot` does to the entries of the page tables.
use dummy_os.Prelude.{
  ℕ, ◌<◌, ◌≡◌, ◌≢◌, ◌↔◌, refl, sym, ap, ◌∙◌, true, if◌then◌else◌, Option, none, some, arith,
  Bool-cases, inl, inr, Status, success, err, einval,
}
use dummy_os.Mm.X86.{
  Entry, Tables, index_in_pd, index_in_pt, temp_index, has_user, has_write, paging_update_prot,
}
use dummy_os.Mm.X86.Sync.{directory}
use dummy_os.Mm.X86.Translate.{translate, entry_at, IsPaged, table_at}
use dummy_os.Mm.X86.Entries.{
  translate_entry, translate_absent, entry_at_entry, entry_at_absent, page_of,
}
use dummy_os.Mm.X86.Table.{to_equal}
use dummy_os.Mm.X86.Map.{same_page, put_table-IsPaged, put_table-translate, put_table-entry_at}
use dummy_os.Mm.X86.Unmap.{same_behind}

-- An entry that is writable and the user's as `prot` says, and otherwise as it was.
abbrev pub with_prot : ℕ → Option Entry → Option Entry
with_prot prot none = none
with_prot prot (some e) = some (record e { read_write = has_write prot; user = has_user prot })

-- The protection of the page at `vaddr` is changed to `prot`: the entry of an address.
abbrev pub changed : ℕ → ℕ → Tables → ℕ → Option Entry
changed vaddr prot s a = if same_page a vaddr then with_prot prot (entry_at s a) else entry_at s a

-- What the call comes to for an address `a`.
pub record Protects (vaddr prot a : ℕ) (s : Tables) (r : Status) (t : Tables) : Type 0 where
  pub paged : IsPaged t
  pub entries : entry_at t a ≡ changed vaddr prot s a
  pub same : translate t a ≡ translate s a
  pub succeeds : (r ≡ success) ↔ (translate s vaddr ≢ none)

fails : {r : Option ℕ} → r ≡ none → (◌≡◌ {A = Status} (err einval) success) ↔ (r ≢ none)
fails e = (λ h. absurd (ground (arith, h)), λ h. absurd (h e))

entry_at_page :
    (s : Tables) (vaddr a : ℕ) → same_page a vaddr ≡ true → entry_at s a ≡ entry_at s vaddr
unfolding entry_at
entry_at_page s vaddr a same =
    let i = to_equal (index_in_pd a) (index_in_pd vaddr) (ground (arith, same)) in
    let j = to_equal (index_in_pt a) (index_in_pt vaddr) (ground (arith, same)) in rw (i, j) refl

-- The entry of the page is replaced by `r`, which is the old one with the new protection.
changed-page :
    (s : Tables) (vaddr prot a : ℕ) (r : Option Entry)
    → r ≡ with_prot prot (entry_at s vaddr)
    → (if same_page a vaddr then r else entry_at s a) ≡ changed vaddr prot s a
changed-page s vaddr prot a r e = elim (Bool-cases (same_page a vaddr)) [
  | inr other ↦ rw other refl
  | inl same ↦ rw same (e ∙ ap (with_prot prot) (sym (entry_at_page s vaddr a same)))
]

-- Without an entry there is nothing to change.
unchanged :
    (s : Tables) (vaddr prot a : ℕ)
    → entry_at s vaddr ≡ none
    → entry_at s a ≡ changed vaddr prot s a
unchanged s vaddr prot a e = elim (Bool-cases (same_page a vaddr)) [
  | inr other ↦ rw other refl
  | inl same ↦ let gone = entry_at_page s vaddr a same ∙ e in rw (same, gone) refl
]

refused :
    (s : Tables) (vaddr prot a : ℕ)
    → IsPaged s
    → entry_at s vaddr ≡ none
    → translate s vaddr ≡ none
    → Protects vaddr prot a s (err einval) s
refused s vaddr prot a p e behind = record {
  paged = p;
  entries = unchanged s vaddr prot a e;
  same = refl;
  succeeds = fails behind;
}

-- Where the tables are apart from each other, and for a page below the two recursive windows,
-- `paging_update_prot` keeps them apart; the entries of the addresses of the page, where there are
-- any, become writable and the user's just as `prot` says and keep all else, other entries stay;
-- the translation of every address is as it was; and the call succeeds if and only if there is
-- something behind the page.
pub paging_update_prot-Protects :
    (vaddr prot a : ℕ) (s : Tables)
    → IsPaged s
    → index_in_pd vaddr < temp_index
    → Protects vaddr prot a s
        (paging_update_prot vaddr prot s).0
        (paging_update_prot vaddr prot s).1
unfolding paging_update_prot
paging_update_prot-Protects vaddr prot a s p low =
    let i = index_in_pd vaddr in
    let pti = index_in_pt vaddr in
    let dir = directory s p.recursive in
    let at = table_at s i p.recursive in
    let table = (s.cell s.cr3 i).address in
    elim (Bool-cases (s.cell s.cr3 i).present) [
      | inr absent ↦
          rw (dir, absent)
            (refused s vaddr prot a p (entry_at_absent s vaddr absent)
              (translate_absent s vaddr absent))
      | inl has ↦
          let reads = translate_entry s vaddr table has refl in
          let finds = entry_at_entry s vaddr table has refl in
          elim (Bool-cases (s.cell table pti).present) [
            | inr free ↦
                let behind : translate s vaddr ≡ none = rw (reads, free) refl in
                let gone : entry_at s vaddr ≡ none = rw (finds, free) refl in
                rw (dir, has, at, free) (refused s vaddr prot a p gone behind)
            | inl mapped ↦
                let behind : translate s vaddr ≡ some (s.cell table pti).address =
                  rw (reads, mapped) refl in
                let found : entry_at s vaddr ≡ some (s.cell table pti) =
                  finds ∙ ap (λ b. if b then some (s.cell table pti) else none) mapped in
                let e : Entry = record (s.cell table pti) {
                  present = true;
                  read_write = has_write prot;
                  user = has_user prot;
                } in
                let page : page_of e ≡ translate s vaddr = sym behind in
                let new : some e ≡ with_prot prot (entry_at s vaddr) =
                  ap
                    (λ b. some (record (s.cell table pti) {
                      present = b;
                      read_write = has_write prot;
                      user = has_user prot;
                    }))
                    (sym mapped)
                  ∙ ap (with_prot prot) (sym found) in
                rw (dir, has, at, mapped)
                  (record {
                    paged = put_table-IsPaged vaddr s p low has pti e;
                    entries =
                        put_table-entry_at vaddr s p low has e a
                        ∙ changed-page s vaddr prot a (some e) new;
                    same =
                        put_table-translate vaddr s p low has e a
                        ∙ ap (λ x. if same_page a vaddr then x else translate s a) page
                        ∙ same_behind s vaddr a;
                    succeeds = (λ h e. absurd (ground (arith, behind, e)), λ h. refl);
                  })
          ]
    ]
