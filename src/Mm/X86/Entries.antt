-- ===== src/Mm/X86/Entries.antt =====
-- What the search for the entry of an address reads, and the translation.
use dummy_os.Prelude.{
  ℕ, ◌≡◌, refl, sym, ap, ◌∙◌, true, false, if◌then◌else◌, Option, none, some, Bool-cases, inl, inr,
}
use dummy_os.Mm.X86.{Entry, Tables, index_in_pd, index_in_pt}
use dummy_os.Mm.X86.Translate.{translate, entry_at}

abbrev pub address_of : Option Entry → Option ℕ
address_of none = none
address_of (some e) = some e.address

-- The frame behind an address is the one of its entry.
pub translate-entry_at : (s : Tables) (a : ℕ) → translate s a ≡ address_of (entry_at s a)
unfolding translate entry_at
translate-entry_at s a = elim (Bool-cases (s.cell s.cr3 (index_in_pd a)).present) [
  | inr out ↦ rw out refl
  | inl has ↦
      elim (Bool-cases (s.cell (s.cell s.cr3 (index_in_pd a)).address (index_in_pt a)).present) [
        | inl page ↦ rw (has, page) refl
        | inr free ↦ rw (has, free) refl
      ]
]

-- What the search for the entry reads.
pub entry_at_same :
    (s t : Tables) (a : ℕ)
    → t.cell t.cr3 (index_in_pd a) ≡ s.cell s.cr3 (index_in_pd a)
    → ((s.cell s.cr3 (index_in_pd a)).present ≡ true
        → t.cell (s.cell s.cr3 (index_in_pd a)).address (index_in_pt a)
          ≡ s.cell (s.cell s.cr3 (index_in_pd a)).address (index_in_pt a))
    → entry_at t a ≡ entry_at s a
unfolding entry_at
entry_at_same s t a same cell = elim (Bool-cases (s.cell s.cr3 (index_in_pd a)).present) [
  | inl h ↦ rw (same, cell h) refl
  | inr h ↦ rw (same, h) refl
]

pub entry_at_absent :
    (s : Tables) (a : ℕ) → (s.cell s.cr3 (index_in_pd a)).present ≡ false → entry_at s a ≡ none
unfolding entry_at
entry_at_absent s a h = rw h refl

-- The entry, if it is present.
abbrev pub kept : Entry → Option Entry
kept e = if e.present then some e else none

pub entry_at_entry :
    (s : Tables) (a f : ℕ)
    → (s.cell s.cr3 (index_in_pd a)).present ≡ true
    → (s.cell s.cr3 (index_in_pd a)).address ≡ f
    → entry_at s a ≡ kept (s.cell f (index_in_pt a))
unfolding entry_at
entry_at_entry s a f h e = rw (h, e) refl

-- What the translation reads.
pub translate_same :
    (s t : Tables) (a : ℕ)
    → t.cell t.cr3 (index_in_pd a) ≡ s.cell s.cr3 (index_in_pd a)
    → ((s.cell s.cr3 (index_in_pd a)).present ≡ true
        → t.cell (s.cell s.cr3 (index_in_pd a)).address (index_in_pt a)
          ≡ s.cell (s.cell s.cr3 (index_in_pd a)).address (index_in_pt a))
    → translate t a ≡ translate s a
translate_same s t a same cell =
    translate-entry_at t a
    ∙ ap address_of (entry_at_same s t a same cell)
    ∙ sym (translate-entry_at s a)

pub translate_absent :
    (s : Tables) (a : ℕ) → (s.cell s.cr3 (index_in_pd a)).present ≡ false → translate s a ≡ none
unfolding translate
translate_absent s a h = rw h refl

-- The entry of a page table, as a translation.
abbrev pub page_of : Entry → Option ℕ
page_of e = if e.present then some e.address else none

pub translate_entry :
    (s : Tables) (a f : ℕ)
    → (s.cell s.cr3 (index_in_pd a)).present ≡ true
    → (s.cell s.cr3 (index_in_pd a)).address ≡ f
    → translate s a ≡ page_of (s.cell f (index_in_pt a))
unfolding translate
translate_entry s a f h e = rw (h, e) refl
