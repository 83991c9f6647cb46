-- ===== src/Mm/X86/Sync.antt =====
-- The entries that `vmm_sync_kernel_space` leaves alone.
use dummy_os.Prelude.{
  ℕ, ◌<◌, ◌≡◌, ◌≢◌, refl, sym, ap, ◌∙◌, subst, true, false, List, [], ◌∷◌, arith,
}
use dummy_os.Mm.X86.{
  Entry, Tables, put_entry, blank, frame_of, recursive_index, temp_index, get_page_directory,
  get_temp_page_directory, make_recursive_entry, clear_recursive_entry, setup_temp_recursive_entry,
  reset_temp_recursive_entry, paging_sync_kernel_space, vmm_sync_kernel_space,
}
use dummy_os.Mm.X86.Cells.{put_self, put_index}

-- The page directory is visible through its own last entry.
abbrev pub IsRecursive : Tables → Type 0
IsRecursive s = (s.cell s.cr3 recursive_index).address ≡ s.cr3

-- The frame is none of those of the page directories.
abbrev pub NotIn : List ℕ → ℕ → Type 0
NotIn [] f = Unit
NotIn (o ∷ os) f = (f ≢ frame_of o) × NotIn os f

-- The other page directories are apart from the current one, and have recursive entries too.
abbrev pub AreOthers : List ℕ → Tables → Type 0
AreOthers [] s = Unit
AreOthers (o ∷ os) s =
    (frame_of o ≢ s.cr3)
    × ((s.cell (frame_of o) recursive_index).address ≡ frame_of o)
    × AreOthers os s

-- What stays, but for the entries of the directories `vmms`.
pub record Stays (vmms : List ℕ) (s t : Tables) : Type 0 where
  pub same_cr3 : t.cr3 ≡ s.cr3
  pub same_vmms : t.vmms ≡ s.vmms
  pub cells :
      (f j : ℕ) → NotIn vmms f → ¬ ((f ≡ s.cr3) × (j ≡ temp_index)) → t.cell f j ≡ s.cell f j
  pub lasts : (f : ℕ) → t.cell f recursive_index ≡ s.cell f recursive_index
  pub temp : (s.cell s.cr3 temp_index).present ≡ false → (t.cell s.cr3 temp_index).present ≡ false

pub directory : (s : Tables) → IsRecursive s → get_page_directory s ≡ s.cr3
unfolding get_page_directory
directory s r = ap (λ f. (s.cell f recursive_index).address) r ∙ r

pub put_entry-IsRecursive :
    (f i : ℕ) (e : Entry) (s : Tables)
    → i < recursive_index
    → IsRecursive s
    → IsRecursive (put_entry f i e s)
unfolding put_entry
put_entry-IsRecursive f i e s low r =
    ap (λ x. x.address)
      (put_index f s.cr3 i recursive_index e s (λ h. absurd (omega (arith, low, h))))
    ∙ r

-- The state after the synchronization of one directory `o`, whose frame is `f`.
abbrev synced : ℕ → ℕ → ℕ → Tables → Tables
synced o f pdi s =
    let s1 = make_recursive_entry s.cr3 o temp_index s in
    put_entry s.cr3 temp_index blank (put_entry f pdi (s1.cell s.cr3 pdi) s1)

module _ (o pdi : ℕ) (s : Tables) (r : IsRecursive s) (apart : frame_of o ≢ s.cr3)
    (own : (s.cell (frame_of o) recursive_index).address ≡ frame_of o)
    (low : pdi < temp_index) where
  temp_directory : get_temp_page_directory (make_recursive_entry s.cr3 o temp_index s) ≡ frame_of o
  unfolding get_temp_page_directory make_recursive_entry put_entry
  temp_directory =
      let e : Entry = record (s.cell s.cr3 temp_index) {
        present = true;
        read_write = true;
        user = false;
        address = frame_of o;
      } in
      let s1 = put_entry s.cr3 temp_index e s in
      ap (λ x. (s1.cell x.address recursive_index).address) (put_self s.cr3 temp_index e s)
      ∙ ap (λ x. x.address)
          (put_index s.cr3 (frame_of o) temp_index recursive_index e s (λ h. ground arith))
      ∙ own

  sync_one-synced : paging_sync_kernel_space o pdi s ≡ synced o (frame_of o) pdi s
  unfolding paging_sync_kernel_space setup_temp_recursive_entry make_recursive_entry
      reset_temp_recursive_entry clear_recursive_entry put_entry
  sync_one-synced =
      let s1 = make_recursive_entry s.cr3 o temp_index s in
      let s2 = put_entry (frame_of o) pdi (s1.cell s.cr3 pdi) s1 in
      let r1 : IsRecursive s1 = put_entry-IsRecursive s.cr3 temp_index _ s (omega arith) r in
      let r2 : IsRecursive s2 =
        put_entry-IsRecursive (frame_of o) pdi _ s1 (omega (arith, low)) r1 in
      rw (directory s r, directory s1 r1, temp_directory, directory s2 r2) refl

  sync_one : Stays (o ∷ []) s (synced o (frame_of o) pdi s)
  unfolding put_entry make_recursive_entry
  sync_one = record {
    same_cr3 = refl;
    same_vmms = refl;
    cells = λ f j out other. ground (arith, out, other);
    lasts = λ f. ground (arith, low);
    temp = λ h. ground arith;
  }

Stays-cons :
    (o : ℕ) (os : List ℕ) (s t u : Tables) → Stays (o ∷ []) s t → Stays os t u → Stays (o ∷ os) s u
Stays-cons o os s t u a b = record {
  same_cr3 = b.same_cr3 ∙ a.same_cr3;
  same_vmms = b.same_vmms ∙ a.same_vmms;
  cells = λ f j (out, outs) other.
      b.cells f j outs (λ (e, k). other (e ∙ a.same_cr3, k)) ∙ a.cells f j (out, tt) other;
  lasts = λ f. b.lasts f ∙ a.lasts f;
  temp = λ h.
      subst (λ c. (u.cell c temp_index).present ≡ false) a.same_cr3
        (b.temp (subst (λ c. (t.cell c temp_index).present ≡ false) (sym a.same_cr3) (a.temp h)));
}

pub Stays-refl : (vmms : List ℕ) (s : Tables) → Stays vmms s s
Stays-refl vmms s = record {
  same_cr3 = refl;
  same_vmms = refl;
  cells = λ f j outs other. refl;
  lasts = λ f. refl;
  temp = λ h. h;
}

pub Stays-IsRecursive :
    (vmms : List ℕ) (s t : Tables) → Stays vmms s t → IsRecursive s → IsRecursive t
Stays-IsRecursive vmms s t k r =
    ap (λ x. x.address) (k.lasts t.cr3)
    ∙ ap (λ c. (s.cell c recursive_index).address) k.same_cr3
    ∙ r
    ∙ sym k.same_cr3

pub Stays-AreOthers :
    (vmms os : List ℕ) (s t : Tables) → Stays vmms s t → AreOthers os s → AreOthers os t
Stays-AreOthers vmms [] s t k h = tt
Stays-AreOthers vmms (o ∷ os) s t k (apart, own, h) = (
  λ e. apart (e ∙ k.same_cr3),
  ap (λ x. x.address) (k.lasts (frame_of o)) ∙ own,
  Stays-AreOthers vmms os s t k h,
)

pub vmm_sync_kernel_space-Stays :
    (os : List ℕ) (pdi : ℕ) (s : Tables)
    → IsRecursive s
    → AreOthers os s
    → pdi < temp_index
    → Stays os s (vmm_sync_kernel_space os pdi s)
unfolding vmm_sync_kernel_space
vmm_sync_kernel_space-Stays [] pdi s r h low = Stays-refl [] s
vmm_sync_kernel_space-Stays (o ∷ os) pdi s r (apart, own, h) low =
    let t = paging_sync_kernel_space o pdi s in
    let one : Stays (o ∷ []) s t =
      subst (λ t. Stays (o ∷ []) s t) (sym (sync_one-synced o pdi s r apart own low))
        (sync_one o pdi s r apart own low) in
    Stays-cons o os s t (vmm_sync_kernel_space os pdi t) one (
      vmm_sync_kernel_space-Stays os pdi t (Stays-IsRecursive (o ∷ []) s t one r)
        (Stays-AreOthers (o ∷ []) os s t one h) low)
