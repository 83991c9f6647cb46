-- ===== src/Mm/X86/Cells.antt =====
-- Writes of single entries, and what stays where.
use dummy_os.Prelude.{ℕ, ◌≡◌, ◌≢◌, arith}
use dummy_os.Mm.X86.{Entry, Tables, put_entry, clear_page, blank}

pub put_self : (f i : ℕ) (e : Entry) (s : Tables) → (put_entry f i e s).cell f i ≡ e
unfolding put_entry
put_self f i e s = ground arith

pub put_frame :
    (f g i j : ℕ) (e : Entry) (s : Tables) → g ≢ f → (put_entry f i e s).cell g j ≡ s.cell g j
unfolding put_entry
put_frame f g i j e s h = ground (arith, h)

pub put_index :
    (f g i j : ℕ) (e : Entry) (s : Tables) → j ≢ i → (put_entry f i e s).cell g j ≡ s.cell g j
unfolding put_entry
put_index f g i j e s h = ground (arith, h)

pub clear_page_self : (f j : ℕ) (s : Tables) → (clear_page f s).cell f j ≡ blank
unfolding clear_page
clear_page_self f j s = ground arith

pub clear_page_frame : (f g j : ℕ) (s : Tables) → g ≢ f → (clear_page f s).cell g j ≡ s.cell g j
unfolding clear_page
clear_page_frame f g j s h = ground (arith, h)
