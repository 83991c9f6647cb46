-- ===== src/Mm/Fault.antt =====
-- kernel/mm/vmm.c, its last part: the protection of mappings, and page faults with copy on
-- write. A mapping is changed in place, so these give the new one.
use dummy_os.Prelude.{
  ℕ, zero, suc, Bool, not, ◌&&◌, List, [], ◌∷◌, length, ltb, ◌==◌, if◌then◌else◌, Option, none,
  some, Status, Result, ok, success, err, einval, enoent,
}
use dummy_os.Prelude.Bits.{bit}
use dummy_os.Libk.Utils.{add32, page_size}
use dummy_os.Mm.Memory.{Memory}
use dummy_os.Mm.Region.{
  Region, Mapping, Store, put, region_create, region_unref, region_get_ref, mapping_destroy,
  mapping_size_in_pages,
}
use dummy_os.Mm.Vmm.{
  VmmInterface, Space, frames_of, with_frames, find_mapping, erase_mapping, unmap_mapping,
  unmap_pages, map_mapping,
}

-- The mapping at `start` is replaced.
unfoldable pub replace_mapping : List Mapping → ℕ → Mapping → List Mapping
replace_mapping [] start mapping = []
replace_mapping (m ∷ ms) start mapping =
    let rest = m ∷ replace_mapping ms start mapping in
    if m.start == start then mapping ∷ ms else rest

-- What a page fault ends in: the process is sent SIGSEGV and goes on at an address, the kernel goes
-- on at the address for a failed access, or at the instruction again; or it panics.
pub data Fault : Type 0 where
  segfault resume_at : ℕ → Fault
  retry panic : Fault

module _ {P : Type 0} (impl : VmmInterface P) where
  -- The loop of `update_user_mapping_prot`.
  unfoldable pub update_pages : ℕ → ℕ → ℕ → Memory × P → Status × (Memory × P)
  update_pages zero addr prot s = (success, s)
  update_pages (suc n) addr prot s =
      let (r, s') = impl.update_user_page_prot addr prot s in
      elim r [ ok _ ↦ update_pages n (add32 addr page_size) prot s' | err e ↦ (err e, s') ]

  unfoldable pub update_user_mapping_prot : Mapping → ℕ → Space P → Status × Space P
  update_user_mapping_prot mapping prot s =
      let (r, mp) = update_pages (mapping_size_in_pages mapping) mapping.start prot (frames_of s) in
      let s' = with_frames s mp in
      let region = record (s'.store.regions mapping.region) { prot = prot } in
      (r, elim r [ ok _ ↦ record s' { store = put s'.store mapping.region region } | err _ ↦ s' ])

  unfoldable pub vmm_update_user_mapping_prot : ℕ → ℕ → Space P → Status × Space P
  vmm_update_user_mapping_prot addr prot s = elim (find_mapping s.mappings addr) [
    | none ↦ (err enoent, s)
    | some mapping ↦ update_user_mapping_prot mapping prot s
  ]

  -- The loop of `copy_mapping_pages`, from frame `i` on; after an error the pages of the mapping
  -- before it are unmapped.
  unfoldable pub copy_pages : ℕ → List ℕ → ℕ → ℕ → Memory × P → Status × (Memory × P)
  copy_pages start [] i addr s = (success, s)
  copy_pages start (frame ∷ frames) i addr s =
      let (r, s') = impl.copy_page addr frame s in
      elim r [
        | ok _ ↦ copy_pages start frames (suc i) (add32 addr page_size) s'
        | err e ↦ (err e, (unmap_pages impl start i s').1)
      ]

  unfoldable pub copy_mapping_pages : Mapping → Region → Memory × P → Status × (Memory × P)
  copy_mapping_pages mapping copy s =
      if ltb (mapping_size_in_pages mapping) (length copy.frames)
      then (err einval, s)
      else copy_pages mapping.start copy.frames 0 mapping.start s

  unfoldable pub reset_user_mapping_prot : Mapping → Space P → Status × Space P
  reset_user_mapping_prot mapping s =
      update_user_mapping_prot mapping (s.store.regions mapping.region).prot s

  abbrev with_store : Status → Space P → Option Store → Option (Status × Space P)
  with_store r s none = none
  with_store r s (some store) = some (r, record s { store = store })

  -- The copied region takes the place of the shared one, and is mapped.
  abbrev map_copy : Mapping → ℕ → Space P → Option Store → Option (Status × Space P)
  map_copy mapping copy s none = none
  map_copy mapping copy s (some store) =
      let new = record mapping { region = copy } in
      let (r, mp) = map_mapping impl new (store.regions copy) (store.memory, s.pages) in
      let s' = with_frames (record s { store = store }) mp in
      elim r [
        | ok _ ↦
            some (success, record s' { mappings = replace_mapping s.mappings mapping.start new })
        | err e ↦
            with_store (err e) (record s' { mappings = erase_mapping s.mappings mapping.start })
              (mapping_destroy new s'.store)
      ]

  -- The pages are copied and unmapped; an error drops the copy.
  abbrev copy_region : Mapping → ℕ → Space P → Option (Status × Space P)
  copy_region mapping copy s =
      let (copied, mp) = copy_mapping_pages mapping (s.store.regions copy) (frames_of s) in
      let s1 = with_frames s mp in
      let (unmapped, mp') = unmap_mapping impl mapping (frames_of s1) in
      let s2 = with_frames s1 mp' in
      elim copied [
        | err e ↦ with_store (err e) s1 (region_unref copy s1.store)
        | ok _ ↦ elim unmapped [
          | err e ↦ with_store (err e) s2 (region_unref copy s2.store)
          | ok _ ↦ map_copy mapping copy s2 (region_unref mapping.region s2.store)
        ]
      ]

  abbrev copy_created : Mapping → Space P → Option (Result ℕ × Store) → Option (Status × Space P)
  copy_created mapping s none = none
  copy_created mapping s (some (err e, store)) = some (err e, record s { store = store })
  copy_created mapping s (some (ok copy, store)) =
      copy_region mapping copy (record s { store = store })

  -- `region` and `frames` are the results of the allocations; `none` is a failed assertion.
  unfoldable pub handle_cow_fault : Option ℕ → Bool → Mapping → Space P → Option (Status × Space P)
  handle_cow_fault region frames mapping s =
      if region_get_ref mapping.region s.store == 1
      then some (reset_user_mapping_prot mapping s)
      else copy_created mapping s (
          region_create region frames (mapping_size_in_pages mapping)
            (s.store.regions mapping.region).prot s.store)

  -- A fault of user code that can be a write to a page that is shared until it is written to.
  unfoldable pub is_cow_fault : ℕ → Mapping → Store → Bool
  is_cow_fault flags mapping s =
      (bit 1 flags == 1) && (bit 0 (s.regions mapping.region).prot == 1) && not (bit 3 flags == 1)

  abbrev cow_done : Space P → Option (Status × Space P) → Fault × Space P
  cow_done s none = (panic, s)
  cow_done s (some (err _, s')) = (panic, s')
  cow_done s (some (ok _, s')) = (retry, s')

  -- `fixup` is `__fixup_addr`, which is 0 afterwards if it was used.
  unfoldable pub vmm_handle_page_fault : Option ℕ → Bool → ℕ → ℕ → ℕ → Space P → Fault × Space P
  vmm_handle_page_fault region frames fixup fault_addr flags s =
      if bit 0 flags == 1
      then elim (find_mapping s.mappings fault_addr) [
        | none ↦ (segfault fault_addr, s)
        | some mapping ↦
            let handled = cow_done s (handle_cow_fault region frames mapping s) in
            if is_cow_fault flags mapping s.store then handled else (segfault fault_addr, s)
      ]
      else if not (fixup == 0)
      then (resume_at fixup, s)
      else (panic, s)
