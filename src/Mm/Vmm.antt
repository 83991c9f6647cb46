-- ===== src/Mm/Vmm.antt =====
-- kernel/mm/vmm.c: the mappings of the current address space. What the architecture does behind
-- `struct vmm_interface` is a parameter, over page tables of some type and the page frames. The
-- address spaces themselves, their creation, switch and copy, are not in the model.
pub mod Range
pub mod Paging
pub mod Rollback
mod Tests
use dummy_os.Prelude.{
  ℕ, zero, suc, ◌+◌, ◌-◌, ◌/◌, ◌%◌, ◌^◌, Bool, true, false, not, ◌&&◌, ◌||◌, List, [], ◌∷◌, ◌++◌,
  get_or, ltb, leb, ◌==◌, if◌then◌else◌, Option, none, some, Status, Result, ok, success, err,
  einval, enoent,
}
use Prim.Native.Nat.{bit_or}
use dummy_os.Prelude.Bits.{bit}
use dummy_os.Libk.Utils.{add32, sub32, page_size, page_align_up, is_aligned}
use dummy_os.Mm.Memory.{Memory}
use dummy_os.Mm.Kheap.{
  kernel_space_start, vmm_prot_write, vmm_is_userspace_address, vmm_map_kernel_page,
}
use dummy_os.Mm.Region.{
  Region, Mapping, Store, region_create, region_unref, region_get_ref, put, mapping_create,
  mapping_destroy, mapping_size_in_pages, mapping_contains_addr, mapping_get_end,
}

abbrev pub vmm_prot_user : ℕ
vmm_prot_user = 4

-- `struct vmm_interface`, as far as the modelled code calls it, on the page frames and page tables.
pub record VmmInterface (P : Type 0) : Type 0 where
  pub copy_page : ℕ → ℕ → Memory × P → Status × (Memory × P)
  pub map_kernel_page : ℕ → ℕ → ℕ → Memory × P → Status × (Memory × P)
  pub unmap_kernel_page : ℕ → Memory × P → Status × (Memory × P)
  pub update_user_page_prot : ℕ → ℕ → Memory × P → Status × (Memory × P)
  pub map_user_page : ℕ → ℕ → ℕ → Memory × P → Status × (Memory × P)
  pub unmap_user_page : ℕ → Memory × P → Status × (Memory × P)

-- The current address space.
pub record Space (P : Type 0) : Type 0 where
  pub mappings : List Mapping
  pub store : Store
  pub pages : P

abbrev pub frames_of : {P : Type 0} → Space P → Memory × P
frames_of s = (s.store.memory, s.pages)

abbrev pub with_frames : {P : Type 0} → Space P → Memory × P → Space P
with_frames s (m, p) = record s { store = record s.store { memory = m }; pages = p }

unfoldable pub find_mapping : List Mapping → ℕ → Option Mapping
find_mapping [] addr = none
find_mapping (m ∷ ms) addr =
    let rest = find_mapping ms addr in if mapping_contains_addr m addr then some m else rest

-- The new mapping comes after the first one that starts above it.
unfoldable pub add_mapping : List Mapping → Mapping → List Mapping
add_mapping [] mapping = mapping ∷ []
add_mapping (m ∷ ms) mapping =
    let rest = m ∷ add_mapping ms mapping in
    if ltb mapping.start m.start then m ∷ mapping ∷ ms else rest

-- A mapping is told from the others by where it starts.
unfoldable pub erase_mapping : List Mapping → ℕ → List Mapping
erase_mapping [] start = []
erase_mapping (m ∷ ms) start =
    let rest = m ∷ erase_mapping ms start in if m.start == start then ms else rest

unfoldable pub vmm_destroy_mappings : List Mapping → Store → Option Store
vmm_destroy_mappings [] s = some s
vmm_destroy_mappings (m ∷ ms) s = elim (mapping_destroy m s) [
  | none ↦ none
  | some s' ↦ vmm_destroy_mappings ms s'
]

abbrev is_within_physical_memory_bounds : Memory → ℕ → ℕ → Bool
is_within_physical_memory_bounds m start end = leb m.memory_base start && leb end m.memory_top

unfoldable pub range_in_userspace : ℕ → ℕ → Bool
range_in_userspace start size =
    vmm_is_userspace_address start && vmm_is_userspace_address (sub32 (add32 start size) 1)

-- The loop of `vmm_range_is_free`, on the current mappings; `none` is out of fuel.
unfoldable pub range_is_free : ℕ → List Mapping → ℕ → ℕ → Option Bool
range_is_free zero ms addr end = none
range_is_free (suc fuel) ms addr end =
    let rest = range_is_free fuel ms (add32 addr page_size) end in
    if ltb addr end
    then elim (find_mapping ms addr) [ some _ ↦ some false | none ↦ rest ]
    else some true

-- There are fewer than 2 ^ 20 + 1 pages.
unfoldable pub vmm_range_is_free : List Mapping → ℕ → ℕ → Option Bool
vmm_range_is_free ms start end = range_is_free (2 ^ 20 + 1) ms start end

unfoldable pub vmm_is_valid_userspace_address : List Mapping → ℕ → Bool
vmm_is_valid_userspace_address ms addr =
    vmm_is_userspace_address addr && elim (find_mapping ms addr) [ none ↦ false | some _ ↦ true ]

module _ {P : Type 0} (impl : VmmInterface P) where
  abbrev unmap_page : ℕ → Memory × P → Status × (Memory × P)
  unmap_page addr s =
      if vmm_is_userspace_address addr
      then impl.unmap_user_page addr s
      else impl.unmap_kernel_page addr s

  -- `__unmap_mapping`
  unfoldable pub unmap_pages : ℕ → ℕ → Memory × P → Status × (Memory × P)
  unmap_pages addr zero s = (success, s)
  unmap_pages addr (suc n) s =
      let (r, s') = unmap_page addr s in
      elim r [ ok _ ↦ unmap_pages (add32 addr page_size) n s' | err e ↦ (err e, s') ]

  unfoldable pub unmap_mapping : Mapping → Memory × P → Status × (Memory × P)
  unmap_mapping mapping s = unmap_pages mapping.start (mapping_size_in_pages mapping) s

  -- The loop of `map_mapping`, with `left` pages to go, from page `i` at `addr` on.
  unfoldable pub map_pages : Region → ℕ → ℕ → ℕ → ℕ → Memory × P → Status × (Memory × P)
  map_pages region start zero i addr s = (success, s)
  map_pages region start (suc left) i addr s =
      let (r, s') = impl.map_user_page (get_or region.frames i 0) addr region.prot s in
      elim r [
        | ok _ ↦ map_pages region start left (suc i) (add32 addr page_size) s'
        | err e ↦ (err e, (unmap_pages start i s').1)
      ]

  -- `map_mapping`, of which only user pages are ever mapped.
  unfoldable pub map_mapping : Mapping → Region → Memory × P → Status × (Memory × P)
  map_mapping mapping region s =
      map_pages region mapping.start (mapping_size_in_pages mapping) 0 mapping.start s

  -- The second loop of `vmm_map_kernel_range`: the `i` pages below `virt` are unmapped.
  unfoldable pub unmap_back : ℕ → ℕ → Memory × P → Memory × P
  unmap_back zero virt s = s
  unmap_back (suc i) virt s =
      let below = sub32 virt page_size in unmap_back i below (impl.unmap_kernel_page below s).1

  -- The first loop, with `left` pages to go and `i` mapped.
  unfoldable pub map_range : ℕ → ℕ → ℕ → ℕ → ℕ → Memory × P → Status × (Memory × P)
  map_range zero i phys virt prot s = (success, s)
  map_range (suc left) i phys virt prot s =
      let (r, s') = vmm_map_kernel_page impl.map_kernel_page phys virt prot s in
      elim r [
        | ok _ ↦ map_range left (suc i) (add32 phys page_size) (add32 virt page_size) prot s'
        | err e ↦ (err e, unmap_back i virt s')
      ]

  unfoldable pub vmm_map_kernel_range : ℕ → ℕ → ℕ → ℕ → Memory × P → Status × (Memory × P)
  vmm_map_kernel_range phys virt size prot s =
      map_range (page_align_up size / page_size) 0 phys virt prot s

  -- The mapping stays in the list when it cannot be unmapped; `none` is a failed assertion.
  unfoldable pub vmm_find_and_destroy_mapping : ℕ → Space P → Option (Status × Space P)
  vmm_find_and_destroy_mapping addr s = elim (find_mapping s.mappings addr) [
    | none ↦ some (err einval, s)
    | some mapping ↦
        let (r, mp) = unmap_mapping mapping (frames_of s) in
        let s' = with_frames s mp in
        elim r [
          | err e ↦ some (err e, s')
          | ok _ ↦ elim (mapping_destroy mapping s'.store) [
            | none ↦ none
            | some store ↦ some (
              success,
              record s' { mappings = erase_mapping s.mappings mapping.start; store = store },
            )
          ]
        ]
  ]

  -- A new mapping is mapped page by page, or destroyed.
  abbrev pub map_created : Space P → Option (Result Mapping × Store) → Option (Status × Space P)
  map_created s none = none
  map_created s (some (err e, store)) = some (err e, record s { store = store })
  map_created s (some (ok mapping, store)) =
      let s1 = record s { store = store } in
      let (r, mp) = map_mapping mapping (store.regions mapping.region) (frames_of s1) in
      let s2 = with_frames s1 mp in
      elim r [
        | ok _ ↦ some (success, record s2 { mappings = add_mapping s.mappings mapping })
        | err e ↦ elim (mapping_destroy mapping s2.store) [
          | none ↦ none
          | some store' ↦ some (err e, record s2 { store = store' })
        ]
      ]

  -- `mem`, `region` and `frames` are the results of the allocations.
  unfoldable pub vmm_create_user_mapping :
      Bool → Option ℕ → Bool → ℕ → ℕ → ℕ → ℕ → Space P → Option (Status × Space P)
  vmm_create_user_mapping mem region frames addr size prot flags s =
      let pages = page_align_up size in
      if not (range_in_userspace addr pages) && not (is_aligned addr page_size)
      then some (err einval, s)
      else map_created s
          (mapping_create mem region frames addr pages (bit_or prot vmm_prot_user) flags s.store)

  unfoldable pub vmm_destroy_user_mapping : ℕ → Space P → Option (Status × Space P)
  vmm_destroy_user_mapping addr s =
      if not (vmm_is_userspace_address addr)
      then some (err einval, s)
      else vmm_find_and_destroy_mapping addr s

  -- Where the extension of a mapping by `increment` bytes starts.
  abbrev pub extension_start : Mapping → ℕ → ℕ
  extension_start mapping increment =
      if bit 1 mapping.flags == 1
      then sub32 mapping.start increment
      else add32 mapping.start mapping.size

  abbrev extend_found :
      Bool → Option ℕ → Bool → ℕ → ℕ → Space P → Option Mapping → Option (Status × Space P)
  extend_found mem region frames addr increment s none = some (err einval, s)
  extend_found mem region frames addr increment s (some mapping) =
      let diff = sub32 (add32 addr increment) (mapping_get_end mapping) in
      let grown = page_align_up diff in
      let ext_start = extension_start mapping grown in
      let prot = (s.store.regions mapping.region).prot in
      if mapping_contains_addr mapping (sub32 (add32 addr increment) 1)
      then some (success, s)
      else elim (vmm_range_is_free s.mappings ext_start (sub32 (add32 ext_start grown) 1)) [
        | some true ↦ vmm_create_user_mapping mem region frames ext_start grown prot mapping.flags s
        | _ ↦ some (err einval, s)
      ]

  unfoldable pub vmm_extend_user_mapping :
      Bool → Option ℕ → Bool → ℕ → ℕ → Space P → Option (Status × Space P)
  vmm_extend_user_mapping mem region frames addr increment s =
      if not (vmm_is_userspace_address addr)
      then some (err einval, s)
      else extend_found mem region frames addr increment s (find_mapping s.mappings addr)

  abbrev moved_brk : ℕ → ℕ → Option (Status × Space P) → Option (Option ℕ × ℕ × Space P)
  moved_brk brk increment none = none
  moved_brk brk increment (some (ok _, s)) = some (some brk, add32 brk increment, s)
  moved_brk brk increment (some (err e, s)) = some (none, brk, s)

  -- The result (`none` for -1), the break of the process and the address space.
  unfoldable pub sys_sbrk :
      Bool → Option ℕ → Bool → ℕ → ℕ → Space P → Option (Option ℕ × ℕ × Space P)
  sys_sbrk mem region frames increment brk s =
      moved_brk brk increment (elim (find_mapping s.mappings brk) [
        | none ↦
            vmm_create_user_mapping mem region frames brk increment
              (bit_or vmm_prot_user vmm_prot_write) 0 s
        | some _ ↦ vmm_extend_user_mapping mem region frames brk increment s
      ])
