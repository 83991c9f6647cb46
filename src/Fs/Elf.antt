-- ===== src/Fs/Elf.antt =====
-- fs/binfmt_elf.c: the checks of the header of a program and of its segments. A header is its bytes.
mod Tests
use Prim.Native.Nat.{bit_or}
use dummy_os.Prelude.{
  ℕ, ◌+◌, ◌-◌, ◌*◌, ◌%◌, ◌<◌, ◌≤◌, ◌≡◌, Bool, true, false, not, ◌&&◌, ◌||◌, List, [], ◌∷◌, get_or,
  ltb, ◌==◌, if◌then◌else◌, Status, success, err, enoexec, arith, Option, none, some,
}
use dummy_os.Prelude.Bits.{bit}
use dummy_os.Libk.Utils.{word, add32, sub32, page_align_down, page_align_up}
use dummy_os.Libk.Strings.{memcmp}
use dummy_os.Mm.Kheap.{kernel_space_start, vmm_is_userspace_address}

-- The fields of the header, at their places, in the byte order of the machine.
unfoldable pub le2h16 : List ℕ → ℕ → ℕ
le2h16 h i = get_or h i 0 + get_or h (i + 1) 0 * 256

unfoldable pub le2h32 : List ℕ → ℕ → ℕ
unfolding le2h16
le2h32 h i = le2h16 h i + le2h16 h (i + 2) * 65536

unfoldable pub check_magic : List ℕ → Bool
check_magic h = memcmp h (127 ∷ b'E' ∷ b'L' ∷ b'F' ∷ []) 4 == 0

-- The number of the machine is that of the architecture.
unfoldable pub check_header : ℕ → List ℕ → Bool
check_header machine h =
    check_magic h
    && (get_or h 4 0 == 1)
    && (get_or h 5 0 == 1)
    && (le2h16 h 16 == 2)
    && (le2h16 h 18 == machine)

-- `struct elf_program_header`
pub record ProgramHeader : Type 0 where
  pub p_type : ℕ
  pub p_offset : ℕ
  pub p_vaddr : ℕ
  pub p_filesz : ℕ
  pub p_memsz : ℕ
  pub p_flags : ℕ
  pub p_align : ℕ

-- The program header at byte `i` of the table.
unfoldable pub program_header : List ℕ → ℕ → ProgramHeader
program_header t i = record {
  p_type = le2h32 t i;
  p_offset = le2h32 t (i + 4);
  p_vaddr = le2h32 t (i + 8);
  p_filesz = le2h32 t (i + 16);
  p_memsz = le2h32 t (i + 20);
  p_flags = le2h32 t (i + 24);
  p_align = le2h32 t (i + 28);
}

-- The segments that are not passed over.
unfoldable pub is_loaded : ProgramHeader → Bool
is_loaded p = (p.p_type == 1) && not (p.p_memsz == 0)

-- The checks of a segment before it is mapped.
unfoldable pub check_segment : ProgramHeader → Status
check_segment p =
    if not (vmm_is_userspace_address p.p_vaddr)
      || not (vmm_is_userspace_address (add32 p.p_vaddr p.p_memsz))
    then err enoexec
    else if ltb 1 p.p_align && not (p.p_offset % p.p_align == p.p_vaddr % p.p_align)
    then err enoexec
    else success

-- What `vmm_create_user_mapping` is called with: the start, the size and the protection.
unfoldable pub segment_mapping : ProgramHeader → ℕ × ℕ × ℕ
segment_mapping p =
    let start = page_align_down p.p_vaddr in
    let vmm_flags = bit_or 4 1 in
    (
      start,
      add32 (sub32 p.p_vaddr start) p.p_memsz,
      if bit 0 p.p_flags == 1 then bit_or vmm_flags 2 else vmm_flags,
    )

-- `_end` after one segment, and the break from the last.
unfoldable pub segment_end : ProgramHeader → ℕ → ℕ
segment_end p end = let this = add32 p.p_vaddr p.p_memsz in if ltb end this then this else end

unfoldable pub brk_of : ℕ → ℕ
brk_of end = page_align_up end

-- A segment that passes the checks, and whose end does not wrap, has every byte in user space.
pub check_segment-userspace :
    (p : ProgramHeader) (a : ℕ)
    → check_segment p ≡ success
    → p.p_vaddr + p.p_memsz < word
    → p.p_vaddr ≤ a
    → a < p.p_vaddr + p.p_memsz
    → vmm_is_userspace_address a ≡ true
unfolding check_segment vmm_is_userspace_address
check_segment-userspace p a ok small from below = ground (arith, ok, small, from, below)
