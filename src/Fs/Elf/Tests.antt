-- ===== src/Fs/Elf/Tests.antt =====
-- Runs of the checks.
use dummy_os.Prelude.{◌≡◌, refl, success}
use dummy_os.Mm.Kheap.{vmm_is_userspace_address}
use dummy_os.Fs.Elf.{ProgramHeader, check_segment}

-- A segment whose end wraps to the start of the memory.
abbrev wraps : ProgramHeader
wraps = record {
  p_type = 1;
  p_offset = 0;
  p_vaddr = 4096;
  p_filesz = 0;
  p_memsz = 4294967295;
  p_flags = 0;
  p_align = 0;
}

wraps_test : check_segment wraps ≡ success
unfolding check_segment vmm_is_userspace_address
wraps_test = refl
