-- ===== src/Mm/Vmm/Tests.antt =====
-- Tests of the mappings of an address space, and examples of the theorems.
use dummy_os.Prelude.{[], ◌∷◌, arith}
use dummy_os.Mm.Region.{Mapping}
use dummy_os.Mm.Vmm.{vmm_range_is_free}
use dummy_os.Mm.Vmm.Range.{Answers, vmm_range_is_free-Answers}

abbrev low : Mapping
low = record { flags = 0; start = 0x4000; size = 0x2000; region = 1 }

vmm_range_is_free-Answers_example :
    Answers (vmm_range_is_free (low ∷ []) 0x2000 0x5000) (low ∷ []) 0x2000 0x5000
vmm_range_is_free-Answers_example =
    vmm_range_is_free-Answers (low ∷ []) 0x2000 0x5000 (omega arith, tt) (omega arith)
