-- ===== src/Mm.antt =====
-- kernel/mm/, kernel/kheap.c and kernel/kmalloc.c: page frames, the kernel heap, virtual memory.
pub mod Memory
pub mod Kheap
pub mod Kmalloc
pub mod Region
pub mod Vmm
pub mod Fault
pub mod Uaccess
pub mod X86
