-- ===== src/Lib.antt =====
-- dummyOS, a kernel for 32-bit x86 and ARM machines: a model of its core in C and the theorems
-- that make the parts correct. Paths are from the repository's root.
--
-- Words. `size_t`, `v_addr_t` and `p_addr_t` have 32 bits. They are natural numbers below
-- 2 ^ 32, and the wrap-around of each operation is written out (`add32`, `sub32` of Libk/Utils).
-- An error code -E is `err e`; 0 is `success`. An update through a pointer returns the new value.
--
-- Parts and files.
-- - Prelude and its children: names of the standard library, and lemmas on Boolean tests, lists,
--   results and bits that the parts share.
-- - Libk/Utils: include/libk/utils.h and the page macros of include/kernel/mm/memory.h.
-- - Libk/Deque: include/libk/deque.h, a ring of bytes. Spec is the sequence that it stands for,
--   Bounds its invariant, Window, Push and Pop the single calls, Run sequences of calls.
-- - Mm/Memory: kernel/mm/memory.c, the lists of free and of used page frames. An intrusive list
--   is the sequence of its nodes. Frames is about the frames that the lists hold, Counts about the
--   counters.
-- - Mm/Kheap: kernel/kheap.c, which extends the heap with frames of Mm/Memory. The page tables of
--   the architecture are a parameter.
-- - Mm/Kmalloc: kernel/kmalloc.c, which asks Mm/Kheap for memory (`kheap_sbrk`, a parameter) and
--   cuts it into blocks. Headers lie in a store that maps an address to what is read there. Chain
--   ties the headers to a list of blocks that tile the heap, FirstFit says what an allocation does
--   to that list, Blocks, Alloc and Free relate the code to it, RoundTrip joins the two.
-- - Fs/Pipe: fs/pipe.c, over Libk/Deque. A call that has to wait ends its step `asleep`, and goes
--   on by a second function when its thread is woken; so a run is a list of steps, in any order.
--   Stream is the two copying loops, Fifo the order of the bytes over a run, Holders the counts of
--   readers and writers against the open files, Ends the calls when the other side is gone.
-- - Fs/Tty: fs/tty.c, the line discipline over Libk/Deque, with waits as in Fs/Pipe. Lines is the
--   reading side, Edit the typing side.
-- - Kernel/Signal: kernel/signal.c, the signal state of a process. The context in which a handler
--   runs is the architecture's, and given by whether it can be built. Mask reads the mask bit by
--   bit, Nested is about handlers that interrupt one another.
-- - Kernel/Time: kernel/time/time.c and include/kernel/time/time.h. Arith is the arithmetic of
--   times, Timers what a tick triggers.
-- - Libk/Strings and Libk/Numbers: the string functions of libk, and ctype.c, strtol.c and the
--   integers of vsnprintf.c. A buffer is the list of its bytes. Strings/Compare and Strings/Copy
--   are about the text that a buffer holds; Numbers/Digits and Numbers/RoundTrip are about printing.
-- - Fs/Path: fs/path.c, paths as windows on a shared string. Names defines the names in a path on
--   lists of characters, Walk takes a path apart, Same compares two.
-- - Mm/Region: kernel/mm/region.c and kernel/mm/mapping.c, over Mm/Memory. Alloc is about new ones.
-- - Mm/Vmm: kernel/mm/vmm.c, over Mm/Region and the interface of the architecture. Range is the
--   search for mappings in a range; Paging has the laws of the interface that a range of the
--   kernel needs, Rollback what they say of one that fails.
-- - Kernel/Sched: kernel/sched/sched.c with the references of kernel/thread.c. Queues and Order see
--   the ready queues as one list, Run is about sequences of operations, Yield about turns.
-- - Kernel/Locks: kernel/sched/wait.c, kernel/locking and include/kernel/locking/mutex.h, over the
--   scheduler. Wake is about waking threads.
-- - Kernel/Process: kernel/process.c and the search of kernel/exit.c, over the scheduler. Pids is about
--   the table of processes, Files about the files of one.
-- - Mm/Fault: the protection of mappings and the page faults of kernel/mm/vmm.c, over Mm/Vmm.
-- - Mm/Uaccess: kernel/mm/uaccess.c, the copies between the kernel and a process. Faults is
--   about copies that a fault ends.
-- - Mm/X86: arch/x86/mm/paging.c, the page tables behind Mm/Vmm, over page frames; Spaces and
--   Interface are whole address spaces and arch/x86/mm/vmm.c. Cells, Sync, Translate, Entries
--   and Table are about what a change of the tables leaves alone, Map and Unmap about the
--   translation of addresses, Protect about the protection of pages, Share about the pages that a
--   copied address space shares. Spare keeps the free frames apart from the tables, Ranges fills in
--   the laws of Mm/Vmm/Paging.
-- - Fs/Ramfs: fs/ramfs/ramfs.c over strings and paths; Nodes has the inodes, the files and the search,
--   Reading is about reads, FullName and Search about the search for a name.
-- - Kernel/Exec: the arguments of kernel/exec.c, over Mm/Uaccess. Layout is about the memory that the
--   copies leave, Stack about the arguments on it.
-- - Fs/Devices: fs/chardev.c and fs/filesystem.c, what is registered under a number or a name.
-- - Fs/Elf: the checks of fs/binfmt_elf.c, which loads programs.
--
-- Not modelled: the architectures (arch) but for the page tables of x86, the boot and the drivers,
-- which are assembly and registers of devices; what the processor keeps of page tables besides; the
-- creation of threads, and fork, exec and exit as wholes; the tree of cached nodes with its mounts,
-- and the system calls on files above it; the loop that loads the segments
-- of a program; the listing of a ramfs directory.
--
-- Fuel. The walks over the block chain recurse on fuel; each turn goes to the next block, so fuel of
-- one more than the number of blocks is enough. The read loop of a tty recurses on fuel too; each
-- turn but the last takes a byte out of the buffer, so one more than their number is enough.
-- The walk along a path takes a name at each turn, so one more than its characters is enough, and the
-- search of a range of addresses a page, of which there are 2 ^ 20. The loop of
-- sched_schedule_yield takes a thread off the queues at each turn, and stops at the first one
-- without a signal that cannot be delivered.
-- The search of a ramfs archive goes to the next header at each turn, and compares paths with fuel
-- of 2 ^ 16, more than a path has characters.
pub mod Fs
pub mod Kernel
pub mod Libk
pub mod Mm
pub mod Prelude
