-- ===== src/Libk.antt =====
-- libk/ and include/libk/: the kernel's C library.
pub mod Utils
pub mod Deque
pub mod Strings
pub mod Numbers
