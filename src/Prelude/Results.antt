-- ===== src/Prelude/Results.antt =====
-- include/dummyos/errno.h: the error numbers that the modelled functions return, and results.

-- The constants E... of errno.h that the modelled code uses.
pub data Errno : Type 0 where
  eperm enoent eintr eio e2big ebadf echild eagain enomem efault eexist enotdir eisdir : Errno
  einval emfile enotty enospc espipe epipe enametoolong eoverflow enxio erofs : Errno
  erange eloop enoexec enodev enotblk ebusy esrch : Errno

-- `ok` is a return of 0, or of the value that goes out through a pointer; `err e` a return of -e.
pub data Result {ℓ} (A : Type ℓ) : Type ℓ where
  ok : A → Result A
  err : Errno → Result A

-- An `int` function that returns 0 or a negative error number.
abbrev pub Status : Type 0
Status = Result (Unit {0})

abbrev pub success : Status
success = ok tt
