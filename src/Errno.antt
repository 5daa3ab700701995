-- ===== src/Errno.antt =====
-- The errors that a system call may return, by the names of <errno.h>; their numbers are not fixed
-- here. The tables of each system are in the children, and `errno_table` picks one as the
-- preprocessor does in unreliablefs/unreliablefs/unreliablefs_errinj.h and unreliablefs_errinj.c.
pub mod Linux
pub mod Freebsd
pub mod Openbsd
pub mod Macosx
pub mod Tables

pub data Errno : Type 0 where
  e2big eacces eagain ebadf ebusy ecapmode econnreset edeadlk edestaddrreq edquot : Errno
  eexist efault efbig eftype eintegrity eintr einval eio eisdir eloop : Errno
  emfile emlink enametoolong enetdown enetunreach enfile enoattr enobufs enodata enodev : Errno
  enoent enolck enomem enospc enosys enotcapable enotconn enotdir enotempty enotsup : Errno
  enotty enxio eopnotsupp eoverflow eperm epipe erange erofs espipe esrch : Errno
  etimedout etxtbsy ewouldblock exdev : Errno
