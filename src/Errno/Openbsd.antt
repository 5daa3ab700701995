-- ===== src/Errno/Openbsd.antt =====
-- The tables of unreliablefs/unreliablefs/unreliablefs_errno_openbsd.h, in the order of that file.
use bnfs.Base.{List, [], ◌∷◌}
use bnfs.Errno.{
  Errno, eacces, eagain, ebadf, ebusy, edeadlk, edestaddrreq, edquot, eexist, efault, efbig, eintr,
  einval, eio, eisdir, eloop, emfile, emlink, enametoolong, enetdown, enfile, enoent, enolck,
  enomem, enospc, enotconn, enotdir, enotempty, enxio, eopnotsupp, eoverflow, eperm, epipe, erofs,
  esrch, etxtbsy, ewouldblock, exdev,
}

abbrev pub errno_access : List Errno
errno_access =
    eacces ∷ efault ∷ einval ∷ eio ∷ eloop ∷ enametoolong ∷ enoent ∷ enotdir ∷ eperm ∷ erofs
    ∷ etxtbsy ∷ []

abbrev pub errno_chmod : List Errno
errno_chmod =
    eacces ∷ efault ∷ einval ∷ eio ∷ eloop ∷ enametoolong ∷ enoent ∷ enotdir ∷ eperm ∷ erofs ∷ []

abbrev pub errno_creat : List Errno
errno_creat =
    eacces ∷ ebusy ∷ edquot ∷ eexist ∷ efault ∷ eintr ∷ einval ∷ eio ∷ eisdir ∷ eloop ∷ emfile
    ∷ enametoolong ∷ enfile ∷ enoent ∷ enospc ∷ enotdir ∷ enxio ∷ eopnotsupp ∷ eperm ∷ erofs
    ∷ etxtbsy ∷ ewouldblock ∷ []

abbrev pub errno_ftruncate : List Errno
errno_ftruncate = ebadf ∷ efbig ∷ einval ∷ eio ∷ []

abbrev pub errno_link : List Errno
errno_link =
    eacces ∷ edquot ∷ eexist ∷ efault ∷ eio ∷ eloop ∷ emlink ∷ enametoolong ∷ enoent ∷ enospc
    ∷ enotdir ∷ eopnotsupp ∷ eperm ∷ erofs ∷ exdev ∷ []

abbrev pub errno_mkdir : List Errno
errno_mkdir =
    eacces ∷ edquot ∷ eexist ∷ efault ∷ eio ∷ eloop ∷ enametoolong ∷ enoent ∷ enospc ∷ enotdir
    ∷ erofs ∷ []

abbrev pub errno_mknod : List Errno
errno_mknod =
    eacces ∷ edquot ∷ eexist ∷ efault ∷ einval ∷ eio ∷ eloop ∷ enametoolong ∷ enoent ∷ enospc
    ∷ enotdir ∷ eperm ∷ erofs ∷ []

abbrev pub errno_opendir : List Errno
errno_opendir =
    enotdir ∷ eagain ∷ ebadf ∷ edeadlk ∷ eintr ∷ einval ∷ emfile ∷ enolck ∷ eoverflow ∷ esrch
    ∷ ebadf ∷ efault ∷ eio ∷ eacces ∷ ebusy ∷ edquot ∷ eexist ∷ efault ∷ eintr ∷ einval ∷ eio
    ∷ eisdir ∷ eloop ∷ emfile ∷ enametoolong ∷ enfile ∷ enoent ∷ enospc ∷ enotdir ∷ enxio
    ∷ eopnotsupp ∷ eperm ∷ erofs ∷ etxtbsy ∷ ewouldblock ∷ enomem ∷ []

abbrev pub errno_readdir : List Errno
errno_readdir = ebadf ∷ efault ∷ einval ∷ eio ∷ []

abbrev pub errno_read : List Errno
errno_read = eagain ∷ ebadf ∷ efault ∷ eintr ∷ einval ∷ eio ∷ eisdir ∷ enotconn ∷ []

abbrev pub errno_readlink : List Errno
errno_readlink = eacces ∷ efault ∷ einval ∷ eio ∷ eloop ∷ enametoolong ∷ enoent ∷ enotdir ∷ []

abbrev pub errno_rename : List Errno
errno_rename =
    eacces ∷ edquot ∷ efault ∷ einval ∷ eio ∷ eisdir ∷ eloop ∷ emlink ∷ enametoolong ∷ enoent
    ∷ enospc ∷ enotdir ∷ enotempty ∷ eperm ∷ erofs ∷ exdev ∷ []

abbrev pub errno_rmdir : List Errno
errno_rmdir =
    eacces ∷ ebusy ∷ efault ∷ einval ∷ eio ∷ eloop ∷ enametoolong ∷ enoent ∷ enotdir ∷ enotempty
    ∷ eperm ∷ erofs ∷ []

abbrev pub errno_symlink : List Errno
errno_symlink =
    eacces ∷ edquot ∷ eexist ∷ efault ∷ eio ∷ eloop ∷ enametoolong ∷ enoent ∷ enospc ∷ enotdir
    ∷ erofs ∷ []

abbrev pub errno_truncate : List Errno
errno_truncate =
    eacces ∷ efault ∷ efbig ∷ einval ∷ eio ∷ eisdir ∷ eloop ∷ enametoolong ∷ enoent ∷ enotdir
    ∷ erofs ∷ etxtbsy ∷ []

abbrev pub errno_unlink : List Errno
errno_unlink =
    eacces ∷ ebusy ∷ efault ∷ eio ∷ eloop ∷ enametoolong ∷ enoent ∷ enotdir ∷ eperm ∷ erofs ∷ []

abbrev pub errno_write : List Errno
errno_write =
    eagain ∷ ebadf ∷ edestaddrreq ∷ edquot ∷ efault ∷ efbig ∷ eintr ∷ einval ∷ eio ∷ enetdown
    ∷ enospc ∷ epipe ∷ []

abbrev pub errno_lstat : List Errno
errno_lstat = eacces ∷ efault ∷ eio ∷ eloop ∷ enametoolong ∷ enoent ∷ enotdir ∷ []

abbrev pub errno_statfs : List Errno
errno_statfs = eacces ∷ efault ∷ eio ∷ eloop ∷ enametoolong ∷ enoent ∷ enotdir ∷ []

abbrev pub errno_close : List Errno
errno_close = ebadf ∷ eintr ∷ eio ∷ []

abbrev pub errno_utimensat : List Errno
errno_utimensat =
    eacces ∷ ebadf ∷ efault ∷ einval ∷ eio ∷ eloop ∷ enametoolong ∷ enoent ∷ enotdir ∷ eperm ∷ erofs
    ∷ []

abbrev pub errno_fsync : List Errno
errno_fsync = ebadf ∷ einval ∷ eio ∷ []

abbrev pub errno_flock : List Errno
errno_flock = ebadf ∷ einval ∷ eopnotsupp ∷ ewouldblock ∷ []

abbrev pub errno_fcntl : List Errno
errno_fcntl = eagain ∷ ebadf ∷ edeadlk ∷ eintr ∷ einval ∷ emfile ∷ enolck ∷ eoverflow ∷ esrch ∷ []
