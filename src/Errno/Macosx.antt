-- ===== src/Errno/Macosx.antt =====
-- The tables of unreliablefs/unreliablefs/unreliablefs_errno_macosx.h, in the order of that file.
use bnfs.Base.{List, [], ◌∷◌}
use bnfs.Errno.{
  Errno, e2big, eacces, eagain, ebadf, ebusy, econnreset, edeadlk, edquot, eexist, efault, efbig,
  eintr, einval, eio, eisdir, eloop, emfile, emlink, enametoolong, enetdown, enetunreach, enfile,
  enoattr, enobufs, enoent, enolck, enomem, enospc, enotconn, enotdir, enotempty, enotsup, enotty,
  enxio, eopnotsupp, eoverflow, eperm, epipe, erange, erofs, esrch, etimedout, etxtbsy, ewouldblock,
  exdev,
}

abbrev pub errno_access : List Errno
errno_access =
    eacces ∷ efault ∷ einval ∷ eio ∷ eloop ∷ enametoolong ∷ enoent ∷ enotdir ∷ erofs ∷ etxtbsy ∷ []

abbrev pub errno_chmod : List Errno
errno_chmod =
    eacces ∷ efault ∷ eintr ∷ eio ∷ eloop ∷ enametoolong ∷ enoent ∷ enotdir ∷ eperm ∷ erofs ∷ []

abbrev pub errno_creat : List Errno
errno_creat =
    eacces ∷ eagain ∷ edquot ∷ eexist ∷ efault ∷ eintr ∷ einval ∷ eio ∷ eisdir ∷ eloop ∷ emfile
    ∷ enametoolong ∷ enfile ∷ enoent ∷ enospc ∷ enotdir ∷ enxio ∷ eopnotsupp ∷ eoverflow ∷ erofs
    ∷ etxtbsy ∷ []

abbrev pub errno_ftruncate : List Errno
errno_ftruncate = ebadf ∷ efbig ∷ eintr ∷ einval ∷ eio ∷ erofs ∷ []

abbrev pub errno_link : List Errno
errno_link =
    eacces ∷ edquot ∷ eexist ∷ efault ∷ eio ∷ eloop ∷ emlink ∷ enametoolong ∷ enoent ∷ enospc
    ∷ enotdir ∷ eperm ∷ erofs ∷ exdev ∷ []

abbrev pub errno_mkdir : List Errno
errno_mkdir =
    eacces ∷ edquot ∷ eexist ∷ efault ∷ eio ∷ eloop ∷ emlink ∷ enametoolong ∷ enoent ∷ enospc
    ∷ enotdir ∷ erofs ∷ []

abbrev pub errno_mknod : List Errno
errno_mknod =
    eacces ∷ edquot ∷ eexist ∷ efault ∷ einval ∷ eio ∷ eloop ∷ enametoolong ∷ enoent ∷ enospc
    ∷ enotdir ∷ eperm ∷ erofs ∷ []

abbrev pub errno_opendir : List Errno
errno_opendir = []

abbrev pub errno_readdir : List Errno
errno_readdir = []

abbrev pub errno_read : List Errno
errno_read =
    eagain ∷ ebadf ∷ econnreset ∷ efault ∷ eintr ∷ einval ∷ eio ∷ eisdir ∷ enobufs ∷ enomem
    ∷ enotconn ∷ enxio ∷ etimedout ∷ []

abbrev pub errno_readlink : List Errno
errno_readlink = eacces ∷ efault ∷ einval ∷ eio ∷ eloop ∷ enametoolong ∷ enoent ∷ enotdir ∷ []

abbrev pub errno_rename : List Errno
errno_rename =
    eacces ∷ edquot ∷ efault ∷ einval ∷ eio ∷ eisdir ∷ eloop ∷ enametoolong ∷ enoent ∷ enospc
    ∷ enotdir ∷ enotempty ∷ eperm ∷ erofs ∷ exdev ∷ []

abbrev pub errno_rmdir : List Errno
errno_rmdir =
    eacces ∷ ebusy ∷ efault ∷ eio ∷ eloop ∷ enametoolong ∷ enoent ∷ enotdir ∷ enotempty ∷ eperm
    ∷ erofs ∷ []

abbrev pub errno_symlink : List Errno
errno_symlink =
    eacces ∷ edquot ∷ eexist ∷ efault ∷ eio ∷ eloop ∷ enametoolong ∷ enoent ∷ enospc ∷ enotdir
    ∷ erofs ∷ []

abbrev pub errno_truncate : List Errno
errno_truncate =
    eacces ∷ efault ∷ efbig ∷ eintr ∷ einval ∷ eio ∷ eisdir ∷ eloop ∷ enametoolong ∷ enoent
    ∷ enotdir ∷ erofs ∷ etxtbsy ∷ []

abbrev pub errno_unlink : List Errno
errno_unlink =
    eacces ∷ ebusy ∷ efault ∷ eio ∷ eloop ∷ enametoolong ∷ enoent ∷ enotdir ∷ eperm ∷ erofs ∷ []

abbrev pub errno_write : List Errno
errno_write =
    eagain ∷ ebadf ∷ econnreset ∷ edquot ∷ efault ∷ efbig ∷ eintr ∷ einval ∷ eio ∷ enetdown
    ∷ enetunreach ∷ enospc ∷ enxio ∷ epipe ∷ ewouldblock ∷ []

abbrev pub errno_lstat : List Errno
errno_lstat = eacces ∷ efault ∷ eio ∷ eloop ∷ enametoolong ∷ enoent ∷ enotdir ∷ eoverflow ∷ []

abbrev pub errno_statfs : List Errno
errno_statfs = eacces ∷ efault ∷ eio ∷ eloop ∷ enametoolong ∷ enoent ∷ enotdir ∷ []

abbrev pub errno_close : List Errno
errno_close = ebadf ∷ eintr ∷ eio ∷ []

abbrev pub errno_utimensat : List Errno
errno_utimensat =
    eacces ∷ ebadf ∷ efault ∷ einval ∷ eio ∷ eloop ∷ enametoolong ∷ enoent ∷ enotdir ∷ eperm ∷ erofs
    ∷ esrch ∷ []

abbrev pub errno_fsync : List Errno
errno_fsync = ebadf ∷ eintr ∷ einval ∷ eio ∷ []

abbrev pub errno_setxattr : List Errno
errno_setxattr =
    e2big ∷ eacces ∷ eexist ∷ efault ∷ einval ∷ eio ∷ eloop ∷ enametoolong ∷ enoattr ∷ enospc
    ∷ enotdir ∷ enotsup ∷ eperm ∷ erange ∷ erofs ∷ []

abbrev pub errno_getxattr : List Errno
errno_getxattr =
    eacces ∷ efault ∷ einval ∷ eio ∷ eisdir ∷ eloop ∷ enametoolong ∷ enoattr ∷ enotdir ∷ enotsup
    ∷ eperm ∷ erange ∷ []

abbrev pub errno_listxattr : List Errno
errno_listxattr =
    eacces ∷ efault ∷ einval ∷ eio ∷ eloop ∷ enametoolong ∷ enotdir ∷ enotsup ∷ eperm ∷ erange ∷ []

abbrev pub errno_removexattr : List Errno
errno_removexattr =
    eacces ∷ efault ∷ einval ∷ eio ∷ eloop ∷ enametoolong ∷ enoattr ∷ enotdir ∷ enotsup ∷ eperm
    ∷ erofs ∷ []

abbrev pub errno_flock : List Errno
errno_flock = ebadf ∷ einval ∷ enotsup ∷ ewouldblock ∷ []

abbrev pub errno_ioctl : List Errno
errno_ioctl = ebadf ∷ einval ∷ enotty ∷ []

abbrev pub errno_fcntl : List Errno
errno_fcntl = eacces ∷ ebadf ∷ edeadlk ∷ eintr ∷ einval ∷ emfile ∷ enolck ∷ eoverflow ∷ esrch ∷ []
