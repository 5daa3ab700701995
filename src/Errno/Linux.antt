-- ===== src/Errno/Linux.antt =====
-- The tables of unreliablefs/unreliablefs/unreliablefs_errno_linux.h, in the order of that file.
use bnfs.Base.{List, [], ◌∷◌}
use bnfs.Errno.{
  Errno, e2big, eacces, eagain, ebadf, ebusy, edeadlk, edestaddrreq, edquot, eexist, efault, efbig,
  eintr, einval, eio, eisdir, eloop, emfile, emlink, enametoolong, enfile, enodata, enodev, enoent,
  enolck, enomem, enospc, enosys, enotdir, enotempty, enotsup, enotty, enxio, eopnotsupp, eoverflow,
  eperm, epipe, erange, erofs, espipe, esrch, etxtbsy, ewouldblock, exdev,
}

abbrev pub errno_access : List Errno
errno_access =
    eacces ∷ eloop ∷ enametoolong ∷ enoent ∷ enotdir ∷ erofs ∷ efault ∷ einval ∷ eio ∷ enomem
    ∷ etxtbsy ∷ []

abbrev pub errno_chmod : List Errno
errno_chmod =
    eacces ∷ efault ∷ eio ∷ eloop ∷ enametoolong ∷ enoent ∷ enomem ∷ enotdir ∷ eperm ∷ erofs ∷ []

abbrev pub errno_creat : List Errno
errno_creat =
    eacces ∷ edquot ∷ eexist ∷ efault ∷ efbig ∷ eintr ∷ einval ∷ eisdir ∷ eloop ∷ emfile
    ∷ enametoolong ∷ enfile ∷ enodev ∷ enoent ∷ enomem ∷ enospc ∷ enotdir ∷ enxio ∷ eopnotsupp
    ∷ eoverflow ∷ eperm ∷ erofs ∷ etxtbsy ∷ ewouldblock ∷ []

abbrev pub errno_ftruncate : List Errno
errno_ftruncate =
    eacces ∷ ebadf ∷ efault ∷ efbig ∷ eintr ∷ einval ∷ eio ∷ eisdir ∷ eloop ∷ enametoolong ∷ enotdir
    ∷ eperm ∷ erofs ∷ etxtbsy ∷ []

abbrev pub errno_link : List Errno
errno_link =
    eacces ∷ edquot ∷ eexist ∷ efault ∷ eio ∷ eloop ∷ emlink ∷ enametoolong ∷ enoent ∷ enomem
    ∷ enospc ∷ enotdir ∷ eperm ∷ erofs ∷ exdev ∷ []

abbrev pub errno_mkdir : List Errno
errno_mkdir =
    eacces ∷ edquot ∷ eexist ∷ efault ∷ einval ∷ eloop ∷ emlink ∷ enametoolong ∷ enoent ∷ enomem
    ∷ enospc ∷ enotdir ∷ eperm ∷ erofs ∷ []

abbrev pub errno_mknod : List Errno
errno_mknod =
    eacces ∷ edquot ∷ eexist ∷ efault ∷ einval ∷ eloop ∷ enametoolong ∷ enoent ∷ enomem ∷ enospc
    ∷ enotdir ∷ eperm ∷ erofs ∷ []

abbrev pub errno_opendir : List Errno
errno_opendir = eacces ∷ ebadf ∷ emfile ∷ enoent ∷ enomem ∷ enotdir ∷ []

abbrev pub errno_readdir : List Errno
errno_readdir = ebadf ∷ []

abbrev pub errno_read : List Errno
errno_read = eagain ∷ ewouldblock ∷ ebadf ∷ efault ∷ eintr ∷ einval ∷ eio ∷ eisdir ∷ []

abbrev pub errno_readlink : List Errno
errno_readlink =
    eacces ∷ efault ∷ einval ∷ eio ∷ eloop ∷ enametoolong ∷ enoent ∷ enomem ∷ enotdir ∷ []

abbrev pub errno_rename : List Errno
errno_rename =
    eacces ∷ ebusy ∷ edquot ∷ eexist ∷ efault ∷ einval ∷ eisdir ∷ eloop ∷ emlink ∷ enametoolong
    ∷ enoent ∷ enomem ∷ enospc ∷ enotdir ∷ enotempty ∷ eperm ∷ erofs ∷ []

abbrev pub errno_rmdir : List Errno
errno_rmdir =
    eacces ∷ ebusy ∷ efault ∷ einval ∷ eloop ∷ enametoolong ∷ enoent ∷ enomem ∷ enotdir ∷ enotempty
    ∷ eperm ∷ erofs ∷ []

abbrev pub errno_symlink : List Errno
errno_symlink =
    eacces ∷ edquot ∷ eexist ∷ efault ∷ eio ∷ eloop ∷ enametoolong ∷ enoent ∷ enomem ∷ enospc
    ∷ enotdir ∷ eperm ∷ erofs ∷ []

abbrev pub errno_truncate : List Errno
errno_truncate =
    eacces ∷ efault ∷ efbig ∷ eintr ∷ einval ∷ eio ∷ eisdir ∷ eloop ∷ enametoolong ∷ enoent
    ∷ enotdir ∷ eperm ∷ erofs ∷ etxtbsy ∷ []

abbrev pub errno_unlink : List Errno
errno_unlink =
    eacces ∷ ebusy ∷ efault ∷ eio ∷ eisdir ∷ eloop ∷ enametoolong ∷ enoent ∷ enomem ∷ enotdir ∷ []

abbrev pub errno_write : List Errno
errno_write =
    eagain ∷ ewouldblock ∷ ebadf ∷ edestaddrreq ∷ edquot ∷ efault ∷ efbig ∷ eintr ∷ einval ∷ enospc
    ∷ eperm ∷ epipe ∷ []

abbrev pub errno_lstat : List Errno
errno_lstat =
    eacces ∷ ebadf ∷ efault ∷ einval ∷ eloop ∷ enametoolong ∷ enoent ∷ enomem ∷ enotdir ∷ eoverflow
    ∷ []

abbrev pub errno_statfs : List Errno
errno_statfs =
    eacces ∷ efault ∷ eintr ∷ eio ∷ eloop ∷ enametoolong ∷ enoent ∷ enomem ∷ enosys ∷ enotdir
    ∷ eoverflow ∷ []

abbrev pub errno_close : List Errno
errno_close = ebadf ∷ edquot ∷ eintr ∷ eio ∷ enospc ∷ []

abbrev pub errno_utimensat : List Errno
errno_utimensat =
    eacces ∷ ebadf ∷ efault ∷ einval ∷ eloop ∷ enametoolong ∷ enoent ∷ enotdir ∷ eperm ∷ erofs
    ∷ esrch ∷ []

abbrev pub errno_fsync : List Errno
errno_fsync = ebadf ∷ edquot ∷ einval ∷ eio ∷ enospc ∷ erofs ∷ []

abbrev pub errno_setxattr : List Errno
errno_setxattr =
    edquot ∷ eexist ∷ enodata ∷ enospc ∷ enotsup ∷ eperm ∷ erange ∷ eacces ∷ ebadf ∷ efault ∷ eloop
    ∷ enametoolong ∷ enoent ∷ enomem ∷ enotdir ∷ eoverflow ∷ []

abbrev pub errno_getxattr : List Errno
errno_getxattr =
    e2big ∷ enodata ∷ enotsup ∷ erange ∷ eacces ∷ ebadf ∷ efault ∷ eloop ∷ enametoolong ∷ enoent
    ∷ enomem ∷ enotdir ∷ eoverflow ∷ []

abbrev pub errno_listxattr : List Errno
errno_listxattr =
    e2big ∷ enotsup ∷ erange ∷ eacces ∷ ebadf ∷ efault ∷ eloop ∷ enametoolong ∷ enoent ∷ enomem
    ∷ enotdir ∷ eoverflow ∷ []

abbrev pub errno_removexattr : List Errno
errno_removexattr =
    enodata ∷ enotsup ∷ eacces ∷ ebadf ∷ efault ∷ eloop ∷ enametoolong ∷ enoent ∷ enomem ∷ enotdir
    ∷ eoverflow ∷ []

abbrev pub errno_flock : List Errno
errno_flock = ebadf ∷ eintr ∷ einval ∷ enolck ∷ ewouldblock ∷ []

abbrev pub errno_fallocate : List Errno
errno_fallocate =
    ebadf ∷ efbig ∷ eintr ∷ einval ∷ eio ∷ enodev ∷ enospc ∷ enosys ∷ eopnotsupp ∷ eperm ∷ espipe
    ∷ etxtbsy ∷ []

abbrev pub errno_ioctl : List Errno
errno_ioctl = ebadf ∷ efault ∷ einval ∷ enotty ∷ []

abbrev pub errno_fcntl : List Errno
errno_fcntl =
    eacces ∷ eagain ∷ ebadf ∷ ebusy ∷ edeadlk ∷ efault ∷ eintr ∷ einval ∷ emfile ∷ enolck ∷ enotdir
    ∷ eperm ∷ []
