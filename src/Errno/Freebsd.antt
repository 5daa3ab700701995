-- ===== src/Errno/Freebsd.antt =====
-- The tables of unreliablefs/unreliablefs/unreliablefs_errno_freebsd.h, in the order of that file.
use bnfs.Base.{Bool, true, false, List, [], ◌∷◌}
use bnfs.Errno.{
  Errno, eacces, eagain, ebadf, ebusy, ecapmode, econnreset, edeadlk, edquot, eexist, efault, efbig,
  eftype, eintegrity, eintr, einval, eio, eisdir, eloop, emfile, emlink, enametoolong, enfile,
  enoent, enolck, enospc, enotcapable, enotdir, enotempty, enotty, enxio, eopnotsupp, eoverflow,
  eperm, epipe, erofs, esrch, etxtbsy, ewouldblock, exdev,
}

-- `#if __FreeBSD__ >= 12`
abbrev since_12 : Bool → List Errno → List Errno
since_12 true rest = eintegrity ∷ rest
since_12 false rest = rest

abbrev pub errno_access : (recent : Bool) → List Errno
errno_access recent =
    eacces
    ∷ efault
    ∷ (since_12 recent
        (einval ∷ eio ∷ eloop ∷ enametoolong ∷ enoent ∷ enotdir ∷ erofs ∷ etxtbsy ∷ []))

abbrev pub errno_chmod : (recent : Bool) → List Errno
errno_chmod recent =
    eacces
    ∷ efault
    ∷ eftype
    ∷ (since_12 recent (eio ∷ eloop ∷ enametoolong ∷ enoent ∷ enotdir ∷ eperm ∷ eperm ∷ erofs ∷ []))

abbrev pub errno_creat : (recent : Bool) → List Errno
errno_creat recent =
    eacces
    ∷ ebadf
    ∷ ecapmode
    ∷ edquot
    ∷ eexist
    ∷ efault
    ∷ (since_12 recent (
        eintr ∷ einval ∷ eio ∷ eisdir ∷ eloop ∷ emfile ∷ emlink ∷ enametoolong ∷ enfile ∷ enoent
        ∷ enospc ∷ enotcapable ∷ enotdir ∷ enxio ∷ eopnotsupp ∷ eperm ∷ erofs ∷ etxtbsy
        ∷ ewouldblock ∷ []))

abbrev pub errno_ftruncate : (recent : Bool) → List Errno
errno_ftruncate recent =
    eacces
    ∷ ebadf
    ∷ efault
    ∷ efbig
    ∷ (since_12 recent (
        einval ∷ eio ∷ eisdir ∷ eloop ∷ enametoolong ∷ enoent ∷ enotdir ∷ eperm ∷ erofs ∷ etxtbsy
        ∷ []))

abbrev pub errno_link : (recent : Bool) → List Errno
errno_link recent =
    eacces
    ∷ ebadf
    ∷ edquot
    ∷ eexist
    ∷ efault
    ∷ (since_12 recent (
        einval ∷ eio ∷ eloop ∷ emlink ∷ enametoolong ∷ enoent ∷ enospc ∷ enotdir ∷ eopnotsupp
        ∷ eperm ∷ erofs ∷ exdev ∷ []))

abbrev pub errno_mkdir : (recent : Bool) → List Errno
errno_mkdir recent =
    eacces
    ∷ ebadf
    ∷ edquot
    ∷ eexist
    ∷ efault
    ∷ (since_12 recent
        (eio ∷ eloop ∷ emlink ∷ enametoolong ∷ enoent ∷ enospc ∷ enotdir ∷ eperm ∷ erofs ∷ []))

abbrev pub errno_mknod : (recent : Bool) → List Errno
errno_mknod recent =
    eacces
    ∷ ebadf
    ∷ edquot
    ∷ eexist
    ∷ efault
    ∷ (since_12 recent
        (einval ∷ eio ∷ eloop ∷ enametoolong ∷ enoent ∷ enospc ∷ enotdir ∷ eperm ∷ erofs ∷ []))

abbrev pub errno_opendir : List Errno
errno_opendir = eacces ∷ eloop ∷ enametoolong ∷ enoent ∷ enotdir ∷ []

abbrev pub errno_readdir : (recent : Bool) → List Errno
errno_readdir recent = ebadf ∷ efault ∷ (since_12 recent (einval ∷ eio ∷ []))

abbrev pub errno_read : (recent : Bool) → List Errno
errno_read recent =
    eagain
    ∷ ebadf
    ∷ ebusy
    ∷ econnreset
    ∷ efault
    ∷ (since_12 recent (eintr ∷ einval ∷ eio ∷ eisdir ∷ eopnotsupp ∷ eoverflow ∷ []))

abbrev pub errno_readlink : (recent : Bool) → List Errno
errno_readlink recent =
    eacces
    ∷ efault
    ∷ (since_12 recent (einval ∷ eio ∷ eloop ∷ enametoolong ∷ enoent ∷ enotdir ∷ []))

abbrev pub errno_rename : (recent : Bool) → List Errno
errno_rename recent =
    eacces
    ∷ ecapmode
    ∷ edquot
    ∷ efault
    ∷ (since_12 recent (
        einval ∷ eio ∷ eisdir ∷ eloop ∷ enametoolong ∷ enoent ∷ enospc ∷ enotdir ∷ enotempty ∷ eperm
        ∷ erofs ∷ exdev ∷ []))

abbrev pub errno_rmdir : (recent : Bool) → List Errno
errno_rmdir recent =
    eacces
    ∷ ebusy
    ∷ efault
    ∷ (since_12 recent
        (einval ∷ eio ∷ eloop ∷ enametoolong ∷ enoent ∷ enotdir ∷ enotempty ∷ eperm ∷ erofs ∷ []))

abbrev pub errno_symlink : (recent : Bool) → List Errno
errno_symlink recent =
    eacces
    ∷ edquot
    ∷ eexist
    ∷ efault
    ∷ (since_12 recent
        (eio ∷ eloop ∷ enametoolong ∷ enoent ∷ enospc ∷ enotdir ∷ eperm ∷ erofs ∷ []))

abbrev pub errno_truncate : (recent : Bool) → List Errno
errno_truncate recent =
    eacces
    ∷ efault
    ∷ efbig
    ∷ (since_12 recent (
        einval ∷ eio ∷ eisdir ∷ eloop ∷ enametoolong ∷ enoent ∷ enotdir ∷ eperm ∷ erofs ∷ etxtbsy
        ∷ []))

abbrev pub errno_unlink : (recent : Bool) → List Errno
errno_unlink recent =
    eacces
    ∷ efault
    ∷ (since_12 recent
        (eio ∷ eisdir ∷ eloop ∷ enametoolong ∷ enoent ∷ enospc ∷ enotdir ∷ eperm ∷ erofs ∷ []))

abbrev pub errno_write : (recent : Bool) → List Errno
errno_write recent =
    eagain
    ∷ ebadf
    ∷ edquot
    ∷ efault
    ∷ efbig
    ∷ (since_12 recent (eintr ∷ einval ∷ eio ∷ enospc ∷ epipe ∷ erofs ∷ []))

abbrev pub errno_lstat : (recent : Bool) → List Errno
errno_lstat recent =
    eacces
    ∷ efault
    ∷ (since_12 recent (eio ∷ eloop ∷ enametoolong ∷ enoent ∷ enotdir ∷ eoverflow ∷ []))

abbrev pub errno_statfs : (recent : Bool) → List Errno
errno_statfs recent =
    eacces ∷ efault ∷ (since_12 recent (eio ∷ eloop ∷ enametoolong ∷ enoent ∷ enotdir ∷ []))

abbrev pub errno_close : List Errno
errno_close = ebadf ∷ eintr ∷ enospc ∷ econnreset ∷ []

abbrev pub errno_utimensat : (recent : Bool) → List Errno
errno_utimensat recent =
    eacces
    ∷ ebadf
    ∷ efault
    ∷ (since_12 recent
        (einval ∷ eio ∷ eloop ∷ enametoolong ∷ enoent ∷ enotdir ∷ eperm ∷ erofs ∷ esrch ∷ []))

abbrev pub errno_fsync : (recent : Bool) → List Errno
errno_fsync recent = ebadf ∷ (since_12 recent (einval ∷ eio ∷ []))

abbrev pub errno_flock : List Errno
errno_flock = ebadf ∷ einval ∷ enolck ∷ eopnotsupp ∷ ewouldblock ∷ []

abbrev pub errno_ioctl : List Errno
errno_ioctl = ebadf ∷ efault ∷ einval ∷ enotty ∷ []

abbrev pub errno_fcntl : List Errno
errno_fcntl =
    eagain ∷ ebadf ∷ edeadlk ∷ eintr ∷ einval ∷ emfile ∷ enolck ∷ enotty ∷ eopnotsupp ∷ eoverflow
    ∷ eperm ∷ esrch ∷ []
