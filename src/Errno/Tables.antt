-- ===== src/Errno/Tables.antt =====
-- The table that `op_random_errno` of unreliablefs/unreliablefs/unreliablefs_errinj.c draws from.
use bnfs.Base.{Option, none, some, List, if◌then◌else◌}
use bnfs.Build.{System, linux, freebsd, openbsd, macosx, Build, have_ioctl}
use bnfs.FuseOp.{
  FuseOp, op_getattr, op_readlink, op_mknod, op_mkdir, op_unlink, op_rmdir, op_symlink, op_rename,
  op_link, op_chmod, op_chown, op_truncate, op_open, op_read, op_write, op_statfs, op_flush,
  op_release, op_fsync, op_setxattr, op_getxattr, op_listxattr, op_removexattr, op_opendir,
  op_readdir, op_releasedir, op_fsyncdir, op_access, op_creat, op_ftruncate, op_fgetattr, op_lock,
  op_ioctl, op_flock, op_fallocate, op_utimens, op_lstat,
}
use bnfs.Errno.{Errno}
use bnfs.Errno.Linux as Linux
use bnfs.Errno.Freebsd as Freebsd
use bnfs.Errno.Openbsd as Openbsd
use bnfs.Errno.Macosx as Macosx

-- The table in the header that unreliablefs_errinj.h includes. A build that uses a table which its
-- header lacks does not compile.

abbrev lstat : System → Option (List Errno)
lstat linux = some Linux.errno_lstat
lstat (freebsd recent) = some (Freebsd.errno_lstat recent)
lstat openbsd = some Openbsd.errno_lstat
lstat macosx = some Macosx.errno_lstat

abbrev readlink : System → Option (List Errno)
readlink linux = some Linux.errno_readlink
readlink (freebsd recent) = some (Freebsd.errno_readlink recent)
readlink openbsd = some Openbsd.errno_readlink
readlink macosx = some Macosx.errno_readlink

abbrev mknod : System → Option (List Errno)
mknod linux = some Linux.errno_mknod
mknod (freebsd recent) = some (Freebsd.errno_mknod recent)
mknod openbsd = some Openbsd.errno_mknod
mknod macosx = some Macosx.errno_mknod

abbrev mkdir : System → Option (List Errno)
mkdir linux = some Linux.errno_mkdir
mkdir (freebsd recent) = some (Freebsd.errno_mkdir recent)
mkdir openbsd = some Openbsd.errno_mkdir
mkdir macosx = some Macosx.errno_mkdir

abbrev unlink : System → Option (List Errno)
unlink linux = some Linux.errno_unlink
unlink (freebsd recent) = some (Freebsd.errno_unlink recent)
unlink openbsd = some Openbsd.errno_unlink
unlink macosx = some Macosx.errno_unlink

abbrev rmdir : System → Option (List Errno)
rmdir linux = some Linux.errno_rmdir
rmdir (freebsd recent) = some (Freebsd.errno_rmdir recent)
rmdir openbsd = some Openbsd.errno_rmdir
rmdir macosx = some Macosx.errno_rmdir

abbrev symlink : System → Option (List Errno)
symlink linux = some Linux.errno_symlink
symlink (freebsd recent) = some (Freebsd.errno_symlink recent)
symlink openbsd = some Openbsd.errno_symlink
symlink macosx = some Macosx.errno_symlink

abbrev rename : System → Option (List Errno)
rename linux = some Linux.errno_rename
rename (freebsd recent) = some (Freebsd.errno_rename recent)
rename openbsd = some Openbsd.errno_rename
rename macosx = some Macosx.errno_rename

abbrev link : System → Option (List Errno)
link linux = some Linux.errno_link
link (freebsd recent) = some (Freebsd.errno_link recent)
link openbsd = some Openbsd.errno_link
link macosx = some Macosx.errno_link

abbrev chmod : System → Option (List Errno)
chmod linux = some Linux.errno_chmod
chmod (freebsd recent) = some (Freebsd.errno_chmod recent)
chmod openbsd = some Openbsd.errno_chmod
chmod macosx = some Macosx.errno_chmod

abbrev truncate : System → Option (List Errno)
truncate linux = some Linux.errno_truncate
truncate (freebsd recent) = some (Freebsd.errno_truncate recent)
truncate openbsd = some Openbsd.errno_truncate
truncate macosx = some Macosx.errno_truncate

abbrev creat : System → Option (List Errno)
creat linux = some Linux.errno_creat
creat (freebsd recent) = some (Freebsd.errno_creat recent)
creat openbsd = some Openbsd.errno_creat
creat macosx = some Macosx.errno_creat

abbrev read : System → Option (List Errno)
read linux = some Linux.errno_read
read (freebsd recent) = some (Freebsd.errno_read recent)
read openbsd = some Openbsd.errno_read
read macosx = some Macosx.errno_read

abbrev write : System → Option (List Errno)
write linux = some Linux.errno_write
write (freebsd recent) = some (Freebsd.errno_write recent)
write openbsd = some Openbsd.errno_write
write macosx = some Macosx.errno_write

abbrev statfs : System → Option (List Errno)
statfs linux = some Linux.errno_statfs
statfs (freebsd recent) = some (Freebsd.errno_statfs recent)
statfs openbsd = some Openbsd.errno_statfs
statfs macosx = some Macosx.errno_statfs

abbrev close : System → Option (List Errno)
close linux = some Linux.errno_close
close (freebsd recent) = some Freebsd.errno_close
close openbsd = some Openbsd.errno_close
close macosx = some Macosx.errno_close

abbrev fsync : System → Option (List Errno)
fsync linux = some Linux.errno_fsync
fsync (freebsd recent) = some (Freebsd.errno_fsync recent)
fsync openbsd = some Openbsd.errno_fsync
fsync macosx = some Macosx.errno_fsync

abbrev setxattr : System → Option (List Errno)
setxattr linux = some Linux.errno_setxattr
setxattr (freebsd recent) = none
setxattr openbsd = none
setxattr macosx = some Macosx.errno_setxattr

abbrev getxattr : System → Option (List Errno)
getxattr linux = some Linux.errno_getxattr
getxattr (freebsd recent) = none
getxattr openbsd = none
getxattr macosx = some Macosx.errno_getxattr

abbrev listxattr : System → Option (List Errno)
listxattr linux = some Linux.errno_listxattr
listxattr (freebsd recent) = none
listxattr openbsd = none
listxattr macosx = some Macosx.errno_listxattr

abbrev removexattr : System → Option (List Errno)
removexattr linux = some Linux.errno_removexattr
removexattr (freebsd recent) = none
removexattr openbsd = none
removexattr macosx = some Macosx.errno_removexattr

abbrev opendir : System → Option (List Errno)
opendir linux = some Linux.errno_opendir
opendir (freebsd recent) = some Freebsd.errno_opendir
opendir openbsd = some Openbsd.errno_opendir
opendir macosx = some Macosx.errno_opendir

abbrev readdir : System → Option (List Errno)
readdir linux = some Linux.errno_readdir
readdir (freebsd recent) = some (Freebsd.errno_readdir recent)
readdir openbsd = some Openbsd.errno_readdir
readdir macosx = some Macosx.errno_readdir

abbrev access : System → Option (List Errno)
access linux = some Linux.errno_access
access (freebsd recent) = some (Freebsd.errno_access recent)
access openbsd = some Openbsd.errno_access
access macosx = some Macosx.errno_access

abbrev ftruncate : System → Option (List Errno)
ftruncate linux = some Linux.errno_ftruncate
ftruncate (freebsd recent) = some (Freebsd.errno_ftruncate recent)
ftruncate openbsd = some Openbsd.errno_ftruncate
ftruncate macosx = some Macosx.errno_ftruncate

abbrev fcntl : System → Option (List Errno)
fcntl linux = some Linux.errno_fcntl
fcntl (freebsd recent) = some Freebsd.errno_fcntl
fcntl openbsd = some Openbsd.errno_fcntl
fcntl macosx = some Macosx.errno_fcntl

abbrev ioctl : System → Option (List Errno)
ioctl linux = some Linux.errno_ioctl
ioctl (freebsd recent) = some Freebsd.errno_ioctl
ioctl openbsd = none
ioctl macosx = some Macosx.errno_ioctl

abbrev flock : System → Option (List Errno)
flock linux = some Linux.errno_flock
flock (freebsd recent) = some Freebsd.errno_flock
flock openbsd = some Openbsd.errno_flock
flock macosx = some Macosx.errno_flock

abbrev fallocate : System → Option (List Errno)
fallocate linux = some Linux.errno_fallocate
fallocate (freebsd recent) = none
fallocate openbsd = none
fallocate macosx = none

abbrev utimensat : System → Option (List Errno)
utimensat linux = some Linux.errno_utimensat
utimensat (freebsd recent) = some (Freebsd.errno_utimensat recent)
utimensat openbsd = some Openbsd.errno_utimensat
utimensat macosx = some Macosx.errno_utimensat

-- None is the `default` of the switch.
unfoldable pub errno_table : Build → FuseOp → Option (List Errno)
errno_table b op_getattr = lstat b.system
errno_table b op_readlink = readlink b.system
errno_table b op_mknod = mknod b.system
errno_table b op_mkdir = mkdir b.system
errno_table b op_unlink = unlink b.system
errno_table b op_rmdir = rmdir b.system
errno_table b op_symlink = symlink b.system
errno_table b op_rename = rename b.system
errno_table b op_link = link b.system
errno_table b op_chmod = chmod b.system
errno_table b op_chown = chmod b.system
errno_table b op_truncate = truncate b.system
errno_table b op_open = creat b.system
errno_table b op_read = read b.system
errno_table b op_write = write b.system
errno_table b op_statfs = statfs b.system
errno_table b op_flush = close b.system
errno_table b op_release = close b.system
errno_table b op_fsync = fsync b.system
errno_table b op_setxattr = if b.have_xattr then setxattr b.system else none
errno_table b op_getxattr = if b.have_xattr then getxattr b.system else none
errno_table b op_listxattr = if b.have_xattr then listxattr b.system else none
errno_table b op_removexattr = if b.have_xattr then removexattr b.system else none
errno_table b op_opendir = opendir b.system
errno_table b op_readdir = readdir b.system
errno_table b op_releasedir = close b.system
errno_table b op_fsyncdir = fsync b.system
errno_table b op_access = access b.system
errno_table b op_creat = creat b.system
errno_table b op_ftruncate = ftruncate b.system
errno_table b op_fgetattr = lstat b.system
errno_table b op_lock = fcntl b.system
errno_table b op_ioctl = if have_ioctl b then ioctl b.system else none
errno_table b op_flock = if b.have_flock then flock b.system else none
errno_table b op_fallocate = if b.have_fallocate then fallocate b.system else none
errno_table b op_utimens = if b.have_utimensat then utimensat b.system else none
errno_table b op_lstat = lstat b.system
