-- ===== src/Mounted/Slots.antt =====
-- The slots of the table `unreliable_ops` of unreliablefs/unreliablefs/unreliablefs.c, one by one:
-- what each hands to `error_inject`, and what FUSE may expect of it.
use bnfs.Base.{Bool, true, false, Bytes}
use bnfs.FuseOp.{
  FuseOp, op_access, op_chmod, op_chown, op_creat, op_fallocate, op_fgetattr, op_flock, op_flush,
  op_fsync, op_fsyncdir, op_ftruncate, op_getattr, op_getxattr, op_ioctl, op_link, op_listxattr,
  op_lock, op_mkdir, op_mknod, op_open, op_opendir, op_read, op_readdir, op_readlink, op_release,
  op_releasedir, op_removexattr, op_rename, op_rmdir, op_setxattr, op_statfs, op_symlink,
  op_truncate, op_unlink, op_utimens, op_write,
}
use bnfs.Mounted.{
  FuseCall, call_getattr, call_readlink, call_mknod, call_mkdir, call_unlink, call_rmdir,
  call_symlink, call_rename, call_link, call_chmod, call_chown, call_truncate, call_open, call_read,
  call_write, call_statfs, call_flush, call_release, call_fsync, call_setxattr, call_getxattr,
  call_listxattr, call_removexattr, call_opendir, call_readdir, call_releasedir, call_fsyncdir,
  call_access, call_create, call_ftruncate, call_fgetattr, call_lock, call_ioctl, call_flock,
  call_fallocate, call_utimens,
}

-- What a slot hands to `error_inject`.
unfoldable pub op_of : FuseCall → FuseOp
op_of (call_getattr _) = op_getattr
op_of (call_readlink _ _) = op_readlink
op_of (call_mknod _ _ _) = op_mknod
op_of (call_mkdir _ _) = op_mkdir
op_of (call_unlink _) = op_unlink
op_of (call_rmdir _) = op_rmdir
op_of (call_symlink _ _) = op_symlink
op_of (call_rename _ _) = op_rename
op_of (call_link _ _) = op_link
op_of (call_chmod _ _) = op_chmod
op_of (call_chown _ _ _) = op_chown
op_of (call_truncate _ _) = op_truncate
op_of (call_open _ _) = op_open
op_of (call_read _ _ _ _) = op_read
op_of (call_write _ _ _ _ _) = op_write
op_of (call_statfs _) = op_statfs
op_of (call_flush _ _) = op_flush
op_of (call_release _ _) = op_release
op_of (call_fsync _ _ _) = op_fsync
op_of (call_setxattr _ _ _ _) = op_setxattr
op_of (call_getxattr _ _ _) = op_getxattr
op_of (call_listxattr _ _) = op_listxattr
op_of (call_removexattr _ _) = op_removexattr
op_of (call_opendir _) = op_opendir
op_of (call_readdir _) = op_readdir
op_of (call_releasedir _ _) = op_releasedir
op_of (call_fsyncdir _ _) = op_fsyncdir
op_of (call_access _ _) = op_access
op_of (call_create _ _) = op_creat
op_of (call_ftruncate _ _) = op_ftruncate
op_of (call_fgetattr _ _) = op_fgetattr
op_of (call_lock _ _ _) = op_lock
op_of (call_ioctl _ _ _) = op_ioctl
op_of (call_flock _ _ _) = op_flock
op_of (call_fallocate _ _ _ _ _) = op_fallocate
op_of (call_utimens _) = op_utimens

unfoldable pub path_of : FuseCall → Bytes
path_of (call_getattr path) = path
path_of (call_readlink path _) = path
path_of (call_mknod path _ _) = path
path_of (call_mkdir path _) = path
path_of (call_unlink path) = path
path_of (call_rmdir path) = path
path_of (call_symlink path _) = path
path_of (call_rename path _) = path
path_of (call_link path _) = path
path_of (call_chmod path _) = path
path_of (call_chown path _ _) = path
path_of (call_truncate path _) = path
path_of (call_open path _) = path
path_of (call_read path _ _ _) = path
path_of (call_write path _ _ _ _) = path
path_of (call_statfs path) = path
path_of (call_flush path _) = path
path_of (call_release path _) = path
path_of (call_fsync path _ _) = path
path_of (call_setxattr path _ _ _) = path
path_of (call_getxattr path _ _) = path
path_of (call_listxattr path _) = path
path_of (call_removexattr path _) = path
path_of (call_opendir path) = path
path_of (call_readdir path) = path
path_of (call_releasedir path _) = path
path_of (call_fsyncdir path _) = path
path_of (call_access path _) = path
path_of (call_create path _) = path
path_of (call_ftruncate path _) = path
path_of (call_fgetattr path _) = path
path_of (call_lock path _ _) = path
path_of (call_ioctl path _ _) = path
path_of (call_flock path _ _) = path
path_of (call_fallocate path _ _ _ _) = path
path_of (call_utimens path) = path

-- The slots with a branch for `-ERR_INSERT_TO_QUEUE`.
unfoldable pub is_queued : FuseCall → Bool
is_queued (call_write path buf size offset fi) = true
is_queued (call_flush path fh) = true
is_queued _ = false

pub data Kind : Type 0 where
  nothing a_stat some_bytes a_target a_handle : Kind

-- What a slot hands out besides its code, where it hands out something.
unfoldable pub answer_kind : FuseCall → Kind
answer_kind (call_getattr _) = a_stat
answer_kind (call_fgetattr _ _) = a_stat
answer_kind (call_read _ _ _ _) = some_bytes
answer_kind (call_readlink _ _) = a_target
answer_kind (call_statfs _) = some_bytes
answer_kind (call_getxattr _ _ _) = some_bytes
answer_kind (call_listxattr _ _) = some_bytes
answer_kind (call_open _ _) = a_handle
answer_kind (call_create _ _) = a_handle
answer_kind _ = nothing

-- The slots whose code may be positive: a number of bytes, what `ioctl` answers, and the number of
-- a failure, in `rename`.
unfoldable pub answers_number : FuseCall → Bool
answers_number (call_read _ _ _ _) = true
answers_number (call_write _ _ _ _ _) = true
answers_number (call_listxattr _ _) = true
answers_number (call_ioctl _ _ _) = true
answers_number (call_rename _ _) = true
answers_number _ = false

unfoldable pub may_wait : FuseCall → Bool
may_wait (call_flush _ _) = true
may_wait _ = false
