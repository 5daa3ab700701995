-- ===== src/Mounted/Waits.antt =====
-- Which slots of the table `unreliable_ops` of unreliablefs/unreliablefs/unreliablefs.c wait for ever,
-- and when.
use bnfs.Base.{arith, true, false, pos, length, ◌≡◌, refl}
use bnfs.Posix.{other, link}
use bnfs.FuseOp.{
  op_access, op_chmod, op_chown, op_creat, op_fallocate, op_fgetattr, op_flock, op_flush, op_fsync,
  op_fsyncdir, op_ftruncate, op_getattr, op_getxattr, op_ioctl, op_link, op_listxattr, op_lock,
  op_mkdir, op_mknod, op_open, op_opendir, op_read, op_readdir, op_readlink, op_release,
  op_releasedir, op_removexattr, op_rename, op_rmdir, op_setxattr, op_statfs, op_symlink,
  op_truncate, op_unlink, op_utimens, op_write,
}
use bnfs.Ops.{Env, Mount, Chance, after_inject, call_ret, no_output, guarded}
use bnfs.Ops.Branches.{guarded_queue-good}
use bnfs.Ops.Names.{
  unreliable_getattr, unreliable_readlink, unreliable_mknod, unreliable_mkdir, unreliable_unlink,
  unreliable_rmdir, unreliable_symlink, unreliable_rename, unreliable_link, unreliable_chmod,
  unreliable_chown, unreliable_truncate, unreliable_statfs, unreliable_readdir, unreliable_access,
  unreliable_ftruncate, unreliable_utimens, readlink_body,
}
use bnfs.Ops.Data.{
  unreliable_open, unreliable_read, unreliable_write, unreliable_flush, unreliable_release,
  unreliable_fsync, unreliable_create,
}
use bnfs.Ops.Misc.{
  unreliable_setxattr, unreliable_getxattr, unreliable_listxattr, unreliable_removexattr,
  unreliable_opendir, unreliable_releasedir, unreliable_fsyncdir, unreliable_fgetattr,
  unreliable_lock, unreliable_ioctl, unreliable_flock, unreliable_fallocate,
}
use bnfs.Mounted.{
  FuseCall, dispatch, call_getattr, call_readlink, call_mknod, call_mkdir, call_unlink, call_rmdir,
  call_symlink, call_rename, call_link, call_chmod, call_chown, call_truncate, call_open, call_read,
  call_write, call_statfs, call_flush, call_release, call_fsync, call_setxattr, call_getxattr,
  call_listxattr, call_removexattr, call_opendir, call_readdir, call_releasedir, call_fsyncdir,
  call_access, call_create, call_ftruncate, call_fgetattr, call_lock, call_ioctl, call_flock,
  call_fallocate, call_utimens,
}
use bnfs.Mounted.Slots.{nothing, a_stat, some_bytes, a_handle}
use bnfs.Mounted.Codes.{
  any_code, link-code, negative_or_zero-code, get_attr-code, read_dir-code, mkdir-code, rmdir-code,
  access-code,
}
use bnfs.Mounted.Answers.{
  one_call-Fits, fallocate-Fits, stat_answer-Fits, bytes_answer-Fits, open_body-Fits,
  read_body-Fits, write_body-Fits, fsyncdir_body-Fits,
}
use bnfs.Mounted.Waiting.{
  WaitsFor, overruns-WaitsFor, returns-WaitsFor, Fits-WaitsFor, guarded-WaitsFor,
  flush_body-WaitsFor, strays-WaitsFor,
}

module _ {E : Env} where
  -- Whatever slot FUSE calls, it waits for ever only where the mutex of the server is held.
  pub dispatch-WaitsFor :
      (call : FuseCall) (c : Chance E) (m : Mount E)
      → WaitsFor (m.server.locked ≡ true) (dispatch E call c m)
  unfolding dispatch unreliable_getattr unreliable_readlink unreliable_mknod unreliable_mkdir
      unreliable_unlink unreliable_rmdir unreliable_symlink unreliable_rename unreliable_link
      unreliable_chmod unreliable_chown unreliable_truncate unreliable_open unreliable_read
      unreliable_write unreliable_statfs unreliable_flush unreliable_release unreliable_fsync
      unreliable_setxattr unreliable_getxattr unreliable_listxattr unreliable_removexattr
      unreliable_opendir unreliable_readdir unreliable_releasedir unreliable_fsyncdir
      unreliable_access unreliable_create unreliable_ftruncate unreliable_fgetattr unreliable_lock
      unreliable_ioctl unreliable_flock unreliable_fallocate unreliable_utimens
  dispatch-WaitsFor (call_getattr path) c m =
      guarded-WaitsFor _ a_stat false op_getattr path c m _ (λ mounted effects. (
        refl,
        get_attr-code E.client_os E.server_os E.sha256 c.delivery path c.garbage c.buf
            mounted.server,
      ))
  dispatch-WaitsFor (call_readlink path size) c m =
      strays-WaitsFor _ (guarded E op_readlink path c m (readlink_body E path size))
  dispatch-WaitsFor (call_mknod path mode dev) c m =
      guarded-WaitsFor _ nothing false op_mknod path c m _
        (λ mounted effects. one_call-Fits _ mounted effects)
  dispatch-WaitsFor (call_mkdir path mode) c m =
      guarded-WaitsFor _ nothing false op_mkdir path c m _ (λ mounted effects.
        (refl, mkdir-code E.client_os E.server_os E.sha256 c.delivery path mode mounted.server))
  dispatch-WaitsFor (call_unlink path) c m =
      guarded-WaitsFor _ nothing false op_unlink path c m _
        (λ mounted effects. (refl, search negative_or_zero-code))
  dispatch-WaitsFor (call_rmdir path) c m =
      guarded-WaitsFor _ nothing false op_rmdir path c m _ (λ mounted effects.
        (refl, rmdir-code E.client_os E.server_os E.sha256 c.delivery path mounted.server))
  dispatch-WaitsFor (call_symlink target linkpath) c m =
      guarded-WaitsFor _ nothing false op_symlink target c m _
        (λ mounted effects. one_call-Fits _ mounted effects)
  dispatch-WaitsFor (call_rename oldpath newpath) c m =
      guarded-WaitsFor _ nothing true op_rename oldpath c m _
        (λ mounted effects. (refl, search any_code))
  dispatch-WaitsFor (call_link oldpath newpath) c m =
      guarded-WaitsFor _ nothing false op_link oldpath c m _
        (λ mounted effects. (refl, link-code (call_ret E (other (link oldpath newpath)) mounted)))
  dispatch-WaitsFor (call_chmod path mode) c m =
      guarded-WaitsFor _ nothing false op_chmod path c m _
        (λ mounted effects. one_call-Fits _ mounted effects)
  dispatch-WaitsFor (call_chown path owner group) c m =
      guarded-WaitsFor _ nothing false op_chown path c m _
        (λ mounted effects. one_call-Fits _ mounted effects)
  dispatch-WaitsFor (call_truncate path size) c m =
      guarded-WaitsFor _ nothing false op_truncate path c m _
        (λ mounted effects. one_call-Fits _ mounted effects)
  dispatch-WaitsFor (call_open path flags) c m =
      guarded-WaitsFor _ a_handle false op_open path c m _
        (λ mounted effects. open_body-Fits false path flags c mounted effects)
  dispatch-WaitsFor (call_read path size offset fi) c m =
      guarded-WaitsFor _ some_bytes true op_read path c m _
        (λ mounted effects. read_body-Fits path size offset fi mounted effects)
  dispatch-WaitsFor (call_write path buf size offset fi) c m =
      guarded_queue-good (WaitsFor (m.server.locked ≡ true)) op_write path c m _ _
        (overruns-WaitsFor E _) (λ code effects. returns-WaitsFor _ code no_output effects _)
        (λ effects. returns-WaitsFor _ _ no_output effects _)
        (λ effects. Fits-WaitsFor _ nothing true _ (
          let mounted = after_inject E op_write path c m in
          write_body-Fits path buf size offset fi mounted effects))
  dispatch-WaitsFor (call_statfs path) c m =
      guarded-WaitsFor _ some_bytes false op_statfs path c m _ (λ mounted effects.
        bytes_answer-Fits false _ (λ b. pos 0) (λ b. b) mounted effects (λ b. refl) (λ b. refl))
  dispatch-WaitsFor (call_flush path fh) c m =
      guarded_queue-good (WaitsFor (m.server.locked ≡ true)) op_flush path c m _ _
        (overruns-WaitsFor E _) (λ code effects. returns-WaitsFor _ code no_output effects _)
        (λ effects. returns-WaitsFor _ _ no_output effects _)
        (λ effects. flush_body-WaitsFor path fh c _ effects)
  dispatch-WaitsFor (call_release path fh) c m =
      guarded-WaitsFor _ nothing false op_release path c m _
        (λ mounted effects. one_call-Fits _ mounted effects)
  dispatch-WaitsFor (call_fsync path true fh) c m =
      guarded-WaitsFor _ nothing false op_fsync path c m _
        (λ mounted effects. one_call-Fits _ mounted effects)
  dispatch-WaitsFor (call_fsync path false fh) c m =
      guarded-WaitsFor _ nothing false op_fsync path c m _
        (λ mounted effects. one_call-Fits _ mounted effects)
  dispatch-WaitsFor (call_setxattr path name value flags) c m =
      guarded-WaitsFor _ nothing false op_setxattr path c m _
        (λ mounted effects. one_call-Fits _ mounted effects)
  dispatch-WaitsFor (call_getxattr path name size) c m =
      guarded-WaitsFor _ some_bytes false op_getxattr path c m _ (λ mounted effects.
        bytes_answer-Fits false _ (λ b. pos 0) (λ b. b) mounted effects (λ b. refl) (λ b. refl))
  dispatch-WaitsFor (call_listxattr path size) c m =
      guarded-WaitsFor _ some_bytes true op_listxattr path c m _ (λ mounted effects.
        bytes_answer-Fits true _ (λ b. pos (length b)) (λ b. b) mounted effects (λ b. ground arith)
          (λ b. any_code (pos (length b))))
  dispatch-WaitsFor (call_removexattr path name) c m =
      guarded-WaitsFor _ nothing false op_removexattr path c m _
        (λ mounted effects. one_call-Fits _ mounted effects)
  dispatch-WaitsFor (call_opendir path) c m =
      guarded-WaitsFor _ nothing false op_opendir path c m _ (λ mounted effects. (refl, refl))
  dispatch-WaitsFor (call_readdir path) c m =
      guarded-WaitsFor _ nothing false op_readdir path c m _ (λ mounted effects. (
        refl,
        read_dir-code E.client_os E.server_os E.sha256 c.delivery path c.is_full mounted.server,
      ))
  dispatch-WaitsFor (call_releasedir path fh) c m =
      guarded-WaitsFor _ nothing false op_releasedir path c m _
        (λ mounted effects. one_call-Fits _ mounted effects)
  dispatch-WaitsFor (call_fsyncdir path datasync) c m =
      guarded-WaitsFor _ nothing false op_fsyncdir path c m _
        (λ mounted effects. fsyncdir_body-Fits datasync path mounted effects)
  dispatch-WaitsFor (call_access path mode) c m =
      guarded-WaitsFor _ nothing false op_access path c m _ (λ mounted effects.
        (refl, access-code E.client_os E.server_os E.sha256 c.delivery path mode mounted.server))
  dispatch-WaitsFor (call_create path flags) c m =
      guarded-WaitsFor _ a_handle false op_creat path c m _
        (λ mounted effects. open_body-Fits true path flags c mounted effects)
  dispatch-WaitsFor (call_ftruncate path size) c m =
      guarded-WaitsFor _ nothing false op_ftruncate path c m _
        (λ mounted effects. one_call-Fits _ mounted effects)
  dispatch-WaitsFor (call_fgetattr path fh) c m =
      guarded-WaitsFor _ a_stat false op_fgetattr path c m _
        (λ mounted effects. stat_answer-Fits _ mounted effects)
  dispatch-WaitsFor (call_lock path fh cmd) c m =
      guarded-WaitsFor _ nothing false op_lock path c m _
        (λ mounted effects. one_call-Fits _ mounted effects)
  dispatch-WaitsFor (call_ioctl path fh cmd) c m =
      guarded-WaitsFor _ nothing true op_ioctl path c m _
        (λ mounted effects. (refl, search any_code))
  dispatch-WaitsFor (call_flock path fh how) c m =
      guarded-WaitsFor _ nothing false op_flock path c m _
        (λ mounted effects. one_call-Fits _ mounted effects)
  dispatch-WaitsFor (call_fallocate path mode offset len fh) c m =
      guarded-WaitsFor _ nothing false op_fallocate path c m _
        (λ mounted effects. fallocate-Fits _ _ _ mounted effects)
  dispatch-WaitsFor (call_utimens path) c m =
      guarded-WaitsFor _ nothing false op_utimens path c m _ (λ mounted effects. (refl, refl))
