-- ===== src/Mounted/Dispatched.antt =====
-- What every slot of the table `unreliable_ops` of unreliablefs/unreliablefs/unreliablefs.c keeps.
use mathlib.Core.List.{Perm}
use bnfs.Base.{true, false, List, refl, arith}
use bnfs.FuseOp.{
  op_access, op_chmod, op_chown, op_creat, op_fallocate, op_fgetattr, op_flock, op_flush, op_fsync,
  op_fsyncdir, op_ftruncate, op_getattr, op_getxattr, op_ioctl, op_link, op_listxattr, op_lock,
  op_mkdir, op_mknod, op_open, op_opendir, op_read, op_readdir, op_readlink, op_release,
  op_releasedir, op_removexattr, op_rename, op_rmdir, op_setxattr, op_statfs, op_symlink,
  op_truncate, op_unlink, op_utimens, op_write,
}
use bnfs.Queue.{QueueEntry}
use bnfs.Queue.Drain.{enqueue-WritesNothing}
use bnfs.Ops.{Env, Mount, Chance}
use bnfs.Ops.Names.{
  state_of, unreliable_getattr, unreliable_readlink, unreliable_mknod, unreliable_mkdir,
  unreliable_unlink, unreliable_rmdir, unreliable_symlink, unreliable_rename, unreliable_link,
  unreliable_chmod, unreliable_chown, unreliable_truncate, unreliable_statfs, unreliable_readdir,
  unreliable_access, unreliable_ftruncate, unreliable_utimens,
}
use bnfs.Ops.Data.{
  write_entry, flush_entry, handle_of, unreliable_open, unreliable_read, unreliable_write,
  unreliable_flush, unreliable_release, unreliable_fsync, unreliable_create,
}
use bnfs.Ops.Misc.{
  unreliable_setxattr, unreliable_getxattr, unreliable_listxattr, unreliable_removexattr,
  unreliable_opendir, unreliable_releasedir, unreliable_fsyncdir, unreliable_fgetattr,
  unreliable_lock, unreliable_ioctl, unreliable_flock, unreliable_fallocate,
}
use bnfs.Ops.Branches.{After}
use bnfs.Ops.Injection.{write_entry-WritesNothing}
use bnfs.Mounted.{
  FuseCall, dispatch, is_local, call_getattr, call_readlink, call_mknod, call_mkdir, call_unlink,
  call_rmdir, call_symlink, call_rename, call_link, call_chmod, call_chown, call_truncate,
  call_open, call_read, call_write, call_statfs, call_flush, call_release, call_fsync,
  call_setxattr, call_getxattr, call_listxattr, call_removexattr, call_opendir, call_readdir,
  call_releasedir, call_fsyncdir, call_access, call_create, call_ftruncate, call_fgetattr,
  call_lock, call_ioctl, call_flock, call_fallocate, call_utimens,
}
use bnfs.Mounted.Requests.{
  stays, client_mkdir-Served, client_rmdir-Served, client_access-Served, client_unlink-Served,
  client_rename-Served,
}
use bnfs.Mounted.Frames.{
  Frame, guarded-Frame, guarded_queue-Frame, answer-Frame, either-Frame, stat_answer-Frame,
  open_body-Frames, read_body-Frames, write_body-Frames, flush_body-Frames, fsyncdir_body-Frames,
  strays-Frame, readlink_body-Frames,
}

module _ {E : Env} where
  -- Every slot of the table, if it returns and the shuffle only permutes, leaves a mount that is
  -- related to the one before.
  pub dispatch-Frame :
      (call : FuseCall) (c : Chance E) (m : Mount E)
      → ((l : List QueueEntry) → Perm (c.shuffle l) l)
      → After (Frame (is_local call) m) (dispatch E call c m)
  unfolding dispatch is_local unreliable_getattr unreliable_readlink unreliable_mknod
      unreliable_mkdir unreliable_unlink unreliable_rmdir unreliable_symlink unreliable_rename
      unreliable_link unreliable_chmod unreliable_chown unreliable_truncate unreliable_open
      unreliable_read unreliable_write unreliable_statfs unreliable_flush unreliable_release
      unreliable_fsync unreliable_setxattr unreliable_getxattr unreliable_listxattr
      unreliable_removexattr unreliable_opendir unreliable_readdir unreliable_releasedir
      unreliable_fsyncdir unreliable_access unreliable_create unreliable_ftruncate
      unreliable_fgetattr unreliable_lock unreliable_ioctl unreliable_flock unreliable_fallocate
      unreliable_utimens
  dispatch-Frame (call_getattr path) c m h =
      guarded-Frame _ op_getattr path c m _
        (λ m effects. (λ q. q, λ s. s, stays m.server, λ o. refl))
  dispatch-Frame (call_readlink path size) c m h = strays-Frame _ m _ (
      guarded-Frame _ op_readlink path c m _
        (λ m effects. readlink_body-Frames _ path size m effects))
  dispatch-Frame (call_mknod path mode dev) c m h =
      guarded-Frame _ op_mknod path c m _ (λ m effects. (λ q. q, λ s. s, stays m.server, λ o. refl))
  dispatch-Frame (call_mkdir path mode) c m h = guarded-Frame _ op_mkdir path c m _ (λ m effects. (
    λ q. q,
    λ s. s,
    client_mkdir-Served E.client_os E.server_os E.sha256 m.client c.delivery path mode m.server,
    λ o. absurd (ground (arith, o)),
  ))
  dispatch-Frame (call_unlink path) c m h = guarded-Frame _ op_unlink path c m _ (λ m effects. (
    λ q. q,
    λ s. s,
    client_unlink-Served E.client_os E.server_os E.sha256 m.client c.delivery path (state_of E m),
    λ o. absurd (ground (arith, o)),
  ))
  dispatch-Frame (call_rmdir path) c m h = guarded-Frame _ op_rmdir path c m _ (λ m effects. (
    λ q. q,
    λ s. s,
    client_rmdir-Served E.client_os E.server_os E.sha256 m.client c.delivery path m.server,
    λ o. absurd (ground (arith, o)),
  ))
  dispatch-Frame (call_symlink target linkpath) c m h =
      guarded-Frame _ op_symlink target c m _
        (λ m effects. (λ q. q, λ s. s, stays m.server, λ o. refl))
  dispatch-Frame (call_rename oldpath newpath) c m h =
      guarded-Frame _ op_rename oldpath c m _ (λ m effects. (
        λ q. q,
        λ s. s,
        client_rename-Served E.client_os E.server_os E.sha256 m.client c.delivery oldpath newpath
            (state_of E m),
        λ o. absurd (ground (arith, o)),
      ))
  dispatch-Frame (call_link oldpath newpath) c m h =
      guarded-Frame _ op_link oldpath c m _
        (λ m effects. (λ q. q, λ s. s, stays m.server, λ o. refl))
  dispatch-Frame (call_chmod path mode) c m h =
      guarded-Frame _ op_chmod path c m _ (λ m effects. (λ q. q, λ s. s, stays m.server, λ o. refl))
  dispatch-Frame (call_chown path owner group) c m h =
      guarded-Frame _ op_chown path c m _ (λ m effects. (λ q. q, λ s. s, stays m.server, λ o. refl))
  dispatch-Frame (call_truncate path size) c m h =
      guarded-Frame _ op_truncate path c m _
        (λ m effects. (λ q. q, λ s. s, stays m.server, λ o. refl))
  dispatch-Frame (call_open path flags) c m h =
      guarded-Frame _ op_open path c m _ (open_body-Frames false path flags c)
  dispatch-Frame (call_read path size offset fi) c m h =
      guarded-Frame _ op_read path c m _ (read_body-Frames _ path size offset fi)
  dispatch-Frame (call_write path buf size offset fi) c m h =
      guarded_queue-Frame _ op_write path c m _ _
        (λ m effects. (
          enqueue-WritesNothing c.shuffle (write_entry E path buf size offset (handle_of fi))
              m.op_queue h (write_entry-WritesNothing E path buf size offset (handle_of fi)),
          λ s. s,
          stays m.server,
          λ o. refl,
        ))
        (write_body-Frames _ path buf size offset fi)
  dispatch-Frame (call_statfs path) c m h =
      guarded-Frame _ op_statfs path c m _ (λ m effects. answer-Frame _ _ _ _ _ m effects)
  dispatch-Frame (call_flush path fh) c m h =
      guarded_queue-Frame _ op_flush path c m _ _
        (λ m effects. (
          enqueue-WritesNothing c.shuffle (flush_entry E path fh) m.op_queue h (λ one. refl),
          λ s. s,
          stays m.server,
          λ o. refl,
        ))
        (flush_body-Frames path fh c)
  dispatch-Frame (call_release path fh) c m h =
      guarded-Frame _ op_release path c m _
        (λ m effects. (λ q. q, λ s. s, stays m.server, λ o. refl))
  dispatch-Frame (call_fsync path true fh) c m h =
      guarded-Frame _ op_fsync path c m _ (λ m effects. (λ q. q, λ s. s, stays m.server, λ o. refl))
  dispatch-Frame (call_fsync path false fh) c m h =
      guarded-Frame _ op_fsync path c m _ (λ m effects. (λ q. q, λ s. s, stays m.server, λ o. refl))
  dispatch-Frame (call_setxattr path name value flags) c m h =
      guarded-Frame _ op_setxattr path c m _
        (λ m effects. (λ q. q, λ s. s, stays m.server, λ o. refl))
  dispatch-Frame (call_getxattr path name size) c m h =
      guarded-Frame _ op_getxattr path c m _ (λ m effects. answer-Frame _ _ _ _ _ m effects)
  dispatch-Frame (call_listxattr path size) c m h =
      guarded-Frame _ op_listxattr path c m _ (λ m effects. answer-Frame _ _ _ _ _ m effects)
  dispatch-Frame (call_removexattr path name) c m h =
      guarded-Frame _ op_removexattr path c m _
        (λ m effects. (λ q. q, λ s. s, stays m.server, λ o. refl))
  dispatch-Frame (call_opendir path) c m h =
      guarded-Frame _ op_opendir path c m _
        (λ m effects. (λ q. q, λ s. s, stays m.server, λ o. refl))
  dispatch-Frame (call_readdir path) c m h =
      guarded-Frame _ op_readdir path c m _
        (λ m effects. (λ q. q, λ s. s, stays m.server, λ o. refl))
  dispatch-Frame (call_releasedir path fh) c m h =
      guarded-Frame _ op_releasedir path c m _
        (λ m effects. (λ q. q, λ s. s, stays m.server, λ o. refl))
  dispatch-Frame (call_fsyncdir path datasync) c m h =
      guarded-Frame _ op_fsyncdir path c m _ (fsyncdir_body-Frames _ datasync path)
  dispatch-Frame (call_access path mode) c m h = guarded-Frame _ op_access path c m _ (λ m effects.
      (
        λ q. q,
        λ s. s,
        client_access-Served E.client_os E.server_os E.sha256 m.client c.delivery path mode
            m.server,
        λ o. absurd (ground (arith, o)),
      ))
  dispatch-Frame (call_create path flags) c m h =
      guarded-Frame _ op_creat path c m _ (open_body-Frames true path flags c)
  dispatch-Frame (call_ftruncate path size) c m h =
      guarded-Frame _ op_ftruncate path c m _
        (λ m effects. (λ q. q, λ s. s, stays m.server, λ o. refl))
  dispatch-Frame (call_fgetattr path fh) c m h =
      guarded-Frame _ op_fgetattr path c m _ (λ m effects. stat_answer-Frame _ _ m effects)
  dispatch-Frame (call_lock path fh cmd) c m h =
      guarded-Frame _ op_lock path c m _ (λ m effects. (λ q. q, λ s. s, stays m.server, λ o. refl))
  dispatch-Frame (call_ioctl path fh cmd) c m h =
      guarded-Frame _ op_ioctl path c m _ (λ m effects. (λ q. q, λ s. s, stays m.server, λ o. refl))
  dispatch-Frame (call_flock path fh how) c m h =
      guarded-Frame _ op_flock path c m _ (λ m effects. (λ q. q, λ s. s, stays m.server, λ o. refl))
  dispatch-Frame (call_fallocate path mode offset len fh) c m h =
      guarded-Frame _ op_fallocate path c m _ (λ m effects. either-Frame _ _ _ _ m effects)
  dispatch-Frame (call_utimens path) c m h =
      guarded-Frame _ op_utimens path c m _
        (λ m effects. (λ q. q, λ s. s, stays m.server, λ o. refl))
