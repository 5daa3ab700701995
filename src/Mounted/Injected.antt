-- ===== src/Mounted/Injected.antt =====
-- An error that is injected into a slot of the table `unreliable_ops` of
-- unreliablefs/unreliablefs/unreliablefs.c.
use bnfs.Base.{
  true, false, ◌&&◌, List, Bytes, ℤ, pos, eqb_ℤ, ◌≡◌, ◌≢◌, refl, inl, inr, Bool-cases, arith,
  if◌then◌else◌, ap,
}
use bnfs.FuseOp.{
  FuseOp, op_access, op_chmod, op_chown, op_creat, op_fallocate, op_fgetattr, op_flock, op_flush,
  op_fsync, op_fsyncdir, op_ftruncate, op_getattr, op_getxattr, op_ioctl, op_link, op_listxattr,
  op_lock, op_mkdir, op_mknod, op_open, op_opendir, op_read, op_readdir, op_readlink, op_release,
  op_releasedir, op_removexattr, op_rename, op_rmdir, op_setxattr, op_statfs, op_symlink,
  op_truncate, op_unlink, op_utimens, op_write,
}
use bnfs.Errinj.{Effect, noop_code, queue_code}
use bnfs.Errinj.Config.{answers}
use bnfs.Ops.{
  Env, Mount, Chance, Body, returns, no_output, injected, after_inject, guarded, guarded_queue,
  strays,
}
use bnfs.Ops.Names.{
  unreliable_getattr, unreliable_readlink, unreliable_mknod, unreliable_mkdir, unreliable_unlink,
  unreliable_rmdir, unreliable_symlink, unreliable_rename, unreliable_link, unreliable_chmod,
  unreliable_chown, unreliable_truncate, unreliable_statfs, unreliable_readdir, unreliable_access,
  unreliable_ftruncate, unreliable_utimens,
}
use bnfs.Ops.Data.{
  unreliable_open, unreliable_read, unreliable_write, unreliable_flush, unreliable_release,
  unreliable_fsync, unreliable_create,
}
use bnfs.Ops.Misc.{
  unreliable_setxattr, unreliable_getxattr, unreliable_listxattr, unreliable_removexattr,
  unreliable_opendir, unreliable_releasedir, unreliable_fsyncdir, unreliable_fgetattr,
  unreliable_lock, unreliable_ioctl, unreliable_flock, unreliable_fallocate,
}
use bnfs.Mounted.Slots.{op_of, path_of, is_queued}
use bnfs.Mounted.{
  FuseCall, dispatch, call_getattr, call_readlink, call_mknod, call_mkdir, call_unlink, call_rmdir,
  call_symlink, call_rename, call_link, call_chmod, call_chown, call_truncate, call_open, call_read,
  call_write, call_statfs, call_flush, call_release, call_fsync, call_setxattr, call_getxattr,
  call_listxattr, call_removexattr, call_opendir, call_readdir, call_releasedir, call_fsyncdir,
  call_access, call_create, call_ftruncate, call_fgetattr, call_lock, call_ioctl, call_flock,
  call_fallocate, call_utimens,
}

-- What a slot answers for an injected code.
abbrev pub reported : ℤ → ℤ
reported rc = if eqb_ℤ rc noop_code then pos 0 else rc

eqb_ℤ-ne : (x y : ℤ) → x ≢ y → eqb_ℤ x y ≡ false
eqb_ℤ-ne x y ne = ground (arith, ne)

module _ {E : Env} where
  guarded-fails :
      (op : FuseOp) (path : Bytes) (c : Chance E) (m : Mount E) (body : Body E) (rc : ℤ)
      (effects : List Effect)
      → injected E op path c m ≡ answers rc effects
      → rc ≢ pos 0
      → guarded E op path c m body
        ≡ returns (reported rc) no_output effects (after_inject E op path c m)
  unfolding guarded
  guarded-fails op path c m body rc effects e fails =
      let nonzero = eqb_ℤ-ne rc (pos 0) fails in
      elim (Bool-cases (eqb_ℤ rc noop_code)) [
        | inl n ↦ rw (e, guarded, n) refl
        | inr n ↦ rw (e, guarded, n, nonzero) refl
      ]

  guarded_queue-fails :
      (op : FuseOp) (path : Bytes) (c : Chance E) (m : Mount E) (queued body : Body E) (rc : ℤ)
      (effects : List Effect)
      → injected E op path c m ≡ answers rc effects
      → rc ≢ pos 0
      → rc ≢ queue_code
      → guarded_queue E op path c m queued body
        ≡ returns (reported rc) no_output effects (after_inject E op path c m)
  unfolding guarded_queue
  guarded_queue-fails op path c m queued body rc effects e fails not_queue =
      let nonzero = eqb_ℤ-ne rc (pos 0) fails in
      let unqueued = eqb_ℤ-ne rc queue_code not_queue in
      elim (Bool-cases (eqb_ℤ rc noop_code)) [
        | inl n ↦ rw (e, guarded_queue, n) refl
        | inr n ↦ rw (e, guarded_queue, n, unqueued, nonzero) refl
      ]

  -- Whatever slot FUSE calls: where a code other than 0 is injected, and it is not the code of the
  -- queue in a write or a flush, the slot calls nothing, hands out nothing and changes nothing but
  -- the configuration, if it was told to read it again. It answers the code as it is, or 0 for the
  -- code that says to do nothing.
  pub dispatch-injected :
      (call : FuseCall) (c : Chance E) (m : Mount E) (rc : ℤ) (effects : List Effect)
      → injected E (op_of call) (path_of call) c m ≡ answers rc effects
      → rc ≢ pos 0
      → (is_queued call && eqb_ℤ rc queue_code) ≡ false
      → dispatch E call c m
        ≡ returns (reported rc) no_output effects (after_inject E (op_of call) (path_of call) c m)
  unfolding op_of path_of is_queued dispatch unreliable_getattr unreliable_readlink unreliable_mknod
      unreliable_mkdir unreliable_unlink unreliable_rmdir unreliable_symlink unreliable_rename
      unreliable_link unreliable_chmod unreliable_chown unreliable_truncate unreliable_open
      unreliable_read unreliable_write unreliable_statfs unreliable_flush unreliable_release
      unreliable_fsync unreliable_setxattr unreliable_getxattr unreliable_listxattr
      unreliable_removexattr unreliable_opendir unreliable_readdir unreliable_releasedir
      unreliable_fsyncdir unreliable_access unreliable_create unreliable_ftruncate
      unreliable_fgetattr unreliable_lock unreliable_ioctl unreliable_flock unreliable_fallocate
      unreliable_utimens
  dispatch-injected (call_getattr path) c m rc effects e fails q =
      guarded-fails op_getattr path c m _ rc effects e fails
  dispatch-injected (call_readlink path size) c m rc effects e fails q =
      ap (strays E) (guarded-fails op_readlink path c m _ rc effects e fails)
  dispatch-injected (call_mknod path mode dev) c m rc effects e fails q =
      guarded-fails op_mknod path c m _ rc effects e fails
  dispatch-injected (call_mkdir path mode) c m rc effects e fails q =
      guarded-fails op_mkdir path c m _ rc effects e fails
  dispatch-injected (call_unlink path) c m rc effects e fails q =
      guarded-fails op_unlink path c m _ rc effects e fails
  dispatch-injected (call_rmdir path) c m rc effects e fails q =
      guarded-fails op_rmdir path c m _ rc effects e fails
  dispatch-injected (call_symlink target linkpath) c m rc effects e fails q =
      guarded-fails op_symlink target c m _ rc effects e fails
  dispatch-injected (call_rename oldpath newpath) c m rc effects e fails q =
      guarded-fails op_rename oldpath c m _ rc effects e fails
  dispatch-injected (call_link oldpath newpath) c m rc effects e fails q =
      guarded-fails op_link oldpath c m _ rc effects e fails
  dispatch-injected (call_chmod path mode) c m rc effects e fails q =
      guarded-fails op_chmod path c m _ rc effects e fails
  dispatch-injected (call_chown path owner group) c m rc effects e fails q =
      guarded-fails op_chown path c m _ rc effects e fails
  dispatch-injected (call_truncate path size) c m rc effects e fails q =
      guarded-fails op_truncate path c m _ rc effects e fails
  dispatch-injected (call_open path flags) c m rc effects e fails q =
      guarded-fails op_open path c m _ rc effects e fails
  dispatch-injected (call_read path size offset fi) c m rc effects e fails q =
      guarded-fails op_read path c m _ rc effects e fails
  dispatch-injected (call_write path buf size offset fi) c m rc effects e fails q =
      guarded_queue-fails op_write path c m _ _ rc effects e fails (λ same. ground (arith, q, same))
  dispatch-injected (call_statfs path) c m rc effects e fails q =
      guarded-fails op_statfs path c m _ rc effects e fails
  dispatch-injected (call_flush path fh) c m rc effects e fails q =
      guarded_queue-fails op_flush path c m _ _ rc effects e fails (λ same. ground (arith, q, same))
  dispatch-injected (call_release path fh) c m rc effects e fails q =
      guarded-fails op_release path c m _ rc effects e fails
  dispatch-injected (call_fsync path true fh) c m rc effects e fails q =
      guarded-fails op_fsync path c m _ rc effects e fails
  dispatch-injected (call_fsync path false fh) c m rc effects e fails q =
      guarded-fails op_fsync path c m _ rc effects e fails
  dispatch-injected (call_setxattr path name value flags) c m rc effects e fails q =
      guarded-fails op_setxattr path c m _ rc effects e fails
  dispatch-injected (call_getxattr path name size) c m rc effects e fails q =
      guarded-fails op_getxattr path c m _ rc effects e fails
  dispatch-injected (call_listxattr path size) c m rc effects e fails q =
      guarded-fails op_listxattr path c m _ rc effects e fails
  dispatch-injected (call_removexattr path name) c m rc effects e fails q =
      guarded-fails op_removexattr path c m _ rc effects e fails
  dispatch-injected (call_opendir path) c m rc effects e fails q =
      guarded-fails op_opendir path c m _ rc effects e fails
  dispatch-injected (call_readdir path) c m rc effects e fails q =
      guarded-fails op_readdir path c m _ rc effects e fails
  dispatch-injected (call_releasedir path fh) c m rc effects e fails q =
      guarded-fails op_releasedir path c m _ rc effects e fails
  dispatch-injected (call_fsyncdir path datasync) c m rc effects e fails q =
      guarded-fails op_fsyncdir path c m _ rc effects e fails
  dispatch-injected (call_access path mode) c m rc effects e fails q =
      guarded-fails op_access path c m _ rc effects e fails
  dispatch-injected (call_create path flags) c m rc effects e fails q =
      guarded-fails op_creat path c m _ rc effects e fails
  dispatch-injected (call_ftruncate path size) c m rc effects e fails q =
      guarded-fails op_ftruncate path c m _ rc effects e fails
  dispatch-injected (call_fgetattr path fh) c m rc effects e fails q =
      guarded-fails op_fgetattr path c m _ rc effects e fails
  dispatch-injected (call_lock path fh cmd) c m rc effects e fails q =
      guarded-fails op_lock path c m _ rc effects e fails
  dispatch-injected (call_ioctl path fh cmd) c m rc effects e fails q =
      guarded-fails op_ioctl path c m _ rc effects e fails
  dispatch-injected (call_flock path fh how) c m rc effects e fails q =
      guarded-fails op_flock path c m _ rc effects e fails
  dispatch-injected (call_fallocate path mode offset len fh) c m rc effects e fails q =
      guarded-fails op_fallocate path c m _ rc effects e fails
  dispatch-injected (call_utimens path) c m rc effects e fails q =
      guarded-fails op_utimens path c m _ rc effects e fails
