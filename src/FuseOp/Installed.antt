-- ===== src/FuseOp/Installed.antt =====
-- The operations that unreliablefs/unreliablefs/unreliablefs.c gives to FUSE, and the tables of
-- errors that error injection has for them.
use bnfs.Base.{Bool, true, false, none, some, List, [], ◌∷◌, ◌++◌, All, ◌≡◌, ◌⊎◌, arith}
use bnfs.Build.{linux, macosx, Build, have_ioctl, if_defined}
use bnfs.Errno.Tables.{errno_table}
use bnfs.FuseOp.{
  FuseOp, op_getattr, op_readlink, op_mknod, op_mkdir, op_unlink, op_rmdir, op_symlink, op_rename,
  op_link, op_chmod, op_chown, op_truncate, op_open, op_read, op_write, op_statfs, op_flush,
  op_release, op_fsync, op_setxattr, op_getxattr, op_listxattr, op_removexattr, op_opendir,
  op_readdir, op_releasedir, op_fsyncdir, op_access, op_creat, op_ftruncate, op_fgetattr, op_lock,
  op_ioctl, op_flock, op_fallocate, op_utimens,
}

-- `unreliable_ops` without `init` and `destroy`, by the operation that each handler reports.
abbrev pub unreliable_ops : Build → List FuseOp
unreliable_ops b =
    (op_getattr ∷ op_readlink ∷ op_mknod ∷ op_mkdir ∷ op_unlink ∷ op_rmdir ∷ op_symlink ∷ op_rename
      ∷ op_link ∷ op_chmod ∷ op_chown ∷ op_truncate ∷ op_open ∷ op_read ∷ op_write ∷ op_statfs
      ∷ op_flush ∷ op_release ∷ op_fsync ∷ [])
    ++ if_defined b.have_xattr (op_setxattr ∷ op_getxattr ∷ op_listxattr ∷ op_removexattr ∷ [])
    ++ (op_opendir ∷ op_readdir ∷ op_releasedir ∷ op_fsyncdir ∷ op_access ∷ op_creat ∷ op_ftruncate
        ∷ op_fgetattr ∷ op_lock ∷ [])
    ++ if_defined (have_ioctl b) (op_ioctl ∷ [])
    ++ if_defined b.have_flock (op_flock ∷ [])
    ++ if_defined b.have_fallocate (op_fallocate ∷ [])
    ++ if_defined b.have_utimensat (op_utimens ∷ [])

-- The build compiles: each table that its flags ask for is in its header.
abbrev pub Compiles : Build → Type 0
Compiles b =
    (b.have_xattr ≡ true → (b.system ≡ linux) ⊎ (b.system ≡ macosx))
    × (b.have_fallocate ≡ true → b.system ≡ linux)

abbrev pub has_table : Build → FuseOp → Bool
has_table b op = elim (errno_table b op) [ none ↦ false | some arr ↦ true ]

-- In a build that compiles, every operation that FUSE may call has a table of errors, so that
-- error injection never takes the `default` of its switch.
pub unreliable_ops-has_table :
    (b : Build) → Compiles b → All (λ op. has_table b op ≡ true) (unreliable_ops b)
unfolding errno_table
unreliable_ops-has_table b h = ground (arith, h)
