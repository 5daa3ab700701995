-- ===== src/FuseOp.antt =====
-- The operations that FUSE calls, `fuse_op` and `fuse_op_name` of
-- unreliablefs/unreliablefs/unreliablefs_ops.h and unreliablefs_ops.c.
pub mod Aligned
pub mod Installed
use bnfs.Base.{
  ℕ, zero, suc, Bool, true, false, Option, none, some, List, [], ◌∷◌, ◌++◌, Bytes, codes, get_elem?,
  ◌==◌, if◌then◌else◌,
}
use bnfs.Build.{Build, have_ioctl, if_defined}

pub data FuseOp : Type 0 where
  op_getattr op_readlink op_mknod op_mkdir op_unlink op_rmdir op_symlink : FuseOp
  op_rename op_link op_chmod op_chown op_truncate op_open op_read : FuseOp
  op_write op_statfs op_flush op_release op_fsync op_setxattr op_getxattr : FuseOp
  op_listxattr op_removexattr op_opendir op_readdir op_releasedir op_fsyncdir op_access : FuseOp
  op_creat op_ftruncate op_fgetattr op_lock op_ioctl op_flock op_fallocate : FuseOp
  op_utimens op_lstat : FuseOp

-- The enumerators of a build, in order.
abbrev pub enumerators_of : (xattr ioctl flock fallocate utimensat : Bool) → List FuseOp
enumerators_of xattr ioctl flock fallocate utimensat =
    (op_getattr ∷ op_readlink ∷ op_mknod ∷ op_mkdir ∷ op_unlink ∷ op_rmdir ∷ op_symlink ∷ op_rename
      ∷ op_link ∷ op_chmod ∷ op_chown ∷ op_truncate ∷ op_open ∷ op_read ∷ op_write ∷ op_statfs
      ∷ op_flush ∷ op_release ∷ op_fsync ∷ [])
    ++ if_defined xattr (op_setxattr ∷ op_getxattr ∷ op_listxattr ∷ op_removexattr ∷ [])
    ++ (op_opendir ∷ op_readdir ∷ op_releasedir ∷ op_fsyncdir ∷ op_access ∷ op_creat ∷ op_ftruncate
        ∷ op_fgetattr ∷ op_lock ∷ [])
    ++ if_defined ioctl (op_ioctl ∷ [])
    ++ if_defined flock (op_flock ∷ [])
    ++ if_defined fallocate (op_fallocate ∷ [])
    ++ if_defined utimensat (op_utimens ∷ [])
    ++ (op_lstat ∷ [])

abbrev pub enumerators : Build → List FuseOp
enumerators b =
    enumerators_of b.have_xattr (have_ioctl b) b.have_flock b.have_fallocate b.have_utimensat

-- The array of their names.
abbrev pub names_of : (xattr ioctl flock fallocate utimensat : Bool) → List Bytes
names_of xattr ioctl flock fallocate utimensat =
    (codes "getattr"
      ∷ codes "readlink"
      ∷ codes "mknod"
      ∷ codes "mkdir"
      ∷ codes "unlink"
      ∷ codes "rmdir"
      ∷ codes "symlink"
      ∷ codes "rename"
      ∷ codes "link"
      ∷ codes "chmod"
      ∷ codes "chown"
      ∷ codes "truncate"
      ∷ codes "open"
      ∷ codes "read"
      ∷ codes "write"
      ∷ codes "statfs"
      ∷ codes "flush"
      ∷ codes "release"
      ∷ codes "fsync"
      ∷ [])
    ++ if_defined xattr
        (codes "setxattr" ∷ codes "getxattr" ∷ codes "listxattr" ∷ codes "removexattr" ∷ [])
    ++ (codes "opendir"
        ∷ codes "readdir"
        ∷ codes "releasedir"
        ∷ codes "fsyncdir"
        ∷ codes "access"
        ∷ codes "creat"
        ∷ codes "ftruncate"
        ∷ codes "fgetattr"
        ∷ codes "lock"
        ∷ [])
    ++ if_defined ioctl (codes "ioctl" ∷ [])
    ++ if_defined flock (codes "flock" ∷ [])
    ++ if_defined fallocate (codes "fallocate" ∷ [])
    ++ if_defined utimensat (codes "utimens" ∷ [])
    ++ (codes "lstat" ∷ [])

abbrev pub fuse_op_name : Build → List Bytes
fuse_op_name b = names_of b.have_xattr (have_ioctl b) b.have_flock b.have_fallocate b.have_utimensat

-- A number for each operation, to tell operations apart.
abbrev pub number : FuseOp → ℕ
number op_getattr = 0
number op_readlink = 1
number op_mknod = 2
number op_mkdir = 3
number op_unlink = 4
number op_rmdir = 5
number op_symlink = 6
number op_rename = 7
number op_link = 8
number op_chmod = 9
number op_chown = 10
number op_truncate = 11
number op_open = 12
number op_read = 13
number op_write = 14
number op_statfs = 15
number op_flush = 16
number op_release = 17
number op_fsync = 18
number op_setxattr = 19
number op_getxattr = 20
number op_listxattr = 21
number op_removexattr = 22
number op_opendir = 23
number op_readdir = 24
number op_releasedir = 25
number op_fsyncdir = 26
number op_access = 27
number op_creat = 28
number op_ftruncate = 29
number op_fgetattr = 30
number op_lock = 31
number op_ioctl = 32
number op_flock = 33
number op_fallocate = 34
number op_utimens = 35
number op_lstat = 36

-- Where an operation stands in a list, counted from `i`.
abbrev pub position_from : ℕ → FuseOp → List FuseOp → Option ℕ
position_from i op [] = none
position_from i op (x ∷ xs) =
    let rest = position_from (suc i) op xs in if number x == number op then some i else rest

-- The value of the enumerator; none for one that the build does not have.
unfoldable pub op_index : Build → FuseOp → Option ℕ
op_index b op = position_from 0 op (enumerators b)

-- `fuse_op_name[operation]`; none is a read past the end of the array.
unfoldable pub op_name : Build → FuseOp → Option Bytes
unfolding op_index
op_name b op = elim (op_index b op) [ none ↦ none | some i ↦ get_elem? (fuse_op_name b) i ]
