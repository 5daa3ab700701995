-- ===== src/Ops/Misc.antt =====
-- The operations of unreliablefs/unreliablefs/unreliablefs_ops.c on extended attributes,
-- directories and locks.
use bnfs.Base.{ℕ, Bool, some, Bytes, pos, negate, length, if◌then◌else◌, ◌==◌, Option, none}
use bnfs.Posix.{
  ret, fail, got, failed, other, setxattr, removexattr, opendir, closedir, fsync, fdatasync, fcntl,
  ioctl, flock, fallocate, getxattr, listxattr, Other, Query, setxattr_at, getxattr_at,
  listxattr_with, removexattr_with, open_file, o_wronly,
}
use bnfs.FuseOp.{
  op_setxattr, op_getxattr, op_listxattr, op_removexattr, op_opendir, op_releasedir, op_fsyncdir,
  op_fgetattr, op_lock, op_ioctl, op_flock, op_fallocate,
}
use bnfs.Ops.{
  Env, Mount, Chance, Outcome, no_output, bytes_out, Body, guarded, one_call, count_or_errno,
  stat_answer, cache_path, called, call_ret, strays,
}
use bnfs.Build.{is_apple}
use bnfs.Errno.{eopnotsupp}

-- `XATTR_NOFOLLOW`
abbrev xattr_nofollow : ℕ
xattr_nofollow = 1

module _ (E : Env) where
  open E use {client_os, build}

  -- The calls on attributes, as the build has them.
  abbrev pub setxattr_call : (path name value : Bytes) → (flags : ℕ) → Other
  setxattr_call path name value flags =
      if is_apple build then setxattr_at path name value 0 flags else setxattr path name value flags

  abbrev pub getxattr_call : (path name : Bytes) → (size : ℕ) → Query
  getxattr_call path name size =
      if is_apple build
      then getxattr_at path name size 0 xattr_nofollow
      else getxattr path name size

  abbrev pub listxattr_call : Bytes → (size : ℕ) → Query
  listxattr_call path size =
      if is_apple build then listxattr_with path size xattr_nofollow else listxattr path size

  abbrev pub removexattr_call : (path name : Bytes) → Other
  removexattr_call path name =
      if is_apple build then removexattr_with path name xattr_nofollow else removexattr path name

  unfoldable pub unreliable_setxattr :
      (path name value : Bytes) → (flags : ℕ) → Chance E → Mount E → Outcome E
  unreliable_setxattr path name value flags c m =
      guarded E op_setxattr path c m
        (one_call E (other (setxattr_call (cache_path E path) name value flags)))

  -- The size that `getxattr` returns is replaced by 0.
  unfoldable pub unreliable_getxattr :
      (path name : Bytes) → (size : ℕ) → Chance E → Mount E → Outcome E
  unreliable_getxattr path name size c m = guarded E op_getxattr path c m (λ m.
      elim (client_os.query m.client.world (getxattr_call (cache_path E path) name size)) [
        | got b ↦ some (pos 0, bytes_out b, m)
        | failed e ↦ some (negate e, no_output, m)
      ])

  unfoldable pub unreliable_listxattr : Bytes → (size : ℕ) → Chance E → Mount E → Outcome E
  unreliable_listxattr path size c m = guarded E op_listxattr path c m (λ m.
      elim (client_os.query m.client.world (listxattr_call (cache_path E path) size)) [
        | got b ↦ some (pos (length b), bytes_out b, m)
        | failed e ↦ some (negate e, no_output, m)
      ])

  unfoldable pub unreliable_removexattr : (path name : Bytes) → Chance E → Mount E → Outcome E
  unreliable_removexattr path name c m =
      guarded E op_removexattr path c m
        (one_call E (other (removexattr_call (cache_path E path) name)))

  -- The directory is not opened, and `fi->fh` is left alone.
  unfoldable pub unreliable_opendir : Bytes → Chance E → Mount E → Outcome E
  unreliable_opendir path c m = guarded E op_opendir path c m (λ m. some (pos 0, no_output, m))

  unfoldable pub unreliable_releasedir : Bytes → ℕ → Chance E → Mount E → Outcome E
  unreliable_releasedir path fh c m =
      guarded E op_releasedir path c m (one_call E (other (closedir fh)))

  -- A failed sync returns before `closedir`. `dirfd` is taken to be the handle.
  unfoldable pub fsyncdir_body : (datasync : Bool) → Bytes → Body E
  fsyncdir_body datasync path m =
      let opened = called E (other (opendir path)) m in
      elim (call_ret E (other (opendir path)) m) [
        | fail e ↦ some (negate e, no_output, opened)
        | ret dir ↦
            let sync = other (if datasync then fdatasync (pos dir) else fsync (pos dir)) in
            let synced = called E sync opened in
            elim (call_ret E sync opened) [
              | fail e ↦ some (negate e, no_output, synced)
              | ret n ↦ some (pos 0, no_output, called E (other (closedir dir)) synced)
            ]
      ]

  unfoldable pub unreliable_fsyncdir : Bytes → (datasync : Bool) → Chance E → Mount E → Outcome E
  unfolding fsyncdir_body
  unreliable_fsyncdir path datasync c m =
      guarded E op_fsyncdir path c m (fsyncdir_body datasync path)

  unfoldable pub unreliable_fgetattr : Bytes → ℕ → Chance E → Mount E → Outcome E
  unreliable_fgetattr path fh c m =
      guarded E op_fgetattr path c m
        (λ m. stat_answer E (client_os.fstat m.client.world (pos fh)) m)

  unfoldable pub unreliable_lock : Bytes → (fh cmd : ℕ) → Chance E → Mount E → Outcome E
  unreliable_lock path fh cmd c m =
      guarded E op_lock path c m (one_call E (other (fcntl (pos fh) cmd)))

  unfoldable pub unreliable_ioctl : Bytes → (fh cmd : ℕ) → Chance E → Mount E → Outcome E
  unreliable_ioctl path fh cmd c m = guarded E op_ioctl path c m (λ m.
      let k = other (ioctl (pos fh) cmd) in
      some (count_or_errno E (call_ret E k m), no_output, called E k m))

  unfoldable pub unreliable_flock : Bytes → (fh op : ℕ) → Chance E → Mount E → Outcome E
  unreliable_flock path fh op c m =
      guarded E op_flock path c m (one_call E (other (flock (pos fh) op)))

  -- Where `fi` is NULL the path is opened, but the call still reads `fi->fh`, through NULL.
  abbrev pub fallocate_null : Bytes → Body E
  fallocate_null path m =
      let c = open_file path o_wronly 0 in
      elim (call_ret E c m) [ fail e ↦ some (negate e, no_output, called E c m) | ret fd ↦ none ]

  -- Only mode 0 is carried out. `fi` is NULL or has a handle.
  unfoldable pub unreliable_fallocate :
      Bytes → (mode offset len : ℕ) → (fi : Option ℕ) → Chance E → Mount E → Outcome E
  unreliable_fallocate path mode offset len (some fh) c m = guarded E op_fallocate path c m (λ m.
      if mode == 0
      then one_call E (other (fallocate (pos fh) mode offset len)) m
      else some (negate (E.value eopnotsupp), no_output, m))
  unreliable_fallocate path mode offset len none c m = strays E (
      guarded E op_fallocate path c m (λ m.
        if mode == 0
        then fallocate_null path m
        else some (negate (E.value eopnotsupp), no_output, m)))
