-- ===== src/Ops/Names.antt =====
-- The operations of unreliablefs/unreliablefs/unreliablefs_ops.c on names and attributes.
use bnfs.Base.{
  ℕ, some, Bytes, ℤ, pos, negsuc, negate, neg_ℤ, if◌then◌else◌, ◌++◌, ◌∷◌, [], none, ltb, length,
}
use bnfs.Posix.{
  ret, fail, got, failed, chmod, other, mknod, symlink, link, chown, truncate, readlink, statvfs,
}
use bnfs.FuseOp.{
  op_lstat, op_readlink, op_mknod, op_unlink, op_symlink, op_rename, op_link, op_chmod, op_chown,
  op_truncate, op_statfs, op_getattr, op_readdir, op_mkdir, op_rmdir, op_access, op_utimens,
  op_ftruncate,
}
use bnfs.AfsClient.{
  client_get_attr, client_read_dir, client_mkdir, client_rmdir, client_access, is_negative,
}
use bnfs.AfsClient.Files.{State, client_unlink, client_rename}
use bnfs.Ops.{
  Env, Mount, Chance, Outcome, no_output, stat_out, bytes_out, guarded, one_call, cache_path,
  stat_answer, called, call_ret, strays, Body,
}

module _ (E : Env) where
  open E use {client_os, server_os, sha256}

  abbrev pub state_of : Mount E → State client_os server_os sha256
  state_of m = (m.client, m.server)

  abbrev pub with_state : State client_os server_os sha256 → Mount E → Mount E
  with_state (k, s) m = record m { client = k; server = s }

  -- `if (ret < 0) return ret; return 0;`
  abbrev negative_or_zero : ℤ → ℤ
  negative_or_zero res = if is_negative res then res else pos 0

  unfoldable pub unreliable_lstat : Bytes → Chance E → Mount E → Outcome E
  unreliable_lstat path c m =
      guarded E op_lstat path c m
        (λ m. stat_answer E (client_os.lstat m.client.world (cache_path E path)) m)

  -- The buffer is NUL-terminated behind what was read. With `size` bytes read that is past its end.
  unfoldable pub readlink_body : Bytes → ℕ → Body E
  readlink_body path size m = elim (client_os.query m.client.world (readlink path size)) [
    | failed e ↦ some (negate e, no_output, m)
    | got target ↦
        if ltb (length target) size then some (pos 0, bytes_out (target ++ (0 ∷ [])), m) else none
  ]

  unfoldable pub unreliable_readlink : Bytes → ℕ → Chance E → Mount E → Outcome E
  unfolding readlink_body
  unreliable_readlink path size c m =
      strays E (guarded E op_readlink path c m (readlink_body path size))

  unfoldable pub unreliable_mknod : Bytes → (mode dev : ℕ) → Chance E → Mount E → Outcome E
  unreliable_mknod path mode dev c m =
      guarded E op_mknod path c m (one_call E (other (mknod (cache_path E path) mode dev)))

  unfoldable pub unreliable_unlink : Bytes → Chance E → Mount E → Outcome E
  unreliable_unlink path c m = guarded E op_unlink path c m (λ m.
      let r = client_unlink client_os server_os sha256 c.delivery path (state_of m) in
      some (negative_or_zero r.0, no_output, with_state r.1 m))

  unfoldable pub unreliable_symlink : (target linkpath : Bytes) → Chance E → Mount E → Outcome E
  unreliable_symlink target linkpath c m =
      guarded E op_symlink target c m (one_call E (other (symlink target linkpath)))

  -- `if (ret < 0) return -ret;`
  unfoldable pub unreliable_rename : (oldpath newpath : Bytes) → Chance E → Mount E → Outcome E
  unreliable_rename oldpath newpath c m = guarded E op_rename oldpath c m (λ m.
      let r = client_rename client_os server_os sha256 c.delivery oldpath newpath (state_of m) in
      some (if is_negative r.0 then neg_ℤ r.0 else pos 0, no_output, with_state r.1 m))

  -- The -1 of `link` is returned as it is.
  unfoldable pub unreliable_link : (oldpath newpath : Bytes) → Chance E → Mount E → Outcome E
  unreliable_link oldpath newpath c m = guarded E op_link oldpath c m (λ m.
      let l = other (link oldpath newpath) in
      some (elim (call_ret E l m) [ ret n ↦ pos 0 | fail e ↦ negsuc 0 ], no_output, called E l m))

  unfoldable pub unreliable_chmod : Bytes → ℕ → Chance E → Mount E → Outcome E
  unreliable_chmod path mode c m =
      guarded E op_chmod path c m (one_call E (chmod (cache_path E path) mode))

  unfoldable pub unreliable_chown : Bytes → (owner group : ℕ) → Chance E → Mount E → Outcome E
  unreliable_chown path owner group c m =
      guarded E op_chown path c m (one_call E (other (chown (cache_path E path) owner group)))

  unfoldable pub unreliable_truncate : Bytes → ℕ → Chance E → Mount E → Outcome E
  unreliable_truncate path size c m =
      guarded E op_truncate path c m (one_call E (other (truncate (cache_path E path) size)))

  -- It works on the path as FUSE gives it, not on the local copy.
  unfoldable pub unreliable_ftruncate : Bytes → ℕ → Chance E → Mount E → Outcome E
  unreliable_ftruncate path size c m =
      guarded E op_ftruncate path c m (one_call E (other (truncate path size)))

  unfoldable pub unreliable_statfs : Bytes → Chance E → Mount E → Outcome E
  unreliable_statfs path c m = guarded E op_statfs path c m (λ m.
      elim (client_os.query m.client.world (statvfs (cache_path E path))) [
        | got b ↦ some (pos 0, bytes_out b, m)
        | failed e ↦ some (negate e, no_output, m)
      ])

  unfoldable pub unreliable_getattr : Bytes → Chance E → Mount E → Outcome E
  unreliable_getattr path c m = guarded E op_getattr path c m (λ m.
      let r = client_get_attr client_os server_os sha256 c.delivery path c.garbage c.buf m.server in
      some (r.0, stat_out r.1, m))

  unfoldable pub unreliable_readdir : Bytes → Chance E → Mount E → Outcome E
  unreliable_readdir path c m = guarded E op_readdir path c m (λ m.
      some (
        client_read_dir client_os server_os sha256 c.delivery path c.is_full m.server,
        no_output,
        m,
      ))

  unfoldable pub unreliable_mkdir : Bytes → ℕ → Chance E → Mount E → Outcome E
  unreliable_mkdir path mode c m = guarded E op_mkdir path c m (λ m.
      let r = client_mkdir client_os server_os sha256 c.delivery path mode m.server in
      some (r.0, no_output, record m { server = r.1 }))

  unfoldable pub unreliable_rmdir : Bytes → Chance E → Mount E → Outcome E
  unreliable_rmdir path c m = guarded E op_rmdir path c m (λ m.
      let r = client_rmdir client_os server_os sha256 c.delivery path m.server in
      some (r.0, no_output, record m { server = r.1 }))

  unfoldable pub unreliable_access : Bytes → ℕ → Chance E → Mount E → Outcome E
  unreliable_access path mode c m = guarded E op_access path c m (λ m.
      let r = client_access client_os server_os sha256 c.delivery path mode m.server in
      some (r.0, no_output, record m { server = r.1 }))

  -- Its body is commented out.
  unfoldable pub unreliable_utimens : Bytes → Chance E → Mount E → Outcome E
  unreliable_utimens path c m = guarded E op_utimens path c m (λ m. some (pos 0, no_output, m))
