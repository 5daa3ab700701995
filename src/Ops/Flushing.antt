-- ===== src/Ops/Flushing.antt =====
-- What the answers of unreliablefs/unreliablefs/unreliablefs_ops.c tell its callers about the
-- server and the working copies.
use bnfs.Base.{
  ℕ, true, false, none, some, List, Bytes, pos, length, negsuc, ◌≡◌, refl, sym, ap, subst, ◌∙◌,
  arith, same_refl, if◌then◌else◌, ◌==◌,
}
use bnfs.Hash.{get_temp_path}
use bnfs.Hash.Paths.{IsDigest}
use bnfs.Posix.{ret, close, dup, remove, int_of}
use bnfs.Posix.Laws.{IsLawful}
use bnfs.Cache.{is_file_dirty, delete_from_temp}
use bnfs.Cache.Dirty.{is_file_dirty-delete, is_file_dirty-mark}
use bnfs.AfsClient.{upload}
use bnfs.AfsClient.Files.{client_flush, send_file}
use bnfs.AfsClient.Flush.{flush_waits, Arrives}
use bnfs.FuseOp.{op_flush, op_write, op_truncate}
use bnfs.Errinj.{Effect}
use bnfs.Errinj.Config.{answers}
use bnfs.Ops.{
  Env, Mount, Chance, no_output, returns, waits, injected, after_inject, finish, called, call_ret,
}
use bnfs.Ops.Names.{state_of, with_state, unreliable_truncate}
use bnfs.Ops.Branches.{After, guarded_queue-body, guarded-After}
use bnfs.Ops.Data.{
  use_fd, after_use, close_if_null, unreliable_flush, after_flush, flush_body, unreliable_write,
  write_body,
}

module _ {E : Env} where
  open E use {client_os, server_os, sha256}

  -- The client's machine when `close (dup (fh))` is done.
  abbrev pub flush_closed : ℕ → Mount E → Mount E
  flush_closed fh m =
      called E (close (int_of (call_ret E (dup (pos fh)) m))) (called E (dup (pos fh)) m)

  -- `close (dup (fh))` succeeds.
  abbrev pub Closes : ℕ → Mount E → Type 0
  Closes fh m =
      (n : ℕ) × (call_ret E (close (int_of (call_ret E (dup (pos fh)) m)))
          (called E (dup (pos fh)) m)
        ≡ ret n)

  pub flush_body-Closes :
      (path : Bytes) (fh : ℕ) (c : Chance E) (m : Mount E)
      → Closes fh m
      → flush_body E path fh c m
        ≡ after_flush E
            (client_flush client_os server_os sha256 c.server_draws c.upload path
              (state_of E (flush_closed fh m)))
            (flush_closed fh m)
  unfolding flush_body
  flush_body-Closes path fh c m (n, e) = rw (e, flush_body)

  pub flush_kept :
      IsLawful client_os
      → (fh : ℕ) (m : Mount E) (q : Bytes)
      → client_os.slurp (flush_closed fh m).client.world q ≡ client_os.slurp m.client.world q
  flush_kept L fh m q =
      L.slurp_quiet (close (int_of (call_ret E (dup (pos fh)) m))) _ q refl
      ∙ L.slurp_quiet (dup (pos fh)) m.client.world q refl

  client_flush_unreached :
      (path contents : Bytes) (c : Chance E) (m : Mount E)
      → client_os.slurp m.client.world (get_temp_path sha256 path) ≡ some contents
      → is_file_dirty client_os sha256 path m.client ≡ true
      → c.upload.accepted ≡ 0
      → client_flush client_os server_os sha256 c.server_draws c.upload path (state_of E m)
        ≡ some (negsuc 0, (delete_from_temp client_os sha256 path m.client, m.server))
  unfolding client_flush send_file
  client_flush_unreached path contents c m there dirty unreached =
      let refused : (c.upload.accepted == 0) ≡ true = ground (arith, unreached) in
      rw (there, client_flush, dirty, send_file, refused, if◌then◌else◌)

  -- A flush of a dirty file in which nothing is injected, `close (dup (fh))` succeeds, the client's
  -- first write to the server is refused, and the working copy can be removed: the caller is
  -- answered 0, the server is as it was, the working copy is gone, and the file is no longer dirty.
  pub lost_flush_reports_success :
      IsLawful client_os
      → IsDigest sha256
      → (path contents : Bytes) (fh n : ℕ) (c : Chance E) (m : Mount E) (effects : List Effect)
      → injected E op_flush path c m ≡ answers (pos 0) effects
      → Closes fh m
      → client_os.slurp m.client.world (get_temp_path sha256 path) ≡ some contents
      → is_file_dirty client_os sha256 path m.client ≡ true
      → c.upload.accepted ≡ 0
      → (client_os.sys (remove (get_temp_path sha256 path)) (flush_closed fh m).client.world).0
        ≡ ret n
      → (m' : Mount E) × (unreliable_flush E path fh c m ≡ returns (pos 0) no_output effects m')
        × (m'.server ≡ m.server)
        × (client_os.slurp m'.client.world (get_temp_path sha256 path) ≡ none)
        × (is_file_dirty client_os sha256 path m'.client ≡ false)
  unfolding unreliable_flush delete_from_temp is_file_dirty
  lost_flush_reports_success L digest path contents fh n c m effects e (r, closes) there dirty
        unreached removed =
      let begun = after_inject E op_flush path c m in
      let closed = flush_closed fh begun in
      let lost = delete_from_temp client_os sha256 path closed.client in
      (
        with_state E (lost, closed.server) closed,
        guarded_queue-body op_flush path c m _ (flush_body E path fh c) effects e
            ∙ ap (finish E effects) (flush_body-Closes path fh c begun (r, closes))
            ∙ ap (λ x. finish E effects (after_flush E x closed))
                (client_flush_unreached path contents c closed (flush_kept L fh begun _ ∙ there)
                  dirty unreached),
        refl,
        L.slurp-remove (get_temp_path sha256 path) closed.client.world _ n removed
            ∙ rw (same_refl (get_temp_path sha256 path)),
        is_file_dirty-delete digest path path closed.client ∙ rw (same_refl path),
      )

  -- A flush of a dirty file in which nothing is injected and `close (dup (fh))` succeeds, and that
  -- arrives at a server whose mutex is held, never returns.
  pub unreliable_flush-waits :
      IsLawful client_os
      → (path contents : Bytes) (fh j : ℕ) (c : Chance E) (m : Mount E) (effects : List Effect)
      → injected E op_flush path c m ≡ answers (pos 0) effects
      → Closes fh m
      → client_os.slurp m.client.world (get_temp_path sha256 path) ≡ some contents
      → is_file_dirty client_os sha256 path m.client ≡ true
      → Arrives c.upload (length (upload path contents)) j true
      → m.server.locked ≡ true
      → unreliable_flush E path fh c m ≡ waits
  unfolding unreliable_flush is_file_dirty
  unreliable_flush-waits L path contents fh j c m effects e closes there dirty a held =
      let begun = after_inject E op_flush path c m in
      let closed = flush_closed fh begun in
      guarded_queue-body op_flush path c m _ (flush_body E path fh c) effects e
      ∙ ap (finish E effects) (flush_body-Closes path fh c begun closes)
      ∙ ap (λ x. finish E effects (after_flush E x closed))
          (flush_waits client_os server_os sha256 c.server_draws c.upload path contents j
            closed.client closed.server (flush_kept L fh begun _ ∙ there) dirty a held)

  -- Under a digest without collisions: a write to an open file in which nothing is injected makes
  -- the file dirty, whatever `pwrite` answers; a truncation that returns leaves every file as dirty
  -- as it was.
  pub write_marks_truncate_does_not :
      IsDigest sha256
      → (path buf : Bytes) (size offset fh : ℕ) (c : Chance E) (m : Mount E) (effects : List Effect)
      → injected E op_write path c m ≡ answers (pos 0) effects
      → After
          (λ m'. is_file_dirty client_os sha256 path m'.client ≡ true)
          (unreliable_write E path buf size offset (some fh) c m)
        × ((q : Bytes)
            → After
                (λ m'.
                  is_file_dirty client_os sha256 q m'.client
                  ≡ is_file_dirty client_os sha256 q m.client)
                (unreliable_truncate E path size c m))
  unfolding unreliable_write write_body unreliable_truncate use_fd after_use close_if_null
      is_file_dirty
  write_marks_truncate_does_not digest path buf size offset fh c m effects e = (
    subst (After (λ m'. is_file_dirty client_os sha256 path m'.client ≡ true))
        (sym (
          guarded_queue-body op_write path c m _ (write_body E path buf size offset (some fh))
            effects e))
        (is_file_dirty-mark digest path path _ ∙ rw (same_refl path)),
    λ q.
        guarded-After
          (λ m'.
            is_file_dirty client_os sha256 q m'.client ≡ is_file_dirty client_os sha256 q m.client)
          op_truncate path c m _ refl (λ effects. refl),
  )
