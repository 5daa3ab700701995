-- ===== src/Ops/Sharing.antt =====
-- A write and a close by a process on one client, of unreliablefs/unreliablefs/unreliablefs_ops.c,
-- and what another client opens after it.
use bnfs.Base.{
  ℕ, ◌≤◌, true, some, Bytes, All, pos, length, take, ◌≡◌, ◌≢◌, refl, sym, ap, subst, ◌∙◌, same_refl,
  List, to_int,
}
use bnfs.Stream.{chunks, buf_size}
use bnfs.Hash.{get_temp_path}
use bnfs.Hash.Paths.{IsDigest}
use bnfs.Posix.{ret, Flags, open_file, pwrite, write_all}
use bnfs.Posix.Laws.{IsLawful, after, overlay}
use bnfs.Cache.{Client, is_file_dirty, mark_file_dirty, erased}
use bnfs.Cache.Dirty.{is_file_dirty-mark}
use bnfs.Cache.Commit.{Copies, after_commit}
use bnfs.Server.{Server, PutFileResp, ok, answered, temp_file_path, put_file, get_server_path}
use bnfs.AfsClient.{upload}
use bnfs.AfsClient.Flush.{Arrives, arrived_part, Publishes, flush_publishes}
use bnfs.AfsClient.Session.{Opening, opening, Fetches, open_sees_server}
use bnfs.FuseOp.{op_write, op_flush}
use bnfs.Errinj.{Effect}
use bnfs.Errinj.Config.{answers}
use bnfs.Ops.{
  Env, Mount, Chance, no_output, returns, injected, after_inject, finish, called, call_ret,
}
use bnfs.Ops.Names.{with_state}
use bnfs.Ops.Branches.{guarded_queue-body}
use bnfs.Ops.Data.{
  marked, unreliable_write, write_body, use_fd, after_use, close_if_null, unreliable_flush,
  flush_body, after_flush,
}
use bnfs.Ops.Flushing.{flush_closed, Closes, flush_body-Closes, flush_kept}
use bnfs.Stream.Join.{c_string_iff}

module _ {E : Env} where
  open E use {client_os, server_os, sha256}

  -- A write, in which nothing is injected, of all bytes, through the descriptor of a working copy
  -- that was opened just before, into what it holds or right behind it.
  pub record Writes (path buf : Bytes) (size offset fd : ℕ) (c : Chance E) (m : Mount E)
      : Type 0 where
    pub flags : Flags
    pub before : client_os.World
    pub opens : (client_os.sys (open_file (get_temp_path sha256 path) flags 0) before).0 ≡ ret fd
    pub just_opened :
        m.client.world ≡ after client_os (open_file (get_temp_path sha256 path) flags 0) before
    pub old : Bytes
    pub there : client_os.slurp m.client.world (get_temp_path sha256 path) ≡ some old
    pub inside : offset ≤ length old
    pub effects : List Effect
    pub free : injected E op_write path c m ≡ answers (pos 0) effects
    pub wrote : call_ret E (pwrite (pos fd) (take size buf) offset) m ≡ ret (length (take size buf))

  -- The mount after it.
  abbrev pub written_to : Bytes → Bytes → (size offset fd : ℕ) → Chance E → Mount E → Mount E
  written_to path buf size offset fd c m =
      marked E path
        (called E (pwrite (pos fd) (take size buf) offset) (after_inject E op_write path c m))

  -- The mount of a flush that comes to `Flush`.
  abbrev pub flushing : Bytes → ℕ → Chance E → Mount E → Mount E
  flushing path fd c m = flush_closed fd (after_inject E op_flush path c m)

  -- A flush, in which nothing is injected, of the contents `contents`, in which every call succeeds.
  pub record Sends (path contents : Bytes) (fd : ℕ) (c : Chance E) (m : Mount E) : Type 0 where
    pub effects : List Effect
    pub free : injected E op_flush path c m ≡ answers (pos 0) effects
    pub closes : Closes fd m
    pub last : ℕ
    pub arrives : Arrives c.upload (length (upload path contents)) last true
    pub carries : length (chunks buf_size contents) ≤ last
    pub stored : ℕ
    pub stores :
        (server_os.sys (write_all (temp_file_path c.server_draws path) contents) m.server.world).0
        ≡ ret stored
    pub reply : PutFileResp
    pub answer :
        (put_file server_os c.server_draws
          (arrived_part client_os server_os sha256 path contents last)
          m.server).0
        ≡ answered ok reply
    pub copy : ℕ
    pub copies : Copies client_os sha256 path copy (flushing path fd c m).client.world

  write_answers :
      (path buf : Bytes) (size offset fd : ℕ) (c : Chance E) (m : Mount E)
      (h : Writes path buf size offset fd c m)
      → unreliable_write E path buf size offset (some fd) c m
        ≡ returns
            (pos (length (take size buf)))
            no_output
            h.effects
            (written_to path buf size offset fd c m)
  unfolding unreliable_write write_body use_fd after_use close_if_null
  write_answers path buf size offset fd c m h =
      guarded_queue-body op_write path c m _ (write_body E path buf size offset (some fd)) h.effects
        h.free
      ∙ rw h.wrote refl

  -- What a reader of the working copy finds after it.
  written_there :
      (L : IsLawful client_os) (path buf : Bytes) (size offset fd : ℕ) (c : Chance E) (m : Mount E)
      (h : Writes path buf size offset fd c m)
      → client_os.slurp
          (written_to path buf size offset fd c m).client.world
          (get_temp_path sha256 path)
        ≡ some (overlay offset (take size buf) h.old)
  unfolding mark_file_dirty
  written_there L path buf size offset fd c m h =
      let temp = get_temp_path sha256 path in
      let piece = take size buf in
      subst
        (λ v.
          client_os.slurp v temp ≡ some h.old
          → (client_os.sys (pwrite (pos fd) piece offset) v).0 ≡ ret (length piece)
          → client_os.slurp (after client_os (pwrite (pos fd) piece offset) v) temp
            ≡ some (overlay offset piece h.old))
        (sym h.just_opened)
        (λ there wrote.
          L.slurp-pwrite temp h.flags 0 h.before fd piece offset h.old temp h.opens there h.inside
            wrote
          ∙ rw (same_refl temp))
        h.there h.wrote

  -- Such a flush of a dirty file is one that `Flush` publishes.
  publishes :
      (L : IsLawful client_os) (path contents : Bytes) (fd : ℕ) (c : Chance E) (m : Mount E)
      → client_os.slurp m.client.world (get_temp_path sha256 path) ≡ some contents
      → is_file_dirty client_os sha256 path m.client ≡ true
      → Sends path contents fd c m
      → Publishes client_os server_os sha256 c.server_draws c.upload path contents
          (flushing path fd c m).client
          m.server
  unfolding is_file_dirty
  publishes L path contents fd c m there dirty h = record {
    there = flush_kept L fd (after_inject E op_flush path c m) _ ∙ there;
    dirty = dirty;
    last = h.last;
    arrives = h.arrives;
    carries = h.carries;
    written = h.stored;
    writes = h.stores;
    reply = h.reply;
    answers = h.answer;
    fd = h.copy;
    copies = h.copies;
  }

  -- The server after it.
  abbrev pub sent_to :
      (path contents : Bytes) (fd : ℕ) (c : Chance E) (m : Mount E)
      → Sends path contents fd c m
      → Server server_os
  sent_to path contents fd c m h =
      (put_file server_os c.server_draws
        (arrived_part client_os server_os sha256 path contents h.last) m.server).1

  -- The mount after it.
  abbrev pub flushed_to :
      (path contents : Bytes) (fd : ℕ) (c : Chance E) (m : Mount E)
      → Sends path contents fd c m
      → Mount E
  flushed_to path contents fd c m h =
      let closed = flushing path fd c m in
      with_state E
        (
          erased client_os sha256 path (record (closed.client) {
            world =
                after_commit client_os sha256 path h.copy (to_int h.reply.last_modified_time)
                  closed.client.world;
          }),
          sent_to path contents fd c m h,
        )
        closed

  flush_answers :
      (L : IsLawful client_os) (M : IsLawful server_os) (digest : IsDigest sha256)
      (path contents : Bytes) (fd : ℕ) (c : Chance E) (m : Mount E)
      → client_os.slurp m.client.world (get_temp_path sha256 path) ≡ some contents
      → is_file_dirty client_os sha256 path m.client ≡ true
      → (h : Sends path contents fd c m)
      → (unreliable_flush E path fd c m
          ≡ returns (pos 0) no_output h.effects (flushed_to path contents fd c m h))
        × (server_os.slurp (sent_to path contents fd c m h).world (get_server_path path)
            ≡ some contents)
  unfolding unreliable_flush publishes
  flush_answers L M digest path contents fd c m there dirty h =
      let closed = flushing path fd c m in
      let published_at =
        flush_publishes client_os server_os sha256 M L digest c.server_draws c.upload path contents
          closed.client m.server (publishes L path contents fd c m there dirty h) in
      (
        guarded_queue-body op_flush path c m _ (flush_body E path fd c) h.effects h.free
            ∙ ap (finish E h.effects) (flush_body-Closes path fd c _ h.closes)
            ∙ ap (λ x. finish E h.effects (after_flush E x closed)) published_at.0,
        published_at.1,
      )

  -- A process on one client writes to an open file, as `Writes` says, and closes it, as `Sends`
  -- says of what is then in the file, which has no NUL byte. A second client opens the path on a
  -- server that is as the flush left it, has to fetch and succeeds in every step. The write answers
  -- the number of its bytes and the flush 0, and a reader of the second client's working copy finds
  -- the old contents with the written bytes in place.
  pub write_close_open :
      (L : IsLawful client_os) (M : IsLawful server_os) (digest : IsDigest sha256)
      (path buf : Bytes) (size offset fd : ℕ) (c d : Chance E) (m : Mount E)
      (b : Client client_os sha256) (o : Opening) (h : Writes path buf size offset fd c m)
      → let contents = overlay offset (take size buf) h.old in
        let m' = written_to path buf size offset fd c m in
        All (λ x. x ≢ 0) contents
        → (f : Sends path contents fd d m') → (s : Server server_os)
        → s ≡ sent_to path contents fd d m' f
        → Fetches client_os server_os sha256 o path contents b s
        → (unreliable_write E path buf size offset (some fd) c m
            ≡ returns (pos (length (take size buf))) no_output h.effects m')
          × (unreliable_flush E path fd d m'
              ≡ returns (pos 0) no_output f.effects (flushed_to path contents fd d m' f))
          × (client_os.slurp
                (opening client_os server_os sha256 o path b s).1.0.world
                (get_temp_path sha256 path)
              ≡ some contents)
  write_close_open L M digest path buf size offset fd c d m b o h text f s e g =
      let contents = overlay offset (take size buf) h.old in
      let m' = written_to path buf size offset fd c m in
      let sent =
        flush_answers L M digest path contents fd d m'
          (written_there L path buf size offset fd c m h)
          (is_file_dirty-mark digest path path _ ∙ rw (same_refl path)) f in
      let there = ap (λ x. server_os.slurp x.world (get_server_path path)) e ∙ sent.1 in
      (
        write_answers path buf size offset fd c m h,
        sent.0,
        (open_sees_server client_os server_os sha256 L o path contents b s there g).1
            ∙ ap some ((c_string_iff contents).1 text),
      )
