-- ===== src/Ops/Data.antt =====
-- The operations of unreliablefs/unreliablefs/unreliablefs_ops.c on open files. `fi` is none where
-- the source compares it with NULL, and otherwise its `fh`.
use bnfs.Base.{
  ℕ, Bool, true, false, Option, none, some, [], Bytes, ℤ, pos, negate, length, take, if◌then◌else◌,
}
use bnfs.Posix.{
  Ret, ret, fail, Answer, got, failed, Flags, o_rdonly, o_wronly, open_file, close, dup, pwrite,
  other, fsync, fdatasync, int_of,
}
use bnfs.Cache.{mark_file_dirty}
use bnfs.AfsClient.{is_negative}
use bnfs.AfsClient.Files.{State, client_open, client_flush}
use bnfs.FuseOp.{op_open, op_creat, op_read, op_write, op_flush, op_release, op_fsync}
use bnfs.Queue.{QueueEntry, add_to_queue, shuffle_queue}
use bnfs.Ops.{
  Env, Mount, Chance, Outcome, Output, no_output, bytes_out, handle_out, Body, guarded,
  guarded_queue, one_call, count_or_errno, called, call_ret,
}
use bnfs.Ops.Names.{state_of, with_state}

-- `fi->fh`
abbrev pub handle_of : Option ℕ → ℕ
handle_of none = 0
handle_of (some fh) = fh

module _ (E : Env) where
  open E use {client_os, server_os, sha256}

  -- `AFS_open`, and `fi->fh = ret` if that is not negative.
  unfoldable pub open_body : (is_create : Bool) → Bytes → Flags → Chance E → Body E
  open_body is_create path flags c m =
      let r =
        client_open client_os server_os sha256 c.delivery c.download is_create flags path c.garbage
          c.buf c.file_stat (state_of E m) in
      if is_negative r.0
      then some (r.0, no_output, with_state E r.1 m)
      else some (pos 0, handle_out r.0, with_state E r.1 m)

  unfoldable pub unreliable_open : Bytes → Flags → Chance E → Mount E → Outcome E
  unfolding open_body
  unreliable_open path flags c m = guarded E op_open path c m (open_body false path flags c)

  unfoldable pub unreliable_create : Bytes → Flags → Chance E → Mount E → Outcome E
  unfolding open_body
  unreliable_create path flags c m = guarded E op_creat path c m (open_body true path flags c)

  unfoldable pub read_answer : Answer Bytes → ℤ × Output
  read_answer (got b) = (pos (length b), bytes_out b)
  read_answer (failed e) = (negate e, no_output)

  -- The descriptor: `fi->fh`, or that of the path, which is opened for the occasion.
  unfoldable pub use_fd : Flags → Bytes → Option ℕ → Mount E → Ret
  use_fd flags path none m = call_ret E (open_file path flags 0) m
  use_fd flags path (some fh) m = ret fh

  unfoldable pub after_use : Flags → Bytes → Option ℕ → Mount E → Mount E
  after_use flags path none m = called E (open_file path flags 0) m
  after_use flags path (some fh) m = m

  unfoldable pub close_if_null : ℕ → Option ℕ → Mount E → Mount E
  close_if_null fd none m = called E (close (pos fd)) m
  close_if_null fd (some fh) m = m

  unfoldable pub read_body : Bytes → (size offset : ℕ) → Option ℕ → Body E
  unfolding read_answer use_fd after_use close_if_null
  read_body path size offset fi m =
      let m' = after_use o_rdonly path fi m in
      elim (use_fd o_rdonly path fi m) [
        | fail e ↦ some (negate e, no_output, m')
        | ret fd ↦
            let r = read_answer (client_os.pread m'.client.world (pos fd) size offset) in
            some (r.0, r.1, close_if_null fd fi m')
      ]

  unfoldable pub unreliable_read :
      Bytes → (size offset : ℕ) → Option ℕ → Chance E → Mount E → Outcome E
  unfolding read_body
  unreliable_read path size offset fi c m =
      guarded E op_read path c m (read_body path size offset fi)

  abbrev pub marked : Bytes → Mount E → Mount E
  marked path m = record m { client = mark_file_dirty client_os sha256 path m.client }

  unfoldable pub write_body : Bytes → Bytes → (size offset : ℕ) → Option ℕ → Body E
  unfolding use_fd after_use close_if_null
  write_body path buf size offset fi m =
      let m' = after_use o_wronly path fi m in
      elim (use_fd o_wronly path fi m) [
        | fail e ↦ some (negate e, no_output, m')
        | ret fd ↦
            let c = pwrite (pos fd) (take size buf) offset in
            some (
              count_or_errno E (call_ret E c m'),
              no_output,
              close_if_null fd fi (marked path (called E c m')),
            )
      ]

  -- `QUEUE_addToQueue` and `QUEUE_shuffleQueue`
  abbrev pub enqueued : QueueEntry → Chance E → Mount E → Mount E
  enqueued e c m = record m { op_queue = shuffle_queue c.shuffle (add_to_queue e m.op_queue) }

  -- The entry that a queued write makes.
  abbrev pub write_entry : Bytes → Bytes → (size offset fh : ℕ) → QueueEntry
  write_entry path buf size offset fh = record {
    operation_id = 2;
    path = path;
    fh = fh;
    buf = buf;
    size = size;
    offset = offset;
  }

  -- The entry that a queued flush makes.
  abbrev pub flush_entry : Bytes → ℕ → QueueEntry
  flush_entry path fh = record {
    operation_id = 1;
    path = path;
    fh = fh;
    buf = [];
    size = 0;
    offset = 0;
  }

  -- FUSE passes a handle; an entry made with `fi` NULL would be a fault when it is executed, and
  -- has `fh` 0 here.
  unfoldable pub unreliable_write :
      Bytes → Bytes → (size offset : ℕ) → Option ℕ → Chance E → Mount E → Outcome E
  unfolding write_body
  unreliable_write path buf size offset fi c m =
      guarded_queue E op_write path c m
        (λ m.
          some
            (pos size, no_output, enqueued (write_entry path buf size offset (handle_of fi)) c m))
        (write_body path buf size offset fi)

  -- 0, whatever `AFS_flush` returned.
  abbrev pub after_flush : Option (ℤ × State client_os server_os sha256) → Body E
  after_flush none m = none
  after_flush (some (code, s)) m = some (pos 0, no_output, with_state E s m)

  unfoldable pub flush_body : Bytes → ℕ → Chance E → Body E
  flush_body path fh c m =
      let copy = call_ret E (dup (pos fh)) m in
      let copied = called E (dup (pos fh)) m in
      let closed = called E (close (int_of copy)) copied in
      elim (call_ret E (close (int_of copy)) copied) [
        | fail e ↦ some (negate e, no_output, closed)
        | ret n ↦
            after_flush
              (client_flush client_os server_os sha256 c.server_draws c.upload path
                (state_of E closed))
              closed
      ]

  unfoldable pub unreliable_flush : Bytes → ℕ → Chance E → Mount E → Outcome E
  unfolding flush_body
  unreliable_flush path fh c m =
      guarded_queue E op_flush path c m
        (λ m. some (pos 0, no_output, enqueued (flush_entry path fh) c m)) (flush_body path fh c)

  unfoldable pub unreliable_release : Bytes → ℕ → Chance E → Mount E → Outcome E
  unreliable_release path fh c m = guarded E op_release path c m (one_call E (close (pos fh)))

  unfoldable pub unreliable_fsync : Bytes → (datasync : Bool) → ℕ → Chance E → Mount E → Outcome E
  unreliable_fsync path datasync fh c m = guarded E op_fsync path c m (
      if datasync
      then one_call E (other (fdatasync (pos fh)))
      else one_call E (other (fsync (pos fh))))
