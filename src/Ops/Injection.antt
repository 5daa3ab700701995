-- ===== src/Ops/Injection.antt =====
-- Writes and flushes that unreliablefs/unreliablefs/unreliablefs_ops.c puts into the queue.
use mathlib.Core.List.{Perm}
use bnfs.Base.{ℕ, Option, none, some, List, Bytes, All, ℤ, pos, ◌≡◌, inl, inr, refl, arith}
use bnfs.Posix.{open_file, o_wronly, close, dup, int_of}
use bnfs.Posix.Laws.{IsLawful, Ret-cases}
use bnfs.FuseOp.{op_write, op_flush}
use bnfs.Errinj.{Effect, queue_code}
use bnfs.Errinj.Config.{answers}
use bnfs.AfsClient.Files.{State}
use bnfs.Queue.{QueueEntry, poll}
use bnfs.Queue.Drain.{WritesNothing, enqueue-WritesNothing, poll-WritesNothing}
use bnfs.Ops.{
  Env, Mount, Chance, no_output, returns, injected, after_inject, guarded_queue, finish, call_ret,
  called,
}
use bnfs.Ops.Branches.{After, guarded_queue-After}
use bnfs.Ops.Data.{
  unreliable_write, unreliable_flush, write_entry, flush_entry, enqueued, write_body, flush_body,
  after_flush, handle_of, use_fd, after_use, close_if_null,
}

-- No entry of the queue writes.
abbrev pub NeverWrites : {E : Env} → Mount E → Type 0
NeverWrites m = All WritesNothing m.op_queue

pub write_entry-WritesNothing :
    (E : Env) (path buf : Bytes) (size offset fh : ℕ)
    → WritesNothing (write_entry E path buf size offset fh)
write_entry-WritesNothing E path buf size offset fh one = absurd (omega (arith, one))

module _ {E : Env} (L : IsLawful E.client_os) where
  open E use {client_os}

  -- A write that is answered `ERR_INSERT_TO_QUEUE`, where the shuffle only permutes and no entry of
  -- the queue writes: the caller is told that all bytes are written, but polling the queue any
  -- number of times, this write included, leaves every file as it was.
  pub queued_write_is_lost :
      (path buf : Bytes) (size offset : ℕ) (fi : Option ℕ) (c : Chance E) (m : Mount E)
      (effects : List Effect)
      → ((l : List QueueEntry) → Perm (c.shuffle l) l)
      → NeverWrites m
      → injected E op_write path c m ≡ answers queue_code effects
      → (m' : Mount E) × (unreliable_write E path buf size offset fi c m
          ≡ returns (pos size) no_output effects m')
        × ((n : ℕ) (q : Bytes)
            → client_os.slurp (poll client_os n m'.op_queue m'.client.world).1 q
              ≡ client_os.slurp m.client.world q)
  unfolding unreliable_write guarded_queue
  queued_write_is_lost path buf size offset fi c m effects h quiet e =
      let q =
        enqueue-WritesNothing c.shuffle (write_entry E path buf size offset (handle_of fi))
          m.op_queue h (write_entry-WritesNothing E path buf size offset (handle_of fi)) quiet in
      (
        enqueued E (write_entry E path buf size offset (handle_of fi)) c
            (after_inject E op_write path c m),
        rw (e, guarded_queue) refl,
        λ n p. poll-WritesNothing L n _ m.client.world p q,
      )

module _ {E : Env} where
  write_body-keeps :
      (path buf : Bytes) (size offset : ℕ) (fi : Option ℕ) (m : Mount E) (effects : List Effect)
      → NeverWrites m
      → After NeverWrites (finish E effects (write_body E path buf size offset fi m))
  unfolding write_body use_fd after_use close_if_null
  write_body-keeps path buf size offset (some fh) m effects quiet = quiet
  write_body-keeps path buf size offset none m effects quiet =
      elim (Ret-cases (call_ret E (open_file path o_wronly 0) m)) [
        | inl (n, e) ↦ rw (e, After, write_body, finish) quiet
        | inr (n, e) ↦ rw (e, After, write_body, finish) quiet
      ]

  after_flush-keeps :
      (r : Option (ℤ × State E.client_os E.server_os E.sha256)) (m : Mount E)
      (effects : List Effect)
      → NeverWrites m
      → After NeverWrites (finish E effects (after_flush E r m))
  after_flush-keeps none m effects quiet = tt
  after_flush-keeps (some (code, s)) m effects quiet = quiet

  flush_body-keeps :
      (path : Bytes) (fh : ℕ) (c : Chance E) (m : Mount E) (effects : List Effect)
      → NeverWrites m
      → After NeverWrites (finish E effects (flush_body E path fh c m))
  unfolding flush_body
  flush_body-keeps path fh c m effects quiet =
      let closing = close (int_of (call_ret E (dup (pos fh)) m)) in
      elim (Ret-cases (call_ret E closing (called E (dup (pos fh)) m))) [
        | inl (n, e) ↦ rw (e, After, flush_body, finish) (after_flush-keeps _ _ effects quiet)
        | inr (n, e) ↦ rw (e, After, flush_body, finish) quiet
      ]

  -- However a write or a flush ends, the queue has no entry that writes, if it had none and the
  -- shuffle only permutes.
  write_and_flush-WritesNothing :
      (path buf : Bytes) (size offset fh : ℕ) (fi : Option ℕ) (c : Chance E) (m : Mount E)
      → ((l : List QueueEntry) → Perm (c.shuffle l) l)
      → NeverWrites m
      → After NeverWrites (unreliable_write E path buf size offset fi c m)
        × After NeverWrites (unreliable_flush E path fh c m)
  unfolding unreliable_write unreliable_flush
  write_and_flush-WritesNothing path buf size offset fh fi c m h quiet = (
    guarded_queue-After NeverWrites op_write path c m _ _ quiet
        (λ effects.
          enqueue-WritesNothing c.shuffle (write_entry E path buf size offset (handle_of fi))
            m.op_queue h (write_entry-WritesNothing E path buf size offset (handle_of fi)) quiet)
        (λ effects. write_body-keeps path buf size offset fi _ effects quiet),
    guarded_queue-After NeverWrites op_flush path c m _ _ quiet
        (λ effects.
          enqueue-WritesNothing c.shuffle (flush_entry E path fh) m.op_queue h (λ one. refl) quiet)
        (λ effects. flush_body-keeps path fh c _ effects quiet),
  )
