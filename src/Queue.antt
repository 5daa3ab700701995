-- ===== src/Queue.antt =====
-- The operation queue of unreliablefs/unreliablefs/afs_client.cc (`addToQueue`, `shuffleQueue`,
-- `executeQueueHead`), and the thread of unreliablefs/unreliablefs/unreliablefs.c that polls it.
-- An entry holds what its pointers point to when it is made; `std::shuffle` is a parameter.
pub mod Drain
use bnfs.Base.{ℕ, zero, suc, List, [], ◌∷◌, ◌++◌, Bytes, ℤ, pos, negsuc, take, ◌==◌, if◌then◌else◌}
use bnfs.Posix.{Posix, Ret, ret, fail, o_rdwr, Call, open_file, close, dup, pwrite, int_of}

pub record QueueEntry : Type 0 where
  pub operation_id : ℕ
  pub path : Bytes
  -- `fi->fh`
  pub fh : ℕ
  pub buf : Bytes
  pub size : ℕ
  pub offset : ℕ

unfoldable pub add_to_queue : QueueEntry → List QueueEntry → List QueueEntry
add_to_queue entry op_queue = op_queue ++ (entry ∷ [])

-- The queue is emptied into a vector, which is shuffled and pushed back.
unfoldable pub shuffle_queue :
    (List QueueEntry → List QueueEntry) → List QueueEntry → List QueueEntry
shuffle_queue shuffle [] = []
shuffle_queue shuffle (e ∷ es) = shuffle (e ∷ es)

module _ (P : Posix) where
  open P use {World, sys}

  -- `operation_id == 1`: the entry's bytes are written to its path.
  unfoldable pub execute_write : QueueEntry → World → ℤ × World
  execute_write e w =
      let opened = sys (open_file e.path o_rdwr 438) w in
      elim opened.0 [
        | fail errno ↦ (negsuc 0, opened.1)
        | ret fd ↦
            let wrote = sys (pwrite (pos fd) (take e.size e.buf) e.offset) opened.1 in
            (
              elim wrote.0 [ ret n ↦ pos 0 | fail errno ↦ negsuc 0 ],
              (sys (close (pos fd)) wrote.1).1,
            )
      ]

  -- `operation_id == 2`: `close (dup (fi->fh))`
  unfoldable pub execute_close : QueueEntry → World → ℤ × World
  execute_close e w =
      let copy = sys (dup (pos e.fh)) w in
      let closed = sys (close (int_of copy.0)) copy.1 in (int_of closed.0, closed.1)

  unfoldable pub execute_entry : QueueEntry → World → ℤ × World
  unfolding execute_write execute_close
  execute_entry e w =
      if e.operation_id == 1
      then execute_write e w
      else if e.operation_id == 2
      then execute_close e w
      else (negsuc 0, w)

  unfoldable pub execute_queue_head : List QueueEntry → World → ℤ × List QueueEntry × World
  execute_queue_head [] w = (pos 0, [], w)
  execute_queue_head (e ∷ es) w = let r = execute_entry e w in (r.0, es, r.1)

  -- The rounds of `pollExecutionQueue`, with nothing put into the queue in between.
  unfoldable pub poll : ℕ → List QueueEntry → World → List QueueEntry × World
  poll zero op_queue w = (op_queue, w)
  poll (suc n) op_queue w = let r = execute_queue_head op_queue w in poll n r.1 r.2
