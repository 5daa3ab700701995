-- ===== src/Queue/Drain.antt =====
-- What the queue of unreliablefs/unreliablefs/afs_client.cc does to files.
use mathlib.Core.List.{
  Perm, Mem, not-mem-nil, mem-cons_self, mem-cons_of_mem, eq-or-mem_of_mem-cons,
}
use mathlib.Core.List.Perm
use mathlib.Core.Logic.Or
use bnfs.Base.{
  ℕ, zero, suc, ◌≤◌, List, [], ◌∷◌, ◌++◌, Bytes, All, pos, length, ◌≡◌, subst, inl, inr, refl, sym,
  ◌∙◌, arith,
}
use bnfs.Posix.{Posix, int_of, o_rdwr, open_file, close, dup, pwrite}
use bnfs.Posix.Laws.{IsLawful, Ret-cases}
use bnfs.Queue.{
  QueueEntry, add_to_queue, shuffle_queue, execute_write, execute_close, execute_entry,
  execute_queue_head, poll,
}

-- Shuffling keeps every entry, if the standard library's shuffle does.
pub shuffle_queue-Perm :
    (shuffle : List QueueEntry → List QueueEntry) (op_queue : List QueueEntry)
    → ((l : List QueueEntry) → Perm (shuffle l) l)
    → Perm (shuffle_queue shuffle op_queue) op_queue
unfolding shuffle_queue
shuffle_queue-Perm shuffle [] h = Perm.refl []
shuffle_queue-Perm shuffle (e ∷ es) h = h (e ∷ es)

-- An entry that writes nothing: of size 0 if it is of kind 1.
abbrev pub WritesNothing : QueueEntry → Type 0
WritesNothing e = e.operation_id ≡ 1 → e.size ≡ 0

All-append {ℓ κ} :
    {A : Type ℓ} (Holds : A → Type κ) (xs ys : List A)
    → All Holds xs
    → All Holds ys
    → All Holds (xs ++ ys)
All-append Holds [] ys h k = k
All-append Holds (x ∷ xs) ys h k = (h.0, All-append Holds xs ys h.1 k)

All-Mem {ℓ κ} :
    {A : Type ℓ} (Holds : A → Type κ) (xs : List A) → ((x : A) → Mem x xs → Holds x) → All Holds xs
All-Mem Holds [] h = tt
All-Mem Holds (x ∷ xs) h = (h x mem-cons_self, All-Mem Holds xs (λ y m. h y (mem-cons_of_mem x m)))

WritesNothing-prop : (e : QueueEntry) → IsProp (WritesNothing e)
WritesNothing-prop e = hlevel

WritesNothing-Mem :
    (op_queue : List QueueEntry)
    → All WritesNothing op_queue
    → (e : QueueEntry) → Mem e op_queue
    → WritesNothing e
WritesNothing-Mem [] h e m = absurd (not-mem-nil m)
WritesNothing-Mem (x ∷ xs) h e m =
    Or.elim (WritesNothing-prop e) (eq-or-mem_of_mem-cons m) (λ p. subst WritesNothing (sym p) h.0)
      (WritesNothing-Mem xs h.1 e)

-- Of a queue of entries that write nothing, one more such entry and a shuffle make another one.
pub enqueue-WritesNothing :
    (shuffle : List QueueEntry → List QueueEntry) (e : QueueEntry) (op_queue : List QueueEntry)
    → ((l : List QueueEntry) → Perm (shuffle l) l)
    → WritesNothing e
    → All WritesNothing op_queue
    → All WritesNothing (shuffle_queue shuffle (add_to_queue e op_queue))
unfolding add_to_queue
enqueue-WritesNothing shuffle e op_queue h quiet rest =
    let longer = All-append WritesNothing op_queue (e ∷ []) rest (quiet, tt) in
    let same_entries = shuffle_queue-Perm shuffle (op_queue ++ (e ∷ [])) h in
    All-Mem WritesNothing _ (λ x m. WritesNothing-Mem _ longer x ((Perm.mem_iff same_entries).0 m))

module _ {P : Posix} (L : IsLawful P) where
  open P use {World, sys, slurp}

  execute_write_nothing :
      (e : QueueEntry) (w : World) (q : Bytes)
      → e.size ≡ 0
      → slurp (execute_write P e w).1 q ≡ slurp w q
  unfolding execute_write
  execute_write_nothing e w q h = elim (Ret-cases (sys (open_file e.path o_rdwr 438) w).0) [
    | inr (errno, failure) ↦ rw (failure, execute_write) (L.slurp_quiet _ w q refl)
    | inl (fd, opened) ↦
        rw (opened, execute_write, h)
          (L.slurp_quiet (close (pos fd)) _ q refl
            ∙ L.slurp_quiet (pwrite (pos fd) [] e.offset) _ q refl
            ∙ L.slurp_quiet _ w q refl)
  ]

  execute_entry_nothing :
      (e : QueueEntry) (w : World) (q : Bytes)
      → WritesNothing e
      → slurp (execute_entry P e w).1 q ≡ slurp w q
  unfolding execute_entry execute_close
  execute_entry_nothing e w q h = ground (
    arith,
    h,
    execute_write_nothing e w q,
    L.slurp_quiet (dup (pos e.fh)) w q refl,
    L.slurp_quiet (close (int_of (sys (dup (pos e.fh)) w).0)) (sys (dup (pos e.fh)) w).1 q refl,
  )

  -- A queue of entries that write nothing can be polled any number of times, and every file has
  -- the contents that it had.
  pub poll-WritesNothing :
      (n : ℕ) (op_queue : List QueueEntry) (w : World) (q : Bytes)
      → All WritesNothing op_queue
      → slurp (poll P n op_queue w).1 q ≡ slurp w q
  unfolding poll execute_queue_head
  poll-WritesNothing zero op_queue w q h = refl
  poll-WritesNothing (suc n) [] w q h = poll-WritesNothing n [] w q h
  poll-WritesNothing (suc n) (e ∷ es) w q h =
      poll-WritesNothing n es (execute_entry P e w).1 q h.1 ∙ execute_entry_nothing e w q h.0

-- As many polls as there are entries empty the queue, whatever the entries do.
poll_empties :
    (P : Posix) (n : ℕ) (op_queue : List QueueEntry) (w : P.World)
    → length op_queue ≤ n
    → (poll P n op_queue w).0 ≡ []
unfolding poll execute_queue_head
poll_empties P zero [] w h = refl
poll_empties P zero (e ∷ es) w h = absurd (omega arith)
poll_empties P (suc n) [] w h = poll_empties P n [] w (omega arith)
poll_empties P (suc n) (e ∷ es) w h = poll_empties P n es _ (omega arith)
