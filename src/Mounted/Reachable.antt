-- ===== src/Mounted/Reachable.antt =====
-- What holds in every state of a mounted client of unreliablefs/unreliablefs/unreliablefs.c,
-- whatever FUSE calls, the polling thread and other clients have done.
use bnfs.Base.{
  ap, ℕ, true, some, List, [], ◌∷◌, Bytes, All, pos, length, ◌≡◌, sym, subst, ◌∙◌, Bool, ◌&&◌, refl,
  arith, false, ◌++◌,
}
use bnfs.Hash.{get_temp_path}
use bnfs.Posix.{Posix}
use bnfs.Posix.Laws.{IsLawful}
use bnfs.Cache.{is_file_dirty}
use bnfs.Server.Lock.{serve-locked, Request, serve, serve-append}
use bnfs.Mounted.Requests.{Served, FromCopy, stays, taken}
use bnfs.AfsClient.{upload}
use bnfs.AfsClient.Flush.{Arrives}
use bnfs.FuseOp.{op_flush}
use bnfs.Errinj.{Effect}
use bnfs.Errinj.Config.{answers}
use bnfs.Queue.{QueueEntry, execute_queue_head}
use bnfs.Queue.Drain.{WritesNothing}
use bnfs.Ops.{Env, Mount, Chance, waits, injected}
use bnfs.Ops.Branches.{After}
use bnfs.Ops.Data.{unreliable_flush}
use bnfs.Ops.Flushing.{Closes, unreliable_flush-waits}
use bnfs.Mounted.{
  Step, operation, polled, requested, Reach, here, next, IsSound, is_local, HasSoundErrors,
}
use bnfs.Mounted.Frames.{Frame}
use bnfs.Mounted.Dispatched.{dispatch-Frame}

head-WritesNothing :
    (P : Posix) (op_queue : List QueueEntry) (w : P.World)
    → All WritesNothing op_queue
    → All WritesNothing (execute_queue_head P op_queue w).1
unfolding execute_queue_head
head-WritesNothing P [] w h = h
head-WritesNothing P (e ∷ es) w h = h.1

module _ {E : Env} where
  open E use {client_os, server_os, sha256}

  -- Is the step a slot that leaves the server alone, or a poll?
  abbrev pub step_is_local : {m m' : Mount E} → Step E m m' → Bool
  step_is_local (operation call c code out effects h e) = is_local call
  step_is_local (polled e) = true
  step_is_local (requested r e) = false

  -- Are all steps of this kind?
  abbrev pub run_is_local : {m m' : Mount E} → Reach E m m' → Bool
  run_is_local here = true
  run_is_local (next r s) = run_is_local r && step_is_local s

  -- What holds of a whole run; the server takes the requests of every step.
  abbrev pub RunFrame : (local : Bool) → Mount E → Mount E → Type 0
  RunFrame local m m' =
      (All WritesNothing m.op_queue → All WritesNothing m'.op_queue)
      × (HasSoundErrors m.config.errors → HasSoundErrors m'.config.errors)
      × ((rs : List Request) × (m'.server ≡ serve server_os rs m.server))
      × (local ≡ true → m'.server ≡ m.server)

  -- What the server takes in a step: requests of the client, whose uploads are of its working
  -- copies, or the one of another.
  abbrev pub Sent : {m m' : Mount E} → Step E m m' → Request → Type 0
  Sent {m} (operation call c code out effects h e) x =
      FromCopy client_os server_os sha256 m.client x
  Sent (polled e) x = ⊥
  Sent (requested r e) x = x ≡ r

  pub Step-Served : {m m' : Mount E} (s : Step E m m') → Served (Sent s) m.server m'.server
  Step-Served {m} (operation call c code out effects h e) =
      (subst (After (Frame (is_local call) m)) e (dispatch-Frame call c m h)).2
  Step-Served {m} (polled e) =
      subst (λ x. Served (λ r. ⊥) m.server x.server) (sym e) (stays m.server)
  Step-Served {m} (requested r e) =
      subst (λ x. Served (λ x. x ≡ r) m.server x.server) (sym e) (taken r m.server refl)

  pub Step-Frame : {m m' : Mount E} (s : Step E m m') → RunFrame (step_is_local s) m m'
  unfolding serve
  Step-Frame {m} (operation call c code out effects h e) =
      let f = subst (After (Frame (is_local call) m)) e (dispatch-Frame call c m h) in
      (f.0, f.1, (f.2.0, f.2.2), f.3)
  Step-Frame {m} (polled e) =
      subst (RunFrame true m) (sym e)
        (head-WritesNothing client_os m.op_queue m.client.world, λ s. s, ([], refl), λ o. refl)
  Step-Frame {m} (requested r e) =
      subst (RunFrame false m) (sym e)
        (λ q. q, λ s. s, (r ∷ [], refl), λ o. absurd (ground (arith, o)))

  Reach-Frame : {m m' : Mount E} (r : Reach E m m') → RunFrame (run_is_local r) m m'
  unfolding serve
  Reach-Frame here = (λ q. q, λ s. s, ([], refl), λ o. refl)
  Reach-Frame {m} (next r s) =
      let before = Reach-Frame r in
      let last = Step-Frame s in
      let (rs, e) = before.2 in
      let (rs', f) = last.2 in
      (
        λ q. last.0 (before.0 q),
        λ s. last.1 (before.1 s),
        (rs ++ rs', f ∙ ap (serve server_os rs') e ∙ sym (serve-append server_os rs rs' m.server)),
        λ o. last.3 (ground (arith, o)) ∙ before.3 (ground (arith, o)),
      )

  -- In a run of polls and of operations other than mkdir, unlink, rmdir, rename, open, create,
  -- flush and access, with no request of another client, the server stays as it was: what is
  -- written, truncated or synced is not sent.
  pub Reach-local :
      {m m' : Mount E} (r : Reach E m m') → run_is_local r ≡ true → m'.server ≡ m.server
  Reach-local r local = (Reach-Frame r).3 local

  -- From a mount whose queue has no entry that writes and whose configuration has one entry for
  -- each type at most, every sequence of operations that return, polls and requests of other
  -- clients leads to such a mount, where the shuffles only permute.
  pub Reach-IsSound : {m m' : Mount E} → Reach E m m' → IsSound E m → IsSound E m'
  Reach-IsSound r sound = let f = Reach-Frame r in (f.0 sound.0, f.1 sound.1)

  -- Once the server's mutex is held: in every mount that is reached from there, a flush of a dirty
  -- file in which nothing is injected and `close (dup (fh))` succeeds, and that arrives at the
  -- server, never returns.
  pub Reach-flush-waits :
      IsLawful client_os
      → (m m' : Mount E) → Reach E m m'
      → m.server.locked ≡ true
      → (path contents : Bytes) (fh j : ℕ) (c : Chance E) (effects : List Effect)
      → injected E op_flush path c m' ≡ answers (pos 0) effects
      → Closes fh m'
      → client_os.slurp m'.client.world (get_temp_path sha256 path) ≡ some contents
      → is_file_dirty client_os sha256 path m'.client ≡ true
      → Arrives c.upload (length (upload path contents)) j true
      → unreliable_flush E path fh c m' ≡ waits
  Reach-flush-waits L m m' r held path contents fh j c effects e closes there dirty a =
      unreliable_flush-waits L path contents fh j c m' effects e closes there dirty a (
        let (rs, served) = (Reach-Frame r).2 in
        ap (λ s. s.locked) served ∙ serve-locked server_os rs m.server held)
