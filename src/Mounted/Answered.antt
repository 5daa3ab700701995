-- ===== src/Mounted/Answered.antt =====
-- What every slot of the table `unreliable_ops` of unreliablefs/unreliablefs/unreliablefs.c hands to
-- FUSE.
use bnfs.Ops.{Env, Outcome}
use bnfs.Mounted.{FuseCall}
use bnfs.Mounted.Answers.{Fits}
use bnfs.Mounted.Slots.{answer_kind, answers_number, may_wait}

module _ {E : Env} where
  abbrev pub FitsCall : FuseCall → Outcome E → Type 0
  FitsCall call = Fits (answer_kind call) (answers_number call) (may_wait call)
