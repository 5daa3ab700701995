-- ===== src/Ops/Branches.antt =====
-- The two branches that every operation of unreliablefs/unreliablefs/unreliablefs_ops.c starts with.
use bnfs.Base.{Bool, true, false, List, Bytes, pos, ◌≡◌, refl, eqb_ℤ, if◌then◌else◌, ℤ}
use bnfs.FuseOp.{FuseOp}
use bnfs.Errinj.{Effect, noop_code, queue_code}
use bnfs.Errinj.Config.{Injected, answers, overrun}
use bnfs.Ops.{
  Env, Mount, Chance, Outcome, no_output, returns, injected, after_inject, guarded, guarded_queue,
  Body, finish, overruns,
}

-- The state that an operation leaves, if it returns.
abbrev pub After : {E : Env} → (Mount E → Type 0) → Outcome E → Type 0
After Holds (returns code handed effects m) = Holds m
After Holds _ = Unit

module _ {E : Env} where
  -- An operation in which nothing is injected is its body.
  pub guarded_queue-body :
      (op : FuseOp) (path : Bytes) (c : Chance E) (m : Mount E) (queued body : Body E)
      (effects : List Effect)
      → injected E op path c m ≡ answers (pos 0) effects
      → guarded_queue E op path c m queued body
        ≡ finish E effects (body (after_inject E op path c m))
  unfolding guarded_queue
  guarded_queue-body op path c m queued body effects e = rw (e, guarded_queue)

  pub guarded-body :
      (op : FuseOp) (path : Bytes) (c : Chance E) (m : Mount E) (body : Body E)
      (effects : List Effect)
      → injected E op path c m ≡ answers (pos 0) effects
      → guarded E op path c m body ≡ finish E effects (body (after_inject E op path c m))
  unfolding guarded
  guarded-body op path c m body effects e = rw (e, guarded)

  -- What holds of the outcome of every branch holds of the outcome.
  module _ (Good : Outcome E → Type 0) where
    if-good : (b : Bool) (x y : Outcome E) → Good x → Good y → Good (if b then x else y)
    if-good true x y h k = h
    if-good false x y h k = k

    pub guarded_queue-good :
        (op : FuseOp) (path : Bytes) (c : Chance E) (m : Mount E) (queued body : Body E)
        → Good overruns
        → ((code : ℤ) (effects : List Effect)
            → Good (returns code no_output effects (after_inject E op path c m)))
        → ((effects : List Effect) → Good (finish E effects (queued (after_inject E op path c m))))
        → ((effects : List Effect) → Good (finish E effects (body (after_inject E op path c m))))
        → Good (guarded_queue E op path c m queued body)
    unfolding guarded_queue
    guarded_queue-good op path c m queued body over here q b =
        by_answer (injected E op path c m) refl
      where
        by_answer :
            (r : Injected E.atoi)
            → injected E op path c m ≡ r
            → Good (guarded_queue E op path c m queued body)
        by_answer overrun e = rw (e, guarded_queue) over
        by_answer (answers rc effects) e =
            let mounted = after_inject E op path c m in
            rw (e, guarded_queue)
              (if-good (eqb_ℤ rc noop_code) (returns (pos 0) no_output effects mounted) _
                (here (pos 0) effects)
                (if-good (eqb_ℤ rc queue_code) (finish E effects (queued mounted)) _ (q effects) (
                  if-good (eqb_ℤ rc (pos 0)) (finish E effects (body mounted))
                    (returns rc no_output effects mounted) (b effects) (here rc effects))))

    pub guarded-good :
        (op : FuseOp) (path : Bytes) (c : Chance E) (m : Mount E) (body : Body E)
        → Good overruns
        → ((code : ℤ) (effects : List Effect)
            → Good (returns code no_output effects (after_inject E op path c m)))
        → ((effects : List Effect) → Good (finish E effects (body (after_inject E op path c m))))
        → Good (guarded E op path c m body)
    unfolding guarded
    guarded-good op path c m body over here b = by_answer (injected E op path c m) refl
      where
        by_answer :
            (r : Injected E.atoi) → injected E op path c m ≡ r → Good (guarded E op path c m body)
        by_answer overrun e = rw (e, guarded) over
        by_answer (answers rc effects) e =
            let mounted = after_inject E op path c m in
            rw (e, guarded)
              (if-good (eqb_ℤ rc noop_code) (returns (pos 0) no_output effects mounted) _
                (here (pos 0) effects)
                (if-good (eqb_ℤ rc (pos 0)) (finish E effects (body mounted))
                  (returns rc no_output effects mounted) (b effects) (here rc effects)))

  module _ (Holds : Mount E → Type 0) where
    pub guarded_queue-After :
        (op : FuseOp) (path : Bytes) (c : Chance E) (m : Mount E) (queued body : Body E)
        → Holds (after_inject E op path c m)
        → ((effects : List Effect)
            → After Holds (finish E effects (queued (after_inject E op path c m))))
        → ((effects : List Effect)
            → After Holds (finish E effects (body (after_inject E op path c m))))
        → After Holds (guarded_queue E op path c m queued body)
    guarded_queue-After op path c m queued body here q b =
        guarded_queue-good (After Holds) op path c m queued body tt (λ code effects. here) q b

    pub guarded-After :
        (op : FuseOp) (path : Bytes) (c : Chance E) (m : Mount E) (body : Body E)
        → Holds (after_inject E op path c m)
        → ((effects : List Effect)
            → After Holds (finish E effects (body (after_inject E op path c m))))
        → After Holds (guarded E op path c m body)
    guarded-After op path c m body here b =
        guarded-good (After Holds) op path c m body tt (λ code effects. here) b
