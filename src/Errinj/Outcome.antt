-- ===== src/Errinj/Outcome.antt =====
-- The codes that `error_inject` of unreliablefs/unreliablefs/unreliablefs_errinj.c may answer.
use bnfs.Base.{
  ℕ, suc, true, none, some, List, [], ◌∷◌, ◌++◌, Bytes, ℤ, pos, negate, get_elem?, length, ◌≡◌, inl,
  inr, subst, arith, Bool-cases, Option-cases,
}
use bnfs.Build.{Build}
use bnfs.Errno.{Errno}
use bnfs.Errno.Tables.{errno_table}
use bnfs.FuseOp.{FuseOp}
use bnfs.Errinj.{
  ErrinjType, errno, kill_caller, noop, slowdown, alice_reorder, alice_delay, ErrinjConf, Loop,
  noop_code, queue_code, op_random_errno, rand_range, random_element, trigger, is_triggered,
  inject_loop,
}

-- The codes that an operation can be given: none, the two marks, the negated errors of its table,
-- and 1 for an operation without a table.
pub data IsCode (build : Build) (value : Errno → ℕ) (op : FuseOp) (rc : ℤ) : Type 0 where
  nothing : rc ≡ pos 0 → IsCode build value op rc
  no_operation : rc ≡ noop_code → IsCode build value op rc
  queued : rc ≡ queue_code → IsCode build value op rc
  unsupported : errno_table build op ≡ none → rc ≡ pos 1 → IsCode build value op rc
  injected :
      (arr : List Errno) (i : ℕ) (e : Errno)
      → errno_table build op ≡ some arr
      → get_elem? arr i ≡ some e
      → rc ≡ negate (value e)
      → IsCode build value op rc

module _ (build : Build) (value : Errno → ℕ) (regcomp : Bytes → ℕ)
    (regexec : Bytes → Bytes → ℕ) where
  trigger-IsCode :
      (draws : ℕ → ℕ) (t : ErrinjType) (err : ErrinjConf) (op : FuseOp) (l m : Loop)
      → IsCode build value op l.rc
      → trigger build value regcomp regexec draws t err op l ≡ some m
      → IsCode build value op m.rc
  unfolding trigger op_random_errno random_element
  trigger-IsCode draws noop err op l m c e = no_operation (ground arith)
  trigger-IsCode draws alice_reorder err op l m c e = queued (ground arith)
  trigger-IsCode draws alice_delay err op l m c e = queued (ground arith)
  trigger-IsCode draws kill_caller err op l m c e =
      subst (λ (x : ℤ). IsCode build value op x) (ground arith) c
  trigger-IsCode draws slowdown err op l m c e =
      subst (λ (x : ℤ). IsCode build value op x) (ground arith) c
  trigger-IsCode draws errno err op l m c e = elim (Option-cases (errno_table build op)) [
    | inl missing ↦ unsupported missing (ground (arith, missing))
    | inr (arr, table) ↦ elim (Option-cases (random_element (draws l.drawn) arr)) [
      | inl past ↦ absurd (ground (arith, table, past))
      | inr (x, drawn) ↦
          injected arr (rand_range (draws l.drawn) 0 (length arr)) x table drawn
            (ground (arith, table, drawn))
    ]
  ]

  -- Whatever the list of errors and the draws: if the loop starts with a code that the operation
  -- can be given (none, one of the two marks, or a negated error of its table, or 1 if it has no table) and ends without
  -- reading past an array, then so is its code at the end.
  pub inject_loop-IsCode :
      (draws : ℕ → ℕ) (path name : Bytes) (op : FuseOp) (errors : List ErrinjConf) (l m : Loop)
      → IsCode build value op l.rc
      → inject_loop build value regcomp regexec draws path op name errors l ≡ some m
      → IsCode build value op m.rc
  unfolding inject_loop
  inject_loop-IsCode draws path name op [] l m c e =
      subst (λ (x : ℤ). IsCode build value op x) (ground arith) c
  inject_loop-IsCode draws path name op (err ∷ errors) l m c e =
      let drawn : Loop = record l { drawn = suc l.drawn } in
      elim (Bool-cases (is_triggered build value regcomp regexec (draws l.drawn) path name err)) [
        | inr skipped ↦
            inject_loop-IsCode draws path name op errors drawn m c (rw (skipped, inject_loop) at e)
        | inl fired ↦
            elim (Option-cases (trigger build value regcomp regexec draws err.type_ err op drawn)) [
              | inl past ↦ absurd (ground (arith, fired, past))
              | inr (l', t) ↦
                  inject_loop-IsCode draws path name op errors l' m
                    (trigger-IsCode draws err.type_ err op drawn l' c t)
                    (rw (fired, inject_loop, t) at e)
            ]
      ]

  -- If the last entry is of the kind `errinj_noop` and every draw triggers it, then a loop that
  -- ends without reading past an array has the code of a no-op, whatever the entries before it.
  inject_loop-last_noop :
      (draws : ℕ → ℕ) (path name : Bytes) (op : FuseOp) (errors : List ErrinjConf)
      (err : ErrinjConf) (l m : Loop)
      → err.type_ ≡ noop
      → ((draw : ℕ) → is_triggered build value regcomp regexec draw path name err ≡ true)
      → inject_loop build value regcomp regexec draws path op name (errors ++ (err ∷ [])) l ≡ some m
      → m.rc ≡ noop_code
  unfolding inject_loop trigger
  inject_loop-last_noop draws path name op [] err l m n always e =
      ground (arith, always (draws l.drawn), n)
  inject_loop-last_noop draws path name op (x ∷ errors) err l m n always e =
      let drawn : Loop = record l { drawn = suc l.drawn } in
      elim (Bool-cases (is_triggered build value regcomp regexec (draws l.drawn) path name x)) [
        | inr skipped ↦
            inject_loop-last_noop draws path name op errors err drawn m n always
              (rw (skipped, inject_loop) at e)
        | inl fired ↦
            elim (Option-cases (trigger build value regcomp regexec draws x.type_ x op drawn)) [
              | inl past ↦ absurd (ground (arith, fired, past))
              | inr (l', t) ↦
                  inject_loop-last_noop draws path name op errors err l' m n always
                    (rw (fired, inject_loop, t) at e)
            ]
      ]
