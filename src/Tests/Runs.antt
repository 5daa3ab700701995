-- ===== src/Tests/Runs.antt =====
-- Examples of what the slots of a mounted client answer.
use bnfs.Base.{
  ℕ, ◌%◌, ◌^◌, Bool, true, false, Option, none, some, List, [], ◌∷◌, ◌++◌, Bytes, codes, ℤ, pos,
  negsuc, length, ◌≡◌, refl, ◌+◌, ◌-◌, arith, if◌then◌else◌,
}
use bnfs.Errinj.Config.{options, Config}
use bnfs.Ops.{returns, no_output}
use bnfs.Mounted.{
  dispatch, Step, operation, requested, Reach, here, next, IsSound, call_write, call_chmod,
  call_getattr,
}
use bnfs.Tests.Scene.{path}
use bnfs.Tests.Mounts.{env, chance, mounted, conf}
use bnfs.Mounted.Injected.{dispatch-injected}

-- An operation that cannot be queued.
dispatch-injected_example :
    dispatch env (call_chmod path 384) chance (mounted (conf ∷ []))
    ≡ returns (pos 1000) no_output [] (mounted (conf ∷ []))
unfolding bnfs.Errinj.Config.error_inject bnfs.Base.same bnfs.FuseOp.op_name bnfs.Errinj.inject_loop
    bnfs.Errinj.is_triggered bnfs.Errinj.trigger bnfs.Mounted.Slots.op_of bnfs.Mounted.Slots.path_of
    bnfs.Mounted.Slots.is_queued
dispatch-injected_example =
    dispatch-injected (call_chmod path 384) chance (mounted (conf ∷ [])) (pos 1000) [] refl
      (λ e. ground (arith, e)) refl
