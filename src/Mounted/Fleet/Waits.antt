-- ===== src/Mounted/Fleet/Waits.antt =====
-- Why the mutex of unreliablefs/unreliablefs/afs_server.cc stays held.
use bnfs.Base.{
  true, false, List, All, ◌≡◌, ◌⊎◌, inl, inr, ap, sym, subst, ◌∙◌, arith, Bool-cases, ℕ,
}
use bnfs.Server.Lock.{Request, serve}
use bnfs.Server.Failed.{OneFails, serve-RenameFails}
use bnfs.Ops.{Env, Mount, Chance, waits}
use bnfs.Mounted.{FuseCall, dispatch, Step}
use bnfs.Mounted.Waiting.{WaitsFor}
use bnfs.Mounted.Waits.{dispatch-WaitsFor}
use bnfs.Mounted.Reachable.{Sent, Step-Served}
use bnfs.Mounted.Fleet.{Fleet, FleetReach, start, later, acts, mount_of}

module _ {E : Env} where
  open E use {server_os}

  -- The requests that a step sent brought the server to where it is after the step, and one of them
  -- was an upload whose `rename` failed on it.
  pub record FailedIn {m m' : Mount E} (s : Step E m m') : Type 0 where
    pub requests : List Request
    pub sent : All (Sent s) requests
    pub served : m'.server ≡ serve server_os requests m.server
    pub fails : OneFails server_os requests m.server

  -- In some step of a run.
  abbrev pub HasFailed : {f g : Fleet E} → FleetReach E f g → Type 0
  HasFailed start = ⊥
  HasFailed (later r (acts i s e)) = HasFailed r ⊎ FailedIn s

  -- Several clients of one server whose mutex is free at first, used in any way, one operation
  -- after the other: if the mutex is then held, some step of the run sent the server an upload
  -- whose `rename` failed, on the server as the requests of the step in front of it had left it.
  pub fleet_held_failed :
      {f g : Fleet E} (r : FleetReach E f g)
      → f.server.locked ≡ false
      → g.server.locked ≡ true
      → HasFailed r
  fleet_held_failed start free held = ground (arith, free, held)
  fleet_held_failed (later {g} r (acts i s e)) free held = elim (Bool-cases g.server.locked) [
    | inl before ↦ inl (fleet_held_failed r free before)
    | inr after ↦
        let (rs, all, served) = Step-Served s in
        inr (record {
          requests = rs;
          sent = all;
          served = served;
          fails =
              serve-RenameFails server_os rs g.server after
                (ap (λ x. x.locked) (sym (ap (λ x. x.server) e ∙ served)) ∙ held);
        })
  ]

  -- An operation that waits for the mutex finds it held.
  fleet_waits_failed :
      {f g : Fleet E} (r : FleetReach E f g) (i : ℕ) (call : FuseCall) (c : Chance E)
      → f.server.locked ≡ false
      → dispatch E call c (mount_of E i g) ≡ waits
      → HasFailed r
  unfolding WaitsFor
  fleet_waits_failed {g} r i call c free e =
      fleet_held_failed r free
        (subst (WaitsFor (g.server.locked ≡ true)) e (dispatch-WaitsFor call c (mount_of E i g)))
