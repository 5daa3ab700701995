-- ===== src/Mounted/Fleet.antt =====
-- Several mounted clients of unreliablefs/unreliablefs/unreliablefs.c that use one server at once.
pub mod Sessions
pub mod Stuck
pub mod Contents
pub mod Waits
use bnfs.Base.{
  ℕ, Bool, true, false, List, [], ◌∷◌, ◌≡◌, refl, sym, ap, subst, ◌∙◌, inl, inr, arith, Bool-cases,
  ◌&&◌, if◌then◌else◌, ◌==◌, ==_iff, not,
}
use bnfs.Cache.{Client}
use bnfs.Server.{Server}
use bnfs.Server.Lock.{Request, handle, serve}
use bnfs.Errinj.Config.{Config}
use bnfs.Queue.{QueueEntry}
use bnfs.Ops.{Env, Mount}
use bnfs.Mounted.{Step, requested, Reach, here, next, IsSound}
use bnfs.Mounted.Reachable.{Step-Frame, step_is_local, Reach-IsSound}

module _ (E : Env) where
  open E use {client_os, server_os, sha256, atoi}

  -- A client without the server that it is connected to.
  pub record Member : Type 0 where
    pub client : Client client_os sha256
    pub op_queue : List QueueEntry
    pub config : Config atoi

  pub record Fleet : Type 0 where
    pub members : ℕ → Member
    pub server : Server server_os

  abbrev pub member_of : Mount E → Member
  member_of m = record { client = m.client; op_queue = m.op_queue; config = m.config }

  -- The mount of a client that is connected to a server.
  abbrev pub connect : Server server_os → Member → Mount E
  connect s a = record { client = a.client; server = s; op_queue = a.op_queue; config = a.config }

  -- What client `i` is and sees.
  abbrev pub mount_of : ℕ → Fleet → Mount E
  mount_of i f = connect f.server (f.members i)

  -- The fleet when client `i` has gone on to `m`.
  abbrev pub put : ℕ → Mount E → Fleet → Fleet
  put i m f = record {
    members = λ j. if j == i then member_of m else f.members j;
    server = m.server;
  }

  -- One step of one client: an operation, a poll, or a request that comes from outside.
  pub data FleetStep (f f' : Fleet) : Type 0 where
    acts : (i : ℕ) {m : Mount E} → Step E (mount_of i f) m → f' ≡ put i m f → FleetStep f f'

  pub data FleetReach (f : Fleet) : Fleet → Type 0 where
    start : FleetReach f f
    later : {g h : Fleet} → FleetReach f g → FleetStep g h → FleetReach f h

module _ {E : Env} where
  open E use {client_os, server_os, sha256, atoi}

  -- Are all steps of slots that leave the server alone, or polls?
  abbrev pub fleet_is_local : {f f' : Fleet E} → FleetReach E f f' → Bool
  fleet_is_local start = true
  fleet_is_local (later r (acts i s e)) = fleet_is_local r && step_is_local s

  put-own : (i : ℕ) (m : Mount E) (f : Fleet E) → mount_of E i (put E i m f) ≡ m
  put-own i m f =
      ap (λ b. connect E m.server (if b then member_of E m else f.members i)) ((==_iff i i).1 refl)

  put-other :
      (i j : ℕ) (m : Mount E) (f : Fleet E)
      → (j == i) ≡ false
      → mount_of E j (put E i m f) ≡ record (mount_of E j f) { server = m.server }
  put-other i j m f differs =
      ap (λ b. connect E m.server (if b then member_of E m else f.members j)) differs

  join_runs : {l m n : Mount E} → Reach E l m → Reach E m n → Reach E l n
  join_runs r here = r
  join_runs r (next q s) = next (join_runs r q) s

  -- Requests of other clients, one after another.
  follow :
      (rs : List Request) (m : Mount E)
      → Reach E m (record m { server = serve server_os rs m.server })
  unfolding serve
  follow [] m = here
  follow (r ∷ rs) m =
      join_runs (next here (requested r refl))
        (follow rs (record m { server = handle server_os r m.server }))

  FleetStep-Reach :
      {f f' : Fleet E} (s : FleetStep E f f') (j : ℕ) → Reach E (mount_of E j f) (mount_of E j f')
  FleetStep-Reach {f} {f'} (acts i {m} s e) j = elim (Bool-cases (j == i)) [
    | inl same ↦
        subst (λ x. Reach E (mount_of E x f) (mount_of E x f')) (sym ((==_iff j i).0 same))
          (next here
            (subst (Step E (mount_of E i f)) (sym (put-own i m f) ∙ ap (mount_of E i) (sym e)) s))
    | inr differs ↦
        let (rs, served) = (Step-Frame s).2 in
        subst (Reach E (mount_of E j f))
          (ap (λ x. record (mount_of E j f) { server = x }) (sym served)
            ∙ sym (put-other i j m f differs)
            ∙ ap (mount_of E j) (sym e))
          (follow rs (mount_of E j f))
  ]

  -- In a run of such steps, by whichever clients, the server stays as it was.
  pub FleetReach-local :
      {f f' : Fleet E} (r : FleetReach E f f') → fleet_is_local r ≡ true → f'.server ≡ f.server
  FleetReach-local start local = refl
  FleetReach-local (later r (acts i s e)) local =
      ap (λ x. x.server) e
      ∙ (Step-Frame s).3 (ground (arith, local))
      ∙ FleetReach-local r (ground (arith, local))

  -- Whatever several clients of one server do, each in its turn: what one of them goes through is
  -- a run of its own, in which the requests that the others make come from outside.
  pub FleetReach-Reach :
      {f f' : Fleet E} → FleetReach E f f' → (j : ℕ) → Reach E (mount_of E j f) (mount_of E j f')
  FleetReach-Reach start j = here
  FleetReach-Reach (later r s) j = join_runs (FleetReach-Reach r j) (FleetStep-Reach s j)
