-- ===== src/Server/Alone.antt =====
-- One thread of the server that makes several calls with no other in between, in `PutFile` of
-- unreliablefs/unreliablefs/afs_server.cc.
use bnfs.Base.{ℕ, zero, suc, Bool, List, [], ◌∷◌, ◌≡◌, refl, ap, ◌∙◌, arith}
use bnfs.Posix.{Posix}
use bnfs.Server.Threads.{Job, Place, advance, Threads, put_at, turn, run}

-- The same thread `n` times.
abbrev pub turns : (n k : ℕ) → List ℕ
turns zero k = []
turns (suc n) k = k ∷ turns n k

module _ (P : Posix) where
  open P use {World, sys, lstat}

  unfoldable pub solo : ℕ → Job → Place → World → Bool → Place × World × Bool
  solo zero j place w locked = (place, w, locked)
  solo (suc n) j place w locked = let r = advance P j place w locked in solo n j r.0 r.1 r.2

  pub run-turns :
      (jobs : ℕ → Job) (n k : ℕ) (t : Threads P)
      → let u = run P jobs (turns n k) t in
        Path
          (Place × World × Bool)
          (u.places k, u.world, u.locked)
          (solo n (jobs k) (t.places k) t.world t.locked)
  unfolding run turn solo
  run-turns jobs zero k t = refl
  run-turns jobs (suc n) k t =
      let r = advance P (jobs k) (t.places k) t.world t.locked in
      let self : put_at P k r.0 t.places k ≡ r.0 = ground arith in
      run-turns jobs n k (turn P jobs k t) ∙ ap (λ p. solo n (jobs k) p r.1 r.2) self
