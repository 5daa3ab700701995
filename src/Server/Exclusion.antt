-- ===== src/Server/Exclusion.antt =====
-- The mutex of unreliablefs/unreliablefs/afs_server.cc lets one upload at a time through.
use bnfs.Base.{ℕ, Bool, true, false, List, [], ◌∷◌, ◌≡◌, arith}
use bnfs.Posix.{Posix}
use bnfs.Server.Threads.{Job, Place, is_critical, advance, Threads, turn, run}

module _ (P : Posix) where
  -- At most one thread is between the lock and the unlock, and then the mutex is held.
  pub record Excludes (t : Threads P) : Type 0 where
    pub one : (i j : ℕ) → is_critical (t.places i) ≡ true → is_critical (t.places j) ≡ true → i ≡ j
    pub held : (i : ℕ) → is_critical (t.places i) ≡ true → t.locked ≡ true

  -- A thread that is between the lock and the unlock after its call holds the mutex.
  advance_holds :
      (j : Job) (place : Place) (w : P.World) (locked : Bool)
      → (is_critical place ≡ true → locked ≡ true)
      → is_critical (advance P j place w locked).0 ≡ true
      → (advance P j place w locked).2 ≡ true
  unfolding advance is_critical
  advance_holds j place w locked h c = ground (arith, h, c)

  -- It was so before, or has just found the mutex free.
  advance_enters :
      (j : Job) (place : Place) (w : P.World) (locked : Bool)
      → is_critical (advance P j place w locked).0 ≡ true
      → is_critical place ≡ false
      → locked ≡ false
  unfolding advance is_critical
  advance_enters j place w locked c out = ground (arith, c, out)

  -- Only a thread that was so before lets go of the mutex.
  advance_keeps :
      (j : Job) (place : Place) (w : P.World) (locked : Bool)
      → is_critical place ≡ false
      → locked ≡ true
      → (advance P j place w locked).2 ≡ true
  unfolding advance is_critical
  advance_keeps j place w locked out h = ground (arith, out, h)

  module _ (jobs : ℕ → Job) where
    pub turn-Excludes : (k : ℕ) (t : Threads P) → Excludes t → Excludes (turn P jobs k t)
    unfolding turn
    turn-Excludes k t e =
        let place = t.places k in
        let r = advance P (jobs k) place t.world t.locked in
        record {
          one = λ i j a b. ground (
            arith,
            a,
            b,
            e.one i j,
            e.one i k,
            e.one k j,
            e.held i,
            e.held j,
            advance_enters (jobs k) place t.world t.locked,
          );
          held = λ i a. ground (
            arith,
            a,
            e.one i k,
            e.held i,
            advance_holds (jobs k) place t.world t.locked (e.held k),
            advance_keeps (jobs k) place t.world t.locked,
          );
        }

    -- In whatever order the threads make their calls: if at most one is between the lock and the
    -- unlock and it holds the mutex, then so it is afterwards.
    pub run-Excludes : (ks : List ℕ) (t : Threads P) → Excludes t → Excludes (run P jobs ks t)
    unfolding run
    run-Excludes [] t e = e
    run-Excludes (k ∷ ks) t e = run-Excludes ks (turn P jobs k t) (turn-Excludes k t e)
