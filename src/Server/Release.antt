-- ===== src/Server/Release.antt =====
-- Who holds the mutex of unreliablefs/unreliablefs/afs_server.cc, and how it comes free.
use bnfs.Base.{
  ℕ, Bool, true, false, List, [], ◌∷◌, ◌≡◌, ◌⊎◌, refl, inl, inr, sym, subst, arith, Bool-cases,
  ◌==◌, ◌≤◌, if◌then◌else◌,
}
use bnfs.Posix.{Posix, rename, write_all}
use bnfs.Posix.Laws.{Ret-cases}
use bnfs.Server.{cancelled, no_put_resp}
use bnfs.Server.Threads.{
  Job, Place, waiting, holding, written, moved, readable, unlocked, done, is_critical, advance,
  Threads, put_at, turn, run,
}
use bnfs.Server.Alone.{turns, solo, run-turns}

-- A thread that may hold the mutex: one between the lock and the unlock, or one that has ended
-- without success.
abbrev pub MayHold : Place → Type 0
MayHold place = (is_critical place ≡ true) ⊎ (place ≡ done cancelled no_put_resp)

module _ (P : Posix) where
  -- A thread that may hold the mutex before its call and has not let go of it, may still.
  advance-MayHold :
      (j : Job) (place : Place) (w : P.World) (locked : Bool)
      → MayHold place
      → (advance P j place w locked).2 ≡ true
      → MayHold (advance P j place w locked).0
  unfolding advance is_critical
  advance-MayHold j holding w locked m h = elim (Bool-cases j.ends) [
    | inl ends ↦ rw (ends, if◌then◌else◌) (inl refl)
    | inr stalls ↦ rw (stalls, if◌then◌else◌) (inl refl)
  ]
  advance-MayHold j written w locked m h = elim (Ret-cases (P.sys (rename j.temp j.target) w).0) [
    | inl (n, e) ↦ rw (e, advance) (inl refl)
    | inr (n, e) ↦ rw (e, advance) (inr refl)
  ]
  advance-MayHold j moved w locked m h = inl refl
  advance-MayHold j readable w locked m h = absurd (ground (arith, h))
  advance-MayHold j (done st resp) w locked m h = m
  advance-MayHold j waiting w locked (inl c) h = absurd (ground (arith, c))
  advance-MayHold j waiting w locked (inr e) h = absurd (ground (arith, e))
  advance-MayHold j unlocked w locked (inl c) h = absurd (ground (arith, c))
  advance-MayHold j unlocked w locked (inr e) h = absurd (ground (arith, e))

  -- A call that takes the mutex.
  advance_takes :
      (j : Job) (place : Place) (w : P.World) (locked : Bool)
      → locked ≡ false
      → (advance P j place w locked).2 ≡ true
      → is_critical (advance P j place w locked).0 ≡ true
  unfolding advance is_critical
  advance_takes j place w locked free h = ground (arith, free, h)

  -- A thread between the lock and the unlock is in a loop that does not end, or lets go of the
  -- mutex within four calls, or fails to rename.
  solo-release :
      (j : Job) (place : Place) (w : P.World) (locked : Bool)
      → is_critical place ≡ true
      → ((place ≡ holding) × (j.ends ≡ false))
        ⊎ ((n : ℕ) × (n ≤ 4)
            × (((solo P n j place w locked).2 ≡ false)
                ⊎ ((solo P n j place w locked).0 ≡ done cancelled no_put_resp)))
  unfolding advance is_critical solo
  solo-release j holding w locked c = elim (Bool-cases j.ends) [
    | inr stalls ↦ inl (refl, stalls)
    | inl ends ↦
        elim (Ret-cases
          (P.sys (rename j.temp j.target) (P.sys (write_all j.temp j.contents) w).1).0) [
            | inl (n, e) ↦ inr (4, omega arith, rw (ends, if◌then◌else◌, e, advance) (inl refl))
            | inr (n, e) ↦ inr (4, omega arith, rw (ends, if◌then◌else◌, e, advance) (inr refl))
          ]
  ]
  solo-release j written w locked c = elim (Ret-cases (P.sys (rename j.temp j.target) w).0) [
    | inl (n, e) ↦ inr (3, omega arith, rw (e, advance) (inl refl))
    | inr (n, e) ↦ inr (3, omega arith, rw (e, advance) (inr refl))
  ]
  solo-release j moved w locked c = inr (2, omega arith, inl refl)
  solo-release j readable w locked c = inr (1, omega arith, inl refl)
  solo-release j place w locked c = absurd (ground (arith, c))

  module _ (jobs : ℕ → Job) where
    -- If the mutex is held, some thread may hold it.
    abbrev pub HasHolder : Threads P → Type 0
    HasHolder t = t.locked ≡ true → (k : ℕ) × MayHold (t.places k)

    turn-HasHolder : (k : ℕ) (t : Threads P) → HasHolder t → HasHolder (turn P jobs k t)
    unfolding turn
    turn-HasHolder k t h now =
        let r = advance P (jobs k) (t.places k) t.world t.locked in
        let self : put_at P k r.0 t.places k ≡ r.0 = ground arith in
        elim (Bool-cases t.locked) [
          | inr free ↦ (
            k,
            subst MayHold (sym self)
                (inl (advance_takes (jobs k) (t.places k) t.world t.locked free now)),
          )
          | inl held ↦
              let (i, m) = h held in
              elim (Bool-cases (i == k)) [
                | inr other ↦ (i, rw other m)
                | inl own ↦ (
                  k,
                  subst MayHold (sym self) (
                      advance-MayHold (jobs k) (t.places k) t.world t.locked
                        (subst (λ x. MayHold (t.places x)) {x = i} {y = k} (ground (arith, own)) m)
                        now),
                )
              ]
        ]

    run-HasHolder : (ks : List ℕ) (t : Threads P) → HasHolder t → HasHolder (run P jobs ks t)
    unfolding run
    run-HasHolder [] t h = h
    run-HasHolder (k ∷ ks) t h = run-HasHolder ks (turn P jobs k t) (turn-HasHolder k t h)

    -- In any order of the calls, from a free mutex on: if the mutex is then held, there is a thread
    -- that holds it in a loop that waits for ever for messages of its client, or one that frees it
    -- by making at most four calls, or that has ended without success by then.
    pub mutex_comes_free :
        (ks : List ℕ) (t : Threads P)
        → t.locked ≡ false
        → (run P jobs ks t).locked ≡ true
        → (k : ℕ) × ((((run P jobs ks t).places k ≡ holding) × ((jobs k).ends ≡ false))
            ⊎ ((n : ℕ) × (n ≤ 4)
                × (let u = run P jobs (turns n k) (run P jobs ks t) in
                    (u.locked ≡ false) ⊎ (u.places k ≡ done cancelled no_put_resp))))
    unfolding run
    mutex_comes_free ks t free held =
        let v = run P jobs ks t in
        let (k, m) = run-HasHolder ks t (λ h. absurd (ground (arith, free, h))) held in
        elim m [
          | inr failed ↦ (k, inr (0, omega arith, inr failed))
          | inl inside ↦ elim (solo-release (jobs k) (v.places k) v.world v.locked inside) [
            | inl stalled ↦ (k, inl stalled)
            | inr (n, few, ends) ↦ (
              k,
              inr (
                n,
                few,
                subst
                    (λ (x : Place × P.World × Bool).
                      (x.2 ≡ false) ⊎ (x.0 ≡ done cancelled no_put_resp))
                    (sym (run-turns P jobs n k v)) ends,
              ),
            )
          ]
        ]
