-- ===== src/Server/Whole.antt =====
-- What a reader finds while several uploads run at once in
-- unreliablefs/unreliablefs/afs_server.cc.
use bnfs.Base.{
  ℕ, Bool, true, false, some, List, [], ◌∷◌, Bytes, ◌≡◌, ◌≢◌, ◌⊎◌, refl, inl, inr, sym, ap, ◌∙◌,
  arith, same, same-ne, same_refl, same_iff, Bool-cases, ◌==◌, subst,
}
use bnfs.Posix.{Posix, ret, write_all, rename, chmod, s_irwxu}
use bnfs.Posix.Laws.{IsLawful, Ret-cases}
use bnfs.Server.Threads.{
  Job, Place, waiting, holding, written, moved, readable, unlocked, done, is_critical, advance,
  Threads, put_at, turn, run,
}
use bnfs.Server.Exclusion.{Excludes, turn-Excludes}

-- Behind the `rename`, or at the end.
unfoldable pub is_past : Place → Bool
is_past waiting = false
is_past holding = false
is_past written = false
is_past _ = true

module _ {P : Posix} (L : IsLawful P) where
  open P use {World, sys, slurp}

  -- The temporary file of an upload can be written, in every state.
  abbrev pub CanWrite : Job → Type 0
  CanWrite j = (w : World) → (n : ℕ) × ((sys (write_all j.temp j.contents) w).0 ≡ ret n)

  advance_written :
      (j : Job) (place : Place) (w : World) (locked : Bool)
      → CanWrite j
      → (advance P j place w locked).0 ≡ written
      → slurp (advance P j place w locked).1 j.temp ≡ some j.contents
  unfolding advance
  advance_written j holding w locked h e =
      L.slurp-write_all j.temp j.contents w j.temp (h w).0 (h w).1 ∙ rw (same_refl j.temp)
  advance_written j place w locked h e = absurd (ground (arith, e))

  advance_still :
      (j : Job) (place : Place) (w : World) (locked : Bool)
      → is_critical place ≡ false
      → (advance P j place w locked).1 ≡ w
  unfolding advance is_critical
  advance_still j place w locked h = ground (arith, h)

  advance_past :
      (j : Job) (place : Place) (w : World) (locked : Bool)
      → is_past place ≡ true
      → is_past (advance P j place w locked).0 ≡ true
  unfolding advance is_past
  advance_past j place w locked h = ground (arith, h)

  -- One call leaves a file that is not the temporary one as it is, or is the `rename` that gives it
  -- all of the contents.
  advance_read :
      (j : Job) (place : Place) (w : World) (locked : Bool) (q : Bytes)
      → CanWrite j
      → j.temp ≢ q
      → (place ≡ written → slurp w j.temp ≡ some j.contents)
      → let r = advance P j place w locked in
        (slurp r.1 q ≡ slurp w q)
        ⊎ ((j.target ≡ q) × (slurp r.1 q ≡ some j.contents) × (is_past r.0 ≡ true))
  unfolding advance is_past
  advance_read j waiting w locked q h apart ready = inl (ground arith)
  advance_read j holding w locked q h apart ready =
      inl (L.slurp-write_all j.temp j.contents w q (h w).0 (h w).1 ∙ rw (same-ne j.temp q apart))
  advance_read j written w locked q h apart ready =
      elim (Ret-cases (sys (rename j.temp j.target) w).0) [
        | inr (e, failure) ↦
            rw (failure, advance) (inl (L.slurp_failed (rename j.temp j.target) w q e refl failure))
        | inl (n, moved_now) ↦
            let found = L.slurp-rename j.temp j.target w q j.contents n (ready refl) moved_now in
            elim (Bool-cases (same j.target q)) [
              | inl here ↦
                  rw (moved_now, advance)
                    (inr ((same_iff j.target q).0 here, found ∙ rw here, refl))
              | inr elsewhere ↦
                  rw (moved_now, advance) (inl (found ∙ rw (elsewhere, same-ne j.temp q apart)))
            ]
      ]
  advance_read j moved w locked q h apart ready =
      inl (L.slurp_quiet (chmod j.target s_irwxu) w q refl)
  advance_read j readable w locked q h apart ready = inl refl
  advance_read j unlocked w locked q h apart ready = inl refl
  advance_read j (done st resp) w locked q h apart ready = inl refl

  module _ (jobs : ℕ → Job) where
    -- A thread that is about to rename has written its temporary file; and a file that is nobody's
    -- temporary file is as it was at first, or has all of what one upload brought that has renamed.
    pub record Whole (first : World) (t : Threads P) : Type 0 where
      pub ready :
          (i : ℕ) → t.places i ≡ written → slurp t.world (jobs i).temp ≡ some (jobs i).contents
      pub read :
          (q : Bytes)
          → ((i : ℕ) → (jobs i).temp ≢ q)
          → (slurp t.world q ≡ slurp first q)
            ⊎ ((i : ℕ) × ((jobs i).target ≡ q)
                × (slurp t.world q ≡ some (jobs i).contents)
                × (is_past (t.places i) ≡ true))

    at_self : (k : ℕ) (place : Place) (places : ℕ → Place) → put_at P k place places k ≡ place
    at_self k place places = ground arith

    critical_written : (place : Place) → place ≡ written → is_critical place ≡ true
    unfolding is_critical
    critical_written place e = ground (arith, e)

    turn-ready :
        (first : World) (k : ℕ) (t : Threads P)
        → ((i : ℕ) → CanWrite (jobs i))
        → Excludes P t
        → Whole first t
        → (i : ℕ) → (turn P jobs k t).places i ≡ written
        → slurp (turn P jobs k t).world (jobs i).temp ≡ some (jobs i).contents
    unfolding turn
    turn-ready first k t can e h i now = elim (Bool-cases (i == k)) [
      | inl own ↦
          subst
            (λ x.
              (turn P jobs k t).places x ≡ written
              → slurp (turn P jobs k t).world (jobs x).temp ≡ some (jobs x).contents)
            {x = k} {y = i} (ground (arith, own))
            (λ now_own. advance_written (jobs k) (t.places k) t.world t.locked (can k) (
              sym (at_self k (advance P (jobs k) (t.places k) t.world t.locked).0 t.places)
              ∙ now_own))
            now
      | inr other ↦
          let before : t.places i ≡ written = ground (arith, other, now) in
          let outside : is_critical (t.places k) ≡ false =
            ground (arith, other, critical_written (t.places i) before, e.one i k) in
          ap (λ w. slurp w (jobs i).temp)
            (advance_still (jobs k) (t.places k) t.world t.locked outside)
          ∙ h.ready i before
    ]

    turn-past :
        (k : ℕ) (t : Threads P) (i : ℕ)
        → is_past (t.places i) ≡ true
        → is_past ((turn P jobs k t).places i) ≡ true
    unfolding turn
    turn-past k t i h = ground (arith, h, advance_past (jobs k) (t.places k) t.world t.locked)

    turn-read :
        (first : World) (k : ℕ) (t : Threads P)
        → ((i : ℕ) → CanWrite (jobs i))
        → Whole first t
        → (q : Bytes) → ((i : ℕ) → (jobs i).temp ≢ q)
        → (slurp (turn P jobs k t).world q ≡ slurp first q)
          ⊎ ((i : ℕ) × ((jobs i).target ≡ q)
              × (slurp (turn P jobs k t).world q ≡ some (jobs i).contents)
              × (is_past ((turn P jobs k t).places i) ≡ true))
    unfolding turn
    turn-read first k t can h q apart =
        elim (advance_read (jobs k) (t.places k) t.world t.locked q (can k) (apart k) (h.ready k)) [
          | inr (named, new, past) ↦ inr (
            k,
            named,
            new,
            ap is_past (at_self k (advance P (jobs k) (t.places k) t.world t.locked).0 t.places)
                ∙ past,
          )
          | inl same_bytes ↦ elim (h.read q apart) [
            | inl old ↦ inl (same_bytes ∙ old)
            | inr (i, named, new, past) ↦ inr (i, named, same_bytes ∙ new, turn-past k t i past)
          ]
        ]

    run-Whole :
        (first : World) (ks : List ℕ) (t : Threads P)
        → ((i : ℕ) → CanWrite (jobs i))
        → Excludes P t
        → Whole first t
        → Whole first (run P jobs ks t)
    unfolding run
    run-Whole first [] t can e h = h
    run-Whole first (k ∷ ks) t can e h =
        run-Whole first ks (turn P jobs k t) can (turn-Excludes P jobs k t e)
          (record { ready = turn-ready first k t can e h; read = turn-read first k t can h })

    -- All threads in front of the lock, which is free.
    abbrev pub fresh : World → Threads P
    fresh w = record { world = w; locked = false; places = λ i. waiting }

    fresh-Excludes : (w : World) → Excludes P (fresh w)
    unfolding is_critical
    fresh-Excludes w = record {
      one = λ i j a b. ground (arith, a);
      held = λ i a. ground (arith, a);
    }

    fresh-Whole : (w : World) → Whole w (fresh w)
    fresh-Whole w = record { ready = λ i e. absurd (ground (arith, e)); read = λ q apart. inl refl }

    -- Any number of uploads whose temporary files can be written run at once, their calls in any
    -- order. At every point a reader of a path that is nobody's temporary file finds what was there
    -- at first, or all of what one upload to this path brought, which is behind its `rename`.
    pub uploads_atomic :
        (w : World) (ks : List ℕ) (q : Bytes)
        → ((i : ℕ) → CanWrite (jobs i))
        → ((i : ℕ) → (jobs i).temp ≢ q)
        → let t = run P jobs ks (fresh w) in
          (slurp t.world q ≡ slurp w q)
          ⊎ ((i : ℕ) × ((jobs i).target ≡ q)
              × (slurp t.world q ≡ some (jobs i).contents)
              × (is_past (t.places i) ≡ true))
    uploads_atomic w ks q can apart =
        (run-Whole w ks (fresh w) can (fresh-Excludes w) (fresh-Whole w)).read q apart
