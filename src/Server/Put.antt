-- ===== src/Server/Put.antt =====
-- `PutFile` of unreliablefs/unreliablefs/afs_server.cc: what a completed upload leaves on the disk.
use mathlib.Core.List.{Mem, mem-cons_self, mem-cons_of_mem}
use bnfs.Base.{
  Bool-cases, ℕ, zero, suc, false, none, some, List, [], ◌∷◌, Bytes, All, length, ◌≡◌, ◌≢◌, ◌⊎◌,
  inl, inr, refl, ap, ◌∙◌, arith, same, same-ne, Bool-cases, same_refl, length-append,
  if◌then◌else◌,
}
use bnfs.Stream.{join}
use bnfs.Posix.{Posix, ret, write_all, rename, chmod, s_irwxu}
use bnfs.Posix.Laws.{IsLawful, mtime, Ret-cases}
use bnfs.Server.{
  Server, PutFileReq, PutFileResp, Status, ok, answered, random_string, temp_file_path,
  get_server_path, contents_of, install, put_file,
}

length-random_string : (n : ℕ) (draws : ℕ → ℕ) → length (random_string n draws) ≡ n
unfolding random_string
length-random_string zero draws = refl
length-random_string (suc n) draws =
    omega (arith, length-append (random_string n draws) (_ ∷ []), length-random_string n draws)

-- The temporary name is never the name of the file itself.
pub temp_file_path-ne :
    (draws : ℕ → ℕ) (path : Bytes) → temp_file_path draws path ≢ get_server_path path
unfolding temp_file_path
temp_file_path-ne draws path e = absurd (
    omega (
      arith,
      ap length e,
      length-append (get_server_path path) (random_string 20 draws),
      length-random_string 20 draws,
    ))

module _ {P : Posix} (L : IsLawful P) where
  open P use {World, sys, slurp, lstat}

  -- What a reader of any path finds once `temp` has replaced `target`.
  abbrev pub Replaced : (temp target contents : Bytes) → World → World → Type 0
  Replaced temp target contents w v =
      (q : Bytes)
      → slurp v q
        ≡ (if same target q then some contents else if same temp q then none else slurp w q)

  moved_world :
      (temp target contents : Bytes) (w : World) (n m : ℕ)
      → temp ≢ target
      → (sys (write_all temp contents) w).0 ≡ ret n
      → (sys (rename temp target) (sys (write_all temp contents) w).1).0 ≡ ret m
      → Replaced temp target contents w
          (sys
            (chmod target s_irwxu)
            (sys (rename temp target) (sys (write_all temp contents) w).1).1).1
  moved_world temp target contents w n m distinct written moved q =
      let w₁ = (sys (write_all temp contents) w).1 in
      let w₂ = (sys (rename temp target) w₁).1 in
      let at_temp = L.slurp-write_all temp contents w temp n written in
      ground (
        arith,
        L.slurp_quiet (chmod target s_irwxu) w₂ q refl,
        L.slurp-rename temp target w₁ q contents m (at_temp ∙ rw (same_refl temp)) moved,
        L.slurp-write_all temp contents w q n written,
      )

  -- A rename that succeeded, seen from what `install` answered.
  install-inv :
      (temp target contents : Bytes) (s : Server P) (resp : PutFileResp)
      → (install P temp target contents s).0 ≡ answered ok resp
      → (m : ℕ) × ((sys (rename temp target) (sys (write_all temp contents) s.world).1).0 ≡ ret m)
        × ((install P temp target contents s).1 ≡ record {
          world =
              (sys
                (chmod target s_irwxu)
                (sys (rename temp target) (sys (write_all temp contents) s.world).1).1).1;
          locked = false;
        })
        × (mtime P (install P temp target contents s).1.world target ≡ some resp.last_modified_time)
  unfolding install
  install-inv temp target contents s resp e =
      elim (Ret-cases (sys (rename temp target) (sys (write_all temp contents) s.world).1).0) [
        | inr (errno, failure) ↦ absurd (ground arith)
        | inl (m, moved) ↦ (m, moved, rw (moved, install), ground arith)
      ]

  install_stores :
      (temp target contents : Bytes) (s : Server P) (n : ℕ) (resp : PutFileResp)
      → temp ≢ target
      → (sys (write_all temp contents) s.world).0 ≡ ret n
      → (install P temp target contents s).0 ≡ answered ok resp
      → Replaced temp target contents s.world (install P temp target contents s).1.world
        × (mtime P (install P temp target contents s).1.world target ≡ some resp.last_modified_time)
        × ((install P temp target contents s).1.locked ≡ false)
  install_stores temp target contents s n resp distinct written e =
      let (m, moved, result, time) = install-inv temp target contents s resp e in
      (
        λ q.
            ap (λ (t : Server P). slurp t.world q) result
            ∙ moved_world temp target contents s.world n m distinct written moved q,
        time,
        ap (λ (t : Server P). t.locked) result,
      )

  -- An upload that is answered got the mutex.
  put_file-install :
      (draws : ℕ → ℕ) (first : PutFileReq) (rest : List PutFileReq) (s : Server P) (st : Status)
      (resp : PutFileResp)
      → (put_file P draws (first ∷ rest) s).0 ≡ answered st resp
      → put_file P draws (first ∷ rest) s
        ≡ install P
            (temp_file_path draws first.path)
            (get_server_path first.path)
            (join (contents_of rest))
            s
  unfolding put_file
  put_file-install draws first rest s st resp e = elim (Bool-cases s.locked) [
    | inl held ↦ absurd (ground arith)
    | inr free ↦ rw (free, if◌then◌else◌)
  ]

  -- `PutFile` answering OK, on an upload whose temporary file was written: a reader of the path
  -- finds the joined messages, the temporary file is gone, every other file is as before, the
  -- reply carries the modification time of the new file, and the mutex is free again.
  pub put_file_stores :
      (draws : ℕ → ℕ) (first : PutFileReq) (rest : List PutFileReq) (s : Server P) (n : ℕ)
      (resp : PutFileResp)
      → (sys (write_all (temp_file_path draws first.path) (join (contents_of rest))) s.world).0
        ≡ ret n
      → (put_file P draws (first ∷ rest) s).0 ≡ answered ok resp
      → Replaced
          (temp_file_path draws first.path)
          (get_server_path first.path)
          (join (contents_of rest))
          s.world
          (put_file P draws (first ∷ rest) s).1.world
        × (mtime P (put_file P draws (first ∷ rest) s).1.world (get_server_path first.path)
            ≡ some resp.last_modified_time)
        × ((put_file P draws (first ∷ rest) s).1.locked ≡ false)
  put_file_stores draws first rest s n resp written e =
      let same_run = put_file-install draws first rest s ok resp e in
      rw same_run (
        install_stores _ _ _ s n resp (temp_file_path-ne draws first.path) written
          (rw same_run at e))

  abbrev pub OldOrNew : (target contents : Bytes) → World → World → Type 0
  OldOrNew target contents w v =
      (slurp v target ≡ slurp w target) ⊎ (slurp v target ≡ some contents)

  -- The disk after each call of `PutFile` on the way.
  abbrev pub put_trace : (temp target contents : Bytes) → World → List World
  put_trace temp target contents w =
      let w₁ = (sys (write_all temp contents) w).1 in
      let w₂ = (sys (rename temp target) w₁).1 in
      w ∷ w₁ ∷ w₂ ∷ (sys (chmod target s_irwxu) w₂).1 ∷ []

  trace_OldOrNew :
      (temp target contents : Bytes) (w : World) (n : ℕ)
      → temp ≢ target
      → (sys (write_all temp contents) w).0 ≡ ret n
      → All (OldOrNew target contents w) (put_trace temp target contents w)
  trace_OldOrNew temp target contents w n distinct written =
      let w₁ = (sys (write_all temp contents) w).1 in
      let old : slurp w₁ target ≡ slurp w target =
        L.slurp-write_all temp contents w target n written ∙ rw (same-ne temp target distinct) in
      elim (Ret-cases (sys (rename temp target) w₁).0) [
        | inl (m, moved) ↦
            let new : slurp (sys (rename temp target) w₁).1 target ≡ some contents =
              L.slurp-rename temp target w₁ target contents m
                (L.slurp-write_all temp contents w temp n written ∙ rw (same_refl temp)) moved
              ∙ rw (same_refl target) in
            (
              inl refl,
              (
                inl old,
                (inr new, (inr (L.slurp_quiet (chmod target s_irwxu) _ target refl ∙ new), tt)),
              ),
            )
        | inr (e, failure) ↦
            let kept = L.slurp_failed (rename temp target) w₁ target e refl failure ∙ old in
            (
              inl refl,
              (
                inl old,
                (inl kept, (inl (L.slurp_quiet (chmod target s_irwxu) _ target refl ∙ kept), tt)),
              ),
            )
      ]

  put_file-Mem :
      (draws : ℕ → ℕ) (first : PutFileReq) (rest : List PutFileReq) (s : Server P)
      → Mem (put_file P draws (first ∷ rest) s).1.world (
          put_trace
            (temp_file_path draws first.path)
            (get_server_path first.path)
            (join (contents_of rest))
            s.world)
  unfolding put_file install
  put_file-Mem draws first rest s = elim (Bool-cases s.locked) [
    | inl held ↦ rw (held, put_file) mem-cons_self
    | inr free ↦
        let temp = temp_file_path draws first.path in
        let w₁ = (sys (write_all temp (join (contents_of rest))) s.world).1 in
        elim (Ret-cases (sys (rename temp (get_server_path first.path)) w₁).0) [
          | inl (m, moved) ↦
              rw (free, put_file, install, moved)
                (mem-cons_of_mem _ (mem-cons_of_mem _ (mem-cons_of_mem _ mem-cons_self)))
          | inr (e, failure) ↦
              rw (free, put_file, install, failure)
                (mem-cons_of_mem _ (mem-cons_of_mem _ mem-cons_self))
        ]
  ]

  -- An upload whose temporary file can be written, whether it waits, fails to rename or is
  -- answered: on each disk on its way, and on the one that it leaves, which is one of them, a
  -- reader of the path finds the old contents or all of the new.
  pub put_file_atomic :
      (draws : ℕ → ℕ) (first : PutFileReq) (rest : List PutFileReq) (s : Server P) (n : ℕ)
      → (sys (write_all (temp_file_path draws first.path) (join (contents_of rest))) s.world).0
        ≡ ret n
      → let trace =
          put_trace
            (temp_file_path draws first.path)
            (get_server_path first.path)
            (join (contents_of rest))
            s.world in
        All (OldOrNew (get_server_path first.path) (join (contents_of rest)) s.world) trace
        × Mem (put_file P draws (first ∷ rest) s).1.world trace
  put_file_atomic draws first rest s n written = (
    trace_OldOrNew _ _ (join (contents_of rest)) s.world n (temp_file_path-ne draws first.path)
        written,
    put_file-Mem draws first rest s,
  )
