-- ===== src/Server/Origin.antt =====
-- Where the contents of the files come from that unreliablefs/unreliablefs/afs_server.cc keeps.
use bnfs.Base.{
  ℕ, true, some, List, [], ◌∷◌, Bytes, All, ◌≡◌, ◌⊎◌, inl, inr, refl, sym, ◌∙◌, Bool-cases,
  Option-cases, if◌then◌else◌, subst, take, zero, suc,
}
use bnfs.Posix.{
  Posix, Call, open_file, close, rename, unlink, rmdir, mkdir, access, chmod, write_all, s_irwxu,
  int_of,
}
use bnfs.Posix.Laws.{IsLawful, Ret-cases, after, is_quiet, is_naming}
use bnfs.Stream.{join}
use bnfs.Server.{
  Server, OpenReq, PutFileReq, temp_file_path, get_server_path, contents_of, install, mkdir_handler,
  access_handler, rmdir_handler, unlink_handler, rename_handler, open_handler, create_missing,
  put_file, opens_directory,
}
use bnfs.Server.Lock.{
  Request, mkdir_req, access_req, rmdir_req, unlink_req, rename_req, open_req, put_req, handle,
  serve,
}

-- A leading part, which may be all.
abbrev pub IsPart : Bytes → Bytes → Type 0
IsPart d b = (n : ℕ) × (d ≡ take n b)

-- What a request brings: the contents of an upload, or a leading part of them.
abbrev pub Brings : Request → Bytes → Type 0
Brings (put_req draws (first ∷ rest)) d = IsPart d (join (contents_of rest))
Brings _ d = ⊥

take_nothing : (n : ℕ) → take {A = ℕ} n [] ≡ []
take_nothing zero = refl
take_nothing (suc n) = refl

module _ {P : Posix} (L : IsLawful P) where
  open P use {World, sys, slurp}

  -- Contents that are empty, or found at some path.
  abbrev pub Known : World → Bytes → Type 0
  Known w d = (d ≡ []) ⊎ ((p : Bytes) × (slurp w p ≡ some d))

  quiet-Known :
      (c : Call) (w : World) (q d : Bytes)
      → is_quiet c ≡ true
      → slurp (after P c w) q ≡ some d
      → Known w d
  quiet-Known c w q d h e = inr (q, sym (L.slurp_quiet c w q h) ∙ e)

  write-Known :
      (p b : Bytes) (w : World) (q d : Bytes)
      → slurp (after P (write_all p b) w) q ≡ some d
      → Known w d ⊎ IsPart d b
  write-Known p b w q d e = elim (L.slurp-write_some p b w q d e) [
    | inl before ↦ inl (inr (q, before))
    | inr part ↦ inr part
  ]

  -- What is known after a step was known before it, or is a leading part of `b`.
  earlier :
      (w w' : World) (b d : Bytes)
      → ((q : Bytes) → slurp w' q ≡ some d → Known w d ⊎ IsPart d b)
      → Known w' d
      → Known w d ⊎ IsPart d b
  earlier w w' b d step (inl empty) = inl (inl empty)
  earlier w w' b d step (inr (p, e)) = step p e

  install-Known :
      (temp target contents : Bytes) (s : Server P) (q d : Bytes)
      → slurp (install P temp target contents s).1.world q ≡ some d
      → Known s.world d ⊎ IsPart d contents
  unfolding install
  install-Known temp target contents s q d e =
      let w = after P (write_all temp contents) s.world in
      let w' = after P (rename temp target) w in
      let written = earlier s.world w contents d (λ p. write-Known temp contents s.world p d) in
      elim (Ret-cases (sys (rename temp target) w).0) [
        | inr (n, failure) ↦
            written (L.slurp-naming (rename temp target) w q d refl (rw (failure, install) at e))
        | inl (n, moved) ↦
            earlier s.world w' contents d
              (λ p f. written (L.slurp-naming (rename temp target) w p d refl f))
              (quiet-Known (chmod target s_irwxu) w' q d refl (rw (moved, install) at e))
      ]

  -- Two calls of which the first only makes, moves or takes away names, and the second is quiet.
  named-Known :
      (c : Call) (w w' : World) (q d : Bytes)
      → is_naming c ≡ true
      → w' ≡ after P c w
      → Known w' d
      → Known w d
  named-Known c w w' q d h e (inl empty) = inl empty
  named-Known c w w' q d h e (inr (p, f)) =
      L.slurp-naming c w p d h (subst (λ x. slurp x p ≡ some d) e f)

  open-Known :
      (request : OpenReq) (s : Server P) (q d : Bytes)
      → slurp (open_handler P request s).1.world q ≡ some d
      → Known s.world d
  unfolding open_handler create_missing
  open-Known request s q d e =
      let c = open_file (get_server_path request.path) request.flag 511 in
      let closing = close (int_of (sys c s.world).0) in
      elim (Option-cases (slurp s.world (get_server_path request.path))) [
        | inr (contents, there) ↦ inr (q, rw (there, open_handler) at e)
        | inl missing ↦
            elim (Bool-cases (opens_directory P s.world (get_server_path request.path))) [
              | inl directory ↦ inr (q, rw (missing, open_handler, directory, if◌then◌else◌) at e)
              | inr plain ↦ elim (Bool-cases request.is_create) [
                | inl creates ↦ named-Known c s.world (after P c s.world) q d refl refl (
                    quiet-Known closing (after P c s.world) q d refl
                      (rw (missing, open_handler, plain, creates, if◌then◌else◌) at e))
                | inr reads ↦ inr (q, rw (missing, open_handler, plain, reads, if◌then◌else◌) at e)
              ]
            ]
      ]

  put-Known :
      (draws : ℕ → ℕ) (messages : List PutFileReq) (s : Server P) (q d : Bytes)
      → slurp (put_file P draws messages s).1.world q ≡ some d
      → Known s.world d ⊎ Brings (put_req draws messages) d
  unfolding put_file
  put-Known draws [] s q d e = elim (Bool-cases s.locked) [
    | inl held ↦ inl (inr (q, rw (held, put_file, if◌then◌else◌) at e))
    | inr free ↦ elim (install-Known [] [] [] s q d (rw (free, put_file, if◌then◌else◌) at e)) [
      | inl known ↦ inl known
      | inr (n, empty) ↦ inl (inl (empty ∙ take_nothing n))
    ]
  ]
  put-Known draws (first ∷ rest) s q d e = elim (Bool-cases s.locked) [
    | inl held ↦ inl (inr (q, rw (held, put_file, if◌then◌else◌) at e))
    | inr free ↦
        install-Known (temp_file_path draws first.path) (get_server_path first.path)
          (join (contents_of rest)) s q d (rw (free, put_file, if◌then◌else◌) at e)
  ]

  handle-Known :
      (r : Request) (s : Server P) (q d : Bytes)
      → slurp (handle P r s).world q ≡ some d
      → Known s.world d ⊎ Brings r d
  unfolding handle mkdir_handler access_handler rmdir_handler unlink_handler rename_handler
  handle-Known (mkdir_req path mode) s q d e =
      inl (quiet-Known (mkdir (get_server_path path) mode) s.world q d refl e)
  handle-Known (access_req path mode) s q d e =
      inl (quiet-Known (access (get_server_path path) mode) s.world q d refl e)
  handle-Known (rmdir_req path) s q d e =
      inl (L.slurp-naming (rmdir (get_server_path path)) s.world q d refl e)
  handle-Known (unlink_req path) s q d e =
      inl (L.slurp-naming (unlink (get_server_path path)) s.world q d refl e)
  handle-Known (rename_req old_path new_path) s q d e = inl (
      L.slurp-naming (rename (get_server_path old_path) (get_server_path new_path)) s.world q d refl
        e)
  handle-Known (open_req request) s q d e = inl (open-Known request s q d e)
  handle-Known (put_req draws messages) s q d e = put-Known draws messages s q d e

  -- Whatever requests the server takes: what is then found at any path is empty, or was found at
  -- some path before, or is what one of the requests brought.
  pub serve-Known :
      (Ok : Request → Type 0) (rs : List Request) (s : Server P) (q d : Bytes)
      → All Ok rs
      → slurp (serve P rs s).world q ≡ some d
      → Known s.world d ⊎ ((r : Request) × Ok r × Brings r d)
  unfolding serve
  serve-Known Ok [] s q d all e = inl (inr (q, e))
  serve-Known Ok (r ∷ rs) s q d (fine, all) e = elim (serve-Known Ok rs (handle P r s) q d all e) [
    | inr brought ↦ inr brought
    | inl (inl empty) ↦ inl (inl empty)
    | inl (inr (p, f)) ↦ elim (handle-Known r s p d f) [
      | inl known ↦ inl known
      | inr brings ↦ inr (r, fine, brings)
    ]
  ]
