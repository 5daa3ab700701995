-- ===== src/Server/Failed.antt =====
-- Which requests leave the mutex of unreliablefs/unreliablefs/afs_server.cc held.
use bnfs.Base.{
  ℕ, true, false, List, [], ◌∷◌, Bytes, ◌≡◌, inl, inr, arith, Bool-cases, if◌then◌else◌, ◌≢◌, ◌++◌,
  refl, ap,
}
use bnfs.Posix.{Posix, fail, rename, write_all, chmod, s_irwxu}
use bnfs.Posix.Laws.{Ret-cases, Answer-cases}
use bnfs.Stream.{join}
use bnfs.Server.{
  Server, PutFileReq, temp_file_path, get_server_path, contents_of, install, mkdir_handler,
  access_handler, rmdir_handler, unlink_handler, rename_handler, put_file, blocked,
}
use bnfs.Server.Lock.{
  Request, mkdir_req, access_req, rmdir_req, unlink_req, rename_req, open_req, put_req, handle,
  serve, open_handler-locked,
}

module _ (P : Posix) where
  open P use {sys}

  -- After what was written, the `rename` of a temporary file fails.
  abbrev pub Refused : (temp target contents : Bytes) → Server P → Type 0
  Refused temp target contents s =
      (e : ℕ) × ((sys (rename temp target) (sys (write_all temp contents) s.world).1).0 ≡ fail e)

  -- The request is an upload whose `rename` fails. One of which no message arrives has no paths.
  abbrev pub RenameFails : Request → Server P → Type 0
  RenameFails (put_req draws []) s = Refused [] [] [] s
  RenameFails (put_req draws (first ∷ rest)) s =
      Refused (temp_file_path draws first.path) (get_server_path first.path)
        (join (contents_of rest)) s
  RenameFails _ s = ⊥

  install-Refused :
      (temp target contents : Bytes) (s : Server P)
      → (install P temp target contents s).1.locked ≡ true
      → Refused temp target contents s
  unfolding install
  install-Refused temp target contents s held =
      let w = (sys (write_all temp contents) s.world).1 in
      elim (Ret-cases (sys (rename temp target) w).0) [
        | inr (n, e) ↦ (n, e)
        | inl (n, e) ↦ absurd (ground (arith, rw (e, install) at held))
      ]

  handle-RenameFails :
      (r : Request) (s : Server P)
      → s.locked ≡ false
      → (handle P r s).locked ≡ true
      → RenameFails r s
  unfolding handle mkdir_handler access_handler rmdir_handler unlink_handler rename_handler put_file
  handle-RenameFails (mkdir_req path mode) s free held = absurd (ground (arith, free, held))
  handle-RenameFails (access_req path mode) s free held = absurd (ground (arith, free, held))
  handle-RenameFails (rmdir_req path) s free held = absurd (ground (arith, free, held))
  handle-RenameFails (unlink_req path) s free held = absurd (ground (arith, free, held))
  handle-RenameFails (rename_req old_path new_path) s free held =
      absurd (ground (arith, free, held))
  handle-RenameFails (open_req request) s free held =
      absurd (ground (arith, free, held, open_handler-locked P request s))
  handle-RenameFails (put_req draws []) s free held =
      install-Refused [] [] [] s (rw (free, put_file, if◌then◌else◌) at held)
  handle-RenameFails (put_req draws (first ∷ rest)) s free held =
      install-Refused (temp_file_path draws first.path) (get_server_path first.path)
        (join (contents_of rest)) s (rw (free, put_file, if◌then◌else◌) at held)

  -- Among the requests there is an upload whose `rename` failed on the server as the requests in
  -- front of it had left it.
  pub record OneFails (rs : List Request) (s : Server P) : Type 0 where
    pub before : List Request
    pub request : Request
    pub rest : List Request
    pub parts : rs ≡ before ++ (request ∷ rest)
    pub fails : RenameFails request (serve P before s)

  -- Requests after which a mutex that was free is held.
  pub serve-RenameFails :
      (rs : List Request) (s : Server P)
      → s.locked ≡ false
      → (serve P rs s).locked ≡ true
      → OneFails rs s
  unfolding serve
  serve-RenameFails [] s free held = absurd (ground (arith, free, held))
  serve-RenameFails (r ∷ rs) s free held = elim (Bool-cases (handle P r s).locked) [
    | inl now ↦ record {
      before = [];
      request = r;
      rest = rs;
      parts = refl;
      fails = handle-RenameFails r s free now;
    }
    | inr still ↦
        let later = serve-RenameFails rs (handle P r s) still held in
        record {
          before = r ∷ later.before;
          request = later.request;
          rest = later.rest;
          parts = ap (◌∷◌ r) later.parts;
          fails = later.fails;
        }
  ]

  install-answers :
      (temp target contents : Bytes) (s : Server P) → (install P temp target contents s).0 ≢ blocked
  unfolding install
  install-answers temp target contents s e =
      let w = (sys (write_all temp contents) s.world).1 in
      let moved = (sys (rename temp target) w).1 in
      elim (Ret-cases (sys (rename temp target) w).0) [
        | inr (n, r) ↦ ground (arith, rw (r, install) at e)
        | inl (n, r) ↦ elim (Answer-cases (P.lstat (sys (chmod target s_irwxu) moved).1 target)) [
          | inl (st, a) ↦ ground (arith, rw (r, install, a) at e)
          | inr (f, a) ↦ ground (arith, rw (r, install, a) at e)
        ]
      ]

  -- Only a held mutex makes an upload wait.
  pub put_file-blocked :
      (draws : ℕ → ℕ) (messages : List PutFileReq) (s : Server P)
      → (put_file P draws messages s).0 ≡ blocked
      → s.locked ≡ true
  unfolding put_file
  put_file-blocked draws [] s e = elim (Bool-cases s.locked) [
    | inl held ↦ held
    | inr free ↦ absurd (install-answers [] [] [] s (rw (free, put_file, if◌then◌else◌) at e))
  ]
  put_file-blocked draws (first ∷ rest) s e = elim (Bool-cases s.locked) [
    | inl held ↦ held
    | inr free ↦ absurd (
        install-answers (temp_file_path draws first.path) (get_server_path first.path)
          (join (contents_of rest)) s (rw (free, put_file, if◌then◌else◌) at e))
  ]
