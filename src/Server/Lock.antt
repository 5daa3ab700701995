-- ===== src/Server/Lock.antt =====
-- The mutex of unreliablefs/unreliablefs/afs_server.cc across requests.
use bnfs.Base.{ℕ, true, List, [], ◌∷◌, ◌++◌, Bytes, ◌≡◌, refl, ◌∙◌, arith}
use bnfs.Posix.{Posix, fail, rename, write_all}
use bnfs.Stream.{join}
use bnfs.Server.{
  Server, OpenReq, PutFileReq, blocked, temp_file_path, get_server_path, contents_of, install,
  mkdir_handler, access_handler, rmdir_handler, unlink_handler, rename_handler, open_handler,
  put_file,
}

-- The requests that change the server, in the order in which it takes them.
pub data Request : Type 0 where
  mkdir_req : Bytes → ℕ → Request
  access_req : Bytes → ℕ → Request
  rmdir_req : Bytes → Request
  unlink_req : Bytes → Request
  rename_req : Bytes → Bytes → Request
  open_req : OpenReq → Request
  put_req : (ℕ → ℕ) → List PutFileReq → Request

module _ (P : Posix) where
  open P use {World, sys}

  unfoldable pub handle : Request → Server P → Server P
  handle (mkdir_req path mode) s = (mkdir_handler P path mode s).1
  handle (access_req path mode) s = (access_handler P path mode s).1
  handle (rmdir_req path) s = (rmdir_handler P path s).1
  handle (unlink_req path) s = (unlink_handler P path s).1
  handle (rename_req old_path new_path) s = (rename_handler P old_path new_path s).1
  handle (open_req request) s = (open_handler P request s).1
  handle (put_req draws messages) s = (put_file P draws messages s).1

  unfoldable pub serve : List Request → Server P → Server P
  serve [] s = s
  serve (r ∷ rs) s = serve rs (handle r s)

  pub open_handler-locked :
      (request : OpenReq) (s : Server P) → (open_handler P request s).1.locked ≡ s.locked
  unfolding open_handler
  open_handler-locked request s = ground arith

  pub put_file_waits :
      (draws : ℕ → ℕ) (messages : List PutFileReq) (s : Server P)
      → s.locked ≡ true
      → put_file P draws messages s ≡ (blocked, s)
  unfolding put_file
  put_file_waits draws [] s h = ground arith
  put_file_waits draws (first ∷ rest) s h = ground arith

  pub handle-locked : (r : Request) (s : Server P) → s.locked ≡ true → (handle r s).locked ≡ true
  unfolding handle mkdir_handler access_handler rmdir_handler unlink_handler rename_handler
  handle-locked (open_req request) s h = open_handler-locked request s ∙ h
  handle-locked (put_req draws messages) s h = ground (arith, put_file_waits draws messages s)
  handle-locked (mkdir_req path mode) s h = h
  handle-locked (access_req path mode) s h = h
  handle-locked (rmdir_req path) s h = h
  handle-locked (unlink_req path) s h = h
  handle-locked (rename_req old_path new_path) s h = h

  -- One list of requests after another.
  pub serve-append :
      (rs rs' : List Request) (s : Server P) → serve (rs ++ rs') s ≡ serve rs' (serve rs s)
  unfolding serve
  serve-append [] rs' s = refl
  serve-append (r ∷ rs) rs' s = serve-append rs rs' (handle r s)

  pub serve-locked :
      (rs : List Request) (s : Server P) → s.locked ≡ true → (serve rs s).locked ≡ true
  unfolding serve
  serve-locked [] s h = h
  serve-locked (r ∷ rs) s h = serve-locked rs (handle r s) (handle-locked r s h)

  -- An upload whose `rename` fails keeps the mutex.
  pub put_file_keeps_lock :
      (draws : ℕ → ℕ) (first : PutFileReq) (rest : List PutFileReq) (s : Server P) (e : ℕ)
      → (sys
          (rename (temp_file_path draws first.path) (get_server_path first.path))
          (sys (write_all (temp_file_path draws first.path) (join (contents_of rest))) s.world).1).0
        ≡ fail e
      → (put_file P draws (first ∷ rest) s).1.locked ≡ true
  unfolding put_file install
  put_file_keeps_lock draws first rest s e failure = ground arith

  -- After an upload whose `rename` failed, every later upload waits for ever and changes nothing,
  -- whatever requests come in between.
  pub put_file_deadlock :
      (draws : ℕ → ℕ) (first : PutFileReq) (rest : List PutFileReq) (s : Server P) (e : ℕ)
      → (sys
          (rename (temp_file_path draws first.path) (get_server_path first.path))
          (sys (write_all (temp_file_path draws first.path) (join (contents_of rest))) s.world).1).0
        ≡ fail e
      → (between : List Request) (later : ℕ → ℕ) (messages : List PutFileReq)
      → let t = serve between (put_file P draws (first ∷ rest) s).1 in
        put_file P later messages t ≡ (blocked, t)
  put_file_deadlock draws first rest s e failure between later messages =
      put_file_waits later messages _
        (serve-locked between _ (put_file_keeps_lock draws first rest s e failure))
