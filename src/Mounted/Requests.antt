-- ===== src/Mounted/Requests.antt =====
-- The calls of unreliablefs/unreliablefs/afs_client.cc as the requests that they make on the server
-- of unreliablefs/unreliablefs/afs_server.cc.
use bnfs.Base.{
  ℕ, Bool, true, false, some, List, [], ◌∷◌, Bytes, ℤ, ◌≡◌, refl, inl, inr, sym, subst, arith,
  Option-cases, Bool-cases, take, if◌then◌else◌, ◌==◌, pos, negsuc, All,
}
use bnfs.Posix.{Posix, Flags, Stat, close, dup, int_of}
use bnfs.Server.{Server, PutOutcome, blocked, answered, put_file}
use bnfs.Server.Lock.{
  Request, mkdir_req, access_req, rmdir_req, unlink_req, rename_req, open_req, put_req, handle,
  serve,
}
use bnfs.Cache.{Client, is_file_dirty, is_present_in_cache, did, answer}
use bnfs.Wire.{Delivery, delivered, lost, unanswered, Download, Upload}
use bnfs.AfsClient.{
  receive, open_request, create_on_server, fetch_and_sync_server_file, client_mkdir, client_rmdir,
  client_access, get_open_flags, upload, is_positive,
}
use bnfs.AfsClient.Files.{
  State, client_open, client_unlink, client_rename, client_flush, prepare, send_file, finish_flush,
  rename_remote, rename_local,
}
use bnfs.Hash.{get_temp_path}

module _ {Q : Posix} where
  -- The second server is the first after some requests of a kind.
  abbrev pub Served : (Ok : Request → Type 0) → Server Q → Server Q → Type 0
  Served Ok s s' = (rs : List Request) × All Ok rs × (s' ≡ serve Q rs s)

  pub stays : {Ok : Request → Type 0} (s : Server Q) → Served Ok s s
  unfolding serve
  stays s = ([], tt, refl)

  kept : {Ok : Request → Type 0} (s s' : Server Q) → s' ≡ s → Served Ok s s'
  unfolding serve
  kept s s' e = ([], tt, e)

  pub taken :
      {Ok : Request → Type 0} (r : Request) (s : Server Q) → Ok r → Served Ok s (handle Q r s)
  unfolding serve
  taken r s ok = (r ∷ [], (ok, tt), refl)

module _ (P Q : Posix) (sha256 : Bytes → Bytes) where
  -- A client once a duplicate of a descriptor was closed.
  abbrev pub closed_at : ℕ → Client P sha256 → Client P sha256
  closed_at fh k =
      did P sha256 (close (int_of (answer P sha256 (dup (pos fh)) k)))
        (did P sha256 (dup (pos fh)) k)

  -- An upload is the first messages of one of a working copy that the client has.
  abbrev pub FromCopy : Client P sha256 → Request → Type 0
  FromCopy k (put_req draws messages) =
      (path : Bytes) × (contents : Bytes) × (fh : ℕ) × (n : ℕ) × (l : ℕ) × (P.slurp
          (closed_at fh k).world (get_temp_path sha256 path)
        ≡ some contents)
      × (messages ≡ take n (take l (upload path contents)))
  FromCopy k _ = Unit

module _ (P Q : Posix) (sha256 : Bytes → Bytes) (user : Client P sha256) where
  receive-Served :
      (link : Download) (path : Bytes) (flags : Flags) (is_create : Bool) (s : Server Q)
      → Served
          (FromCopy P Q sha256 user)
          s
          (receive P Q sha256 link (open_request P Q sha256 path flags is_create) s).1
  unfolding receive handle
  receive-Served link path flags is_create s =
      let request = open_request P Q sha256 path flags is_create in
      elim (Bool-cases link.reached) [
        | inl e ↦ rw (e, receive, if◌then◌else◌) (taken (open_req request) s tt)
        | inr e ↦ rw (e, receive, if◌then◌else◌) (stays s)
      ]

  fetch-receive :
      (link : Download) (path : Bytes) (flags : Flags) (k : Client P sha256) (s : Server Q)
      → (fetch_and_sync_server_file P Q sha256 link path flags k s).2
        ≡ (receive P Q sha256 link (open_request P Q sha256 path flags false) s).1
  unfolding fetch_and_sync_server_file
  fetch-receive link path flags k s = ground arith

  prepare-Served :
      (link : Download) (o_fl : ℕ) (path : Bytes) (flags : Flags) (k : Client P sha256)
      (s : Server Q)
      → Served (FromCopy P Q sha256 user) s (prepare P Q sha256 link o_fl path flags (k, s)).1
  unfolding prepare create_on_server
  prepare-Served link o_fl path flags k s = elim (Bool-cases (o_fl == 1)) [
    | inl e ↦
        rw (e, prepare, if◌then◌else◌)
          (subst (Served (FromCopy P Q sha256 user) s) (sym (fetch-receive link path flags k s))
            (receive-Served link path flags false s))
    | inr e ↦ elim (Bool-cases (o_fl == 3)) [
      | inl f ↦ rw (e, f, prepare, if◌then◌else◌) (receive-Served link path flags true s)
      | inr f ↦ elim (Bool-cases (o_fl == 4)) [
        | inl g ↦ rw (e, f, g, prepare, if◌then◌else◌) (stays s)
        | inr g ↦ rw (e, f, g, prepare, if◌then◌else◌) (stays s)
      ]
    ]
  ]

  pub client_open-Served :
      (fate : Delivery) (link : Download) (is_create : Bool) (flags : Flags) (path : Bytes)
      (garbage buf file_stat : Stat) (s : State P Q sha256)
      → let r = client_open P Q sha256 fate link is_create flags path garbage buf file_stat s in
        Served (FromCopy P Q sha256 user) s.1 r.1.1
  unfolding client_open
  client_open-Served fate link is_create flags path garbage buf file_stat (k, s) =
      let chosen = get_open_flags P Q sha256 fate is_create flags path garbage buf file_stat s k in
      prepare-Served link chosen.0 path flags chosen.1 s

  -- A unary call: nothing where it is lost on the way, the one request where it is not.
  pub client_mkdir-Served :
      (fate : Delivery) (path : Bytes) (mode : ℕ) (s : Server Q)
      → Served (FromCopy P Q sha256 user) s (client_mkdir P Q sha256 fate path mode s).1
  unfolding client_mkdir handle
  client_mkdir-Served lost path mode s = stays s
  client_mkdir-Served unanswered path mode s = taken (mkdir_req path mode) s tt
  client_mkdir-Served delivered path mode s = taken (mkdir_req path mode) s tt

  pub client_rmdir-Served :
      (fate : Delivery) (path : Bytes) (s : Server Q)
      → Served (FromCopy P Q sha256 user) s (client_rmdir P Q sha256 fate path s).1
  unfolding client_rmdir handle
  client_rmdir-Served lost path s = stays s
  client_rmdir-Served unanswered path s = taken (rmdir_req path) s tt
  client_rmdir-Served delivered path s = taken (rmdir_req path) s tt

  pub client_access-Served :
      (fate : Delivery) (path : Bytes) (mode : ℕ) (s : Server Q)
      → Served (FromCopy P Q sha256 user) s (client_access P Q sha256 fate path mode s).1
  unfolding client_access handle
  client_access-Served lost path mode s = stays s
  client_access-Served unanswered path mode s = taken (access_req path mode) s tt
  client_access-Served delivered path mode s = taken (access_req path mode) s tt

  pub client_unlink-Served :
      (fate : Delivery) (path : Bytes) (s : State P Q sha256)
      → Served (FromCopy P Q sha256 user) s.1 (client_unlink P Q sha256 fate path s).1.1
  unfolding client_unlink handle
  client_unlink-Served lost path (k, s) = stays s
  client_unlink-Served unanswered path (k, s) = taken (unlink_req path) s tt
  client_unlink-Served delivered path (k, s) = taken (unlink_req path) s tt

  rename_remote-Served :
      (fate : Delivery) (old_path new_path : Bytes) (s : State P Q sha256)
      → Served
          (FromCopy P Q sha256 user)
          s.1
          (rename_remote P Q sha256 fate old_path new_path s).1.1
  unfolding rename_remote handle
  rename_remote-Served lost old_path new_path (k, s) = stays s
  rename_remote-Served unanswered old_path new_path (k, s) =
      taken (rename_req old_path new_path) s tt
  rename_remote-Served delivered old_path new_path (k, s) =
      taken (rename_req old_path new_path) s tt

  pub client_rename-Served :
      (fate : Delivery) (old_path new_path : Bytes) (s : State P Q sha256)
      → Served
          (FromCopy P Q sha256 user)
          s.1
          (client_rename P Q sha256 fate old_path new_path s).1.1
  unfolding client_rename
  client_rename-Served fate old_path new_path (k, s) =
      let (fd, k') = is_present_in_cache P sha256 old_path k in
      let moved =
        rename_local P Q sha256 (elim fd [ pos n ↦ n | negsuc n ↦ 0 ]) old_path new_path k' in
      elim (Bool-cases (is_positive fd)) [
        | inr e ↦
            rw (e, client_rename, if◌then◌else◌)
              (rename_remote-Served fate old_path new_path (k', s))
        | inl e ↦ elim (Option-cases moved.0) [
          | inl f ↦
              rw (e, f, client_rename, if◌then◌else◌)
                (rename_remote-Served fate old_path new_path (moved.1, s))
          | inr (n, f) ↦ rw (e, f, client_rename, if◌then◌else◌) (stays s)
        ]
      ]

  finish_flush-server :
      (fine : Bool) (path : Bytes) (outcome : PutOutcome) (s s' : State P Q sha256) (code : ℤ)
      → finish_flush P Q sha256 fine path outcome s ≡ some (code, s')
      → s'.1 ≡ s.1
  unfolding finish_flush
  finish_flush-server false path outcome s s' code e = ground (arith, e)
  finish_flush-server true path blocked s s' code e = ground (arith, e)
  finish_flush-server true path (answered st reply) s s' code e = ground (arith, e)

  send_file-Served :
      (draws : ℕ → ℕ) (link : Upload) (path contents : Bytes) (fh : ℕ) (s : Server Q)
      (s' : State P Q sha256) (code : ℤ)
      → P.slurp (closed_at P Q sha256 fh user).world (get_temp_path sha256 path) ≡ some contents
      → send_file P Q sha256 draws link path contents (closed_at P Q sha256 fh user, s)
        ≡ some (code, s')
      → Served (FromCopy P Q sha256 user) s s'.1
  unfolding send_file handle
  send_file-Served draws link path contents fh s s' code there e =
      let k = closed_at P Q sha256 fh user in
      let messages = take link.arrived (take link.accepted (upload path contents)) in
      let (outcome, t) = put_file Q draws messages s in
      elim (Bool-cases (link.accepted == 0)) [
        | inl none_sent ↦ kept s s'.1 (ground (arith, e, none_sent))
        | inr sent ↦
            subst (Served (FromCopy P Q sha256 user) s)
              (sym (
                finish_flush-server link.finished path outcome (k, t) s' code
                  (ground (arith, e, sent))))
              (taken (put_req draws messages) s
                (path, contents, fh, link.arrived, link.accepted, there, refl))
      ]

  -- A flush that returns.
  pub client_flush-Served :
      (draws : ℕ → ℕ) (link : Upload) (path : Bytes) (fh : ℕ) (s : Server Q) (s' : State P Q sha256)
      (code : ℤ)
      → client_flush P Q sha256 draws link path (closed_at P Q sha256 fh user, s) ≡ some (code, s')
      → Served (FromCopy P Q sha256 user) s s'.1
  unfolding client_flush
  client_flush-Served draws link path fh s s' code e =
      let k = closed_at P Q sha256 fh user in
      elim (Option-cases (P.slurp k.world (get_temp_path sha256 path))) [
        | inl gone ↦ kept s s'.1 (ground (arith, e, gone))
        | inr (contents, there) ↦ elim (Bool-cases (is_file_dirty P sha256 path k)) [
          | inl dirty ↦
              send_file-Served draws link path contents fh s s' code there
                (ground (arith, e, there, dirty))
          | inr clean ↦ kept s s'.1 (ground (arith, e, there, clean))
        ]
      ]
