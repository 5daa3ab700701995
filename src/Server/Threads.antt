-- ===== src/Server/Threads.antt =====
-- `PutFile` of unreliablefs/unreliablefs/afs_server.cc in several threads of the server at once:
-- one call of a thread is one step.
use bnfs.Base.{ℕ, Bool, true, false, List, [], ◌∷◌, Bytes, ◌==◌, if◌then◌else◌}
use bnfs.Stream.{join}
use bnfs.Posix.{Posix, ret, fail, got, failed, Answer, Stat, write_all, rename, chmod, s_irwxu}
use bnfs.Server.{
  Status, ok, cancelled, PutFileReq, PutFileResp, no_put_resp, temp_file_path, get_server_path,
  contents_of,
}

-- What an upload writes, and where: the local variables of the handler. The contents are those of
-- the messages that come; a client that sends no more and does not close its stream keeps the
-- thread in the loop, with the mutex held.
pub record Job : Type 0 where
  pub temp : Bytes
  pub target : Bytes
  pub contents : Bytes
  -- does `Read` come to return false, so that the loop ends?
  pub ends : Bool

unfoldable pub job_of : (ℕ → ℕ) → PutFileReq → List PutFileReq → Job
job_of draws first rest = record {
  temp = temp_file_path draws first.path;
  target = get_server_path first.path;
  contents = join (contents_of rest);
  ends = true;
}

-- Where a thread stands: in front of the lock, behind it, behind the writing, the `rename`, the
-- `chmod`, the unlock, or at its end.
pub data Place : Type 0 where
  waiting holding written moved readable unlocked : Place
  done : Status → PutFileResp → Place

-- Between the lock and the unlock?
unfoldable pub is_critical : Place → Bool
is_critical holding = true
is_critical written = true
is_critical moved = true
is_critical readable = true
is_critical _ = false

module _ (P : Posix) where
  open P use {World, sys, lstat}

  abbrev reply_of : Answer Stat → Place
  reply_of (failed e) = done cancelled no_put_resp
  reply_of (got st) = done ok (record { err = 0; last_modified_time = st.mtime })

  -- The next call of a thread, the loop that reads and writes being one: its place, the disk and the mutex. A failed `rename` returns with
  -- the mutex held; a thread that waits for the mutex stays where it is.
  unfoldable pub advance : Job → Place → World → Bool → Place × World × Bool
  advance j waiting w locked = if locked then (waiting, w, locked) else (holding, w, true)
  advance j holding w locked =
      (if j.ends then written else holding, (sys (write_all j.temp j.contents) w).1, locked)
  advance j written w locked =
      let r = sys (rename j.temp j.target) w in
      elim r.0 [ fail e ↦ (done cancelled no_put_resp, r.1, locked) | ret n ↦ (moved, r.1, locked) ]
  advance j moved w locked = (readable, (sys (chmod j.target s_irwxu) w).1, locked)
  advance j readable w locked = (unlocked, w, false)
  advance j unlocked w locked = (reply_of (lstat w j.target), w, locked)
  advance j (done st resp) w locked = (done st resp, w, locked)

  -- The server and the place of each thread.
  pub record Threads : Type 0 where
    pub world : World
    pub locked : Bool
    pub places : ℕ → Place

  abbrev pub put_at : ℕ → Place → (ℕ → Place) → ℕ → Place
  put_at k place places i = if i == k then place else places i

  module _ (jobs : ℕ → Job) where
    -- The thread `k` makes its next call.
    unfoldable pub turn : ℕ → Threads → Threads
    turn k t =
        let r = advance (jobs k) (t.places k) t.world t.locked in
        record { world = r.1; locked = r.2; places = put_at k r.0 t.places }

    -- The threads take turns in the order of a schedule.
    unfoldable pub run : List ℕ → Threads → Threads
    run [] t = t
    run (k ∷ ks) t = run ks (turn k t)
