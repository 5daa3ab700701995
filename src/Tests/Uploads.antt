-- ===== src/Tests/Uploads.antt =====
-- Examples of uploads and of flushes.
use mathlib.Core.List.{Mem}
use bnfs.Base.{
  ℕ, true, false, some, List, [], ◌∷◌, All, pos, negsuc, codes, take, same, ◌≡◌, refl, arith,
}
use bnfs.Stream.{chunks, join, buf_size}
use bnfs.Hash.{get_cache_path, get_temp_path}
use bnfs.Posix.Laws.{mtime}
use bnfs.Posix.Memory.{memory, empty_disk}
use bnfs.Posix.Memory.Lawful.{memory-IsLawful}
use bnfs.Server.{
  Server, PutFileReq, PutFileResp, blocked, put_file, contents_of, get_server_path, temp_file_path,
}
use bnfs.Server.Put.{put_file_stores, put_file_atomic, Replaced, OldOrNew, put_trace}
use bnfs.Server.Lock.{put_file_deadlock, mkdir_req, serve}
use bnfs.Cache.{is_file_dirty, mark_file_dirty}
use bnfs.Cache.Commit.{Copies}
use bnfs.Wire.{Upload}
use bnfs.AfsClient.Files.{client_flush}
use bnfs.AfsClient.Flush.{piece, Publishes, published, flush_publishes, broken_upload_truncates}
use bnfs.Tests.Scene.{digest, digest-IsDigest, path, other_path, text, server_with, dirty_client}

abbrev pub draws : ℕ → ℕ
draws i = i

abbrev pub first : PutFileReq
first = piece path []

abbrev pub rest : List PutFileReq
rest = piece path text ∷ []

put_file_stores_example :
    Replaced memory-IsLawful
      (temp_file_path draws path)
      (get_server_path path)
      (join (contents_of rest))
      (server_with (codes "old")).world
      (put_file memory draws (first ∷ rest) (server_with (codes "old"))).1.world
    × (mtime memory
          (put_file memory draws (first ∷ rest) (server_with (codes "old"))).1.world
          (get_server_path path)
        ≡ some 100)
    × ((put_file memory draws (first ∷ rest) (server_with (codes "old"))).1.locked ≡ false)
unfolding put_file same temp_file_path get_server_path
put_file_stores_example =
    put_file_stores memory-IsLawful draws first rest (server_with (codes "old")) 0
      (record { err = 0; last_modified_time = 100 }) refl refl

put_file_atomic_example :
    let trace =
      put_trace memory-IsLawful
        (temp_file_path draws path)
        (get_server_path path)
        (join (contents_of rest))
        (server_with (codes "old")).world in
    All
      (OldOrNew memory-IsLawful
        (get_server_path path)
        (join (contents_of rest))
        (server_with (codes "old")).world)
      trace
    × Mem (put_file memory draws (first ∷ rest) (server_with (codes "old"))).1.world trace
put_file_atomic_example =
    put_file_atomic memory-IsLawful draws first rest (server_with (codes "old")) 0 refl

-- A server on which a directory stands where the file is to go.
abbrev pub blocked_target : Server memory
blocked_target = record {
  world = record empty_disk { dirs = λ q. same q (get_server_path path) };
  locked = false;
}

put_file_deadlock_example :
    let t =
      serve memory
        (mkdir_req other_path 448 ∷ [])
        (put_file memory draws (first ∷ rest) blocked_target).1 in
    put_file memory draws (piece other_path [] ∷ rest) t ≡ (blocked, t)
unfolding same get_server_path temp_file_path
put_file_deadlock_example =
    put_file_deadlock memory draws first rest blocked_target 21 refl (mkdir_req other_path 448 ∷ [])
      draws (piece other_path [] ∷ rest)

abbrev pub link : Upload
link = record { accepted = 10; arrived = 2; finished = true }

-- The reply to an upload of `text`.
abbrev stored : PutFileResp
stored = record { err = 0; last_modified_time = 100 }

pub copies : Copies memory digest path 3 dirty_client.world
unfolding same get_temp_path mark_file_dirty bnfs.Hash.hex digest
copies = record { opens = refl; copies = refl }

unfoldable pub publishes :
    Publishes memory memory digest draws link path text dirty_client (server_with (codes "old"))
unfolding same get_temp_path mark_file_dirty put_file bnfs.Hash.hex digest is_file_dirty chunks
    temp_file_path get_server_path
publishes = record {
  there = refl;
  dirty = refl;
  last = 1;
  arrives = record { accepted = omega arith; arrived = refl; ends = refl };
  carries = omega arith;
  written = 0;
  writes = refl;
  reply = stored;
  answers = refl;
  fd = 3;
  copies = copies;
}

flush_publishes_example :
    let r =
      published memory memory digest draws link path text dirty_client
        (server_with (codes "old"))
        publishes in
    (client_flush memory memory digest draws link path (dirty_client, server_with (codes "old"))
      ≡ some (pos 0, r))
    × (memory.slurp r.1.world (get_server_path path) ≡ some text)
    × (memory.slurp r.0.world (get_cache_path digest path) ≡ some text)
    × (memory.slurp r.0.world (get_temp_path digest path) ≡ some text)
    × (is_file_dirty memory digest path r.0 ≡ false)
flush_publishes_example =
    flush_publishes memory memory digest memory-IsLawful memory-IsLawful digest-IsDigest draws link
      path text dirty_client (server_with (codes "old")) publishes

-- The connection breaks behind the path: nothing of the file arrives.
abbrev broken : Upload
broken = record { accepted = 10; arrived = 1; finished = false }

broken_upload_truncates_example :
    (t : Server memory) × (client_flush memory memory digest draws broken path
        (dirty_client, server_with (codes "old"))
      ≡ some (negsuc 0, (dirty_client, t)))
    × (memory.slurp t.world (get_server_path path) ≡ some (join (take 0 (chunks buf_size text))))
unfolding same get_temp_path mark_file_dirty put_file bnfs.Hash.hex digest is_file_dirty chunks
    temp_file_path get_server_path
broken_upload_truncates_example =
    broken_upload_truncates memory memory digest memory-IsLawful draws broken path text 0 0 stored
      dirty_client (server_with (codes "old")) refl refl
      (record { accepted = omega arith; arrived = refl; ends = refl }) refl refl
