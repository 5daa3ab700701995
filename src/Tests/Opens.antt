-- ===== src/Tests/Opens.antt =====
-- Examples of opening a file.
use bnfs.Base.{
  ◌||◌, true, false, some, [], ◌∷◌, Bytes, pos, length, same, ◌≡◌, refl, arith, if◌then◌else◌,
  ltb_ℤ, to_int, ◌↔◌,
}
use bnfs.Stream.{chunks, buf_size, c_string}
use bnfs.Hash.{get_cache_path, get_temp_path}
use bnfs.Posix.{o_rdonly}
use bnfs.Posix.Memory.{memory, empty_disk}
use bnfs.Posix.Memory.Lawful.{memory-IsLawful}
use bnfs.Server.{Server, get_server_path}
use bnfs.Cache.{Client}
use bnfs.Wire.{Download, delivered, returns}
use bnfs.AfsClient.{fetch_and_sync_server_file, get_open_flags, client_read_dir}
use bnfs.AfsClient.OpenFlags.{wanted_flag, is_missing, temp_check, is_stale, get_open_flags-wanted}
use bnfs.AfsClient.{client_mkdir, client_rmdir, client_access}
use bnfs.AfsClient.Replies.{carried_out, directory_calls, AnsweredZero, read_dir_zero_iff}
use bnfs.Posix.{mkdir, rmdir, access}
use bnfs.Wire.{unanswered}
use bnfs.AfsClient.Reopen.{get_open_flags-compares}
use bnfs.AfsClient.Fetch.{IsWhole, fetch_stores_c_string}
use bnfs.AfsClient.Session.{Opening, opening, Fetches, open_sees_server}
use bnfs.Tests.Scene.{client_with, digest, path, text, zeros, server_with}

-- A client that has no file.
abbrev pub fresh : Client memory digest
fresh = record { world = empty_disk; dirty_files = [] }

abbrev whole_link : Download
whole_link = record { reached = true; arrived = 9; finished = true }

abbrev pub reading : Opening
reading = record {
  is_create = false;
  flags = o_rdonly;
  delivery = delivered;
  link = whole_link;
  garbage = zeros;
  buf = zeros;
  file_stat = zeros;
}

-- A text with a NUL byte in it.
abbrev cut : Bytes
cut = 104 ∷ 0 ∷ 105 ∷ []

cut-IsWhole : IsWhole whole_link (length (chunks buf_size cut))
unfolding chunks
cut-IsWhole = record { reached = refl; arrived = omega arith; finished = refl }

cut-Fetches : Fetches memory memory digest reading path cut fresh (server_with cut)
unfolding get_open_flags bnfs.AfsClient.client_get_attr bnfs.Server.get_attr same get_server_path
    bnfs.Cache.is_present_in_temp bnfs.Cache.is_present_in_cache get_temp_path bnfs.Hash.hex digest
cut-Fetches = record {
  decides = refl;
  whole = cut-IsWhole;
  stores = record {
    first = 0;
    caches = refl;
    second = 0;
    writes = refl;
    keeps = refl;
    fd = 3;
    opens = refl;
  };
}

open_sees_server_example :
    ((opening memory memory digest reading path fresh (server_with cut)).0 ≡ pos 3)
    × (memory.slurp
          (opening memory memory digest reading path fresh (server_with cut)).1.0.world
          (get_temp_path digest path)
        ≡ some (c_string cut))
    × ((opening memory memory digest reading path fresh (server_with cut)).1.1 ≡ server_with cut)
unfolding same get_server_path cut-Fetches
open_sees_server_example =
    open_sees_server memory memory digest memory-IsLawful reading path cut fresh (server_with cut)
      refl cut-Fetches

fetch_stores_c_string_example :
    let r =
      fetch_and_sync_server_file memory memory digest whole_link path o_rdonly fresh
        (server_with cut) in
    (r.0 ≡ pos 0)
    × (r.2 ≡ server_with cut)
    × ((q : Bytes)
        → memory.slurp r.1.world q ≡ (
            if same (get_temp_path digest path) q
            then some (c_string cut)
            else if same (get_cache_path digest path) q
            then some (c_string cut)
            else memory.slurp fresh.world q))
unfolding same get_server_path
fetch_stores_c_string_example =
    fetch_stores_c_string memory memory digest memory-IsLawful whole_link path cut o_rdonly fresh
      (server_with cut) 0 0 refl cut-IsWhole refl refl

get_open_flags-wanted_example :
    (get_open_flags memory memory digest delivered false o_rdonly path zeros zeros zeros
      (server_with cut)
      fresh).0
    ≡ wanted_flag
        (is_missing memory memory digest delivered false o_rdonly path zeros zeros zeros
          (server_with cut)
          fresh)
        (false || false)
        (temp_check memory memory digest delivered false o_rdonly path zeros zeros zeros
          (server_with cut)
          fresh).0
        (is_stale memory memory digest delivered false o_rdonly path zeros zeros zeros
          (server_with cut)
          fresh)
get_open_flags-wanted_example =
    get_open_flags-wanted memory memory digest delivered false o_rdonly path zeros zeros zeros
      (server_with cut) fresh

directory_calls_example :
    (client_mkdir memory memory digest unanswered path 448 (server_with text)
      ≡ carried_out memory memory digest unanswered
          (mkdir (get_server_path path) 448)
          (server_with text))
    × (client_rmdir memory memory digest unanswered path (server_with text)
        ≡ carried_out memory memory digest unanswered
            (rmdir (get_server_path path))
            (server_with text))
    × (client_access memory memory digest unanswered path 448 (server_with text)
        ≡ carried_out memory memory digest unanswered
            (access (get_server_path path) 448)
            (server_with text))
directory_calls_example =
    directory_calls memory memory digest unanswered path 448 (server_with text)

get_open_flags-compares_example :
    (get_open_flags memory memory digest unanswered false o_rdonly path zeros
      (record zeros { mtime = 99 })
      zeros
      (server_with text)
      (client_with text)).0
    ≡ (if ltb_ℤ (to_int 7) (to_int 99) then 1 else 2)
unfolding same get_server_path get_temp_path bnfs.Hash.hex digest get_cache_path
get_open_flags-compares_example =
    get_open_flags-compares memory memory digest memory-IsLawful unanswered false o_rdonly path
      zeros (record zeros { mtime = 99 }) zeros
      (record zeros {
        dev = 1;
        ino = 1;
        mode = 448;
        nlink = 1;
        size = 5;
        blksize = 4096;
        blocks = 1;
        atime = 7;
        mtime = 7;
        ctime = 7;
      })
      (server_with text) (client_with text) 2 7 refl refl refl

read_dir_zero_iff_example :
    (client_read_dir memory memory digest delivered path (λ n. false) (server_with text) ≡ pos 0)
    ↔ AnsweredZero
        (λ n. false)
        (returns delivered)
        (memory.read_dir (server_with text).world (get_server_path path))
read_dir_zero_iff_example =
    read_dir_zero_iff memory memory digest delivered path (λ n. false) (server_with text)
