-- ===== src/Server.antt =====
-- The file server, unreliablefs/unreliablefs/afs_server.cc: one function for each handler of
-- `FileServerServiceImpl`, on the server's world and its mutex. The messages of
-- unreliablefs/unreliablefs/protos/afs.proto are records; what gRPC does with them is in `Wire`.
pub mod Put
pub mod Lock
pub mod Origin
pub mod Failed
pub mod Threads
pub mod Exclusion
pub mod Whole
pub mod Alone
pub mod Release
use bnfs.Base.{
  ℕ, zero, suc, ◌+◌, ◌%◌, Bool, true, false, Option, none, some, List, [], ◌∷◌, ◌++◌, map, Bytes,
  codes, get_elem?, ℤ, pos, negate, if◌then◌else◌,
}
use bnfs.Stream.{chunks, join, buf_size}
use bnfs.Posix.{
  Posix, Ret, ret, fail, Answer, got, failed, Flags, Stat, Call, open_file, close, rename, unlink,
  mkdir, rmdir, chmod, access, write_all, int_of, s_irwxu, s_isdir,
}

-- What a handler returns to gRPC.
pub data Status : Type 0 where
  ok cancelled : Status

pub record OpenReq : Type 0 where
  pub path : Bytes
  pub flag : Flags
  pub is_create : Bool

pub record OpenResp : Type 0 where
  pub err : ℕ
  pub file_exists : Bool
  pub buf : Bytes

pub record PutFileReq : Type 0 where
  pub path : Bytes
  pub contents : Bytes

pub record PutFileResp : Type 0 where
  pub err : ℕ
  pub last_modified_time : ℕ

pub record StatResponse : Type 0 where
  pub stat : Stat
  pub errorcode : ℤ

pub record ReadDirResponse : Type 0 where
  pub dir_name : List Bytes
  pub errorcode : ℤ

-- A field that is not set has its default, 0.
abbrev pub no_put_resp : PutFileResp
no_put_resp = record { err = 0; last_modified_time = 0 }

-- A handler that waits for the mutex for ever, or one that returns.
pub data PutOutcome : Type 0 where
  blocked : PutOutcome
  answered : Status → PutFileResp → PutOutcome

abbrev server_dir_base_path : Bytes
server_dir_base_path = codes "/users/chrahul5/afs_server_dir"

unfoldable pub get_server_path : Bytes → Bytes
get_server_path path = server_dir_base_path ++ path

abbrev alphanum : Bytes
alphanum = codes "0123456789ABCDEFGHIJKLMNOPQRSTUVWXYZabcdefghijklmnopqrstuvwxyz"

-- `rand ()` answers `draws i` in round i; `sizeof (alphanum) - 1` is 62.
random_char : ℕ → ℕ
random_char draw = elim (get_elem? alphanum (draw % 62)) [ some c ↦ c | none ↦ 0 ]

pub random_string : (len : ℕ) → (draws : ℕ → ℕ) → Bytes
random_string zero draws = []
random_string (suc len) draws = random_string len draws ++ (random_char (draws len) ∷ [])

-- `temp_file_path = cache_path + random_string (20)`
unfoldable pub temp_file_path : (ℕ → ℕ) → Bytes → Bytes
unfolding random_string random_char
temp_file_path draws path = get_server_path path ++ random_string 20 draws

abbrev pub contents_of : List PutFileReq → List Bytes
contents_of = map (λ r. r.contents)

module _ (P : Posix) where
  open P use {World, sys, lstat, read_dir, slurp}

  pub record Server : Type 0 where
    pub world : World
    pub locked : Bool

  -- A handler that only makes one call, and reports `-errno` if that fails.
  base_response : Ret → ℤ
  base_response (ret n) = pos 0
  base_response (fail e) = negate e

  -- The struct is not initialised: `garbage` is what the stack held.
  unfoldable pub get_attr : Bytes → Stat → Server → StatResponse
  get_attr path garbage s = elim (lstat s.world (get_server_path path)) [
    | got st ↦ record { stat = st; errorcode = pos 0 }
    | failed e ↦ record { stat = garbage; errorcode = negate e }
  ]

  unfoldable pub read_dir_handler : Bytes → Server → ReadDirResponse
  read_dir_handler path s = elim (read_dir s.world (get_server_path path)) [
    | got names ↦ record { dir_name = names; errorcode = pos 0 }
    | failed e ↦ record { dir_name = []; errorcode = negate e }
  ]

  -- The server after a call, with its mutex as it was.
  abbrev pub called : Call → Server → Server
  called c s = record s { world = (sys c s.world).1 }

  unfoldable pub mkdir_handler : Bytes → ℕ → Server → ℤ × Server
  unfolding base_response
  mkdir_handler path mode s =
      let c = mkdir (get_server_path path) mode in (base_response (sys c s.world).0, called c s)

  unfoldable pub access_handler : Bytes → ℕ → Server → ℤ × Server
  unfolding base_response
  access_handler path mode s =
      let c = access (get_server_path path) mode in (base_response (sys c s.world).0, called c s)

  unfoldable pub rmdir_handler : Bytes → Server → ℤ × Server
  unfolding base_response
  rmdir_handler path s =
      let c = rmdir (get_server_path path) in (base_response (sys c s.world).0, called c s)

  unfoldable pub unlink_handler : Bytes → Server → Status × Server
  unlink_handler path s =
      let c = unlink (get_server_path path) in
      (elim (sys c s.world).0 [ ret n ↦ ok | fail e ↦ cancelled ], called c s)

  unfoldable pub rename_handler : Bytes → Bytes → Server → Status × Server
  rename_handler old_path new_path s =
      let c = rename (get_server_path old_path) (get_server_path new_path) in
      (elim (sys c s.world).0 [ ret n ↦ ok | fail e ↦ cancelled ], called c s)

  abbrev not_there : ℕ → OpenResp
  not_there e = record { err = e; file_exists = false; buf = [] }

  -- The branch of `Open` for a file that the server does not have.
  pub create_missing : OpenReq → Server → List OpenResp × Server
  create_missing request s =
      let c = open_file (get_server_path request.path) request.flag 511 in
      let r = (sys c s.world).0 in
      let opened = called c s in
      if request.is_create
      then (not_there (elim r [ ret n ↦ 0 | fail e ↦ e ]) ∷ [], called (close (int_of r)) opened)
      else (not_there 0 ∷ [], s)

  abbrev pub file_chunk : Bytes → OpenResp
  file_chunk b = record { err = 0; file_exists = true; buf = b }

  -- An `ifstream` opens a directory too, but no byte can be read.
  pub opens_directory : World → Bytes → Bool
  opens_directory w path = elim (P.stat w path) [ failed e ↦ false | got st ↦ s_isdir st.mode ]

  -- The messages written to the stream, none for a directory; the status is always `OK`.
  unfoldable pub open_handler : OpenReq → Server → List OpenResp × Server
  unfolding create_missing opens_directory
  open_handler request s = elim (slurp s.world (get_server_path request.path)) [
    | none ↦
        if opens_directory s.world (get_server_path request.path)
        then ([], s)
        else create_missing request s
    | some contents ↦ (map file_chunk (chunks buf_size contents), s)
  ]

  -- `PutFile` once it holds the mutex: `temp` is written, renamed and made readable. On a failed
  -- rename the handler returns without unlocking.
  pub install : (temp target contents : Bytes) → Server → PutOutcome × Server
  install temp target contents s =
      let written = called (write_all temp contents) s in
      let moved = called (rename temp target) written in
      let readable = called (chmod target s_irwxu) moved in
      elim (sys (rename temp target) written.world).0 [
        | fail e ↦ (answered cancelled no_put_resp, record moved { locked = true })
        | ret n ↦ (
          elim (lstat readable.world target) [
            | failed e ↦ answered cancelled no_put_resp
            | got st ↦ answered ok (record { err = 0; last_modified_time = st.mtime })
          ],
          record readable { locked = false },
        )
      ]

  -- The messages are those that `Read` delivers before it first returns false. With none at all
  -- the paths stay empty.
  unfoldable pub put_file : (ℕ → ℕ) → List PutFileReq → Server → PutOutcome × Server
  unfolding install
  put_file draws [] s = if s.locked then (blocked, s) else install [] [] [] s
  put_file draws (first ∷ rest) s =
      if s.locked
      then (blocked, s)
      else install (temp_file_path draws first.path) (get_server_path first.path)
          (join (contents_of rest)) s
