-- ===== src/AfsClient.antt =====
-- The client of the file server: `AFSClient` of unreliablefs/unreliablefs/afs_client.cc, on the
-- client's state (its disk and the set of dirty files) and the server's. `P` and `Q` are the
-- operating systems of the two machines. The calls that move file contents are in `Files`.
pub mod Files
pub mod OpenFlags
pub mod Fetch
pub mod During
pub mod Flush
pub mod Session
pub mod Rename
pub mod Replies
pub mod Reopen
use bnfs.Base.{
  ℕ, zero, suc, ◌+◌, Bool, true, false, ◌&&◌, ◌||◌, not, Option, none, some, List, [], ◌∷◌, map,
  Bytes, ℤ, pos, negsuc, negate, to_int, ltb_ℤ, eqb_ℤ, take, if◌then◌else◌,
}
use bnfs.Stream.{chunks, join, buf_size}
use bnfs.Hash.{get_cache_path, get_temp_path}
use bnfs.Posix.{
  Posix, Ret, ret, fail, Flags, Stat, o_rdonly, Call, open_file, close, creat_file, rename, remove,
  int_of, is_ret, errno_of,
}
use bnfs.Cache.{
  Client, did, answer, is_present_in_temp, is_present_in_cache, get_check_in_temp, is_out_of_date,
  write_file_to_cache, write_file_to_temp, is_file_dirty, mark_file_dirty, unmark_file_dirty,
  delete_from_temp, commit_to_cache, clear_excl,
}
use bnfs.Server.{
  Server, Status, ok, cancelled, OpenReq, OpenResp, PutFileReq, PutFileResp, StatResponse,
  ReadDirResponse, PutOutcome, blocked, answered, no_put_resp, get_attr, read_dir_handler,
  mkdir_handler, access_handler, rmdir_handler, unlink_handler, rename_handler, open_handler,
  put_file,
}
use bnfs.Wire.{Delivery, is_ok, unary, returns, Download, Upload}

-- `ENOENT`, `EIO`, `ENOMEM`
abbrev pub enoent : ℕ
enoent = 2

abbrev pub eio : ℕ
eio = 5

abbrev pub enomem : ℕ
enomem = 12

-- `stbuf->st_… = reply.… ()`: the owner and the group are not copied.
unfoldable pub copy_stat : Stat → Stat → Stat
copy_stat reply buf = record reply { uid = buf.uid; gid = buf.gid }

-- What getOpenFlags answers: fetch, use the working copy, create, copy from the cache.
abbrev pub is_positive : ℤ → Bool
is_positive = ltb_ℤ (pos 0)

abbrev pub is_negative : ℤ → Bool
is_negative fd = ltb_ℤ fd (pos 0)

-- `res < 0` is passed on, all else is success.
abbrev pub negative_or_zero : ℤ → ℤ
negative_or_zero res = if is_negative res then res else pos 0

-- `filler` answers for each name whether its buffer is full.
unfoldable pub fill_all : (Bytes → Bool) → List Bytes → ℤ
fill_all is_full [] = pos 0
fill_all is_full (name ∷ names) =
    let rest = fill_all is_full names in if is_full name then negate enomem else rest

-- The messages of an upload: the path alone, then the path again with each piece.
abbrev pub upload : Bytes → Bytes → List PutFileReq
upload path contents =
    record { path = path; contents = [] }
    ∷ map (λ b. record { path = path; contents = b }) (chunks buf_size contents)

abbrev pub bufs : List OpenResp → List Bytes
bufs = map (λ r. r.buf)

module _ (P Q : Posix) (sha256 : Bytes → Bytes) where
  -- `getAttr`: the result and the caller's struct.
  unfoldable pub client_get_attr : Delivery → Bytes → Stat → Stat → Server Q → ℤ × Stat
  unfolding copy_stat
  client_get_attr delivery path garbage buf s =
      let reply = get_attr Q path garbage s in
      if returns delivery then (reply.errorcode, copy_stat reply.stat buf) else (pos 0, buf)

  unfoldable pub client_read_dir : Delivery → Bytes → (Bytes → Bool) → Server Q → ℤ
  unfolding fill_all
  client_read_dir delivery path is_full s =
      let reply = read_dir_handler Q path s in
      if returns delivery
      then if eqb_ℤ reply.errorcode (negsuc 0)
        then reply.errorcode
        else fill_all is_full reply.dir_name
      else pos 0

  -- `mkdir`, `rmdir` and `access` read the reply and not the status.
  unfoldable pub client_mkdir : Delivery → Bytes → ℕ → Server Q → ℤ × Server Q
  client_mkdir delivery path mode s =
      let (res, s') = mkdir_handler Q path mode s in
      let call = unary delivery (pos 0) ok res s' s in (negative_or_zero call.1, call.2)

  unfoldable pub client_rmdir : Delivery → Bytes → Server Q → ℤ × Server Q
  client_rmdir delivery path s =
      let (res, s') = rmdir_handler Q path s in
      let call = unary delivery (pos 0) ok res s' s in (negative_or_zero call.1, call.2)

  unfoldable pub client_access : Delivery → Bytes → ℕ → Server Q → ℤ × Server Q
  client_access delivery path mode s =
      let (res, s') = access_handler Q path mode s in
      let call = unary delivery (pos 0) ok res s' s in (negative_or_zero call.1, call.2)

  -- `getOpenFlags` from the two descriptors on.
  pub choose_open_flag :
      (cache_fd temp_fd : ℤ) → (out_of_date : Bool) → Client P sha256 → ℕ × Client P sha256
  choose_open_flag cache_fd temp_fd out_of_date k =
      if is_negative temp_fd && is_negative cache_fd
      then (1, k)
      else if is_negative temp_fd && not (is_negative cache_fd) && not out_of_date
      then (4, did P sha256 (close cache_fd) k)
      else (let temp_closed = did P sha256 (close temp_fd) k in
          let closed =
            if is_positive cache_fd
            then did P sha256 (close cache_fd) temp_closed
            else temp_closed in
          (if out_of_date then 1 else 2, closed))

  unfoldable pub get_open_flags :
      Delivery
      → Bool
      → Flags
      → Bytes
      → (garbage buf file_stat : Stat) → Server Q
      → Client P sha256
      → ℕ × Client P sha256
  unfolding choose_open_flag
  get_open_flags delivery is_create flags path garbage buf file_stat s k =
      let attr = client_get_attr delivery path garbage buf s in
      let cached = is_present_in_cache P sha256 path k in
      let temp = is_present_in_temp P sha256 path cached.1 in
      let out_of_date =
        if is_positive temp.0
        then is_out_of_date P sha256 (to_int attr.1.mtime) temp.0 file_stat temp.1
        else true in
      if eqb_ℤ attr.0 (negate enoent) && (is_create || flags.creat)
      then (3, k)
      else choose_open_flag cached.0 temp.0 out_of_date temp.1

  abbrev pub open_request : Bytes → Flags → Bool → OpenReq
  open_request path flags is_create = record { path = path; flag = flags; is_create = is_create }

  -- The server's side of a stream of replies, and the messages that the client reads.
  unfoldable pub receive : Download → OpenReq → Server Q → List OpenResp × Server Q
  receive link request s =
      let (messages, s') = open_handler Q request s in
      if link.reached then (take link.arrived messages, s') else ([], s)

  unfoldable pub create_on_server : Download → Bytes → Flags → Server Q → ℤ × Server Q
  unfolding receive
  create_on_server link path flags s =
      let got = receive link (open_request path flags true) s in
      (
        elim got.0 [ [] ↦ negate eio | reply ∷ more ↦ if link.finished then pos 0 else negate eio ],
        got.1,
      )

  -- The two copies of what was fetched.
  pub store_fetched : Bytes → Bytes → Client P sha256 → Client P sha256
  store_fetched path text k =
      (write_file_to_temp P sha256 path text (write_file_to_cache P sha256 path text k).1).1

  unfoldable pub fetch_and_sync_server_file :
      Download → Bytes → Flags → Client P sha256 → Server Q → ℤ × Client P sha256 × Server Q
  unfolding receive store_fetched
  fetch_and_sync_server_file link path flags k s =
      let got = receive link (open_request path flags false) s in
      elim got.0 [
        | [] ↦ (negate eio, k, got.1)
        | first ∷ more ↦
            if link.finished
            then (pos 0, store_fetched path (join (bufs (first ∷ more))) k, got.1)
            else (negate eio, k, got.1)
      ]
