-- ===== src/AfsClient/Files.antt =====
-- `Open`, `Unlink`, `Rename` and `Flush` of unreliablefs/unreliablefs/afs_client.cc.
use bnfs.Base.{
  ℕ, Bool, true, false, ◌&&◌, Option, none, some, Bytes, ℤ, pos, negsuc, negate, to_int, take,
  if◌then◌else◌, ◌==◌,
}
use bnfs.Hash.{get_cache_path, get_temp_path}
use bnfs.Posix.{
  Posix, ret, fail, Flags, Stat, o_rdonly, open_file, close, creat_file, rename, remove, int_of,
  errno_of,
}
use bnfs.Cache.{
  Client, did, answer, is_present_in_cache, get_check_in_temp, is_file_dirty, mark_file_dirty,
  unmark_file_dirty, delete_from_temp, commit_to_cache,
}
use bnfs.Server.{Server, PutOutcome, blocked, answered, unlink_handler, rename_handler, put_file}
use bnfs.Wire.{Delivery, is_ok, unary, Download, Upload}
use bnfs.AfsClient.{
  get_open_flags, fetch_and_sync_server_file, create_on_server, is_positive, upload,
}

-- `if (isOpenWithCreateNExclusive (flags)) flags ^= O_EXCL`
abbrev pub open_flags : Flags → Flags
open_flags flags = if flags.creat && flags.excl then record flags { excl = false } else flags

module _ (P Q : Posix) (sha256 : Bytes → Bytes) where
  abbrev pub State : Type 0
  State = Client P sha256 × Server Q

  -- `close (creat (path, 00777))`
  abbrev pub create_empty : Bytes → Client P sha256 → Client P sha256
  create_empty target k =
      did P sha256 (close (int_of (answer P sha256 (creat_file target 511) k)))
        (did P sha256 (creat_file target 511) k)

  -- What `Open` does for each answer of `getOpenFlags`.
  unfoldable pub prepare : Download → ℕ → Bytes → Flags → State → State
  prepare link o_fl path flags (k, s) =
      if o_fl == 1
      then (let fetched = fetch_and_sync_server_file P Q sha256 link path flags k s in
          (fetched.1, fetched.2))
      else if o_fl == 3
      then (let created =
            create_empty (get_cache_path sha256 path)
              (create_empty (get_temp_path sha256 path) k) in
          (
            mark_file_dirty P sha256 path created,
            (create_on_server P Q sha256 link path flags s).1,
          ))
      else if o_fl == 4
      then ((get_check_in_temp P sha256 path true o_rdonly true k).2, s)
      else (k, s)

  -- The end of `Open`: the descriptor of the working copy, or `-errno` after it was deleted.
  unfoldable pub open_temp : Bytes → Flags → Client P sha256 → ℤ × Client P sha256
  open_temp path flags k =
      let c = open_file (get_temp_path sha256 path) (open_flags flags) 0 in
      let opened = did P sha256 c k in
      elim (answer P sha256 c k) [
        | ret fd ↦ (pos fd, opened)
        | fail e ↦ (
          negate (errno_of (answer P sha256 (remove (get_temp_path sha256 path)) opened) e),
          delete_from_temp P sha256 path opened,
        )
      ]

  -- `Open`. `delivery` is the fate of the call of GetAttr and `link` that of the stream.
  unfoldable pub client_open :
      Delivery
      → Download
      → Bool
      → Flags
      → Bytes
      → (garbage buf file_stat : Stat) → State
      → ℤ × State
  unfolding prepare open_temp
  client_open delivery link is_create flags path garbage buf file_stat (k, s) =
      let chosen =
        get_open_flags P Q sha256 delivery is_create flags path garbage buf file_stat s k in
      let (k', s') = prepare link chosen.0 path flags (chosen.1, s) in
      let opened = open_temp path flags k' in (opened.0, (opened.1, s'))

  abbrev zero_or_minus_one : Bool → ℤ
  zero_or_minus_one fine = if fine then pos 0 else negsuc 0

  unfoldable pub client_unlink : Delivery → Bytes → State → ℤ × State
  client_unlink delivery path (k, s) =
      let (st, s') = unlink_handler Q path s in
      let call = unary delivery (pos 0) st (pos 0) s' s in
      (zero_or_minus_one call.0, (delete_from_temp P sha256 path k, call.2))

  -- The part of `Rename` that works on the local copies; `fd` is the cache file's descriptor.
  -- A failed rename returns early, with its `errno`, and leaves `fd` open.
  unfoldable pub rename_local : ℕ → Bytes → Bytes → Client P sha256 → Option ℕ × Client P sha256
  rename_local fd old_path new_path k =
      let c = rename (get_temp_path sha256 old_path) (get_temp_path sha256 new_path) in
      let moved = did P sha256 c k in
      let marked =
        if is_file_dirty P sha256 old_path moved
        then mark_file_dirty P sha256 new_path (unmark_file_dirty P sha256 old_path moved)
        else moved in
      elim (answer P sha256 c k) [
        | fail e ↦ (some e, moved)
        | ret n ↦ (none, did P sha256 (close (pos fd)) marked)
      ]

  -- The request to the server, the end of `Rename`.
  unfoldable pub rename_remote : Delivery → Bytes → Bytes → State → ℤ × State
  rename_remote delivery old_path new_path (k, s) =
      let (st, s') = rename_handler Q old_path new_path s in
      let call = unary delivery (pos 0) st (pos 0) s' s in (zero_or_minus_one call.0, (k, call.2))

  unfoldable pub client_rename : Delivery → Bytes → Bytes → State → ℤ × State
  unfolding rename_local rename_remote
  client_rename delivery old_path new_path (k, s) =
      let (fd, k') = is_present_in_cache P sha256 old_path k in
      let (failure, k'') =
        rename_local (elim fd [ pos n ↦ n | negsuc n ↦ 0 ]) old_path new_path k' in
      if is_positive fd
      then elim failure [
        | some e ↦ (negate e, (k'', s))
        | none ↦ rename_remote delivery old_path new_path (k'', s)
      ]
      else rename_remote delivery old_path new_path (k', s)

  -- What the client does when `Finish` returns. `none` is a call that never returns: the stream
  -- is whole, and the server waits for its mutex.
  unfoldable pub finish_flush : Bool → Bytes → PutOutcome → State → Option (ℤ × State)
  finish_flush false path outcome (k, s) = some (negsuc 0, (k, s))
  finish_flush true path blocked (k, s) = none
  finish_flush true path (answered st reply) (k, s) =
      if is_ok st
      then some (pos 0, ((commit_to_cache P sha256 path (to_int reply.last_modified_time) k).1, s))
      else some (negsuc 0, (k, s))

  -- `Flush` of a dirty file with the contents `contents`. A client whose first write is refused
  -- gives up at once.
  unfoldable pub send_file : (ℕ → ℕ) → Upload → Bytes → Bytes → State → Option (ℤ × State)
  send_file draws link path contents (k, s) =
      let messages = take link.arrived (take link.accepted (upload path contents)) in
      let (outcome, s') = put_file Q draws messages s in
      if link.accepted == 0
      then some (negsuc 0, (delete_from_temp P sha256 path k, s))
      else finish_flush link.finished path outcome (k, s')

  unfoldable pub client_flush : (ℕ → ℕ) → Upload → Bytes → State → Option (ℤ × State)
  unfolding send_file
  client_flush draws link path (k, s) = elim (P.slurp k.world (get_temp_path sha256 path)) [
    | none ↦ some (negsuc 0, (k, s))
    | some contents ↦
        if is_file_dirty P sha256 path k
        then send_file draws link path contents (k, s)
        else some (pos 0, (k, s))
  ]
