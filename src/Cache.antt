-- ===== src/Cache.antt =====
-- The client's local copies: `CacheHelper` of unreliablefs/unreliablefs/cache_helper.cc. Every file
-- has a copy in the cache directory and a working copy in the temp directory, and a static set
-- holds the hashed names of the dirty files. Its mutex guards single set operations only, which
-- are atomic here.
pub mod Dirty
pub mod Commit
pub mod Setup
use bnfs.Base.{
  ℕ, zero, suc, Bool, true, false, ◌&&◌, ◌||◌, not, Option, none, some, List, [], ◌∷◌, Bytes, ℤ,
  pos, negsuc, negate, to_int, ltb_ℤ, eqb_ℤ, same, if◌then◌else◌,
}
use bnfs.Stream.{c_string}
use bnfs.Hash.{get_hashed_path, get_cache_path, get_temp_path}
use bnfs.Posix.{
  Posix, Ret, ret, fail, Answer, got, failed, Shell, unstarted, exited, signalled, Flags, Stat,
  o_rdonly, o_rdwr, Call, open_file, close, remove, utime, write_all, int_of, is_ret, errno_of,
}

-- `unordered_set<string>`
pub contains : Bytes → List Bytes → Bool
contains k [] = false
contains k (x ∷ xs) = same x k || contains k xs

pub erase : Bytes → List Bytes → List Bytes
erase k [] = []
erase k (x ∷ xs) = let rest = erase k xs in if same x k then rest else x ∷ rest

pub insert : Bytes → List Bytes → List Bytes
unfolding contains
insert k xs = if contains k xs then xs else k ∷ xs

-- `if (open_mode & O_EXCL) open_mode ^= O_EXCL`
abbrev pub clear_excl : Flags → Flags
clear_excl f = record f { excl = if f.excl then not f.excl else f.excl }

module _ (P : Posix) (sha256 : Bytes → Bytes) where
  open P use {World, sys, cp, fstat}

  pub record Client : Type 0 where
    pub world : World
    pub dirty_files : List Bytes

  -- A call made for its effect, and one whose `int` result is read.
  abbrev pub did : Call → Client → Client
  did c k = record k { world = (sys c k.world).1 }

  abbrev pub answer : Call → Client → Ret
  answer c k = (sys c k.world).0

  unfoldable pub is_present_in_temp : Bytes → Client → ℤ × Client
  is_present_in_temp path k =
      let c = open_file (get_temp_path sha256 path) o_rdonly 0 in (int_of (answer c k), did c k)

  unfoldable pub is_present_in_cache : Bytes → Client → ℤ × Client
  is_present_in_cache path k =
      let c = open_file (get_cache_path sha256 path) o_rdonly 0 in (int_of (answer c k), did c k)

  -- The result, the descriptor, and the client.
  unfoldable pub get_check_in_cache : Bytes → Bool → Flags → Client → Bool × ℤ × Client
  get_check_in_cache path close_file open_mode k =
      let c = open_file (get_cache_path sha256 path) open_mode 0 in
      let fd = int_of (answer c k) in
      let opened = did c k in
      if is_ret (answer c k)
      then (true, fd, if close_file then did (close fd) opened else opened)
      else (false, fd, opened)

  -- The end of `getCheckInTemp`: is there a descriptor, and is it to be closed?
  abbrev finish_check : Bool → Ret → Client → Bool × ℤ × Client
  finish_check close_file r k =
      if is_ret r
      then (true, int_of r, if close_file then did (close (int_of r)) k else k)
      else (false, int_of r, k)

  -- `*file_descriptor = open (temp_path.c_str (), O_CREAT | open_mode, 0777)`, and the end.
  create_temp : Bytes → Bool → Flags → Client → Bool × ℤ × Client
  create_temp path close_file open_mode k =
      let c = open_file (get_temp_path sha256 path) (record open_mode { creat = true }) 511 in
      finish_check close_file (answer c k) (did c k)

  -- `cp -f` failed if it did not start, or ended with another status than 0; an end by a signal
  -- is not looked at.
  abbrev copy_failed : Shell → Bool
  copy_failed unstarted = true
  copy_failed (exited zero) = false
  copy_failed (exited (suc n)) = true
  copy_failed signalled = false

  unfoldable pub get_check_in_temp : Bytes → Bool → Flags → Bool → Client → Bool × ℤ × Client
  unfolding create_temp get_check_in_cache
  get_check_in_temp path close_file open_mode create_new k =
      let c = open_file (get_temp_path sha256 path) open_mode 0 in
      let opened = did c k in
      if not (is_ret (answer c k)) && create_new
      then (let checked = get_check_in_cache path true o_rdonly opened in
          let shell = cp (get_cache_path sha256 path) (get_temp_path sha256 path) checked.2.world in
          let copied = record checked.2 { world = shell.1 } in
          if checked.0
          then if copy_failed shell.0
            then (false, negsuc 0, copied)
            else create_temp path close_file open_mode copied
          else create_temp path close_file open_mode checked.2)
      else finish_check close_file (answer c k) opened

  -- `fstat` fills the struct only if it succeeds: `garbage` is what the stack held.
  abbrev pub mtime_of : Answer Stat → Stat → ℕ
  mtime_of (got st) garbage = st.mtime
  mtime_of (failed e) garbage = garbage.mtime

  unfoldable pub is_out_of_date : ℤ → ℤ → Stat → Client → Bool
  is_out_of_date server_modified_at_epoch fd garbage k =
      ltb_ℤ (to_int (mtime_of (fstat k.world fd) garbage)) server_modified_at_epoch

  unfoldable pub is_cache_out_of_date : Bytes → ℤ → Bool → Flags → Stat → Client → Bool × Client
  unfolding get_check_in_cache
  is_cache_out_of_date path server_modified_at_epoch close_file open_mode garbage k =
      let checked = get_check_in_cache path false open_mode k in
      if checked.0
      then (
        ltb_ℤ (to_int (mtime_of (fstat checked.2.world checked.1) garbage))
            server_modified_at_epoch,
        if close_file then did (close checked.1) checked.2 else checked.2,
      )
      else (true, checked.2)

  -- `writeFileToCache` and `writeFileToTemp`, over `file.write (data, strlen (data))`.
  unfoldable pub write_file : Bytes → Bytes → Client → ℤ × Client
  write_file target text k =
      let c = write_all target (c_string text) in
      (elim (answer c k) [ ret n ↦ pos 0 | fail e ↦ negsuc 0 ], did c k)

  unfoldable pub write_file_to_cache : Bytes → Bytes → Client → ℤ × Client
  unfolding write_file
  write_file_to_cache path text k = write_file (get_cache_path sha256 path) text k

  unfoldable pub write_file_to_temp : Bytes → Bytes → Client → ℤ × Client
  unfolding write_file
  write_file_to_temp path text k = write_file (get_temp_path sha256 path) text k

  -- `syncFileToCache` and `syncFileToTemp`: write, then open unless the caller wants it closed.
  sync_file : Bytes → Bytes → Bool → Flags → Client → ℤ × Client
  sync_file target text close_file open_mode k =
      let w = write_all target (c_string text) in
      let written = did w k in
      let c = open_file target (clear_excl open_mode) 0 in
      if is_ret (answer w k)
      then if close_file then (negsuc 0, written) else (int_of (answer c written), did c written)
      else (negsuc 0, written)

  unfoldable pub sync_file_to_cache : Bytes → Bytes → Bool → Flags → Client → ℤ × Client
  unfolding sync_file
  sync_file_to_cache path = sync_file (get_cache_path sha256 path)

  unfoldable pub sync_file_to_temp : Bytes → Bytes → Bool → Flags → Client → ℤ × Client
  unfolding sync_file
  sync_file_to_temp path = sync_file (get_temp_path sha256 path)

  unfoldable pub set_file_modified_time : Bytes → ℤ → Client → Bool × Client
  set_file_modified_time path epoch_time k =
      (is_ret (answer (utime path epoch_time) k), did (utime path epoch_time) k)

  unfoldable pub is_file_dirty : Bytes → Client → Bool
  unfolding contains
  is_file_dirty path k = contains (get_hashed_path sha256 path) k.dirty_files

  unfoldable pub mark_file_dirty : Bytes → Client → Client
  unfolding insert
  mark_file_dirty path k = record k {
    dirty_files = insert (get_hashed_path sha256 path) k.dirty_files;
  }

  -- It removes the working copy, and leaves the set of dirty files alone.
  unfoldable pub unmark_file_dirty : Bytes → Client → Client
  unmark_file_dirty path k = did (remove (get_temp_path sha256 path)) k

  abbrev pub erased : Bytes → Client → Client
  erased path k = record k { dirty_files = erase (get_hashed_path sha256 path) k.dirty_files }

  unfoldable pub delete_from_temp : Bytes → Client → Client
  unfolding erase
  delete_from_temp path k = erased path (did (remove (get_temp_path sha256 path)) k)

  -- `commitToCache` once the working copy has been opened and closed.
  copy_to_cache : Bytes → ℤ → Client → ℤ × Client
  unfolding set_file_modified_time erase
  copy_to_cache path server_modified_at_epoch k =
      let shell = cp (get_temp_path sha256 path) (get_cache_path sha256 path) k.world in
      let copied = record k { world = shell.1 } in
      let timed =
        (set_file_modified_time (get_temp_path sha256 path) server_modified_at_epoch copied).1 in
      let done =
        (set_file_modified_time (get_cache_path sha256 path) server_modified_at_epoch timed).1 in
      if copy_failed shell.0 then (pos 1, copied) else (pos 0, erased path done)

  unfoldable pub commit_to_cache : Bytes → ℤ → Client → ℤ × Client
  unfolding copy_to_cache
  commit_to_cache path server_modified_at_epoch k =
      let c = open_file (get_temp_path sha256 path) o_rdwr 0 in
      elim (answer c k) [
        | fail e ↦ (negate e, did c k)
        | ret fd ↦ copy_to_cache path server_modified_at_epoch (did (close (pos fd)) (did c k))
      ]
