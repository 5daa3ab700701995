-- ===== src/AfsClient/OpenFlags.antt =====
-- `getOpenFlags` of unreliablefs/unreliablefs/afs_client.cc: which branch `Open` takes.
use bnfs.Base.{
  ℕ, Bool, true, ◌&&◌, ◌||◌, not, Bytes, ℤ, pos, negsuc, negate, to_int, eqb_ℤ, ◌≡◌, ◌≢◌, arith,
  if◌then◌else◌,
}
use bnfs.Posix.{Posix, Flags, Stat}
use bnfs.Cache.{Client, is_present_in_cache, is_present_in_temp, is_out_of_date}
use bnfs.Server.{Server}
use bnfs.Wire.{Delivery}
use bnfs.AfsClient.{client_get_attr, choose_open_flag, get_open_flags, enoent, is_positive}

-- The answer that the branches amount to: create what the server lacks and the caller asks for,
-- use a working copy that is not older than the server's file, and fetch in every other case.
unfoldable pub wanted_flag : (missing creating : Bool) → (temp_fd : ℤ) → (stale : Bool) → ℕ
wanted_flag missing creating temp_fd stale =
    if missing && creating then 3 else if is_positive temp_fd && not stale then 2 else 1

module _ (P Q : Posix) (sha256 : Bytes → Bytes) where
  choose_open_flag-stale :
      (cache_fd temp_fd : ℤ) (stale : Bool) (k : Client P sha256)
      → (choose_open_flag P Q sha256 cache_fd temp_fd
          (if is_positive temp_fd then stale else true)
          k).0
        ≡ (if is_positive temp_fd && not stale then 2 else 1)
  unfolding choose_open_flag
  choose_open_flag-stale cache_fd (pos t) stale k = ground arith
  choose_open_flag-stale cache_fd (negsuc t) stale k = ground arith

  module _ (delivery : Delivery) (is_create : Bool) (flags : Flags) (path : Bytes)
      (garbage buf file_stat : Stat) (s : Server Q) (k : Client P sha256) where
    -- The three tests, on the calls that the function makes.
    abbrev pub is_missing : Bool
    is_missing = eqb_ℤ (client_get_attr P Q sha256 delivery path garbage buf s).0 (negate enoent)

    abbrev pub temp_check : ℤ × Client P sha256
    temp_check = is_present_in_temp P sha256 path (is_present_in_cache P sha256 path k).1

    abbrev pub is_stale : Bool
    is_stale =
        is_out_of_date P sha256
          (to_int (client_get_attr P Q sha256 delivery path garbage buf s).1.mtime) temp_check.0
          file_stat temp_check.1

    -- Whatever the calls and the server answer, `getOpenFlags` answers 3, to create, for a file
    -- that the server lacks and the caller asks to create, 2 for a working copy that is there and
    -- not older than the server's file, and 1, to fetch, in every other case.
    pub get_open_flags-wanted :
        (get_open_flags P Q sha256 delivery is_create flags path garbage buf file_stat s k).0
        ≡ wanted_flag is_missing (is_create || flags.creat) temp_check.0 is_stale
    unfolding get_open_flags wanted_flag
    get_open_flags-wanted =
        let cached = (is_present_in_cache P sha256 path k).0 in
        ground (arith, choose_open_flag-stale cached temp_check.0 is_stale temp_check.1)

    -- It never answers 4: the branch that would take a fresh copy from the cache is dead.
    pub get_open_flags-ne-four :
        (get_open_flags P Q sha256 delivery is_create flags path garbage buf file_stat s k).0 ≢ 4
    unfolding wanted_flag
    get_open_flags-ne-four e = ground (arith, get_open_flags-wanted)
