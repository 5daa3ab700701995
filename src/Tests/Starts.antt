-- ===== src/Tests/Starts.antt =====
-- Examples of a client that starts.
use bnfs.Base.{true, none, some, [], ◌∷◌, Bytes, same, ◌≡◌, refl, arith}
use bnfs.Hash.{get_cache_path, get_temp_path, temp_dir, get_hashed_path}
use bnfs.Posix.{Posix, got}
use bnfs.Posix.Laws.{IsLawful}
use bnfs.Posix.Memory.{Disk, memory}
use bnfs.Posix.Memory.Lawful.{memory-IsLawful}
use bnfs.Cache.Setup.{
  in_dir, with_dirs, init_cache, new_afs_client, is_listed, Removes, Lists, new_afs_client_clears,
}
use bnfs.Tests.Scene.{digest, path, text, zeros, disk_with}

-- One directory, with the working copy of `path` in it.
abbrev pub listing : Posix
listing = record memory {
  entries = λ d p. got (record { name = get_hashed_path digest path; is_regular = true } ∷ []);
  stat = λ d p. got (record zeros { mode = 16877 });
}

listing-IsLawful : IsLawful listing
listing-IsLawful = record {
  slurp_quiet = memory-IsLawful.slurp_quiet;
  slurp-open_existing = memory-IsLawful.slurp-open_existing;
  slurp_failed = memory-IsLawful.slurp_failed;
  slurp-write_some = memory-IsLawful.slurp-write_some;
  slurp-write_all = memory-IsLawful.slurp-write_all;
  slurp-rename = memory-IsLawful.slurp-rename;
  slurp-creat_file = memory-IsLawful.slurp-creat_file;
  slurp-remove = memory-IsLawful.slurp-remove;
  slurp-unlink = memory-IsLawful.slurp-unlink;
  slurp-cp = memory-IsLawful.slurp-cp;
  slurp-pwrite = memory-IsLawful.slurp-pwrite;
  slurp-naming = memory-IsLawful.slurp-naming;
  mtime_kept = memory-IsLawful.mtime_kept;
  mtime-utime = memory-IsLawful.mtime-utime;
  fstat-open_file = memory-IsLawful.fstat-open_file;
}

abbrev pub left_over : Disk
left_over = disk_with (get_temp_path digest path) text

listing-Removes : Removes listing listing-IsLawful
listing-Removes p c w h = (0, ground (arith, h))

file_there : (p q b c : Bytes) → listing.slurp (disk_with p b) q ≡ some c → same p q ≡ true
file_there p q b c h = ground (arith, h)

left_over_named :
    (name c : Bytes)
    → listing.slurp left_over (in_dir temp_dir name) ≡ some c
    → same (get_hashed_path digest path) name ≡ true
unfolding same get_temp_path
left_over_named name c h = file_there (get_temp_path digest path) (in_dir temp_dir name) text c h

left_over-Lists : Lists listing listing-IsLawful (with_dirs listing left_over)
unfolding bnfs.Cache.Setup.init_dir
left_over-Lists = record {
  dir = record zeros { mode = 16877 };
  is_there = refl;
  es = record { name = get_hashed_path digest path; is_regular = true } ∷ [];
  reads = refl;
  complete = λ name c h. rw (left_over_named name c h);
}

new_afs_client_clears_example :
    let k = new_afs_client listing digest left_over in
    (listing.slurp k.world (get_temp_path digest path) ≡ none)
    × (listing.slurp k.world (get_cache_path digest path)
        ≡ listing.slurp left_over (get_cache_path digest path))
    × (k.dirty_files ≡ [])
new_afs_client_clears_example =
    new_afs_client_clears listing listing-IsLawful digest left_over listing-Removes left_over-Lists
      path
