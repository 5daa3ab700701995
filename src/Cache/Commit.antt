-- ===== src/Cache/Commit.antt =====
-- `commitToCache` of unreliablefs/unreliablefs/cache_helper.cc on files.
use bnfs.Base.{
  ℕ, some, Bytes, ℤ, pos, ◌≡◌, refl, sym, ◌∙◌, arith, same, same-ne, same_refl, if◌then◌else◌,
}
use bnfs.Hash.{get_cache_path, get_temp_path}
use bnfs.Hash.Paths.{get_temp_path-ne-get_cache_path}
use bnfs.Posix.{Posix, ret, exited, o_rdwr, open_file, close, utime}
use bnfs.Posix.Laws.{IsLawful, after, mtime}
use bnfs.Cache.{Client, commit_to_cache, erased}

module _ (P : Posix) (sha256 : Bytes → Bytes) (path : Bytes) (fd : ℕ) where
  open P use {World, sys, cp, slurp}

  -- The disk on which `cp` runs, where `fd` is the descriptor of the working copy; the disk after
  -- it, and the disk at the end.
  abbrev pub before_cp : World → World
  before_cp w =
      after P (close (pos fd)) (after P (open_file (get_temp_path sha256 path) o_rdwr 0) w)

  abbrev pub after_cp : World → World
  after_cp w = (cp (get_temp_path sha256 path) (get_cache_path sha256 path) (before_cp w)).1

  abbrev pub temp_timed : ℤ → World → World
  temp_timed t w = after P (utime (get_temp_path sha256 path) t) (after_cp w)

  abbrev pub after_commit : ℤ → World → World
  after_commit t w = after P (utime (get_cache_path sha256 path) t) (temp_timed t w)

  -- The working copy opens, and `cp` ends with status 0.
  pub record Copies (w : World) : Type 0 where
    pub opens : (sys (open_file (get_temp_path sha256 path) o_rdwr 0) w).0 ≡ ret fd
    pub copies :
        (cp (get_temp_path sha256 path) (get_cache_path sha256 path) (before_cp w)).0 ≡ exited 0

  pub commit_to_cache-Copies :
      (t : ℤ) (k : Client P sha256)
      → Copies k.world
      → commit_to_cache P sha256 path t k
        ≡ (pos 0, erased P sha256 path (record k { world = after_commit t k.world }))
  unfolding commit_to_cache
  commit_to_cache-Copies t k c = ground (arith, c.opens, c.copies)

  module _ (L : IsLawful P) where
    slurp-before_cp : (w : World) (q : Bytes) → slurp (before_cp w) q ≡ slurp w q
    slurp-before_cp w q = L.slurp_quiet _ _ q refl ∙ L.slurp_quiet _ w q refl

    -- A reader of the cache file finds the working copy, and all other files are as before.
    pub slurp-after_commit :
        (t : ℤ) (w : World) (q : Bytes)
        → Copies w
        → slurp (after_commit t w) q ≡ (
            if same (get_cache_path sha256 path) q
            then slurp w (get_temp_path sha256 path)
            else slurp w q)
    slurp-after_commit t w q c =
        L.slurp_quiet _ _ q refl
        ∙ L.slurp_quiet _ _ q refl
        ∙ L.slurp-cp _ _ (before_cp w) q c.copies
        ∙ rw (slurp-before_cp w q, slurp-before_cp w (get_temp_path sha256 path))

    -- Both copies get the server's time, if the two calls of `utime` succeed.
    pub mtime-after_commit :
        (t : ℕ) (w : World) (n m : ℕ)
        → (sys (utime (get_temp_path sha256 path) (pos t)) (after_cp w)).0 ≡ ret n
        → (sys (utime (get_cache_path sha256 path) (pos t)) (temp_timed (pos t) w)).0 ≡ ret m
        → (mtime P (after_commit (pos t) w) (get_temp_path sha256 path) ≡ some t)
          × (mtime P (after_commit (pos t) w) (get_cache_path sha256 path) ≡ some t)
    mtime-after_commit t w n m temp cache = (
      L.mtime-utime _ t _ (get_temp_path sha256 path) m cache
          ∙ rw (same-ne _ _ (λ e. get_temp_path-ne-get_cache_path sha256 path path (sym e))) (
              L.mtime-utime _ t _ (get_temp_path sha256 path) n temp
              ∙ rw (same_refl (get_temp_path sha256 path))),
      L.mtime-utime _ t _ (get_cache_path sha256 path) m cache
          ∙ rw (same_refl (get_cache_path sha256 path)),
    )

    -- A commit whose working copy opens, whose `cp` ends with status 0 and whose two calls of
    -- `utime` succeed: it answers 0, a reader of the cache file finds the working copy and every
    -- other file is as before, both copies have the server's time, and the set of dirty files has
    -- lost the path's name.
    commit_to_cache_stores :
        (t n m : ℕ) (k : Client P sha256)
        → Copies k.world
        → (sys (utime (get_temp_path sha256 path) (pos t)) (after_cp k.world)).0 ≡ ret n
        → (sys (utime (get_cache_path sha256 path) (pos t)) (temp_timed (pos t) k.world)).0 ≡ ret m
        → let r = commit_to_cache P sha256 path (pos t) k in
          (r.0 ≡ pos 0)
          × ((q : Bytes)
              → slurp r.1.world q ≡ (
                  if same (get_cache_path sha256 path) q
                  then slurp k.world (get_temp_path sha256 path)
                  else slurp k.world q))
          × (mtime P r.1.world (get_temp_path sha256 path) ≡ some t)
          × (mtime P r.1.world (get_cache_path sha256 path) ≡ some t)
          × (r.1.dirty_files ≡ (erased P sha256 path k).dirty_files)
    commit_to_cache_stores t n m k c temp cache =
        let times = mtime-after_commit t k.world n m temp cache in
        rw (commit_to_cache-Copies (pos t) k c)
          (refl, λ q. slurp-after_commit (pos t) k.world q c, times.0, times.1, refl)
