-- ===== src/AfsClient/Rename.antt =====
-- `Rename` and `Unlink` of unreliablefs/unreliablefs/afs_client.cc: what they leave of the local
-- copies and of the set of dirty files.
use bnfs.Base.{
  ℕ, false, none, Bytes, pos, ◌≡◌, refl, ◌∙◌, arith, same, same-ne, same_refl, ◌||◌, ◌&&◌,
}
use bnfs.Hash.{get_cache_path, get_temp_path}
use bnfs.Hash.Paths.{IsDigest, get_temp_path-ne-get_cache_path}
use bnfs.Posix.{Posix, Call, close, ret, rename, remove, unlink}
use bnfs.Posix.Laws.{IsLawful}
use bnfs.Cache.{Client, did, is_file_dirty, mark_file_dirty, unmark_file_dirty, delete_from_temp}
use bnfs.Cache.Dirty.{is_file_dirty-mark, is_file_dirty-unmark, is_file_dirty-delete}
use bnfs.Server.{Server, get_server_path, unlink_handler}
use bnfs.Wire.{delivered}
use bnfs.AfsClient.Files.{rename_local, client_unlink}

module _ (P Q : Posix) {sha256 : Bytes → Bytes} (digest : IsDigest sha256) where
  open P use {sys, slurp}

  -- A call changes the disk, and not the set.
  is_file_dirty-did :
      (q : Bytes) (c : Call) (k : Client P sha256)
      → is_file_dirty P sha256 q (did P sha256 c k) ≡ is_file_dirty P sha256 q k
  unfolding is_file_dirty
  is_file_dirty-did q c k = refl

  -- The set of dirty files after the local part of a `Rename` that succeeds: if the old path was
  -- dirty then the new one is too, and every path that was dirty still is, the old one included.
  pub is_file_dirty-rename_local :
      (fd : ℕ) (old_path new_path q : Bytes) (k : Client P sha256) (n : ℕ)
      → (sys (rename (get_temp_path sha256 old_path) (get_temp_path sha256 new_path)) k.world).0
        ≡ ret n
      → is_file_dirty P sha256 q (rename_local P Q sha256 fd old_path new_path k).1
        ≡ (is_file_dirty P sha256 q k || (is_file_dirty P sha256 old_path k && same new_path q))
  unfolding rename_local
  is_file_dirty-rename_local fd old_path new_path q k n moved =
      let c = rename (get_temp_path sha256 old_path) (get_temp_path sha256 new_path) in
      let k₁ = did P sha256 c k in
      let unmarked = unmark_file_dirty P sha256 old_path k₁ in
      let marked = mark_file_dirty P sha256 new_path unmarked in
      ground (
        arith,
        moved,
        is_file_dirty-did old_path c k,
        is_file_dirty-did q c k,
        is_file_dirty-did q (close (pos fd)) k₁,
        is_file_dirty-did q (close (pos fd)) marked,
        is_file_dirty-unmark P sha256 old_path q k₁,
        is_file_dirty-mark digest new_path q unmarked,
      )

  -- `Unlink` that the server carries out, where the working copy is there: the server has no file
  -- at the path, the path is clean, the working copy is gone, and the cached copy stays.
  client_unlink-ok :
      (L : IsLawful P) (M : IsLawful Q) (path : Bytes) (k : Client P sha256) (s : Server Q)
      (n m : ℕ)
      → (Q.sys (unlink (get_server_path path)) s.world).0 ≡ ret n
      → (sys (remove (get_temp_path sha256 path)) k.world).0 ≡ ret m
      → let r = client_unlink P Q sha256 delivered path (k, s) in
        (r.0 ≡ pos 0)
        × (Q.slurp r.1.1.world (get_server_path path) ≡ none)
        × (is_file_dirty P sha256 path r.1.0 ≡ false)
        × (slurp r.1.0.world (get_temp_path sha256 path) ≡ none)
        × (slurp r.1.0.world (get_cache_path sha256 path)
            ≡ slurp k.world (get_cache_path sha256 path))
  unfolding client_unlink unlink_handler delete_from_temp
  client_unlink-ok L M path k s n m gone removed = (
    rw gone,
    M.slurp-unlink _ s.world (get_server_path path) n gone ∙ rw (same_refl (get_server_path path)),
    is_file_dirty-delete digest path path k ∙ rw (same_refl path),
    L.slurp-remove _ k.world (get_temp_path sha256 path) m removed
        ∙ rw (same_refl (get_temp_path sha256 path)),
    L.slurp-remove _ k.world (get_cache_path sha256 path) m removed
        ∙ rw (same-ne _ _ (get_temp_path-ne-get_cache_path sha256 path path)),
  )
