-- ===== src/AfsClient/During.antt =====
-- `fetchAndSyncServerFile` of unreliablefs/unreliablefs/afs_client.cc while uploads run in
-- afs_server.cc.
use bnfs.Base.{
  ℕ, some, List, Bytes, pos, length, ◌≡◌, ◌≢◌, ◌⊎◌, inl, inr, refl, true, ◌∙◌, same, if◌then◌else◌,
}
use bnfs.Stream.{chunks, buf_size, c_string}
use bnfs.Posix.{Posix, Flags, ret, write_all}
use bnfs.Hash.{get_cache_path, get_temp_path}
use bnfs.Posix.Laws.{IsLawful}
use bnfs.Cache.{Client}
use bnfs.Server.{Server, get_server_path}
use bnfs.Server.Threads.{Job, run}
use bnfs.Server.Whole.{CanWrite, fresh, is_past, uploads_atomic}
use bnfs.Wire.{Download}
use bnfs.AfsClient.{fetch_and_sync_server_file}
use bnfs.AfsClient.Fetch.{IsWhole, in_cache, fetch_stores_c_string}

module _ (P : Posix) {Q : Posix} (M : IsLawful Q) (sha256 : Bytes → Bytes) (jobs : ℕ → Job) where
  -- The server after some calls of the uploads.
  abbrev pub server_at : Q.World → List ℕ → Server Q
  server_at w ks =
      let t = run Q jobs ks (fresh M jobs w) in record { world = t.world; locked = t.locked }

  -- What the client gets of `contents` is all, and both of its writes of the text succeed.
  pub record Receives (link : Download) (path contents : Bytes) (k : Client P sha256) : Type 0 where
    pub whole : IsWhole link (length (chunks buf_size contents))
    pub first : ℕ
    pub caches :
        (P.sys (write_all (get_cache_path sha256 path) (c_string contents)) k.world).0 ≡ ret first
    pub second : ℕ
    pub writes :
        (P.sys
          (write_all (get_temp_path sha256 path) (c_string contents))
          (in_cache P Q sha256 path contents k.world)).0
        ≡ ret second

  -- What a reader of any path finds on the client's disk `v` once both copies have `contents` up to
  -- the first NUL byte, and all else is as on `w`.
  abbrev pub BothHave : (path contents : Bytes) → P.World → P.World → Type 0
  BothHave path contents w v =
      (q : Bytes)
      → P.slurp v q ≡ (
          if same (get_temp_path sha256 path) q
          then some (c_string contents)
          else if same (get_cache_path sha256 path) q
          then some (c_string contents)
          else P.slurp w q)

  stored :
      (L : IsLawful P) (w : Q.World) (ks : List ℕ) (link : Download) (path contents : Bytes)
      (flags : Flags) (k : Client P sha256)
      → Q.slurp (server_at w ks).world (get_server_path path) ≡ some contents
      → Receives link path contents k
      → let r = fetch_and_sync_server_file P Q sha256 link path flags k (server_at w ks) in
        (r.0 ≡ pos 0) × (r.2 ≡ server_at w ks) × BothHave path contents k.world r.1.world
  stored L w ks link path contents flags k now f =
      fetch_stores_c_string P Q sha256 L link path contents flags k (server_at w ks) f.first
        f.second now f.whole f.caches f.writes

  -- While any number of uploads whose temporary files can be written run at once, a client fetches
  -- a file that was there at first and is nobody's temporary file; its stream is whole and its two
  -- writes succeed, for what the server has. At whatever point the server opens the file, the fetch
  -- reports success and leaves the server as it was, and a reader of either copy finds, up to the
  -- first NUL byte, the file as it was at first, or all of what one upload to this path brought,
  -- which is behind its `rename`; all other files of the client are as before.
  pub fetch_during_uploads :
      (L : IsLawful P) (w : Q.World) (ks : List ℕ) (link : Download) (path old : Bytes)
      (flags : Flags) (k : Client P sha256)
      → ((i : ℕ) → CanWrite M (jobs i))
      → ((i : ℕ) → (jobs i).temp ≢ get_server_path path)
      → Q.slurp w (get_server_path path) ≡ some old
      → ((contents : Bytes)
          → Q.slurp (server_at w ks).world (get_server_path path) ≡ some contents
          → Receives link path contents k)
      → let r = fetch_and_sync_server_file P Q sha256 link path flags k (server_at w ks) in
        (r.0 ≡ pos 0)
        × (r.2 ≡ server_at w ks)
        × ((contents : Bytes) × BothHave path contents k.world r.1.world
            × ((contents ≡ old)
                ⊎ ((i : ℕ) × ((jobs i).target ≡ get_server_path path)
                    × (contents ≡ (jobs i).contents)
                    × (is_past ((run Q jobs ks (fresh M jobs w)).places i) ≡ true))))
  fetch_during_uploads L w ks link path old flags k can apart there receives =
      elim (uploads_atomic M jobs w ks (get_server_path path) can apart) [
        | inl same_bytes ↦
            let (code, server, read) =
              stored L w ks link path old flags k (same_bytes ∙ there)
                (receives old (same_bytes ∙ there)) in
            (code, server, (old, read, inl refl))
        | inr (i, named, now, past) ↦
            let (code, server, read) =
              stored L w ks link path (jobs i).contents flags k now
                (receives (jobs i).contents now) in
            (code, server, ((jobs i).contents, read, inr (i, named, refl, past)))
      ]
