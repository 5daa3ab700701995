-- ===== src/AfsClient/Fetch.antt =====
-- `fetchAndSyncServerFile` of unreliablefs/unreliablefs/afs_client.cc.
use bnfs.Base.{
  ℕ, ◌≤◌, Bool, true, false, some, List, [], ◌∷◌, map, Bytes, pos, take_all, length-map, length,
  ◌≡◌, refl, ap, ◌∙◌, arith, same, if◌then◌else◌,
}
use bnfs.Stream.{chunks, buf_size, c_string}
use bnfs.Stream.Join.{join-chunks, chunks_first}
use bnfs.Hash.{get_cache_path, get_temp_path}
use bnfs.Posix.{Posix, ret, Flags, write_all}
use bnfs.Posix.Laws.{IsLawful, after}
use bnfs.Cache.{Client, write_file_to_cache, write_file_to_temp}
use bnfs.Server.{Server, OpenResp, get_server_path, open_handler, file_chunk}
use bnfs.Wire.{Download}
use bnfs.AfsClient.{bufs, receive, open_request, fetch_and_sync_server_file, store_fetched}

-- The stream is whole: the request gets there, all its messages arrive, and the status is OK.
pub record IsWhole (link : Download) (n : ℕ) : Type 0 where
  pub reached : link.reached ≡ true
  pub arrived : n ≤ link.arrived
  pub finished : link.finished ≡ true

bufs-file_chunk : (Q : Posix) (ms : List Bytes) → bufs (map (file_chunk Q) ms) ≡ ms
bufs-file_chunk Q [] = refl
bufs-file_chunk Q (m ∷ ms) = ap (◌∷◌ m) (bufs-file_chunk Q ms)

module _ (P Q : Posix) (sha256 : Bytes → Bytes) where
  open P use {World, sys, slurp}

  -- The client's disk after the two writes of `text`.
  abbrev pub in_cache : Bytes → Bytes → World → World
  in_cache path text w = after P (write_all (get_cache_path sha256 path) (c_string text)) w

  abbrev pub in_both : Bytes → Bytes → World → World
  in_both path text w =
      after P (write_all (get_temp_path sha256 path) (c_string text)) (in_cache path text w)

  pub store_fetched-in_both :
      (path text : Bytes) (k : Client P sha256)
      → store_fetched P Q sha256 path text k ≡ record k { world = in_both path text k.world }
  unfolding store_fetched write_file_to_cache write_file_to_temp
  store_fetched-in_both path text k = refl

  -- The messages of a stream that is whole are those of the file.
  receive-whole :
      (link : Download) (path contents : Bytes) (flags : Flags) (is_create : Bool) (s : Server Q)
      → Q.slurp s.world (get_server_path path) ≡ some contents
      → IsWhole link (length (chunks buf_size contents))
      → receive P Q sha256 link (open_request P Q sha256 path flags is_create) s
        ≡ (map (file_chunk Q) (chunks buf_size contents), s)
  unfolding receive open_handler
  receive-whole link path contents flags is_create s there whole =
      rw (there, open_handler, whole.reached, if◌then◌else◌)
        (ap (λ (l : List OpenResp). (l, s))
          (take_all link.arrived _
            (omega (arith, length-map (file_chunk Q) (chunks buf_size contents), whole.arrived))))

  pub fetch-whole :
      (link : Download) (path contents : Bytes) (flags : Flags) (k : Client P sha256) (s : Server Q)
      → Q.slurp s.world (get_server_path path) ≡ some contents
      → IsWhole link (length (chunks buf_size contents))
      → fetch_and_sync_server_file P Q sha256 link path flags k s
        ≡ (pos 0, store_fetched P Q sha256 path contents k, s)
  unfolding fetch_and_sync_server_file
  fetch-whole link path contents flags k s there whole =
      let (m, ms, cut) = chunks_first buf_size contents in
      ground (
        arith,
        receive-whole link path contents flags false s there whole,
        cut,
        whole.finished,
        bufs-file_chunk Q (m ∷ ms),
        join-chunks buf_size contents,
      )

  -- A fetch of a file that the server has, over a whole stream and with both writes succeeding,
  -- reports success and leaves the server as it was; a reader of either copy finds the server's
  -- contents up to the first NUL byte, and all other files are as before.
  pub fetch_stores_c_string :
      (L : IsLawful P) (link : Download) (path contents : Bytes) (flags : Flags)
      (k : Client P sha256) (s : Server Q) (n m : ℕ)
      → Q.slurp s.world (get_server_path path) ≡ some contents
      → IsWhole link (length (chunks buf_size contents))
      → (sys (write_all (get_cache_path sha256 path) (c_string contents)) k.world).0 ≡ ret n
      → (sys
          (write_all (get_temp_path sha256 path) (c_string contents))
          (in_cache path contents k.world)).0
        ≡ ret m
      → let r = fetch_and_sync_server_file P Q sha256 link path flags k s in
        (r.0 ≡ pos 0)
        × (r.2 ≡ s)
        × ((q : Bytes)
            → slurp r.1.world q ≡ (
                if same (get_temp_path sha256 path) q
                then some (c_string contents)
                else if same (get_cache_path sha256 path) q
                then some (c_string contents)
                else slurp k.world q))
  fetch_stores_c_string L link path contents flags k s n m there whole cached temp =
      let run =
        fetch-whole link path contents flags k s there whole
        ∙ ap (λ (c : Client P sha256). (pos 0, c, s)) (store_fetched-in_both path contents k) in
      rw run (
        refl,
        refl,
        λ q. L.slurp-write_all _ _ _ q m temp ∙ rw (L.slurp-write_all _ _ k.world q n cached),
      )
