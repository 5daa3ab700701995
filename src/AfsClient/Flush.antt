-- ===== src/AfsClient/Flush.antt =====
-- `Flush` of unreliablefs/unreliablefs/afs_client.cc: a dirty file on its way to the server.
use bnfs.Base.{
  ℕ, zero, suc, ◌≤◌, Bool, true, false, none, some, List, [], ◌∷◌, map, Bytes, pos, negsuc, to_int,
  take, take_all, length, ◌≡◌, refl, sym, ap, ◌∙◌, arith, same-ne, same_refl, if◌then◌else◌, ◌==◌,
}
use bnfs.Stream.{chunks, join, buf_size}
use bnfs.Stream.Join.{join-chunks}
use bnfs.Hash.{get_cache_path, get_temp_path}
use bnfs.Hash.Paths.{IsDigest, get_temp_path-ne-get_cache_path}
use bnfs.Posix.{Posix, ret, write_all}
use bnfs.Posix.Laws.{IsLawful}
use bnfs.Cache.{Client, is_file_dirty, erased}
use bnfs.Cache.Dirty.{is_file_dirty-erased}
use bnfs.Cache.Commit.{Copies, after_commit, commit_to_cache-Copies, slurp-after_commit}
use bnfs.Server.{
  Server, PutFileReq, PutFileResp, ok, answered, get_server_path, temp_file_path, contents_of,
  put_file,
}
use bnfs.Server.Put.{put_file_stores}
use bnfs.Wire.{Upload}
use bnfs.AfsClient.{upload}
use bnfs.AfsClient.Files.{State, client_flush, finish_flush}

-- One message of an upload.
abbrev pub piece : Bytes → Bytes → PutFileReq
piece path b = record { path = path; contents = b }

pub contents_of-piece : (path : Bytes) (ms : List Bytes) → contents_of (map (piece path) ms) ≡ ms
contents_of-piece path [] = refl
contents_of-piece path (m ∷ ms) = ap (◌∷◌ m) (contents_of-piece path ms)

take-map {ℓ κ} :
    {A : Type ℓ} {B : Type κ} (f : A → B) (n : ℕ) (xs : List A)
    → take n (map f xs) ≡ map f (take n xs)
take-map f zero xs = refl
take-map f (suc n) [] = refl
take-map f (suc n) (x ∷ xs) = ap (◌∷◌ (f x)) (take-map f n xs)

-- The client's side accepts every message, the path and `j` pieces may arrive, and the status that
-- the server answers with comes back only if `finished`.
pub record Arrives (link : Upload) (total j : ℕ) (finished : Bool) : Type 0 where
  pub accepted : total ≤ link.accepted
  pub arrived : link.arrived ≡ suc j
  pub ends : link.finished ≡ finished

module _ (P Q : Posix) (sha256 : Bytes → Bytes) where
  -- What the server reads of an upload: the path, and the first `j` pieces.
  abbrev pub arrived_part : Bytes → Bytes → ℕ → List PutFileReq
  arrived_part path contents j =
      piece path [] ∷ map (piece path) (take j (chunks buf_size contents))

  read-Arrives :
      (link : Upload) (path contents : Bytes) (j : ℕ) (finished : Bool)
      → Arrives link (length (upload path contents)) j finished
      → take link.arrived (take link.accepted (upload path contents)) ≡ arrived_part path contents j
  read-Arrives link path contents j finished a =
      rw (take_all link.accepted (upload path contents) a.accepted, a.arrived)
        (ap (◌∷◌ (piece path [])) (take-map (piece path) j (chunks buf_size contents)))

  -- `Flush` of a dirty file, from what the server answers to the part that arrived.
  flush-Arrives :
      (draws : ℕ → ℕ) (link : Upload) (path contents : Bytes) (j : ℕ) (finished : Bool)
      (k : Client P sha256) (s : Server Q)
      → P.slurp k.world (get_temp_path sha256 path) ≡ some contents
      → is_file_dirty P sha256 path k ≡ true
      → Arrives link (length (upload path contents)) j finished
      → client_flush P Q sha256 draws link path (k, s)
        ≡ finish_flush P Q sha256 finished path
            (put_file Q draws (arrived_part path contents j) s).0
            (k, (put_file Q draws (arrived_part path contents j) s).1)
  unfolding client_flush
  flush-Arrives draws link path contents j finished k s there dirty a =
      let used : (link.accepted == 0) ≡ false = ground (arith, a.accepted) in
      rw (
        there,
        client_flush,
        dirty,
        if◌then◌else◌,
        read-Arrives link path contents j finished a,
        a.ends,
        used,
        if◌then◌else◌,
      )

  -- A file that is not dirty is not sent, and nothing changes.
  pub flush_clean :
      (draws : ℕ → ℕ) (link : Upload) (path contents : Bytes) (k : Client P sha256) (s : Server Q)
      → P.slurp k.world (get_temp_path sha256 path) ≡ some contents
      → is_file_dirty P sha256 path k ≡ false
      → client_flush P Q sha256 draws link path (k, s) ≡ some (pos 0, (k, s))
  unfolding client_flush
  flush_clean draws link path contents k s there clean = ground (arith, there, clean)

  -- A mutex that an earlier upload kept stops the client for ever.
  pub flush_waits :
      (draws : ℕ → ℕ) (link : Upload) (path contents : Bytes) (j : ℕ) (k : Client P sha256)
      (s : Server Q)
      → P.slurp k.world (get_temp_path sha256 path) ≡ some contents
      → is_file_dirty P sha256 path k ≡ true
      → Arrives link (length (upload path contents)) j true
      → s.locked ≡ true
      → client_flush P Q sha256 draws link path (k, s) ≡ none
  unfolding finish_flush put_file
  flush_waits draws link path contents j k s there dirty a held =
      flush-Arrives draws link path contents j true k s there dirty a ∙ ground (arith, held)

  -- A flush in which every step succeeds: the dirty working copy holds `contents`, all pieces
  -- arrive, the server writes them and answers OK, and `cp` copies the file to the cache.
  pub record Publishes (draws : ℕ → ℕ) (link : Upload) (path contents : Bytes) (k : Client P sha256)
      (s : Server Q) : Type 0 where
    pub there : P.slurp k.world (get_temp_path sha256 path) ≡ some contents
    pub dirty : is_file_dirty P sha256 path k ≡ true
    pub last : ℕ
    pub arrives : Arrives link (length (upload path contents)) last true
    pub carries : length (chunks buf_size contents) ≤ last
    pub written : ℕ
    pub writes : (Q.sys (write_all (temp_file_path draws path) contents) s.world).0 ≡ ret written
    pub reply : PutFileResp
    pub answers : (put_file Q draws (arrived_part path contents last) s).0 ≡ answered ok reply
    pub fd : ℕ
    pub copies : Copies P sha256 path fd k.world

  -- The two machines after such a flush.
  abbrev pub published :
      (draws : ℕ → ℕ) (link : Upload) (path contents : Bytes) (k : Client P sha256) (s : Server Q)
      → Publishes draws link path contents k s
      → State P Q sha256
  published draws link path contents k s p = (
    erased P sha256 path (record k {
      world = after_commit P sha256 path p.fd (to_int p.reply.last_modified_time) k.world;
    }),
    (put_file Q draws (arrived_part path contents p.last) s).1,
  )

  module _ (M : IsLawful Q) where
    -- If the stream of a dirty file breaks after `j` pieces, and the server can write the temporary
    -- file and answers OK, then `Flush` reports failure, the client is as it was, and the server's
    -- file has become the part that arrived.
    pub broken_upload_truncates :
        (draws : ℕ → ℕ) (link : Upload) (path contents : Bytes) (j n : ℕ) (resp : PutFileResp)
        (k : Client P sha256) (s : Server Q)
        → P.slurp k.world (get_temp_path sha256 path) ≡ some contents
        → is_file_dirty P sha256 path k ≡ true
        → Arrives link (length (upload path contents)) j false
        → (Q.sys
            (write_all (temp_file_path draws path) (join (take j (chunks buf_size contents))))
            s.world).0
          ≡ ret n
        → (put_file Q draws (arrived_part path contents j) s).0 ≡ answered ok resp
        → (t : Server Q) × (client_flush P Q sha256 draws link path (k, s)
            ≡ some (negsuc 0, (k, t)))
          × (Q.slurp t.world (get_server_path path)
              ≡ some (join (take j (chunks buf_size contents))))
    unfolding finish_flush
    broken_upload_truncates draws link path contents j n resp k s there dirty a written answer =
        let part = contents_of-piece path (take j (chunks buf_size contents)) in
        let stored =
          put_file_stores M draws (piece path [])
            (map (piece path) (take j (chunks buf_size contents))) s n resp (rw part written)
            answer in
        (
          (put_file Q draws (arrived_part path contents j) s).1,
          flush-Arrives draws link path contents j false k s there dirty a,
          stored.0 (get_server_path path) ∙ rw (same_refl (get_server_path path), part),
        )

    -- `Flush` of a dirty file over a stream that carries all of it, where the server's temporary file
    -- is written to its end, the server answers OK, and the copy to the cache succeeds: the call returns 0, the server's file, the cache and the
    -- working copy hold the same contents, and the file is no longer dirty.
    pub flush_publishes :
        (L : IsLawful P) (digest : IsDigest sha256) (draws : ℕ → ℕ) (link : Upload)
        (path contents : Bytes) (k : Client P sha256) (s : Server Q)
        → (p : Publishes draws link path contents k s)
        → let r = published draws link path contents k s p in
          (client_flush P Q sha256 draws link path (k, s) ≡ some (pos 0, r))
          × (Q.slurp r.1.world (get_server_path path) ≡ some contents)
          × (P.slurp r.0.world (get_cache_path sha256 path) ≡ some contents)
          × (P.slurp r.0.world (get_temp_path sha256 path) ≡ some contents)
          × (is_file_dirty P sha256 path r.0 ≡ false)
    unfolding finish_flush
    flush_publishes L digest draws link path contents k s p =
        let part = contents_of-piece path (take p.last (chunks buf_size contents)) in
        let joined =
          ap join (take_all p.last (chunks buf_size contents) p.carries)
          ∙ join-chunks buf_size contents (omega arith) in
        let stored =
          put_file_stores M draws (piece path [])
            (map (piece path) (take p.last (chunks buf_size contents))) s p.written p.reply
            (rw (part, joined) p.writes) p.answers in
        let t = to_int p.reply.last_modified_time in
        let committed : Client P sha256 = record k {
          world = after_commit P sha256 path p.fd t k.world;
        } in
        (
          flush-Arrives draws link path contents p.last true k s p.there p.dirty p.arrives
              ∙ rw
                  (p.answers, finish_flush, commit_to_cache-Copies P sha256 path p.fd t k p.copies),
          stored.0 (get_server_path path) ∙ rw (same_refl (get_server_path path), part, joined),
          slurp-after_commit P sha256 path p.fd L t k.world (get_cache_path sha256 path) p.copies
              ∙ rw (same_refl (get_cache_path sha256 path), p.there),
          slurp-after_commit P sha256 path p.fd L t k.world (get_temp_path sha256 path) p.copies
              ∙ rw (
                same-ne (get_cache_path sha256 path) (get_temp_path sha256 path)
                    (λ e. get_temp_path-ne-get_cache_path sha256 path path (sym e)),
                p.there,
              ),
          is_file_dirty-erased digest path path committed ∙ rw (same_refl path),
        )
