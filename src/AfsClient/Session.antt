-- ===== src/AfsClient/Session.antt =====
-- What an `Open` of unreliablefs/unreliablefs/afs_client.cc that fetches gives, against
-- afs_server.cc.
use bnfs.Base.{ℕ, Bool, false, some, Bytes, ℤ, pos, length, ◌≡◌, refl, ◌∙◌, arith, same_refl}
use bnfs.Stream.{chunks, buf_size, c_string}
use bnfs.Hash.{get_cache_path, get_temp_path}
use bnfs.Posix.{Posix, ret, Flags, Stat, open_file, write_all}
use bnfs.Posix.Laws.{IsLawful}
use bnfs.Cache.{Client}
use bnfs.Server.{Server, get_server_path}
use bnfs.Wire.{Delivery, Download}
use bnfs.AfsClient.{get_open_flags}
use bnfs.AfsClient.Fetch.{IsWhole, in_cache, in_both, fetch-whole, store_fetched-in_both}
use bnfs.AfsClient.Files.{State, open_flags, open_temp, client_open}

-- The arguments of an `Open` but for the path, and what is outside of the program: the fate of its
-- two calls to the server, and what uninitialised memory holds.
pub record Opening : Type 0 where
  pub is_create : Bool
  pub flags : Flags
  pub delivery : Delivery
  pub link : Download
  pub garbage : Stat
  pub buf : Stat
  pub file_stat : Stat

module _ (P Q : Posix) (sha256 : Bytes → Bytes) where
  open P use {World, sys, slurp}

  abbrev pub opening : Opening → Bytes → Client P sha256 → Server Q → ℤ × State P Q sha256
  opening o path k s =
      client_open P Q sha256 o.delivery o.link o.is_create o.flags path o.garbage o.buf o.file_stat
        (k, s)

  -- The answer of `getOpenFlags`, and the client after it.
  abbrev pub chosen : Opening → Bytes → Client P sha256 → Server Q → ℕ × Client P sha256
  chosen o path k s =
      get_open_flags P Q sha256 o.delivery o.is_create o.flags path o.garbage o.buf o.file_stat s k

  -- On the client's disk after `getOpenFlags`, both writes of the fetched text succeed, and so does
  -- the last `open`, which must not truncate.
  pub record Stores (o : Opening) (path contents : Bytes) (w : World) : Type 0 where
    pub first : ℕ
    pub caches : (sys (write_all (get_cache_path sha256 path) (c_string contents)) w).0 ≡ ret first
    pub second : ℕ
    pub writes :
        (sys
          (write_all (get_temp_path sha256 path) (c_string contents))
          (in_cache P Q sha256 path contents w)).0
        ≡ ret second
    pub keeps : o.flags.trunc ≡ false
    pub fd : ℕ
    pub opens :
        (sys
          (open_file (get_temp_path sha256 path) (open_flags o.flags) 0)
          (in_both P Q sha256 path contents w)).0
        ≡ ret fd

  -- An `Open` that has to fetch, over a whole stream, and whose calls succeed.
  pub record Fetches (o : Opening) (path contents : Bytes) (k : Client P sha256) (s : Server Q)
      : Type 0 where
    pub decides : (chosen o path k s).0 ≡ 1
    pub whole : IsWhole o.link (length (chunks buf_size contents))
    pub stores : Stores o path contents (chosen o path k s).1.world

  -- What the last `open` makes of the working copy.
  open_temp-ret :
      (L : IsLawful P) (path text : Bytes) (flags : Flags) (k : Client P sha256) (fd : ℕ)
      → (sys (open_file (get_temp_path sha256 path) (open_flags flags) 0) k.world).0 ≡ ret fd
      → flags.trunc ≡ false
      → slurp k.world (get_temp_path sha256 path) ≡ some text
      → ((open_temp P Q sha256 path flags k).0 ≡ pos fd)
        × (slurp (open_temp P Q sha256 path flags k).1.world (get_temp_path sha256 path)
            ≡ some text)
  unfolding open_temp
  open_temp-ret L path text flags k fd opens keeps there =
      rw (opens, open_temp)
        (
          refl,
          L.slurp-open_existing (get_temp_path sha256 path) (open_flags flags) 0 k.world
                (get_temp_path sha256 path) text there (ground arith)
              ∙ there,
        )

  -- An `Open` that `getOpenFlags` decides to fetch, over a whole stream, and whose writes and last
  -- `open` succeed without truncating: it returns the descriptor, a reader of the working copy
  -- finds the server's contents up to the first NUL byte, and the server is as before.
  pub open_sees_server :
      (L : IsLawful P) (o : Opening) (path contents : Bytes) (k : Client P sha256) (s : Server Q)
      → Q.slurp s.world (get_server_path path) ≡ some contents
      → (f : Fetches o path contents k s)
      → ((opening o path k s).0 ≡ pos f.stores.fd)
        × (slurp (opening o path k s).1.0.world (get_temp_path sha256 path)
            ≡ some (c_string contents))
        × ((opening o path k s).1.1 ≡ s)
  unfolding client_open
  open_sees_server L o path contents k s there f =
      let fetched =
        fetch-whole P Q sha256 o.link path contents o.flags (chosen o path k s).1 s there f.whole in
      let text =
        L.slurp-write_all (get_temp_path sha256 path) (c_string contents) _
          (get_temp_path sha256 path) f.stores.second f.stores.writes
        ∙ rw (same_refl (get_temp_path sha256 path)) in
      let (result, contents_kept) =
        open_temp-ret L path (c_string contents) o.flags
          (record ((chosen o path k s).1) {
            world = in_both P Q sha256 path contents (chosen o path k s).1.world;
          })
          f.stores.fd f.stores.opens f.stores.keeps text in
      rw (f.decides, fetched, store_fetched-in_both P Q sha256 path contents (chosen o path k s).1)
        (result, contents_kept, refl)
