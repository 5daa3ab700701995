-- ===== src/Mounted/Fleet/Sessions.antt =====
-- A write, a close and an open by clients of one server: unreliablefs/unreliablefs/unreliablefs_ops.c
-- over unreliablefs/unreliablefs/afs_client.cc.
use bnfs.Base.{ℕ, true, some, Bytes, All, pos, length, take, ◌≡◌, ◌≢◌}
use bnfs.Hash.{get_temp_path}
use bnfs.Hash.Paths.{IsDigest}
use bnfs.Posix.Laws.{IsLawful, overlay}
use bnfs.AfsClient.Session.{Opening, opening, Fetches}
use bnfs.Ops.{Env, Chance, no_output, returns}
use bnfs.Ops.Data.{unreliable_write, unreliable_flush}
use bnfs.Ops.Sharing.{Writes, Sends, written_to, flushed_to, write_close_open}
use bnfs.Mounted.Fleet.{Fleet, FleetReach, mount_of, put, fleet_is_local, FleetReach-local}

module _ {E : Env} where
  open E use {client_os, server_os, sha256}

  -- Client `i` of several clients of one server writes to an open file, as `Writes` says, and closes
  -- it, as `Sends` says of what is then in the file, which has no NUL byte. Then the clients take
  -- any number of steps that work on their own machines only; and then a client `j`, the same one or
  -- another, opens the path, has to fetch and succeeds in every step. The write answers the number
  -- of its bytes and the flush 0, and a reader of the working copy of client `j` finds the old
  -- contents with the written bytes in place.
  pub fleet_write_close_open :
      (L : IsLawful client_os) (M : IsLawful server_os) (digest : IsDigest sha256)
      (path buf : Bytes) (size offset fd : ℕ) (c d : Chance E) (f : Fleet E) (i : ℕ)
      (h : Writes path buf size offset fd c (mount_of E i f))
      → let contents = overlay offset (take size buf) h.old in
        let m' = written_to path buf size offset fd c (mount_of E i f) in
        All (λ x. x ≢ 0) contents
        → (s : Sends path contents fd d m')
        → let m'' = flushed_to path contents fd d m' s in
          (g : Fleet E) (r : FleetReach E (put E i m'' f) g)
          → fleet_is_local r ≡ true
          → (j : ℕ) (o : Opening)
          → Fetches client_os server_os sha256 o path contents (g.members j).client g.server
          → (unreliable_write E path buf size offset (some fd) c (mount_of E i f)
              ≡ returns (pos (length (take size buf))) no_output h.effects m')
            × (unreliable_flush E path fd d m' ≡ returns (pos 0) no_output s.effects m'')
            × (client_os.slurp
                  (opening client_os server_os sha256 o path
                    (g.members j).client
                    g.server).1.0.world
                  (get_temp_path sha256 path)
                ≡ some contents)
  fleet_write_close_open L M digest path buf size offset fd c d f i h text s g r local j o fetches =
      write_close_open L M digest path buf size offset fd c d (mount_of E i f) (g.members j).client
        o h text s g.server (FleetReach-local r local) fetches
