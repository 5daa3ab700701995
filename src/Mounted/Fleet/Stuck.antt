-- ===== src/Mounted/Fleet/Stuck.antt =====
-- One failed `rename` of unreliablefs/unreliablefs/afs_server.cc, and the clients that use it.
use bnfs.Base.{ℕ, true, some, List, ◌∷◌, Bytes, pos, length, ◌≡◌, ap, ◌∙◌}
use bnfs.Hash.{get_temp_path}
use bnfs.Posix.{fail, rename, write_all}
use bnfs.Posix.Laws.{IsLawful}
use bnfs.Stream.{join}
use bnfs.Cache.{is_file_dirty}
use bnfs.Server.{Server, PutFileReq, temp_file_path, get_server_path, contents_of, put_file}
use bnfs.Server.Lock.{put_file_keeps_lock}
use bnfs.AfsClient.{upload}
use bnfs.AfsClient.Flush.{Arrives}
use bnfs.FuseOp.{op_flush}
use bnfs.Errinj.{Effect}
use bnfs.Errinj.Config.{answers}
use bnfs.Ops.{Env, Chance, waits, injected}
use bnfs.Ops.Data.{unreliable_flush}
use bnfs.Ops.Flushing.{Closes}
use bnfs.Mounted.Reachable.{Reach-flush-waits}
use bnfs.Mounted.Fleet.{Fleet, FleetReach, mount_of, FleetReach-Reach}

module _ {E : Env} where
  open E use {client_os, server_os, sha256}

  -- A fleet whose server has just taken an upload of which the `rename` failed: whatever the clients
  -- then do and whatever requests come from outside, a flush by any client of a dirty file of any
  -- path, in which nothing is injected and `close (dup (fh))` succeeds, and that arrives at the
  -- server, never returns.
  pub fleet_flush_waits :
      IsLawful client_os
      → (draws : ℕ → ℕ) (first : PutFileReq) (rest : List PutFileReq) (s : Server server_os) (e : ℕ)
      → (server_os.sys
          (rename (temp_file_path draws first.path) (get_server_path first.path))
          (server_os.sys
            (write_all (temp_file_path draws first.path) (join (contents_of rest)))
            s.world).1).0
        ≡ fail e
      → (f g : Fleet E) → f.server ≡ (put_file server_os draws (first ∷ rest) s).1
      → FleetReach E f g
      → (i : ℕ) (path contents : Bytes) (fh j : ℕ) (c : Chance E) (effects : List Effect)
      → injected E op_flush path c (mount_of E i g) ≡ answers (pos 0) effects
      → Closes fh (mount_of E i g)
      → client_os.slurp (g.members i).client.world (get_temp_path sha256 path) ≡ some contents
      → is_file_dirty client_os sha256 path (g.members i).client ≡ true
      → Arrives c.upload (length (upload path contents)) j true
      → unreliable_flush E path fh c (mount_of E i g) ≡ waits
  fleet_flush_waits L draws first rest s e failure f g left r i path contents fh j c effects free
        closes there dirty a =
      Reach-flush-waits L (mount_of E i f) (mount_of E i g) (FleetReach-Reach r i)
        (ap (λ x. x.locked) left ∙ put_file_keeps_lock server_os draws first rest s e failure) path
        contents fh j c effects free closes there dirty a
