-- ===== src/Mounted.antt =====
-- A mounted client while FUSE serves it: the table `unreliable_ops` and the polling thread of
-- unreliablefs/unreliablefs/unreliablefs.c, and the server that other clients use as well, as a
-- step relation.
pub mod Requests
pub mod Frames
pub mod Dispatched
pub mod Reachable
pub mod Slots
pub mod Injected
pub mod Codes
pub mod Answers
pub mod Answered
pub mod Waiting
pub mod Waits
pub mod Fleet
use mathlib.Core.List.{Perm}
use bnfs.Base.{ℕ, Bool, true, false, Option, none, some, List, [], ◌∷◌, Bytes, All, ℤ, ◌≡◌}
use bnfs.Posix.{Posix, Flags}
use bnfs.Server.{Server}
use bnfs.Server.Lock.{Request, handle}
use bnfs.Errinj.{Effect, ErrinjConf}
use bnfs.Errinj.Config.{Config}
use bnfs.Errinj.Options.{TypesDistinct}
use bnfs.Queue.{QueueEntry, execute_queue_head}
use bnfs.Queue.Drain.{WritesNothing}
use bnfs.Ops.{Env, Mount, Chance, Output, Outcome, returns}
use bnfs.Ops.Names.{
  unreliable_getattr, unreliable_readlink, unreliable_mknod, unreliable_mkdir, unreliable_unlink,
  unreliable_rmdir, unreliable_symlink, unreliable_rename, unreliable_link, unreliable_chmod,
  unreliable_chown, unreliable_truncate, unreliable_statfs, unreliable_readdir, unreliable_access,
  unreliable_ftruncate, unreliable_utimens,
}
use bnfs.Ops.Data.{
  unreliable_open, unreliable_read, unreliable_write, unreliable_flush, unreliable_release,
  unreliable_fsync, unreliable_create,
}
use bnfs.Ops.Misc.{
  unreliable_setxattr, unreliable_getxattr, unreliable_listxattr, unreliable_removexattr,
  unreliable_opendir, unreliable_releasedir, unreliable_fsyncdir, unreliable_fgetattr,
  unreliable_lock, unreliable_ioctl, unreliable_flock, unreliable_fallocate,
}

-- A call by FUSE, with its arguments.
pub data FuseCall : Type 0 where
  call_getattr call_unlink call_rmdir call_statfs call_opendir call_readdir : Bytes → FuseCall
  call_utimens : Bytes → FuseCall
  call_readlink call_mkdir call_chmod call_truncate call_flush call_release : Bytes → ℕ → FuseCall
  call_listxattr call_releasedir call_access call_ftruncate call_fgetattr : Bytes → ℕ → FuseCall
  call_mknod call_chown call_lock call_ioctl call_flock : Bytes → ℕ → ℕ → FuseCall
  call_symlink call_rename call_link call_removexattr : Bytes → Bytes → FuseCall
  call_open call_create : Bytes → Flags → FuseCall
  call_read : Bytes → ℕ → ℕ → Option ℕ → FuseCall
  call_write : Bytes → Bytes → ℕ → ℕ → Option ℕ → FuseCall
  call_fsync : Bytes → Bool → ℕ → FuseCall
  call_setxattr : Bytes → Bytes → Bytes → ℕ → FuseCall
  call_getxattr : Bytes → Bytes → ℕ → FuseCall
  call_fsyncdir : Bytes → Bool → FuseCall
  call_fallocate : Bytes → ℕ → ℕ → ℕ → ℕ → FuseCall

-- The slots of `unreliable_ops`; `init` and `destroy` do nothing.
unfoldable pub dispatch : (E : Env) → FuseCall → Chance E → Mount E → Outcome E
dispatch E (call_getattr a) c m = unreliable_getattr E a c m
dispatch E (call_readlink a b) c m = unreliable_readlink E a b c m
dispatch E (call_mknod a b d) c m = unreliable_mknod E a b d c m
dispatch E (call_mkdir a b) c m = unreliable_mkdir E a b c m
dispatch E (call_unlink a) c m = unreliable_unlink E a c m
dispatch E (call_rmdir a) c m = unreliable_rmdir E a c m
dispatch E (call_symlink a b) c m = unreliable_symlink E a b c m
dispatch E (call_rename a b) c m = unreliable_rename E a b c m
dispatch E (call_link a b) c m = unreliable_link E a b c m
dispatch E (call_chmod a b) c m = unreliable_chmod E a b c m
dispatch E (call_chown a b d) c m = unreliable_chown E a b d c m
dispatch E (call_truncate a b) c m = unreliable_truncate E a b c m
dispatch E (call_open a b) c m = unreliable_open E a b c m
dispatch E (call_read a b d e) c m = unreliable_read E a b d e c m
dispatch E (call_write a b d e f) c m = unreliable_write E a b d e f c m
dispatch E (call_statfs a) c m = unreliable_statfs E a c m
dispatch E (call_flush a b) c m = unreliable_flush E a b c m
dispatch E (call_release a b) c m = unreliable_release E a b c m
dispatch E (call_fsync a b d) c m = unreliable_fsync E a b d c m
dispatch E (call_setxattr a b d e) c m = unreliable_setxattr E a b d e c m
dispatch E (call_getxattr a b d) c m = unreliable_getxattr E a b d c m
dispatch E (call_listxattr a b) c m = unreliable_listxattr E a b c m
dispatch E (call_removexattr a b) c m = unreliable_removexattr E a b c m
dispatch E (call_opendir a) c m = unreliable_opendir E a c m
dispatch E (call_readdir a) c m = unreliable_readdir E a c m
dispatch E (call_releasedir a b) c m = unreliable_releasedir E a b c m
dispatch E (call_fsyncdir a b) c m = unreliable_fsyncdir E a b c m
dispatch E (call_access a b) c m = unreliable_access E a b c m
dispatch E (call_create a b) c m = unreliable_create E a b c m
dispatch E (call_ftruncate a b) c m = unreliable_ftruncate E a b c m
dispatch E (call_fgetattr a b) c m = unreliable_fgetattr E a b c m
dispatch E (call_lock a b d) c m = unreliable_lock E a b d c m
dispatch E (call_ioctl a b d) c m = unreliable_ioctl E a b d c m
dispatch E (call_flock a b d) c m = unreliable_flock E a b d c m
dispatch E (call_fallocate a b d e f) c m = unreliable_fallocate E a b d e (some f) c m
dispatch E (call_utimens a) c m = unreliable_utimens E a c m

-- A configuration in memory has one entry for each type at most.
abbrev pub HasSoundErrors : Option (List ErrinjConf) → Type 0
HasSoundErrors none = Unit {0}
HasSoundErrors (some errors) = TypesDistinct errors

-- The slots that work on the client's machine, or only ask the server.
unfoldable pub is_local : FuseCall → Bool
is_local (call_mkdir a b) = false
is_local (call_unlink a) = false
is_local (call_rmdir a) = false
is_local (call_rename a b) = false
is_local (call_open a b) = false
is_local (call_create a b) = false
is_local (call_flush a b) = false
is_local (call_access a b) = false
is_local _ = true

module _ (E : Env) where
  -- One step: FUSE calls an operation, which returns; the thread polls the queue; or the server
  -- takes a request of another client.
  pub data Step (m m' : Mount E) : Type 0 where
    operation :
        (call : FuseCall) (c : Chance E) (code : ℤ) (answer : Output) (effects : List Effect)
        → ((l : List QueueEntry) → Perm (c.shuffle l) l)
        → dispatch E call c m ≡ returns code answer effects m'
        → Step m m'
    polled :
        m' ≡ (
          let r = execute_queue_head E.client_os m.op_queue m.client.world in
          record m { client = record m.client { world = r.2 }; op_queue = r.1 })
        → Step m m'
    requested : (r : Request) → m' ≡ record m { server = handle E.server_os r m.server } → Step m m'

  pub data Reach (m : Mount E) : Mount E → Type 0 where
    here : Reach m m
    next : {u v : Mount E} → Reach m u → Step u v → Reach m v

  -- A mount in which no queued entry writes, and the configuration is sound.
  abbrev pub IsSound : Mount E → Type 0
  IsSound m = All WritesNothing m.op_queue × HasSoundErrors m.config.errors
