-- ===== src/Tests/Mounts.antt =====
-- Examples of operations on a mounted client.
use mathlib.Core.List.{Perm}
use mathlib.Core.List.Perm
use bnfs.Base.{
  ℕ, ◌≤◌, Bool, true, false, Option, some, none, List, [], ◌∷◌, Bytes, All, ℤ, pos, negsuc, codes,
  length, ◌≡◌, refl, arith, if◌then◌else◌,
}
use bnfs.Hash.{get_cache_path, get_temp_path}
use bnfs.Posix.Memory.{memory}
use bnfs.Posix.Memory.Lawful.{memory-IsLawful}
use bnfs.Cache.{Client, is_file_dirty}
use bnfs.Wire.{delivered}
use bnfs.FuseOp.{FuseOp}
use bnfs.Errinj.{ErrinjType, alice_reorder, ErrinjConf}
use bnfs.Errinj.Config.{absent}
use bnfs.Queue.{QueueEntry, poll}
use bnfs.Ops.{Env, Mount, Chance, returns, no_output}
use bnfs.Ops.Names.{unreliable_rename, unreliable_truncate}
use bnfs.Ops.Data.{unreliable_write, unreliable_flush, flush_entry}
use bnfs.Ops.Branches.{After}
use bnfs.Ops.Injection.{queued_write_is_lost}
use bnfs.Ops.Flushing.{lost_flush_reports_success, write_marks_truncate_does_not}
use bnfs.Ops.Renaming.{local_answer, told, server_then, unreliable_rename-answers}
use bnfs.Tests.Scene.{
  digest, digest-IsDigest, path, other_path, text, zeros, server_with, dirty_client,
}
use bnfs.Build.{linux}
use bnfs.Server.{get_server_path, called}
use bnfs.Posix.{rename}

abbrev pub env : Env
env = record {
  client_os = memory;
  server_os = memory;
  sha256 = digest;
  atoi = λ b. pos 100;
  build = record {
    system = linux;
    have_xattr = true;
    have_flock = true;
    have_fallocate = true;
    have_utimensat = true;
  };
  value = λ e. 5;
  regcomp = λ p. 0;
  regexec = λ p t. 0;
}

abbrev pub conf : ErrinjConf
conf = record {
  type_ = alice_reorder;
  op_regexp = none;
  path_regexp = none;
  probability = 100;
  duration = 0;
}

abbrev pub chance : Chance env
chance = record {
  draws = λ i. i;
  file = absent;
  delivery = delivered;
  download = record { reached = false; arrived = 0; finished = false };
  upload = record { accepted = 0; arrived = 0; finished = false };
  server_draws = λ i. i;
  garbage = zeros;
  buf = zeros;
  file_stat = zeros;
  shuffle = λ l. l;
  is_full = λ b. false;
}

-- A whole upload.
abbrev pub connected : Chance env
connected = record chance { upload = record { accepted = 10; arrived = 2; finished = true } }

abbrev pub mounted : List ErrinjConf → Mount env
mounted errors = record {
  client = dirty_client;
  server = server_with (codes "old");
  op_queue = flush_entry env path 3 ∷ [];
  config = record { errors = some errors; config_path = [] };
}

-- The server of a mount whose mutex is held.
abbrev pub stuck : Mount env
stuck = record (mounted []) { server = record (server_with []) { locked = true } }

pub same_entries : (l : List QueueEntry) → Perm l l
same_entries l = Perm.refl l

queued_write_is_lost_example :
    (m' : Mount env) × (unreliable_write env path text 5 0 (some 3) chance (mounted (conf ∷ []))
      ≡ returns (pos 5) no_output [] m')
    × ((n : ℕ) (q : Bytes)
        → memory.slurp (poll memory n m'.op_queue m'.client.world).1 q
          ≡ memory.slurp (mounted (conf ∷ [])).client.world q)
unfolding bnfs.Errinj.Config.error_inject bnfs.Base.same bnfs.FuseOp.op_name bnfs.Errinj.inject_loop
    bnfs.Errinj.is_triggered bnfs.Errinj.trigger
queued_write_is_lost_example =
    queued_write_is_lost memory-IsLawful path text 5 0 (some 3) chance (mounted (conf ∷ [])) []
      same_entries ((λ one. refl), tt) refl

lost_flush_reports_success_example :
    (m' : Mount env) × (unreliable_flush env path 3 chance (mounted [])
      ≡ returns (pos 0) no_output [] m')
    × (m'.server ≡ (mounted []).server)
    × (memory.slurp m'.client.world (get_temp_path digest path) ≡ none)
    × (is_file_dirty memory digest path m'.client ≡ false)
unfolding bnfs.Errinj.Config.error_inject bnfs.Base.same bnfs.FuseOp.op_name bnfs.Errinj.inject_loop
    bnfs.Cache.mark_file_dirty get_temp_path bnfs.Hash.hex digest is_file_dirty
lost_flush_reports_success_example =
    lost_flush_reports_success memory-IsLawful digest-IsDigest path text 3 0 chance (mounted []) []
      refl (0, refl) refl refl refl refl

unreliable_rename-answers_example :
    let on_server = rename (get_server_path path) (get_server_path other_path) in
    let here = local_answer memory memory digest path other_path dirty_client in
    (m' : Mount env) × (unreliable_rename env path other_path chance (mounted [])
      ≡ returns
          (pos (told here delivered (memory.sys on_server (server_with (codes "old")).world).0))
          no_output
          []
          m')
    × (m'.server
        ≡ server_then here delivered
            (called memory on_server (server_with (codes "old")))
            (server_with (codes "old")))
unfolding bnfs.Errinj.Config.error_inject bnfs.Base.same bnfs.FuseOp.op_name bnfs.Errinj.inject_loop
unreliable_rename-answers_example =
    unreliable_rename-answers path other_path chance (mounted []) [] refl

write_marks_truncate_does_not_example :
    After
      (λ m'. is_file_dirty memory digest path m'.client ≡ true)
      (unreliable_write env path text 5 0 (some 3) chance (mounted []))
    × ((q : Bytes)
        → After
            (λ m'.
              is_file_dirty memory digest q m'.client ≡ is_file_dirty memory digest q dirty_client)
            (unreliable_truncate env path 5 chance (mounted [])))
unfolding bnfs.Errinj.Config.error_inject bnfs.Base.same bnfs.FuseOp.op_name bnfs.Errinj.inject_loop
write_marks_truncate_does_not_example =
    write_marks_truncate_does_not digest-IsDigest path text 5 0 3 chance (mounted []) [] refl
