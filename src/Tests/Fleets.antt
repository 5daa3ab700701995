-- ===== src/Tests/Fleets.antt =====
-- Examples of two clients of one server.
use bnfs.Base.{
  ℕ, true, none, some, List, [], ◌∷◌, ◌++◌, Bytes, pos, codes, ◌≡◌, refl, arith, if◌then◌else◌,
  ◌==◌, ℤ,
}
use bnfs.Hash.{get_temp_path}
use bnfs.Posix.Memory.{memory}
use bnfs.Posix.Memory.Lawful.{memory-IsLawful}
use bnfs.Server.{Server, put_file}
use bnfs.Server.Lock.{mkdir_req, handle, put_req}
use bnfs.Errinj.Config.{options, Config}
use bnfs.Launch.{Host, basedir_opt, other_key, main, default_conf_name}
use bnfs.Launch.Serves.{mains-IsSound}
use bnfs.Cache.Setup.{new_afs_client}
use bnfs.Queue.{execute_queue_head}
use bnfs.Ops.{Env, Mount, Chance, returns, waits, no_output}
use bnfs.Ops.Data.{unreliable_flush}
use bnfs.Mounted.{dispatch, Step, operation, polled, requested, IsSound, call_chmod}
use bnfs.Mounted.Fleet.{Fleet, FleetReach, start, later, acts, member_of, mount_of, put}
use bnfs.Mounted.Fleet.Stuck.{fleet_flush_waits}
use bnfs.Tests.Scene.{digest, path, text, empty_server, other_path}
use bnfs.Tests.Mounts.{env, chance, connected, mounted, conf, same_entries}
use bnfs.Tests.Starts.{listing, left_over}
use bnfs.Tests.Uploads.{draws, first, rest, blocked_target}
use bnfs.Mounted.Fleet.Waits.{HasFailed, fleet_held_failed}

-- The server after the upload that failed, and two clients of it with a dirty file.
abbrev failed_upload : Fleet env
failed_upload = record {
  members = λ j. member_of env (mounted []);
  server = (put_file memory draws (first ∷ rest) blocked_target).1;
}

-- Client 1 calls chmod, and then somebody makes a directory.
abbrev changed_by_1 : Fleet env
changed_by_1 = put env 1 (mount_of env 1 failed_upload) failed_upload

abbrev with_directory : Mount env
with_directory = record (mount_of env 0 changed_by_1) {
  server = handle memory (mkdir_req other_path 448) changed_by_1.server;
}

abbrev used : Fleet env
used = put env 0 with_directory changed_by_1

chmod-Step : Step env (mount_of env 1 failed_upload) (mount_of env 1 failed_upload)
unfolding dispatch bnfs.Errinj.Config.error_inject bnfs.Base.same bnfs.FuseOp.op_name
    bnfs.Errinj.inject_loop bnfs.Ops.Names.unreliable_chmod bnfs.Ops.guarded
chmod-Step = operation (call_chmod path 384) chance (pos 0) no_output [] same_entries refl

use_between : FleetReach env failed_upload used
use_between =
    later (later start (acts 1 chmod-Step refl))
      (acts 0 (requested (mkdir_req other_path 448) refl) refl)

fleet_flush_waits_example : unreliable_flush env path 3 connected (mount_of env 1 used) ≡ waits
unfolding bnfs.Errinj.Config.error_inject bnfs.Base.same bnfs.FuseOp.op_name bnfs.Errinj.inject_loop
    bnfs.Cache.mark_file_dirty get_temp_path bnfs.Hash.hex digest bnfs.Cache.is_file_dirty
    bnfs.Stream.chunks bnfs.Server.get_server_path bnfs.Server.temp_file_path
fleet_flush_waits_example =
    fleet_flush_waits memory-IsLawful draws first rest blocked_target 21 refl failed_upload used
      refl use_between 1 path text 3 1 connected [] refl (0, refl) refl refl
      (record { accepted = omega arith; arrived = refl; ends = refl })

-- An upload from outside whose `rename` fails.
abbrev unhurt : Fleet env
unhurt = record { members = λ j. member_of env (mounted []); server = blocked_target }

abbrev hurt : Mount env
hurt = record (mount_of env 0 unhurt) {
  server = handle memory (put_req draws (first ∷ rest)) blocked_target;
}

failing_run : FleetReach env unhurt (put env 0 hurt unhurt)
failing_run = later start (acts 0 (requested (put_req draws (first ∷ rest)) refl) refl)

fleet_held_failed_example : HasFailed failing_run
unfolding handle bnfs.Server.put_file bnfs.Base.same bnfs.Server.get_server_path
    bnfs.Server.temp_file_path
fleet_held_failed_example = fleet_held_failed failing_run refl refl

abbrev started : Env
started = record env { client_os = listing }

-- The file makes every write a queued one.
abbrev host : Host listing digest (λ b. pos 100)
host = record {
  time = 1700000000;
  realpath = some;
  malloc = true;
  mutex_init = true;
  file = options (
      record {
        section = codes "errinj_alice_reorder";
        key = codes "probability";
        value = codes "100";
      }
      ∷ []);
}

abbrev basedir : Bytes
basedir = codes "/data"

abbrev served : Config (λ b. pos 100)
served = record { errors = some (conf ∷ []); config_path = codes "/data/unreliablefs.conf" }

-- Two of them, of which the second polls its queue.
abbrev begun : Fleet started
begun = record {
  members = λ j. record {
    client = new_afs_client listing digest left_over;
    op_queue = [];
    config = served;
  };
  server = empty_server;
}

mains-IsSound_example :
    (served.config_path ≡ basedir ++ (codes "/" ++ default_conf_name))
    × IsSound started (mount_of started 0 (put started 1 (mount_of started 1 begun) begun))
unfolding main execute_queue_head bnfs.Errinj.Config.config_init
    bnfs.Errinj.Config.conf_option_handler bnfs.Base.same
mains-IsSound_example =
    mains-IsSound started (λ i. host) (λ i. basedir_opt basedir ∷ other_key ∷ []) (λ i. left_over)
      (λ i. record { seed = 1700000000; basedir = basedir }) (λ i. served)
      (λ i. new_afs_client listing digest left_over) empty_server _ (λ i. refl)
      (later start (acts 1 (polled refl) refl)) 0
