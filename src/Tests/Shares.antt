-- ===== src/Tests/Shares.antt =====
-- An example of clients that share a file.
use bnfs.Base.{some, [], Bytes, pos, codes, same, ◌≡◌, refl, arith, if◌then◌else◌, ◌==◌, ◌⊎◌}
use bnfs.Stream.{chunks}
use bnfs.Hash.{get_temp_path}
use bnfs.Posix.{o_rdwr, open_file}
use bnfs.Posix.Laws.{after}
use bnfs.Posix.Memory.{memory}
use bnfs.Posix.Memory.Lawful.{memory-IsLawful}
use bnfs.Server.{Server, get_server_path}
use bnfs.AfsClient.Session.{opening, Fetches}
use bnfs.Ops.{Mount, returns, no_output}
use bnfs.Ops.Data.{unreliable_write, unreliable_flush}
use bnfs.Ops.Sharing.{Writes, Sends, written_to, flushed_to}
use bnfs.Tests.Scene.{digest, digest-IsDigest, path, text, client_with}
use bnfs.Tests.Opens.{fresh, reading}
use bnfs.Tests.Mounts.{env, chance, connected, mounted, same_entries}
use bnfs.Queue.{execute_queue_head}
use bnfs.Mounted.{polled, Step, operation, dispatch, call_flush}
use bnfs.Mounted.Fleet.{Fleet, FleetReach, start, later, acts, member_of, mount_of, put}
use bnfs.Mounted.Fleet.Sessions.{fleet_write_close_open}
use bnfs.Server.Origin.{Known}
use bnfs.Mounted.Fleet.Contents.{Brought, fleet_contents}

-- A client that has just opened the working copy, with the text in it.
abbrev holding : Mount env
holding = record (mounted []) {
  client = record {
    world = after memory (open_file (get_temp_path digest path) o_rdwr 0) (client_with text).world;
    dirty_files = [];
  };
}

abbrev changed : Bytes
changed = codes "helps"

holding-Writes : Writes {E = env} path (codes "ps!") 2 3 3 chance holding
unfolding same get_temp_path bnfs.Hash.hex digest bnfs.Errinj.Config.error_inject
    bnfs.FuseOp.op_name bnfs.Errinj.inject_loop
holding-Writes = record {
  flags = o_rdwr;
  before = (client_with text).world;
  opens = refl;
  just_opened = refl;
  old = text;
  there = refl;
  inside = omega arith;
  effects = [];
  free = refl;
  wrote = refl;
}

abbrev holding_changed : Mount env
holding_changed = written_to {E = env} path (codes "ps!") 2 3 3 chance holding

changed-Sends : Sends {E = env} path changed 3 connected holding_changed
unfolding bnfs.Errinj.Config.error_inject same bnfs.FuseOp.op_name bnfs.Errinj.inject_loop chunks
    bnfs.Server.put_file bnfs.Server.temp_file_path bnfs.Server.get_server_path
    bnfs.Cache.mark_file_dirty get_temp_path bnfs.Hash.hex digest
changed-Sends = record {
  effects = [];
  free = refl;
  closes = (0, refl);
  last = 1;
  arrives = record { accepted = omega arith; arrived = refl; ends = refl };
  carries = omega arith;
  stored = 0;
  stores = refl;
  reply = record { err = 0; last_modified_time = 100 };
  answer = refl;
  copy = 4;
  copies = record { opens = refl; copies = refl };
}

-- Client 0 has the file open; the others are new, with an entry in their queues.
abbrev pair : Fleet env
pair = record {
  members = λ j.
      if j == 0
      then member_of env holding
      else member_of env (record (mounted []) { client = fresh });
  server = holding.server;
}

abbrev closed_by_0 : Fleet env
closed_by_0 =
    put env 0 (flushed_to {E = env} path changed 3 connected holding_changed changed-Sends) pair

-- A poll by client 1.
abbrev polled_by_1 : Mount env
polled_by_1 =
    let m = mount_of env 1 closed_by_0 in
    let r = execute_queue_head memory m.op_queue m.client.world in
    record m { client = record m.client { world = r.2 }; op_queue = r.1 }

abbrev then_polled : Fleet env
then_polled = put env 1 polled_by_1 closed_by_0

poll_between : FleetReach env closed_by_0 then_polled
poll_between = later start (acts 1 (polled refl) refl)

changed-Fetches :
    Fetches memory memory digest reading path changed
      (then_polled.members 1).client
      then_polled.server
unfolding execute_queue_head changed-Sends holding-Writes bnfs.Queue.execute_entry
    bnfs.AfsClient.get_open_flags bnfs.AfsClient.client_get_attr bnfs.Server.get_attr
    bnfs.Server.put_file same bnfs.Server.temp_file_path bnfs.Server.get_server_path
    bnfs.Cache.is_present_in_temp bnfs.Cache.is_present_in_cache chunks get_temp_path bnfs.Hash.hex
    digest
changed-Fetches = record {
  decides = refl;
  whole = record { reached = refl; arrived = omega arith; finished = refl };
  stores = record {
    first = 0;
    caches = refl;
    second = 0;
    writes = refl;
    keeps = refl;
    fd = 3;
    opens = refl;
  };
}

fleet_write_close_open_example :
    (unreliable_write env path (codes "ps!") 2 3 (some 3) chance holding
      ≡ returns (pos 2) no_output [] holding_changed)
    × (unreliable_flush env path 3 connected holding_changed
        ≡ returns
            (pos 0)
            no_output
            []
            (flushed_to {E = env} path changed 3 connected holding_changed changed-Sends))
    × (memory.slurp
          (opening memory memory digest reading path
            (then_polled.members 1).client
            then_polled.server).1.0.world
          (get_temp_path digest path)
        ≡ some changed)
unfolding holding-Writes unreliable_write unreliable_flush changed-Sends poll_between
fleet_write_close_open_example =
    fleet_write_close_open memory-IsLawful memory-IsLawful digest-IsDigest path (codes "ps!") 2 3 3
      chance connected pair 0 holding-Writes
      (omega arith, (omega arith, (omega arith, (omega arith, (omega arith, tt))))) changed-Sends
      then_polled poll_between refl 1 reading changed-Fetches

-- The same clients between the write and the flush, and the flush as a step.
abbrev changed_by_0 : Fleet env
changed_by_0 = put env 0 holding_changed pair

abbrev flushed : Mount env
flushed = flushed_to {E = env} path changed 3 connected holding_changed changed-Sends

flush-Step : Step env (mount_of env 0 changed_by_0) flushed
unfolding dispatch holding-Writes changed-Sends poll_between
flush-Step =
    operation (call_flush path 3) connected (pos 0) no_output [] same_entries
      (fleet_write_close_open memory-IsLawful memory-IsLawful digest-IsDigest path (codes "ps!") 2 3
        3 chance connected pair 0 holding-Writes
        (omega arith, (omega arith, (omega arith, (omega arith, (omega arith, tt))))) changed-Sends
        then_polled poll_between refl 1 reading changed-Fetches).1

flush_run : FleetReach env changed_by_0 (put env 0 flushed changed_by_0)
flush_run = later start (acts 0 flush-Step refl)

fleet_contents_example :
    Known memory-IsLawful changed_by_0.server.world changed
    ⊎ Brought memory-IsLawful memory-IsLawful flush_run changed
unfolding changed-Sends bnfs.Server.put_file same bnfs.Server.temp_file_path get_server_path chunks
    bnfs.Stream.join
fleet_contents_example =
    fleet_contents memory-IsLawful memory-IsLawful flush_run (get_server_path path) changed refl
