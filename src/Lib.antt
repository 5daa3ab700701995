-- ===== src/Lib.antt =====
-- The shared file system "bnfs": AFS-like clients over FUSE that keep whole-file copies, a file
-- server behind gRPC, and error injection ("unreliablefs") in every operation of a client. All paths
-- are below unreliablefs/unreliablefs/ of the repository.
--
-- How the parts work together. FUSE calls an operation (unreliablefs_ops.c), which first asks
-- `error_inject` (unreliablefs_errinj.c) for a code. Without one, it works on the working copy of the
-- file, whose name CacheHelper (cache_helper.cc) gives, and calls the client (afs_client.cc) for what
-- concerns the server: `Open` fetches the file, `Flush` sends a dirty file. The server
-- (afs_server.cc) stores an upload under a temporary name and renames it. Writes and flushes may be
-- put into an operation queue instead, which a thread of unreliablefs.c polls.
--
-- Files:
--   Base         shared names, tests, lists over the native numbers, the signed integers of C.
--   Stream       the loops that cut a file into messages (`Open` of afs_server.cc, `Flush` of
--                afs_client.cc), the C string that the client writes, and the messages one by one
--                (Stream.Slices).
--   Hash         `getHashedPath`, `getCachePath`, `getTempPath` (cache_helper.cc).
--   Posix        the calls of the C library, as an interface: a state `World` and a function for each
--                kind of call. Posix.Laws states the documented behaviour that theorems rely on;
--                Posix.Memory is an operating system in memory, and Posix.Memory.Lawful shows, with
--                Posix.Memory.Named, that it has it.
--   Server       the handlers of afs_server.cc as functions on the server's disk and mutex. In
--                Server.Threads, uploads run at once in threads that take turns call by call;
--                Server.Exclusion, Server.Whole and Server.Release are about any order of the calls,
--                with Server.Alone on the calls of one thread. Server.Lock has the requests in a row,
--                Server.Origin what contents they leave, Server.Failed when they keep the mutex.
--   Cache        CacheHelper (cache_helper.cc): copies, times, the static set of dirty files; the
--                directories at the start (`initCache`, and `NewAFSClient` of afs_client.cc) in
--                Cache.Setup.
--   Wire         the fate of a gRPC call, as data: delivered, lost, reply lost; for a stream, how many
--                messages arrive and whether its status does.
--   AfsClient    the methods of AFSClient (afs_client.cc): calls without files here, `Open`,
--                `Unlink`, `Rename` and `Flush` in AfsClient.Files; AfsClient.Session is about an open
--                that fetches, AfsClient.During about a fetch while uploads run.
--   Build        the system that a build is for and the functions that it has, as the preprocessor
--                sees them.
--   Errno        the error names; Errno.Linux, Errno.Freebsd, Errno.Openbsd and Errno.Macosx are the
--                tables of the four headers unreliablefs_errno_*.h, and Errno.Tables the choice that
--                `op_random_errno` makes among them.
--   FuseOp       `fuse_op` and `fuse_op_name` (unreliablefs_ops.h, unreliablefs_ops.c) in every build;
--                FuseOp.Installed has the operations that unreliablefs.c gives to FUSE.
--   Errinj       unreliablefs_errinj.c and unreliablefs_errinj.h; the configuration file's options and
--                `error_inject` in Errinj.Config; Errinj.Printed has the options that
--                a configuration is built from.
--   Queue        `addToQueue`, `shuffleQueue`, `executeQueueHead` (afs_client.cc),
--                `pollExecutionQueue` (unreliablefs.c).
--   Ops          the 37 operations of unreliablefs_ops.c, as functions on a mounted client and its
--                server: Ops.Names, Ops.Data, Ops.Misc; Ops.Sharing is about a file that is written
--                and closed here and opened elsewhere, Ops.Renaming about a rename as a whole.
--   Launch       `main`, `is_dir` and `unreliablefs_opt_proc` of unreliablefs.c, up to `fuse_main`.
--   Mounted      the system that runs, as a step relation: FUSE calls a slot of `unreliable_ops`, the
--                thread polls the queue, the server takes a request of another client. Mounted.Frames
--                and Mounted.Dispatched say what the operations leave alone and, with
--                Mounted.Requests, which requests they make; Mounted.Reachable has what follows for
--                every state that is reached; Mounted.Injected, Mounted.Answered and Mounted.Waits
--                say what FUSE is answered, and when it is not. Mounted.Fleet is any number of clients
--                of one server: Mounted.Fleet.Sessions is about a file that they share,
--                Mounted.Fleet.Contents about where contents come from, Mounted.Fleet.Stuck about
--                flushes that find the mutex held, Mounted.Fleet.Waits about what leaves it held.
--   Tests        the theorems at concrete inputs, and tests.
--
-- State is passed explicitly: a `Client` is a disk and a set of dirty names, a `Server` a disk and the
-- state of its mutex, a `Mount` both with the queue and the configuration. What the program does not
-- decide is an argument: random numbers (a draw for each call), the fate of calls, uninitialised
-- memory, the result of `std::shuffle`. A handler that waits for its mutex for ever is `blocked`, an
-- operation that does `waits`, and one that reads or writes past an array or through NULL `overruns`. Error codes are the
-- signed numbers of the source. The text loops run on fuel, one more than the length of the file,
-- which suffices as each round but the last takes at least one byte (Stream.Slices). Numbers are
-- unbounded, but for the `unsigned int` of the configuration and the `int` of a time; other times, sizes and offsets are taken to fit their C types.
--
-- SHA-256, `atoi`, the values of <errno.h>, regular expressions, the vendored parser of the
-- configuration file (conf.c), and what the option parser of libfuse recognises are parameters. Where
-- a theorem needs it, two paths have two digests.
-- The steps of a mount, and those of the clients of a fleet, interleave whole: an operation, a poll
-- and another client's request are each one step, and two operations on one client are not
-- interleaved within. In such a step every gRPC call and every stream ends, well or not: one that
-- never does is not a step. Only `PutFile` is also modelled call by call, in threads that run at once,
-- where a client may stop sending while its upload holds the mutex (`ends` of a `Job`); the loop that
-- reads the messages and writes them is there one call. An `ofstream` may write all or only a leading
-- part, which the program does not look at. A
-- build without a function has no slot for its operation; Mounted has the slots of a build with all of
-- them.
-- Not modelled: what main does behind `fuse_main`, which waits for a thread that never ends; logging,
-- freeing of memory, the lock of the configuration, the generated gRPC code, the start of the gRPC
-- server, the vendored conf.c and fsx.c, the Python tests.
pub mod Base
pub mod Stream
pub mod Hash
pub mod Posix
pub mod Server
pub mod Cache
pub mod Wire
pub mod AfsClient
pub mod Build
pub mod Errno
pub mod FuseOp
pub mod Errinj
pub mod Queue
pub mod Ops
pub mod Launch
pub mod Mounted
mod Tests
