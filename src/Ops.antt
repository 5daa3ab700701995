-- ===== src/Ops.antt =====
-- The FUSE operations, unreliablefs/unreliablefs/unreliablefs_ops.c. This file has the state of a
-- mounted client, the preamble that every operation starts with, and what the operations share;
-- the operations are in the children.
pub mod Names
pub mod Data
pub mod Misc
pub mod Branches
pub mod Injection
pub mod Flushing
pub mod Renaming
pub mod Sharing
use bnfs.Base.{
  ℕ, Bool, true, false, Option, none, some, List, [], ◌∷◌, Bytes, ℤ, pos, negate, eqb_ℤ,
  if◌then◌else◌,
}
use bnfs.Hash.{get_temp_path}
use bnfs.Posix.{Posix, Ret, ret, fail, Answer, got, failed, Stat, Call}
use bnfs.Cache.{Client, did, answer}
use bnfs.Server.{Server}
use bnfs.Wire.{Delivery, Download, Upload}
use bnfs.Build.{Build}
use bnfs.Errno.{Errno}
use bnfs.FuseOp.{FuseOp}
use bnfs.Errinj.{Effect, noop_code, queue_code}
use bnfs.Errinj.Config.{Config, ConfFile, Injected, answers, overrun, error_inject}
use bnfs.Queue.{QueueEntry}

-- What the program is built on: the two machines, SHA-256, `atoi`, <errno.h> and <regex.h>.
pub record Env : Type 1 where
  pub client_os : Posix
  pub server_os : Posix
  pub sha256 : Bytes → Bytes
  pub atoi : Bytes → ℤ
  pub build : Build
  pub value : Errno → ℕ
  pub regcomp : Bytes → ℕ
  pub regexec : Bytes → Bytes → ℕ

-- What an operation hands to its caller besides its code.
pub data Output : Type 0 where
  no_output : Output
  stat_out : Stat → Output
  bytes_out : Bytes → Output
  handle_out : ℤ → Output

module _ (E : Env) where
  open E use {client_os, server_os, sha256, atoi, build, value, regcomp, regexec}

  -- A mounted client, its operation queue and its configuration, and the server.
  pub record Mount : Type 0 where
    pub client : Client client_os sha256
    pub server : Server server_os
    pub op_queue : List QueueEntry
    pub config : Config atoi

  -- What is chosen outside of the program during one operation: random numbers, the configuration
  -- file, the fate of the calls to the server, uninitialised memory, and `std::shuffle`.
  pub record Chance : Type 0 where
    pub draws : ℕ → ℕ
    pub file : ConfFile atoi
    pub delivery : Delivery
    pub download : Download
    pub upload : Upload
    pub server_draws : ℕ → ℕ
    pub garbage : Stat
    pub buf : Stat
    pub file_stat : Stat
    pub shuffle : List QueueEntry → List QueueEntry
    pub is_full : Bytes → Bool

  -- An operation returns, waits for ever, or has read past the end of an array.
  pub data Outcome : Type 0 where
    returns : ℤ → Output → List Effect → Mount → Outcome
    waits : Outcome
    overruns : Outcome

  -- The body of an operation; none waits for ever.
  abbrev pub Body : Type 0
  Body = Mount → Option (ℤ × Output × Mount)

  abbrev pub finish : List Effect → Option (ℤ × Output × Mount) → Outcome
  finish effects none = waits
  finish effects (some (code, output, m)) = returns code output effects m

  -- An operation that never waits: where its body has no result, it reads or writes what it must
  -- not.
  abbrev pub strays : Outcome → Outcome
  strays waits = overruns
  strays (returns code output effects m) = returns code output effects m
  strays overruns = overruns

  -- `error_inject (path, op)`, and the state after it.
  abbrev pub injected : FuseOp → Bytes → Chance → Mount → Injected atoi
  injected op path c m =
      (error_inject atoi build value regcomp regexec c.draws c.file path op m.config).0

  abbrev pub after_inject : FuseOp → Bytes → Chance → Mount → Mount
  after_inject op path c m = record m {
    config = (error_inject atoi build value regcomp regexec c.draws c.file path op m.config).1;
  }

  -- `if (ret == -ERRNO_NOOP) return 0; else if (ret) return ret;` and then the body.
  unfoldable pub guarded : FuseOp → Bytes → Chance → Mount → Body → Outcome
  guarded op path c m body = elim (injected op path c m) [
    | overrun ↦ overruns
    | answers rc effects ↦
        if eqb_ℤ rc noop_code
        then returns (pos 0) no_output effects (after_inject op path c m)
        else if eqb_ℤ rc (pos 0)
        then finish effects (body (after_inject op path c m))
        else returns rc no_output effects (after_inject op path c m)
  ]

  -- The same with the branch for `-ERR_INSERT_TO_QUEUE`, in `write` and `flush`.
  unfoldable pub guarded_queue : FuseOp → Bytes → Chance → Mount → (queued : Body) → Body → Outcome
  guarded_queue op path c m queued body = elim (injected op path c m) [
    | overrun ↦ overruns
    | answers rc effects ↦
        if eqb_ℤ rc noop_code
        then returns (pos 0) no_output effects (after_inject op path c m)
        else if eqb_ℤ rc queue_code
        then finish effects (queued (after_inject op path c m))
        else if eqb_ℤ rc (pos 0)
        then finish effects (body (after_inject op path c m))
        else returns rc no_output effects (after_inject op path c m)
  ]

  -- `if (ret == -1) return -errno; return 0;`
  abbrev pub zero_or_errno : Ret → ℤ
  zero_or_errno (ret n) = pos 0
  zero_or_errno (fail e) = negate e

  -- `if (ret == -1) ret = -errno; return ret;`
  abbrev pub count_or_errno : Ret → ℤ
  count_or_errno (ret n) = pos n
  count_or_errno (fail e) = negate e

  -- A call on the client's machine.
  abbrev pub called : Call → Mount → Mount
  called c m = record m { client = did client_os sha256 c m.client }

  abbrev pub call_ret : Call → Mount → Ret
  call_ret c m = answer client_os sha256 c m.client

  -- A body that makes one call and answers 0 or `-errno`.
  abbrev pub one_call : Call → Body
  one_call c m = some (zero_or_errno (call_ret c m), no_output, called c m)

  -- `Cache_path (afsClient, path)`: the text it returns. That `strcpy` writes its NUL one byte past
  -- what was allocated is not modelled.
  abbrev pub cache_path : Bytes → Bytes
  cache_path path = get_temp_path sha256 path

  -- A body that asks for a struct or a buffer.
  abbrev pub stat_answer : Answer Stat → Body
  stat_answer (got st) m = some (pos 0, stat_out st, m)
  stat_answer (failed e) m = some (negate e, no_output, m)
