-- ===== src/Posix.antt =====
-- The operating system that every part of the program calls: a parameter of the model. A call is
-- a value, and `sys` carries it out; what the calls are relied on to do is in `Posix.Laws`.
pub mod Laws
pub mod Memory
use bnfs.Base.{ℕ, Bool, true, false, Option, List, Bytes, ℤ, pos, negsuc, negate, ◌/◌, ◌%◌, ◌==◌}

-- An `int` result: a number, or -1 with `errno`.
pub data Ret : Type 0 where
  ret : ℕ → Ret
  fail : ℕ → Ret

-- What a call that fills a buffer answers.
pub data Answer {ℓ} (A : Type ℓ) : Type ℓ where
  got : A → Answer A
  failed : ℕ → Answer A

-- What `system` reports of a command: -1, an exit status, or the end by a signal.
pub data Shell : Type 0 where
  unstarted : Shell
  exited : ℕ → Shell
  signalled : Shell

-- The word of open flags, by the bits that the program reads or changes.
pub record Flags : Type 0 where
  pub access : ℕ
  pub creat : Bool
  pub excl : Bool
  pub trunc : Bool

abbrev pub o_rdonly : Flags
o_rdonly = record { access = 0; creat = false; excl = false; trunc = false }

abbrev pub o_wronly : Flags
o_wronly = record { access = 1; creat = false; excl = false; trunc = false }

abbrev pub o_rdwr : Flags
o_rdwr = record { access = 2; creat = false; excl = false; trunc = false }

-- `S_IRWXU`, 0700
abbrev pub s_irwxu : ℕ
s_irwxu = 448

-- The fields of `struct stat` that cross the wire.
pub record Stat : Type 0 where
  pub dev : ℕ
  pub ino : ℕ
  pub mode : ℕ
  pub nlink : ℕ
  pub uid : ℕ
  pub gid : ℕ
  pub rdev : ℕ
  pub size : ℕ
  pub blksize : ℕ
  pub blocks : ℕ
  pub atime : ℕ
  pub mtime : ℕ
  pub ctime : ℕ

-- The calls that the FUSE operations pass on, and whose effect nothing here depends on.
pub data Other : Type 0 where
  mknod : Bytes → ℕ → ℕ → Other
  symlink : Bytes → Bytes → Other
  link : Bytes → Bytes → Other
  chown : Bytes → ℕ → ℕ → Other
  truncate : Bytes → ℕ → Other
  fsync : ℤ → Other
  fdatasync : ℤ → Other
  setxattr : Bytes → Bytes → Bytes → ℕ → Other
  removexattr : Bytes → Bytes → Other
  -- as on macOS, with a position and options
  setxattr_at : Bytes → Bytes → Bytes → (position options : ℕ) → Other
  removexattr_with : Bytes → Bytes → (options : ℕ) → Other
  -- the result is a handle
  opendir : Bytes → Other
  closedir : ℕ → Other
  fcntl : ℤ → ℕ → Other
  ioctl : ℤ → ℕ → Other
  flock : ℤ → ℕ → Other
  fallocate : ℤ → ℕ → ℕ → ℕ → Other

-- Those that fill a buffer of the caller.
pub data Query : Type 0 where
  readlink : Bytes → ℕ → Query
  statvfs : Bytes → Query
  getxattr : Bytes → Bytes → ℕ → Query
  listxattr : Bytes → ℕ → Query
  -- as on macOS
  getxattr_at : Bytes → Bytes → ℕ → (position options : ℕ) → Query
  listxattr_with : Bytes → ℕ → (options : ℕ) → Query

-- A descriptor is an `int`, since the program also closes -1.
pub data Call : Type 0 where
  open_file : Bytes → Flags → ℕ → Call
  close : ℤ → Call
  dup : ℤ → Call
  creat_file : Bytes → ℕ → Call
  pwrite : ℤ → Bytes → ℕ → Call
  rename : Bytes → Bytes → Call
  remove : Bytes → Call
  unlink : Bytes → Call
  mkdir : Bytes → ℕ → Call
  rmdir : Bytes → Call
  chmod : Bytes → ℕ → Call
  access : Bytes → ℕ → Call
  utime : Bytes → ℤ → Call
  -- an `ofstream` opened with `trunc`, written and closed; it fails if it does not open or does
  -- not write all, and then a leading part may be in the file
  write_all : Bytes → Bytes → Call
  other : Other → Call

-- What `readdir` reports of an entry: its name, and whether `d_type` is `DT_REG`.
pub record Entry : Type 0 where
  pub name : Bytes
  pub is_regular : Bool

pub record Posix : Type 1 where
  pub World : Type 0
  pub sys : Call → World → Ret × World
  -- `system ("cp -f from to")`
  pub cp : Bytes → Bytes → World → Shell × World
  pub lstat : World → Bytes → Answer Stat
  pub fstat : World → ℤ → Answer Stat
  pub pread : World → ℤ → ℕ → ℕ → Answer Bytes
  pub query : World → Query → Answer Bytes
  -- `opendir`, and `readdir` to the end
  pub read_dir : World → Bytes → Answer (List Bytes)
  -- the same, with the types of the entries
  pub entries : World → Bytes → Answer (List Entry)
  pub stat : World → Bytes → Answer Stat
  -- an `ifstream` read to its end; none if it does not open or cannot be read
  pub slurp : World → Bytes → Option Bytes

-- `S_ISDIR (mode)`: the bits of `S_IFMT` are those of `S_IFDIR`.
abbrev pub s_isdir : ℕ → Bool
s_isdir mode = mode % 65536 / 4096 == 4

-- The `int` that C code sees.
abbrev pub int_of : Ret → ℤ
int_of (ret n) = pos n
int_of (fail e) = negsuc 0

abbrev pub is_ret : Ret → Bool
is_ret (ret n) = true
is_ret (fail e) = false

-- `errno` after a call, given what it held before.
abbrev pub errno_of : Ret → ℕ → ℕ
errno_of (ret n) old = old
errno_of (fail e) old = e
