-- ===== src/Posix/Memory.antt =====
-- An operating system in memory, on which the examples run.
pub mod Lawful
pub mod Named
use bnfs.Base.{
  ℕ, ◌+◌, Bool, true, false, Option, none, some, [], ◌∷◌, ◌++◌, Bytes, ◌≡◌, refl, inl, inr, sym, ap,
  ◌∙◌, arith, ℤ, pos, negsuc, same, Bool-cases, same_iff, ◌==◌, if◌then◌else◌, length, take, drop,
  take-append-drop, Option-cases,
}
use bnfs.Posix.{
  Posix, Ret, ret, fail, Answer, got, failed, Shell, exited, Flags, Stat, Call, open_file, close,
  dup, creat_file, pwrite, rename, remove, unlink, mkdir, rmdir, chmod, access, utime, write_all,
  other,
}
use bnfs.Posix.Laws.{IsLawful, is_quiet, keeps_times, overlay}

pub record Node : Type 0 where
  pub bytes : Bytes
  pub time : ℕ

-- `clock` is the time that a write stamps; `dirs` are the paths at which a directory stands; of
-- the calls that change something, only `creat` and `rename` look at them.
pub record Disk : Type 0 where
  pub files : Bytes → Option Node
  pub dirs : Bytes → Bool
  pub opened : ℕ → Option Bytes
  pub next_fd : ℕ
  pub clock : ℕ

abbrev put : Bytes → Option Node → Disk → Disk
put p n d = record d { files = λ q. if same p q then n else d.files q }

abbrev node : Disk → Bytes → Node
node d b = record { bytes = b; time = d.clock }

-- ENOENT is 2 and EISDIR is 21.
abbrev handle : Bytes → Disk → Ret × Disk
handle p d = (
  ret d.next_fd,
  record d { opened = λ k. if k == d.next_fd then some p else d.opened k; next_fd = d.next_fd + 1 },
)

abbrev open_node : Bytes → Flags → Option Node → Disk → Ret × Disk
open_node p f none d = if f.creat then handle p (put p (some (node d [])) d) else (fail 2, d)
open_node p f (some n) d = handle p (if f.trunc then put p (some (node d [])) d else d)

abbrev move : Bytes → Bytes → Option Node → Disk → Ret × Disk
move a b none d = (fail 2, d)
move a b (some n) d = if d.dirs b then (fail 21, d) else (ret 0, put b (some n) (put a none d))

abbrev drop_node : Bytes → Option Node → Disk → Ret × Disk
drop_node p none d = (fail 2, d)
drop_node p (some n) d = (ret 0, put p none d)

abbrev stamp : Bytes → ℤ → Option Node → Disk → Ret × Disk
stamp p t none d = (fail 2, d)
stamp p (pos t) (some n) d = (ret 0, put p (some (record n { time = t })) d)
stamp p (negsuc t) (some n) d = (fail 22, d)

abbrev fd_node : Disk → ℤ → Option Node
fd_node d (negsuc n) = none
fd_node d (pos fd) = elim (d.opened fd) [ none ↦ none | some p ↦ d.files p ]

abbrev fd_path : Disk → ℤ → Bytes
fd_path d (negsuc n) = []
fd_path d (pos fd) = elim (d.opened fd) [ none ↦ [] | some p ↦ p ]

-- EBADF is 9. A write past the end is taken to start at the end.
abbrev write_node : Bytes → Option Node → Bytes → ℕ → Disk → Ret × Disk
write_node p none b off d = (fail 9, d)
write_node p (some n) b off d = (
  ret (length b),
  put p (some (node d (take off n.bytes ++ (b ++ drop (off + length b) n.bytes)))) d,
)

abbrev run : Call → Disk → Ret × Disk
run (open_file p f m) d = open_node p f (d.files p) d
run (close (pos fd)) d = (ret 0, d)
run (close (negsuc n)) d = (fail 9, d)
run (dup (pos fd)) d = (ret d.next_fd, d)
run (dup (negsuc n)) d = (fail 9, d)
run (creat_file p m) d = if d.dirs p then (fail 21, d) else handle p (put p (some (node d [])) d)
run (pwrite fd [] off) d = (ret 0, d)
run (pwrite fd (c ∷ b) off) d = write_node (fd_path d fd) (fd_node d fd) (c ∷ b) off d
run (other c) d = (fail 38, d)
run (rename a b) d = move a b (d.files a) d
run (remove p) d = drop_node p (d.files p) d
run (unlink p) d = drop_node p (d.files p) d
run (mkdir p m) d = (ret 0, d)
run (rmdir p) d = (ret 0, d)
run (chmod p m) d = (ret 0, d)
run (access p m) d = elim (d.files p) [ none ↦ (fail 2, d) | some n ↦ (ret 0, d) ]
run (utime p t) d = stamp p t (d.files p) d
run (write_all p b) d = (ret 0, put p (some (node d b)) d)

abbrev copy : Bytes → Bytes → Option Node → Disk → Shell × Disk
copy a b none d = (exited 1, d)
copy a b (some n) d = (exited 0, put b (some (node d n.bytes)) d)

abbrev stat_of : Option Node → Answer Stat
stat_of none = failed 2
stat_of (some n) = got (record {
  dev = 1;
  ino = 1;
  mode = 448;
  nlink = 1;
  uid = 0;
  gid = 0;
  rdev = 0;
  size = length n.bytes;
  blksize = 4096;
  blocks = 1;
  atime = n.time;
  mtime = n.time;
  ctime = n.time;
})

abbrev bytes_of : Option Node → Option Bytes
bytes_of none = none
bytes_of (some n) = some n.bytes

abbrev read_node : Option Node → ℕ → ℕ → Answer Bytes
read_node none size off = failed 9
read_node (some n) size off = got (take size (drop off n.bytes))

abbrev pub memory : Posix
memory = record {
  World = Disk;
  sys = run;
  cp = λ a b d. copy a b (d.files a) d;
  lstat = λ d p. stat_of (d.files p);
  fstat = λ d fd. stat_of (fd_node d fd);
  pread = λ d fd size off. read_node (fd_node d fd) size off;
  read_dir = λ d p. if d.dirs p then got [] else failed 2;
  entries = λ d p. if d.dirs p then got [] else failed 2;
  stat = λ d p. stat_of (d.files p);
  query = λ d q. failed 38;
  slurp = λ d p. bytes_of (d.files p);
}

abbrev pub empty_disk : Disk
empty_disk = record {
  files = λ p. none;
  dirs = λ p. false;
  opened = λ k. none;
  next_fd = 3;
  clock = 100;
}
