-- ===== src/Posix/Memory/Lawful.antt =====
-- The operating system in memory has the laws of `Posix.Laws`.
use bnfs.Base.{
  ℕ, true, false, Option, none, some, [], ◌∷◌, ◌++◌, Bytes, ◌≡◌, refl, inl, inr, sym, ap, ◌∙◌,
  arith, ℤ, pos, negsuc, same, Bool-cases, same_iff, if◌then◌else◌, length, take, drop,
  take-append-drop, Option-cases,
}
use bnfs.Posix.{
  ret, fail, Answer, got, failed, exited, Flags, Stat, Call, open_file, close, dup, pwrite, rename,
  utime,
}
use bnfs.Posix.Laws.{IsLawful, is_quiet, keeps_times, overlay, may_stop}
use bnfs.Posix.Memory.{Node, Disk, stamp, fd_node, run, copy, stat_of, bytes_of, memory}
use bnfs.Posix.Memory.Named.{named, some_written}

-- Contents at `q` after `utime` at `p`.
stamp_bytes :
    (p : Bytes) (t : ℤ) (n : Option Node) (d : Disk) (q : Bytes)
    → d.files p ≡ n
    → bytes_of ((stamp p t n d).1.files q) ≡ bytes_of (d.files q)
stamp_bytes p t none d q e = refl
stamp_bytes p (negsuc t) (some n) d q e = refl
stamp_bytes p (pos t) (some n) d q e = elim (Bool-cases (same p q)) [
  | inl here ↦ rw here (sym (ap bytes_of (ap d.files (sym ((same_iff p q).0 here)) ∙ e)))
  | inr apart ↦ rw apart
]

quiet :
    (c : Call) (d : Disk) (q : Bytes)
    → is_quiet c ≡ true
    → bytes_of ((run c d).1.files q) ≡ bytes_of (d.files q)
quiet (utime p t) d q h = stamp_bytes p t (d.files p) d q refl
quiet (close (pos fd)) d q h = refl
quiet (close (negsuc n)) d q h = refl
quiet (dup (pos fd)) d q h = refl
quiet (dup (negsuc n)) d q h = refl
quiet (pwrite fd [] off) d q h = refl
quiet c d q h = ground arith

failing :
    (c : Call) (d : Disk) (q : Bytes) (e : ℕ)
    → may_stop c ≡ false
    → (run c d).0 ≡ fail e
    → bytes_of ((run c d).1.files q) ≡ bytes_of (d.files q)
failing (utime p t) d q e k h = stamp_bytes p t (d.files p) d q refl
failing (close (pos fd)) d q e k h = refl
failing (close (negsuc n)) d q e k h = refl
failing (dup (pos fd)) d q e k h = refl
failing (dup (negsuc n)) d q e k h = refl
failing (pwrite fd [] off) d q e k h = refl
failing (pwrite (pos fd) (c ∷ b) off) d q e k h = ground arith
failing (pwrite (negsuc fd) (c ∷ b) off) d q e k h = refl
failing c d q e k h = ground arith

abbrev time_of : Answer Stat → Option ℕ
time_of (got st) = some st.mtime
time_of (failed e) = none

kept :
    (c : Call) (d : Disk) (q : Bytes)
    → keeps_times c ≡ true
    → stat_of ((run c d).1.files q) ≡ stat_of (d.files q)
kept (close (pos fd)) d q h = refl
kept (close (negsuc n)) d q h = refl
kept (dup (pos fd)) d q h = refl
kept (dup (negsuc n)) d q h = refl
kept c d q h = ground arith

renamed :
    (a b : Bytes) (d : Disk) (q contents : Bytes) (n : ℕ)
    → bytes_of (d.files a) ≡ some contents
    → (run (rename a b) d).0 ≡ ret n
    → bytes_of ((run (rename a b) d).1.files q)
      ≡ (if same b q then some contents else if same a q then none else bytes_of (d.files q))
renamed a b d q contents n e h = ground arith

copied :
    (a b : Bytes) (d : Disk) (q : Bytes)
    → (copy a b (d.files a) d).0 ≡ exited 0
    → bytes_of ((copy a b (d.files a) d).1.files q)
      ≡ (if same b q then bytes_of (d.files a) else bytes_of (d.files q))
copied a b d q h = ground arith

opening :
    (p : Bytes) (f : Flags) (m : ℕ) (d : Disk) (fd : ℕ)
    → is_quiet (open_file p f m) ≡ true
    → (run (open_file p f m) d).0 ≡ ret fd
    → stat_of (fd_node (run (open_file p f m) d).1 (pos fd)) ≡ stat_of (d.files p)
opening p f m d fd q h = ground arith

existing :
    (p : Bytes) (f : Flags) (m : ℕ) (d : Disk) (q b : Bytes)
    → bytes_of (d.files p) ≡ some b
    → f.trunc ≡ false
    → bytes_of ((run (open_file p f m) d).1.files q) ≡ bytes_of (d.files q)
existing p f m d q b e h = ground arith

overlay_nothing : (off : ℕ) (d : Bytes) → overlay off [] d ≡ d
overlay_nothing off d = ap (λ k. take off d ++ drop k d) (omega arith) ∙ take-append-drop off d

unchanged_there :
    (w : Disk) (p q d : Bytes)
    → bytes_of (w.files p) ≡ some d
    → bytes_of (w.files q) ≡ (if same p q then some d else bytes_of (w.files q))
unchanged_there w p q d there = elim (Bool-cases (same p q)) [
  | inl here ↦ rw here (ap (λ x. bytes_of (w.files x)) (sym ((same_iff p q).0 here)) ∙ there)
  | inr apart ↦ rw apart refl
]

opened_as :
    (p : Bytes) (f : Flags) (m : ℕ) (w : Disk) (fd : ℕ)
    → (run (open_file p f m) w).0 ≡ ret fd
    → (run (open_file p f m) w).1.opened fd ≡ some p
opened_as p f m w fd e = ground (arith, e)

wrote :
    (p : Bytes) (w : Disk) (fd c : ℕ) (b : Bytes) (off : ℕ) (n : Node) (q : Bytes)
    → w.opened fd ≡ some p
    → w.files p ≡ some n
    → bytes_of ((run (pwrite (pos fd) (c ∷ b) off) w).1.files q)
      ≡ (if same p q then some (overlay off (c ∷ b) n.bytes) else bytes_of (w.files q))
wrote p w fd c b off n q opened there = ground (arith, opened, there)

written :
    (p : Bytes) (f : Flags) (m : ℕ) (w : Disk) (fd : ℕ) (b : Bytes) (off : ℕ) (d q : Bytes)
    → (run (open_file p f m) w).0 ≡ ret fd
    → bytes_of ((run (open_file p f m) w).1.files p) ≡ some d
    → (run (pwrite (pos fd) b off) (run (open_file p f m) w).1).0 ≡ ret (length b)
    → bytes_of ((run (pwrite (pos fd) b off) (run (open_file p f m) w).1).1.files q) ≡ (
        if same p q then some (overlay off b d) else bytes_of ((run (open_file p f m) w).1.files q))
written p f m w fd [] off d q e there h =
    rw (overlay_nothing off d) (unchanged_there (run (open_file p f m) w).1 p q d there)
written p f m w fd (c ∷ b) off d q e there h =
    let w' = (run (open_file p f m) w).1 in
    elim (Option-cases (w'.files p)) [
      | inl gone ↦ absurd (ground (arith, gone, there))
      | inr (n, found) ↦
          let same_bytes : n.bytes ≡ d = ground (arith, found, there) in
          wrote p w' fd c b off n q (opened_as p f m w fd e) found
          ∙ ap (λ x. if same p q then some (overlay off (c ∷ b) x) else bytes_of (w'.files q))
              same_bytes
    ]

pub memory-IsLawful : IsLawful memory
memory-IsLawful = record {
  slurp_quiet = quiet;
  slurp-open_existing = existing;
  slurp_failed = failing;
  slurp-write_some = some_written;
  slurp-write_all = λ p b d q n h. ground arith;
  slurp-rename = renamed;
  slurp-creat_file = λ p m d q n h. ground arith;
  slurp-remove = λ p d q n h. ground arith;
  slurp-unlink = λ p d q n h. ground arith;
  slurp-cp = copied;
  slurp-pwrite = λ p f m w fd b off d q e there inside h. written p f m w fd b off d q e there h;
  slurp-naming = named;
  mtime_kept = λ c d q h. ap time_of (kept c d q h);
  mtime-utime = λ p t d q n h. ground arith;
  fstat-open_file = opening;
}
