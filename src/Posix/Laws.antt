-- ===== src/Posix/Laws.antt =====
-- The documented behaviour of the calls on regular files, seen through what a reader of a path
-- gets (`slurp`) and its modification time (`lstat`). Paths are taken to name separate files: the
-- program makes no links in its directories.
use bnfs.Base.{
  ℕ, Bool, true, false, Option, none, some, [], Bytes, ◌≡◌, refl, ◌⊎◌, inl, inr, pos, same, ◌==◌,
  if◌then◌else◌, ◌++◌, ◌+◌, ◌≤◌, length, take, drop,
}
use bnfs.Posix.{
  Posix, Ret, Answer, failed, Call, Flags, ret, fail, got, exited, s_irwxu, open_file, close, dup,
  creat_file, pwrite, rename, remove, unlink, mkdir, chmod, access, utime, write_all, rmdir,
}

-- The calls that change no contents whatever they answer; `chmod` only if the owner may still read.
abbrev pub is_quiet : Call → Bool
is_quiet (open_file p f m) = if f.creat then false else if f.trunc then false else true
is_quiet (close fd) = true
is_quiet (dup fd) = true
is_quiet (chmod p m) = m == s_irwxu
is_quiet (access p m) = true
is_quiet (utime p t) = true
is_quiet (mkdir p m) = true
is_quiet (pwrite fd [] off) = true
is_quiet _ = false

-- Those that change no modification time of a file either.
abbrev pub keeps_times : Call → Bool
keeps_times (open_file p f m) = if f.creat then false else if f.trunc then false else true
keeps_times (close fd) = true
keeps_times (dup fd) = true
keeps_times (chmod p m) = true
keeps_times (access p m) = true
keeps_times _ = false

-- Those that make, move and take away names.
abbrev pub is_naming : Call → Bool
is_naming (open_file p f m) = true
is_naming (rename a b) = true
is_naming (unlink p) = true
is_naming (rmdir p) = true
is_naming _ = false

-- A call that may stop part of the way: an `ofstream` on a full disk.
abbrev pub may_stop : Call → Bool
may_stop (write_all p d) = true
may_stop _ = false

-- The bytes `d` with `b` in place of what is at `off`.
abbrev pub overlay : ℕ → Bytes → Bytes → Bytes
overlay off b d = take off d ++ (b ++ drop (off + length b) d)

module _ (P : Posix) where
  open P use {World, sys, cp, lstat, fstat, slurp}

  abbrev pub after : Call → World → World
  after c w = (sys c w).1

  -- The modification time that `lstat` reports.
  abbrev pub mtime : World → Bytes → Option ℕ
  mtime w p = elim (lstat w p) [ got st ↦ some st.mtime | _ ↦ none ]

  pub record IsLawful : Type 0 where
    pub slurp_quiet :
        (c : Call) (w : World) (q : Bytes) → is_quiet c ≡ true → slurp (after c w) q ≡ slurp w q
    pub slurp-open_existing :
        (p : Bytes) (f : Flags) (m : ℕ) (w : World) (q d : Bytes)
        → slurp w p ≡ some d
        → f.trunc ≡ false
        → slurp (after (open_file p f m) w) q ≡ slurp w q
    pub slurp_failed :
        (c : Call) (w : World) (q : Bytes) (e : ℕ)
        → may_stop c ≡ false
        → (sys c w).0 ≡ fail e
        → slurp (after c w) q ≡ slurp w q
    -- Written in part, or not opened at all: a leading part, or what was there.
    pub slurp-write_some :
        (p d : Bytes) (w : World) (q found : Bytes)
        → slurp (after (write_all p d) w) q ≡ some found
        → (slurp w q ≡ some found) ⊎ ((n : ℕ) × (found ≡ take n d))
    pub slurp-write_all :
        (p d : Bytes) (w : World) (q : Bytes) (n : ℕ)
        → (sys (write_all p d) w).0 ≡ ret n
        → slurp (after (write_all p d) w) q ≡ (if same p q then some d else slurp w q)
    pub slurp-rename :
        (a b : Bytes) (w : World) (q d : Bytes) (n : ℕ)
        → slurp w a ≡ some d
        → (sys (rename a b) w).0 ≡ ret n
        → slurp (after (rename a b) w) q
          ≡ (if same b q then some d else if same a q then none else slurp w q)
    pub slurp-creat_file :
        (p : Bytes) (m : ℕ) (w : World) (q : Bytes) (n : ℕ)
        → (sys (creat_file p m) w).0 ≡ ret n
        → slurp (after (creat_file p m) w) q ≡ (if same p q then some [] else slurp w q)
    pub slurp-remove :
        (p : Bytes) (w : World) (q : Bytes) (n : ℕ)
        → (sys (remove p) w).0 ≡ ret n
        → slurp (after (remove p) w) q ≡ (if same p q then none else slurp w q)
    pub slurp-unlink :
        (p : Bytes) (w : World) (q : Bytes) (n : ℕ)
        → (sys (unlink p) w).0 ≡ ret n
        → slurp (after (unlink p) w) q ≡ (if same p q then none else slurp w q)
    pub slurp-cp :
        (a b : Bytes) (w : World) (q : Bytes)
        → (cp a b w).0 ≡ exited 0
        → slurp (cp a b w).1 q ≡ (if same b q then slurp w a else slurp w q)
    -- A write of all bytes, through a descriptor that was just opened, into what the file has or
    -- right behind it.
    pub slurp-pwrite :
        (p : Bytes) (f : Flags) (m : ℕ) (w : World) (fd : ℕ) (b : Bytes) (off : ℕ) (d q : Bytes)
        → (sys (open_file p f m) w).0 ≡ ret fd
        → slurp (after (open_file p f m) w) p ≡ some d
        → off ≤ length d
        → (sys (pwrite (pos fd) b off) (after (open_file p f m) w)).0 ≡ ret (length b)
        → slurp (after (pwrite (pos fd) b off) (after (open_file p f m) w)) q
          ≡ (if same p q then some (overlay off b d) else slurp (after (open_file p f m) w) q)
    -- They make no contents: what is found afterwards is empty, or was to be found before.
    pub slurp-naming :
        (c : Call) (w : World) (q d : Bytes)
        → is_naming c ≡ true
        → slurp (after c w) q ≡ some d
        → (d ≡ []) ⊎ ((p : Bytes) × (slurp w p ≡ some d))
    pub mtime_kept :
        (c : Call) (w : World) (q : Bytes) → keeps_times c ≡ true → mtime (after c w) q ≡ mtime w q
    pub mtime-utime :
        (p : Bytes) (t : ℕ) (w : World) (q : Bytes) (n : ℕ)
        → (sys (utime p (pos t)) w).0 ≡ ret n
        → mtime (after (utime p (pos t)) w) q ≡ (if same p q then some t else mtime w q)
    pub fstat-open_file :
        (p : Bytes) (f : Flags) (m : ℕ) (w : World) (fd : ℕ)
        → is_quiet (open_file p f m) ≡ true
        → (sys (open_file p f m) w).0 ≡ ret fd
        → fstat (after (open_file p f m) w) (pos fd) ≡ lstat w p

-- To split on what a call answers.
pub Ret-cases : (r : Ret) → ((n : ℕ) × (r ≡ ret n)) ⊎ ((e : ℕ) × (r ≡ fail e))
Ret-cases (ret n) = inl (n, refl)
Ret-cases (fail e) = inr (e, refl)

pub Answer-cases {ℓ} :
    {A : Type ℓ} (r : Answer A) → ((a : A) × (r ≡ got a)) ⊎ ((e : ℕ) × (r ≡ failed e))
Answer-cases (got a) = inl (a, refl)
Answer-cases (failed e) = inr (e, refl)
