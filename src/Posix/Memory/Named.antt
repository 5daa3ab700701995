-- ===== src/Posix/Memory/Named.antt =====
-- Which contents the calls of the operating system in memory that name, move and write files
-- leave.
use bnfs.Base.{
  ℕ, true, Option, none, some, [], Bytes, ◌≡◌, refl, inl, inr, sym, ap, ◌∙◌, arith, same,
  Bool-cases, if◌then◌else◌, length, take, ◌⊎◌, take_all,
}
use bnfs.Posix.{Flags, Call, open_file, rename, unlink, rmdir, write_all}
use bnfs.Posix.Laws.{is_naming}
use bnfs.Posix.Memory.{Node, Disk, bytes_of, memory, put, node, open_node, move, drop_node}
use mathlib.Core.Option.{some-injective}

-- Contents at `q` after `n` was put at `p`.
put_bytes :
    (p : Bytes) (n : Option Node) (w : Disk) (q d : Bytes)
    → bytes_of ((put p n w).files q) ≡ some d
    → (bytes_of n ≡ some d) ⊎ (bytes_of (w.files q) ≡ some d)
put_bytes p n w q d e = elim (Bool-cases (same p q)) [
  | inl here ↦ inl (rw (here, if◌then◌else◌) at e)
  | inr apart ↦ inr (rw (apart, if◌then◌else◌) at e)
]

-- Contents that are empty, or found at some path.
abbrev Known : Disk → Bytes → Type 0
Known w d = (d ≡ []) ⊎ ((p : Bytes) × (memory.slurp w p ≡ some d))

emptied :
    (p : Bytes) (w : Disk) (q d : Bytes)
    → bytes_of ((put p (some (node w [])) w).files q) ≡ some d
    → Known w d
emptied p w q d e = elim (put_bytes p (some (node w [])) w q d e) [
  | inl new ↦ inl (ground (arith, new))
  | inr old ↦ inr (q, old)
]

opened_bytes :
    (p : Bytes) (f : Flags) (n : Option Node) (w : Disk) (q d : Bytes)
    → bytes_of ((open_node p f n w).1.files q) ≡ some d
    → Known w d
opened_bytes p f none w q d e = elim (Bool-cases f.creat) [
  | inl creat ↦ emptied p w q d (rw (creat, if◌then◌else◌) at e)
  | inr plain ↦ inr (q, rw (plain, if◌then◌else◌) at e)
]
opened_bytes p f (some n) w q d e = elim (Bool-cases f.trunc) [
  | inl trunc ↦ emptied p w q d (rw (trunc, if◌then◌else◌) at e)
  | inr plain ↦ inr (q, rw (plain, if◌then◌else◌) at e)
]

moved_bytes :
    (a b : Bytes) (n : Option Node) (w : Disk) (q d : Bytes)
    → w.files a ≡ n
    → bytes_of ((move a b n w).1.files q) ≡ some d
    → Known w d
moved_bytes a b none w q d there e = inr (q, e)
moved_bytes a b (some n) w q d there e = elim (Bool-cases (w.dirs b)) [
  | inl dir ↦ inr (q, rw (dir, if◌then◌else◌) at e)
  | inr plain ↦ elim (put_bytes b (some n) (put a none w) q d (rw (plain, if◌then◌else◌) at e)) [
    | inl new ↦ inr (a, ap bytes_of there ∙ new)
    | inr old ↦ elim (put_bytes a none w q d old) [
      | inl gone ↦ absurd (ground (arith, gone))
      | inr same_file ↦ inr (q, same_file)
    ]
  ]
]

dropped_bytes :
    (p : Bytes) (n : Option Node) (w : Disk) (q d : Bytes)
    → bytes_of ((drop_node p n w).1.files q) ≡ some d
    → Known w d
dropped_bytes p none w q d e = inr (q, e)
dropped_bytes p (some n) w q d e = elim (put_bytes p none w q d e) [
  | inl gone ↦ absurd (ground (arith, gone))
  | inr old ↦ inr (q, old)
]

pub named :
    (c : Call) (w : Disk) (q d : Bytes)
    → is_naming c ≡ true
    → memory.slurp (memory.sys c w).1 q ≡ some d
    → Known w d
named (open_file p f m) w q d h e = opened_bytes p f (w.files p) w q d e
named (rename a b) w q d h e = moved_bytes a b (w.files a) w q d refl e
named (unlink p) w q d h e = dropped_bytes p (w.files p) w q d e
named (rmdir p) w q d h e = inr (q, e)
named c w q d h e = absurd (ground (arith, h))

pub some_written :
    (p d : Bytes) (w : Disk) (q found : Bytes)
    → memory.slurp (memory.sys (write_all p d) w).1 q ≡ some found
    → (memory.slurp w q ≡ some found) ⊎ ((n : ℕ) × (found ≡ take n d))
some_written p d w q found e = elim (put_bytes p (some (node w d)) w q found e) [
  | inl new ↦
      inr (length d, sym (some-injective d found new) ∙ sym (take_all (length d) d (omega arith)))
  | inr old ↦ inl old
]
