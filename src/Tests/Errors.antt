-- ===== src/Tests/Errors.antt =====
-- Examples of error injection.
use bnfs.Base.{
  ℕ, ◌+◌, ◌%◌, true, some, none, [], ◌∷◌, Bytes, pos, codes, length, ◌≡◌, ◌↔◌, refl, arith, false,
  ℤ,
}
use bnfs.Errno.{Errno}
use bnfs.Errno.Linux as Linux
use bnfs.Errno.Tables.{errno_table}
use bnfs.FuseOp.Aligned.{op_name-plain_name}
use bnfs.FuseOp.Installed.{unreliable_ops, has_table, unreliable_ops-has_table}
use bnfs.Build.{linux, macosx, openbsd, Build}
use bnfs.Base.{All}
use bnfs.FuseOp.{op_name, op_index, op_opendir, op_lstat, op_write}
use bnfs.Errinj.{
  ErrinjType, errno, noop, ErrinjConf, Loop, noop_code, rand_range, random_element, op_random_errno,
  is_triggered, inject_loop,
}
use bnfs.Errinj.Config.{Line}
use bnfs.Errinj.Choice.{op_random_errno_overrun, triggers, count, count-triggers}
use bnfs.Errinj.Outcome.{IsCode, inject_loop-IsCode}
use bnfs.Tests.Scene.{path}

abbrev build : Build
build = record {
  system = linux;
  have_xattr = true;
  have_flock = true;
  have_fallocate = true;
  have_utimensat = true;
}

abbrev value : Errno → ℕ
value e = 5

abbrev regcomp : Bytes → ℕ
regcomp p = 0

abbrev regexec : Bytes → Bytes → ℕ
regexec p t = 0

abbrev atoi : Bytes → ℤ
atoi b = pos 100

abbrev draws : ℕ → ℕ
draws i = i

abbrev conf : ErrinjType → ErrinjConf
conf t = record { type_ = t; op_regexp = none; path_regexp = none; probability = 100; duration = 0 }

abbrev start : Loop
start = record { rc = pos 0; drawn = 0; effects = [] }

abbrev last : Loop
last = record { rc = noop_code; drawn = 3; effects = [] }

op_random_errno_overrun_example :
    (op_random_errno build 7 op_write ≡ none)
    ↔ (7 % (length Linux.errno_write + 1) ≡ length Linux.errno_write)
unfolding errno_table
op_random_errno_overrun_example = op_random_errno_overrun build 7 op_write Linux.errno_write refl

-- The table for `opendir` is empty on macOS: every choice reads past its end.
opendir_on_macos : op_random_errno (record build { system = macosx }) 7 op_opendir ≡ none
unfolding op_random_errno errno_table random_element rand_range
opendir_on_macos = refl

-- Without extended attributes, the names behind them move up with the enumerators.
name_of_lstat : op_name (record build { have_xattr = false }) op_lstat ≡ some (codes "lstat")
unfolding op_name op_index
name_of_lstat = refl

op_name-plain_name_example :
    op_name (record build { have_xattr = false }) op_lstat ≡ some (codes "lstat")
unfolding op_index
op_name-plain_name_example =
    op_name-plain_name (record build { have_xattr = false }) op_lstat 32 refl

unreliable_ops-has_table_example :
    All
      (λ op.
        has_table (record build { system = openbsd; have_xattr = false; have_fallocate = false }) op
        ≡ true)
      (unreliable_ops
        (record build { system = openbsd; have_xattr = false; have_fallocate = false }))
unreliable_ops-has_table_example =
    unreliable_ops-has_table
      (record build { system = openbsd; have_xattr = false; have_fallocate = false })
      ((λ e. absurd (ground (arith, e))), (λ e. absurd (ground (arith, e))))

count-triggers_example :
    let triggered = triggers build value regcomp regexec path (codes "write") (conf noop) in
    (count triggered 101 ≡ 101) × ((draw : ℕ) → triggered draw ≡ triggered (draw % 101))
unfolding bnfs.Errinj.is_regex_matched
count-triggers_example = count-triggers build value regcomp regexec path (codes "write") (conf noop)

abbrev line : Line atoi
line = record { section = codes "errinj_noop"; key = codes "probability"; value = codes "100" }

inject_loop-IsCode_example : IsCode build value op_write noop_code
unfolding inject_loop is_triggered bnfs.Errinj.trigger op_random_errno random_element errno_table
inject_loop-IsCode_example =
    inject_loop-IsCode build value regcomp regexec draws path (codes "write") op_write
      (conf errno ∷ conf noop ∷ []) start last (IsCode.nothing refl) refl
