-- ===== src/Errinj.antt =====
-- Error injection, unreliablefs/unreliablefs/unreliablefs_errinj.c and unreliablefs_errinj.h:
-- the configured errors, the random choices, and `error_inject`. `rand`, `regcomp`, `regexec` and
-- the values of <errno.h> are parameters. The configuration file is in `Errinj.Config`.
pub mod Config
pub mod Choice
pub mod Outcome
pub mod Options
pub mod Printed
use bnfs.Base.{
  ℕ, zero, suc, ◌+◌, ◌-◌, ◌%◌, ◌<◌, Bool, true, false, ◌&&◌, not, Option, none, some, List, [], ◌∷◌,
  ◌++◌, Bytes, ℤ, pos, negsuc, negate, neg_ℤ, leb, ◌==◌, eqb_ℤ, length, get_elem?, if◌then◌else◌,
}
use bnfs.Build.{Build}
use bnfs.Errno.{Errno}
use bnfs.Errno.Tables.{errno_table}
use bnfs.FuseOp.{FuseOp}

-- `ERRNO_NOOP` is -999 and `ERR_INSERT_TO_QUEUE` -1000; the code returns their negations.
abbrev pub noop_code : ℤ
noop_code = pos 999

abbrev pub queue_code : ℤ
queue_code = pos 1000

abbrev pub max_probability : ℕ
max_probability = 100

pub data ErrinjType : Type 0 where
  errno kill_caller noop slowdown alice_reorder alice_delay : ErrinjType

-- The fields of `struct errinj_conf` that the program sets. A pattern that is NULL is none.
pub record ErrinjConf : Type 0 where
  pub type_ : ErrinjType
  pub op_regexp : Option Bytes
  pub path_regexp : Option Bytes
  pub probability : ℕ
  pub duration : ℕ

-- `rand () % (max_n - min_n + 1) + min_n`, where `rand ()` answers `draw`.
unfoldable pub rand_range : (draw min_n max_n : ℕ) → ℕ
rand_range draw min_n max_n = draw % (max_n - min_n + 1) + min_n

-- `RANDOM_ELEMENT (arr)`; none is a read past the end.
unfoldable pub random_element {ℓ} : {A : Type ℓ} → ℕ → List A → Option A
unfolding rand_range
random_element draw arr = get_elem? arr (rand_range draw 0 (length arr))

-- None is a read past the end of the table, and `some none` an operation without a case in the
-- switch, for which the result stays -1.
unfoldable pub op_random_errno : Build → ℕ → FuseOp → Option (Option Errno)
op_random_errno b draw op = elim (errno_table b op) [
  | none ↦ some none
  | some arr ↦ elim (random_element draw arr) [ none ↦ none | some e ↦ some (some e) ]
]

-- What an injected error does besides its code.
pub data Effect : Type 0 where
  killed : Effect
  slept : ℕ → Effect

-- The state of the loop in `error_inject`: the code, how often `rand` was called, the effects.
pub record Loop : Type 0 where
  pub rc : ℤ
  pub drawn : ℕ
  pub effects : List Effect

module _ (build : Build) (value : Errno → ℕ) (regcomp : Bytes → ℕ)
    (regexec : Bytes → Bytes → ℕ) where
  -- 0 is a match, and so is a pattern that is not set.
  unfoldable pub is_regex_matched : Option Bytes → Bytes → ℕ
  is_regex_matched none text = 0
  is_regex_matched (some regex) text =
      if regcomp regex == 0 then regexec regex text else regcomp regex

  -- The code of an injected errno. None is a read past the end of the table.
  injected_errno : ℕ → FuseOp → Loop → Option Loop
  injected_errno draw op l = elim (op_random_errno build draw op) [
    | none ↦ none
    | some none ↦ some (record l { rc = pos 1 })
    | some (some e) ↦ some (record l { rc = negate (value e); drawn = suc l.drawn })
  ]

  -- The `switch` of `error_inject`.
  unfoldable pub trigger : (draws : ℕ → ℕ) → ErrinjType → ErrinjConf → FuseOp → Loop → Option Loop
  unfolding injected_errno
  trigger draws noop err op l = some (record l { rc = noop_code })
  trigger draws kill_caller err op l = some (record l { effects = l.effects ++ (killed ∷ []) })
  trigger draws errno err op l = injected_errno (draws l.drawn) op l
  trigger draws slowdown err op l =
      some (record l { effects = l.effects ++ (slept err.duration ∷ []) })
  trigger draws alice_reorder err op l = some (record l { rc = queue_code })
  trigger draws alice_delay err op l = some (record l { rc = queue_code })

  -- The three tests that an error passes before it is triggered.
  unfoldable pub is_triggered : (draw : ℕ) → Bytes → (op_name : Bytes) → ErrinjConf → Bool
  unfolding is_regex_matched rand_range
  is_triggered draw path op_name err =
      leb (rand_range draw 0 max_probability) err.probability
      && (is_regex_matched err.path_regexp path == 0)
      && (is_regex_matched err.op_regexp op_name == 0)

  -- `TAILQ_FOREACH (err, conf.errors, entries)`
  unfoldable pub inject_loop :
      (draws : ℕ → ℕ) → Bytes → FuseOp → (op_name : Bytes) → List ErrinjConf → Loop → Option Loop
  inject_loop draws path op op_name [] l = some l
  inject_loop draws path op op_name (err ∷ errors) l =
      let drawn = record l { drawn = suc l.drawn } in
      elim (is_triggered (draws l.drawn) path op_name err) [
        | false ↦ inject_loop draws path op op_name errors drawn
        | true ↦ elim (trigger draws err.type_ err op drawn) [
          | none ↦ none
          | some l' ↦ inject_loop draws path op op_name errors l'
        ]
      ]
