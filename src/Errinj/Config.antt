-- ===== src/Errinj/Config.antt =====
-- The configuration of error injection, unreliablefs/unreliablefs/unreliablefs_errinj.c: the
-- handler that takes one option, the list that it builds, and `error_inject` on that list. The
-- vendored parser of the file is a parameter: the options that it hands over, in order.
use bnfs.Base.{
  ℕ, suc, Bool, true, Option, none, some, List, [], ◌∷◌, ◌++◌, Bytes, codes, ℤ, pos, negsuc, same,
  get_elem?, ◌==◌, if◌then◌else◌, to_unsigned,
}
use bnfs.Build.{Build}
use bnfs.Errno.{Errno}
use bnfs.FuseOp.{FuseOp, op_name}
use bnfs.Errinj.{
  ErrinjType, errno, kill_caller, noop, slowdown, alice_reorder, alice_delay, ErrinjConf, Effect,
  Loop, inject_loop,
}

abbrev pub errinj_name : List Bytes
errinj_name =
    codes "errinj_errno"
    ∷ codes "errinj_kill_caller"
    ∷ codes "errinj_noop"
    ∷ codes "errinj_slowdown"
    ∷ codes "errinj_alice_reorder"
    ∷ codes "errinj_alice_delay"
    ∷ []

-- The enumerators in order.
abbrev errinj_types : List ErrinjType
errinj_types = errno ∷ kill_caller ∷ noop ∷ slowdown ∷ alice_reorder ∷ alice_delay ∷ []

abbrev pub type_index : ErrinjType → ℕ
type_index errno = 0
type_index kill_caller = 1
type_index noop = 2
type_index slowdown = 3
type_index alice_reorder = 4
type_index alice_delay = 5

-- `np->type == (errinj_type) cur_type`
unfoldable pub same_type : ErrinjType → ErrinjType → Bool
same_type t u = type_index t == type_index u

-- The loop goes through all names, and the last that is equal counts.
unfoldable pub find_name : Bytes → List Bytes → ℕ → Option ℕ → Option ℕ
find_name name [] i idx = idx
find_name name (n ∷ ns) i idx = find_name name ns (suc i) (if same n name then some i else idx)

-- None is the result -1.
unfoldable pub errinj_type_by_name : Bytes → Option ErrinjType
unfolding find_name
errinj_type_by_name name = elim (find_name name errinj_name 0 none) [
  | none ↦ none
  | some i ↦ get_elem? errinj_types i
]

-- `TAILQ_FOREACH (np, …) if (np->type == cur_type) break`
unfoldable pub find_conf : ErrinjType → List ErrinjConf → Option ErrinjConf
find_conf t [] = none
find_conf t (err ∷ errors) = if same_type err.type_ t then some err else find_conf t errors

-- The entry found is changed in place.
unfoldable pub set_conf : ErrinjType → ErrinjConf → List ErrinjConf → List ErrinjConf
set_conf t new [] = []
set_conf t new (err ∷ errors) =
    if same_type err.type_ t then new ∷ errors else err ∷ set_conf t new errors

-- `calloc`, then `err->type = cur_type`
abbrev pub fresh_conf : ErrinjType → ErrinjConf
fresh_conf t = record {
  type_ = t;
  op_regexp = none;
  path_regexp = none;
  probability = 0;
  duration = 0;
}

abbrev pub is_option : Bytes → Bool
is_option key =
    if same key (codes "path_regexp")
    then true
    else if same key (codes "op_regexp")
    then true
    else if same key (codes "probability")
    then true
    else same key (codes "duration")

module _ (atoi : Bytes → ℤ) where
  -- The chain of `strcmp (key, …)`; another key changes nothing. The numbers are `unsigned int`.
  unfoldable pub set_option : (key value : Bytes) → ErrinjConf → ErrinjConf
  unfolding to_unsigned
  set_option key value err =
      if same key (codes "path_regexp")
      then record err { path_regexp = some value }
      else if same key (codes "op_regexp")
      then record err { op_regexp = some value }
      else if same key (codes "probability")
      then record err { probability = to_unsigned (atoi value) }
      else if same key (codes "duration")
      then record err { duration = to_unsigned (atoi value) }
      else err

  -- The entry of a type is made at the end of the list, unless `calloc` fails.
  unfoldable pub take_option :
      (memory : Bool) → ErrinjType → (key value : Bytes) → List ErrinjConf → ℤ × List ErrinjConf
  unfolding set_option find_conf set_conf same_type
  take_option memory t key value cfg =
      let result = if is_option key then pos 1 else pos 0 in
      elim (find_conf t cfg) [
        | some err ↦ (result, set_conf t (set_option key value err) cfg)
        | none ↦
            if memory
            then (result, cfg ++ (set_option key value (fresh_conf t) ∷ []))
            else (negsuc 0, cfg)
      ]

  unfoldable pub conf_option_handler :
      (memory : Bool) → (section key value : Bytes) → List ErrinjConf → ℤ × List ErrinjConf
  unfolding errinj_type_by_name take_option
  conf_option_handler memory section key value cfg = elim (errinj_type_by_name section) [
    | none ↦ (negsuc 0, cfg)
    | some t ↦ take_option memory t key value cfg
  ]

  -- One option of the file.
  pub record Line : Type 0 where
    pub section : Bytes
    pub key : Bytes
    pub value : Bytes

  -- The parser calls the handler for each option; its answers do not stop it.
  unfoldable pub parse_options : List Line → List ErrinjConf → List ErrinjConf
  parse_options [] cfg = cfg
  parse_options (l ∷ ls) cfg =
      parse_options ls (conf_option_handler true l.section l.key l.value cfg).1

  -- What is at the path: no file that `access` finds, one that `ini_parse` reports a negative
  -- result for, or one with options.
  pub data ConfFile : Type 0 where
    absent : ConfFile
    unreadable : ConfFile
    options : List Line → ConfFile

  -- None is NULL.
  unfoldable pub config_init : ConfFile → Option (List ErrinjConf)
  unfolding parse_options
  config_init absent = some []
  config_init unreadable = none
  config_init (options ls) = some (parse_options ls [])

  pub record Config : Type 0 where
    pub errors : Option (List ErrinjConf)
    pub config_path : Bytes

  -- What `error_inject` answers: a code and effects, or a read past the end of an array.
  pub data Injected : Type 0 where
    answers : ℤ → List Effect → Injected
    overrun : Injected

  abbrev finished : Option Loop → Injected
  finished none = overrun
  finished (some l) = answers l.rc l.effects

  module _ (build : Build) (value : Errno → ℕ) (regcomp : Bytes → ℕ)
      (regexec : Bytes → Bytes → ℕ) where
    -- An operation on the configuration file reads it again.
    unfoldable pub error_inject :
        (draws : ℕ → ℕ) → ConfFile → Bytes → FuseOp → Config → Injected × Config
    unfolding config_init
    error_inject draws file path operation conf =
        if same path conf.config_path
        then (answers (pos 0) [], record conf { errors = config_init file })
        else (
          elim conf.errors [
            | none ↦ answers (pos 0) []
            | some errors ↦ elim (op_name build operation) [
              | none ↦ overrun
              | some name ↦ finished (
                  inject_loop build value regcomp regexec draws path operation name errors
                    (record { rc = pos 0; drawn = 0; effects = [] }))
            ]
          ],
          conf,
        )
