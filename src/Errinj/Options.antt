-- ===== src/Errinj/Options.antt =====
-- What the options of the configuration file of
-- unreliablefs/unreliablefs/unreliablefs_errinj.c build.
use bnfs.Base.{
  Bool, true, false, Option, none, some, List, [], ◌∷◌, ◌++◌, Bytes, same, ◌≡◌, ◌↔◌, inl, inr, refl,
  sym, ◌∙◌, arith, if◌then◌else◌, Bool-cases, Option-cases, codes, ℤ,
}
use bnfs.Errinj.{
  ErrinjType, errno, kill_caller, noop, slowdown, alice_reorder, alice_delay, ErrinjConf,
}
use bnfs.Errinj.Config.{
  type_index, same_type, errinj_type_by_name, find_conf, set_conf, fresh_conf, set_option,
  take_option, conf_option_handler, Line, parse_options,
}

-- The name of a type.
abbrev pub name_of : ErrinjType → Bytes
name_of errno = codes "errinj_errno"
name_of kill_caller = codes "errinj_kill_caller"
name_of noop = codes "errinj_noop"
name_of slowdown = codes "errinj_slowdown"
name_of alice_reorder = codes "errinj_alice_reorder"
name_of alice_delay = codes "errinj_alice_delay"

-- Looking up the name of a type gives the type.
pub errinj_type_by_name-name_of : (t : ErrinjType) → errinj_type_by_name (name_of t) ≡ some t
unfolding errinj_type_by_name same
errinj_type_by_name-name_of errno = refl
errinj_type_by_name-name_of _ = refl

-- No entry of a type stands behind another one of it.
abbrev pub TypesDistinct : List ErrinjConf → Type 0
TypesDistinct [] = Unit {0}
TypesDistinct (err ∷ errors) = (find_conf err.type_ errors ≡ none) × TypesDistinct errors

type_of_index : (t u : ErrinjType) → type_index t ≡ type_index u → t ≡ u
type_of_index errno u e = ground arith
type_of_index t u e = ground arith

pub same_type_iff : (t u : ErrinjType) → (same_type t u ≡ true) ↔ (t ≡ u)
unfolding same_type
same_type_iff t u = (λ h. type_of_index t u (ground arith), λ e. rw e (ground arith))

pub find_conf-type :
    (t : ErrinjType) (errors : List ErrinjConf) (err : ErrinjConf)
    → find_conf t errors ≡ some err
    → err.type_ ≡ t
unfolding find_conf
find_conf-type t [] err e = cc
find_conf-type t (x ∷ errors) err e =
    ground (arith, find_conf-type t errors err, same_type_iff x.type_ t)

-- The entry written is found under its type, and no other lookup changes.
find_conf-set_conf :
    (t u : ErrinjType) (new old : ErrinjConf) (errors : List ErrinjConf)
    → new.type_ ≡ t
    → find_conf t errors ≡ some old
    → find_conf u (set_conf t new errors) ≡ (if same_type t u then some new else find_conf u errors)
unfolding find_conf set_conf
find_conf-set_conf t u new old [] n e = cc
find_conf-set_conf t u new old (x ∷ errors) n e = ground (
  arith,
  find_conf-set_conf t u new old errors n,
  same_type_iff x.type_ t,
  same_type_iff x.type_ u,
  same_type_iff t u,
  same_type_iff new.type_ u,
)

pub find_conf-append :
    (u : ErrinjType) (new : ErrinjConf) (errors : List ErrinjConf)
    → find_conf u (errors ++ (new ∷ [])) ≡ (elim (find_conf u errors) [
      | some err ↦ some err
      | none ↦ if same_type new.type_ u then some new else none
    ])
unfolding find_conf
find_conf-append u new [] = refl
find_conf-append u new (x ∷ errors) = ground (arith, find_conf-append u new errors)

pub set_option-type :
    (atoi : Bytes → ℤ) (key value : Bytes) (err : ErrinjConf)
    → (set_option atoi key value err).type_ ≡ err.type_
unfolding set_option
set_option-type atoi key value err = ground arith

-- The entry that an option is put into.
abbrev pub entry_of : ErrinjType → Option ErrinjConf → ErrinjConf
entry_of t none = fresh_conf t
entry_of t (some err) = err

module _ (atoi : Bytes → ℤ) where
  find_conf-take_option :
      (t u : ErrinjType) (key value : Bytes) (cfg : List ErrinjConf)
      → find_conf u (take_option atoi true t key value cfg).1 ≡ (
          if same_type t u
          then some (set_option atoi key value (entry_of t (find_conf t cfg)))
          else find_conf u cfg)
  unfolding take_option
  find_conf-take_option t u key value cfg = elim (Option-cases (find_conf t cfg)) [
    | inl missing ↦
        rw (missing, take_option)
          (find_conf-append u (set_option atoi key value (fresh_conf t)) cfg
            ∙ ground
                (arith, missing, set_option-type atoi key value (fresh_conf t), same_type_iff t u))
    | inr (err, found) ↦
        rw (found, take_option)
          (find_conf-set_conf t u (set_option atoi key value err) err cfg
            (set_option-type atoi key value err ∙ find_conf-type t cfg err found) found)
  ]

  -- With memory, an option in the section of a type changes the entry of that type, which is made
  -- if there was none, and no other.
  find_conf-conf_option_handler :
      (t u : ErrinjType) (key value : Bytes) (cfg : List ErrinjConf)
      → find_conf u (conf_option_handler atoi true (name_of t) key value cfg).1 ≡ (
          if same_type t u
          then some (set_option atoi key value (entry_of t (find_conf t cfg)))
          else find_conf u cfg)
  unfolding conf_option_handler
  find_conf-conf_option_handler t u key value cfg =
      rw (errinj_type_by_name-name_of t, conf_option_handler)
        (find_conf-take_option t u key value cfg)

find_conf-set_conf_other :
    (t u : ErrinjType) (new : ErrinjConf) (errors : List ErrinjConf)
    → new.type_ ≡ t
    → same_type t u ≡ false
    → find_conf u (set_conf t new errors) ≡ find_conf u errors
unfolding find_conf set_conf
find_conf-set_conf_other t u new [] n h = refl
find_conf-set_conf_other t u new (x ∷ errors) n h =
    ground (arith, find_conf-set_conf_other t u new errors n h, same_type_iff x.type_ t)

set_conf-TypesDistinct :
    (t : ErrinjType) (new : ErrinjConf) (errors : List ErrinjConf)
    → new.type_ ≡ t
    → TypesDistinct errors
    → TypesDistinct (set_conf t new errors)
unfolding set_conf
set_conf-TypesDistinct t new [] n d = tt
set_conf-TypesDistinct t new (x ∷ errors) n d = elim (Bool-cases (same_type x.type_ t)) [
  | inl e ↦ rw e (rw (n, sym ((same_type_iff x.type_ t).0 e)) (d.0), d.1)
  | inr e ↦ rw e (
    find_conf-set_conf_other t x.type_ new errors n
          (ground (arith, e, same_type_iff x.type_ t, same_type_iff t x.type_))
        ∙ d.0,
    set_conf-TypesDistinct t new errors n d.1,
  )
]

append-TypesDistinct :
    (new : ErrinjConf) (errors : List ErrinjConf)
    → find_conf new.type_ errors ≡ none
    → TypesDistinct errors
    → TypesDistinct (errors ++ (new ∷ []))
unfolding find_conf
append-TypesDistinct new [] n d = (refl, tt)
append-TypesDistinct new (x ∷ errors) n d = (
  find_conf-append x.type_ new errors
      ∙ ground (arith, d.0, same_type_iff new.type_ x.type_, same_type_iff x.type_ new.type_),
  append-TypesDistinct new errors (ground arith) d.1,
)

module _ (atoi : Bytes → ℤ) where
  take_option-TypesDistinct :
      (memory : Bool) (t : ErrinjType) (key value : Bytes) (cfg : List ErrinjConf)
      → TypesDistinct cfg
      → TypesDistinct (take_option atoi memory t key value cfg).1
  unfolding take_option
  take_option-TypesDistinct memory t key value cfg d = elim (Option-cases (find_conf t cfg)) [
    | inr (err, found) ↦
        rw (found, take_option)
          (set_conf-TypesDistinct t _ cfg
            (set_option-type atoi key value err ∙ find_conf-type t cfg err found) d)
    | inl missing ↦
        rw (missing, take_option)
          (elim (Bool-cases memory) [
            | inl enough ↦ rw enough (
                append-TypesDistinct (set_option atoi key value (fresh_conf t)) cfg
                  (rw (set_option-type atoi key value (fresh_conf t)) missing) d)
            | inr short ↦ rw short d
          ])
  ]

  handler-TypesDistinct :
      (memory : Bool) (section key value : Bytes) (cfg : List ErrinjConf)
      → TypesDistinct cfg
      → TypesDistinct (conf_option_handler atoi memory section key value cfg).1
  unfolding conf_option_handler
  handler-TypesDistinct memory section key value cfg d =
      elim (Option-cases (errinj_type_by_name section)) [
        | inl unknown ↦ rw (unknown, conf_option_handler) d
        | inr (t, known) ↦
            rw (known, conf_option_handler) (take_option-TypesDistinct memory t key value cfg d)
      ]

  -- From a list with at most one entry for each type, the handler builds such a list, whatever the
  -- options, and whether or not their sections are known.
  pub parse_options-TypesDistinct :
      (ls : List (Line atoi)) (cfg : List ErrinjConf)
      → TypesDistinct cfg
      → TypesDistinct (parse_options atoi ls cfg)
  unfolding parse_options
  parse_options-TypesDistinct [] cfg d = d
  parse_options-TypesDistinct (l ∷ ls) cfg d =
      parse_options-TypesDistinct ls _ (handler-TypesDistinct true l.section l.key l.value cfg d)
