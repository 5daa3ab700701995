-- ===== src/Errinj/Printed.antt =====
-- The options of a configuration: the handler of unreliablefs/unreliablefs/unreliablefs_errinj.c
-- builds from them what they are the options of.
use bnfs.Base.{
  ℕ, true, false, Option, none, some, List, [], ◌∷◌, ◌++◌, map, Bytes, codes, same, ◌≡◌, refl, sym,
  ap, ◌∙◌, arith, append-nil, append_assoc, subst, to_unsigned, All, ℤ,
}
use bnfs.Errinj.{ErrinjType, ErrinjConf}
use bnfs.Errinj.Config.{
  find_conf, set_conf, same_type, fresh_conf, set_option, take_option, conf_option_handler, Line,
  parse_options, config_init, options,
}
use bnfs.Errinj.Options.{
  name_of, errinj_type_by_name-name_of, TypesDistinct, same_type_iff, find_conf-append,
  set_option-type,
}

-- The options of a pattern; one that is NULL has none.
abbrev pub pattern_option : Bytes → Option Bytes → List (Bytes × Bytes)
pattern_option key none = []
pattern_option key (some pattern) = (key, pattern) ∷ []

set_conf-append :
    (t : ErrinjType) (new old : ErrinjConf) (cfg : List ErrinjConf)
    → find_conf t cfg ≡ none
    → old.type_ ≡ t
    → set_conf t new (cfg ++ (old ∷ [])) ≡ cfg ++ (new ∷ [])
unfolding set_conf find_conf
set_conf-append t new old [] missing e = ground (arith, same_type_iff old.type_ t, e)
set_conf-append t new old (x ∷ cfg) missing e =
    ground (arith, missing, set_conf-append t new old cfg, e)

other_type :
    (t : ErrinjType) (err : ErrinjConf) (errors cfg : List ErrinjConf)
    → find_conf t (cfg ++ (err ∷ errors)) ≡ none
    → same_type err.type_ t ≡ false
unfolding find_conf
other_type t err errors [] e = ground (arith, e)
other_type t err errors (x ∷ cfg) e = ground (arith, e, other_type t err errors cfg)

-- No entry in front of one has its type.
find_conf-before :
    (err : ErrinjConf) (errors cfg : List ErrinjConf)
    → TypesDistinct (cfg ++ (err ∷ errors))
    → find_conf err.type_ cfg ≡ none
unfolding find_conf
find_conf-before err errors [] d = refl
find_conf-before err errors (x ∷ cfg) d = ground (
  arith,
  find_conf-before err errors cfg d.1,
  other_type x.type_ err errors cfg d.0,
  same_type_iff x.type_ err.type_,
  same_type_iff err.type_ x.type_,
)

module _ (atoi : Bytes → ℤ) where
  -- One option.
  abbrev pub line : ErrinjType → Bytes × Bytes → Line atoi
  line t (key, value) = record { section = name_of t; key = key; value = value }

  -- The options one after another, into one entry.
  abbrev pub set_options : List (Bytes × Bytes) → ErrinjConf → ErrinjConf
  set_options [] err = err
  set_options ((key, value) ∷ os) err = set_options os (set_option atoi key value err)

  handler-append :
      (t : ErrinjType) (key value : Bytes) (x : ErrinjConf) (cfg : List ErrinjConf)
      → find_conf t cfg ≡ none
      → x.type_ ≡ t
      → (conf_option_handler atoi true (name_of t) key value (cfg ++ (x ∷ []))).1
        ≡ cfg ++ (set_option atoi key value x ∷ [])
  unfolding conf_option_handler take_option
  handler-append t key value x cfg missing e =
      let found : find_conf t (cfg ++ (x ∷ [])) ≡ some x =
        find_conf-append t x cfg ∙ ground (arith, missing, same_type_iff x.type_ t, e) in
      rw (errinj_type_by_name-name_of t, conf_option_handler, found, take_option)
        (set_conf-append t (set_option atoi key value x) x cfg missing e)

  handler-first :
      (t : ErrinjType) (key value : Bytes) (cfg : List ErrinjConf)
      → find_conf t cfg ≡ none
      → (conf_option_handler atoi true (name_of t) key value cfg).1
        ≡ cfg ++ (set_option atoi key value (fresh_conf t) ∷ [])
  unfolding conf_option_handler take_option
  handler-first t key value cfg missing =
      rw (errinj_type_by_name-name_of t, conf_option_handler, missing, take_option) refl

  parse_options-append :
      (t : ErrinjType) (os : List (Bytes × Bytes)) (rest : List (Line atoi)) (x : ErrinjConf)
      (cfg : List ErrinjConf)
      → find_conf t cfg ≡ none
      → x.type_ ≡ t
      → parse_options atoi (map (line t) os ++ rest) (cfg ++ (x ∷ []))
        ≡ parse_options atoi rest (cfg ++ (set_options os x ∷ []))
  unfolding parse_options
  parse_options-append t [] rest x cfg missing e = refl
  parse_options-append t ((key, value) ∷ os) rest x cfg missing e =
      ap (parse_options atoi (map (line t) os ++ rest)) (handler-append t key value x cfg missing e)
      ∙ parse_options-append t os rest (set_option atoi key value x) cfg missing
          (set_option-type atoi key value x ∙ e)

  module _ (show : ℕ → Bytes) where
    abbrev pub options_of : ErrinjConf → List (Bytes × Bytes)
    options_of err =
        (codes "duration", show err.duration) ∷ pattern_option (codes "path_regexp") err.path_regexp
        ++ pattern_option (codes "op_regexp") err.op_regexp

    -- The options in order: for each entry, the probability first.
    abbrev pub print : List ErrinjConf → List (Line atoi)
    print [] = []
    print (err ∷ errors) =
        line err.type_ (codes "probability", show err.probability)
          ∷ map (line err.type_) (options_of err)
        ++ print errors

    -- The numbers of an entry are read as they are printed.
    abbrev pub ReadsBack : ErrinjConf → Type 0
    ReadsBack err =
        (to_unsigned (atoi (show err.probability)) ≡ err.probability)
        × (to_unsigned (atoi (show err.duration)) ≡ err.duration)

    set_options-fields :
        (t : ErrinjType) (op_regexp path_regexp : Option Bytes) (probability duration : ℕ)
        → let err : ErrinjConf = record {
          type_ = t;
          op_regexp = op_regexp;
          path_regexp = path_regexp;
          probability = probability;
          duration = duration;
        } in
          ReadsBack err
          → set_options
              (options_of err)
              (set_option atoi (codes "probability") (show probability) (fresh_conf t))
            ≡ err
    unfolding set_option same
    set_options-fields t none none p d h = rw (h.0, h.1) refl
    set_options-fields t none (some q) p d h = rw (h.0, h.1) refl
    set_options-fields t (some o) none p d h = rw (h.0, h.1) refl
    set_options-fields t (some o) (some q) p d h = rw (h.0, h.1) refl

    parse_options-print :
        (errors cfg : List ErrinjConf)
        → TypesDistinct (cfg ++ errors)
        → All ReadsBack errors
        → parse_options atoi (print errors) cfg ≡ cfg ++ errors
    unfolding parse_options
    parse_options-print [] cfg d h = sym (append-nil cfg)
    parse_options-print (err ∷ errors) cfg d h =
        let t = err.type_ in
        let first = set_option atoi (codes "probability") (show err.probability) (fresh_conf t) in
        let missing = find_conf-before err errors cfg d in
        let whole =
          set_options-fields t err.op_regexp err.path_regexp err.probability err.duration h.0 in
        let assoc = append_assoc cfg (err ∷ []) errors in
        ap (parse_options atoi (map (line t) (options_of err) ++ print errors))
          (handler-first t (codes "probability") (show err.probability) cfg missing)
        ∙ parse_options-append t (options_of err) (print errors) first cfg missing
            (set_option-type atoi (codes "probability") (show err.probability) (fresh_conf t))
        ∙ ap (λ x. parse_options atoi (print errors) (cfg ++ (x ∷ []))) whole
        ∙ parse_options-print errors (cfg ++ (err ∷ [])) (subst TypesDistinct (sym assoc) d) h.1
        ∙ assoc

    -- A configuration with one entry for each type at most, whose numbers are read by `atoi` and the
    -- conversion to `unsigned int` as they are printed: from its options, handed over entry by
    -- entry, `config_init` builds it as it was, in the same order.
    pub parse_options-print_back :
        (errors : List ErrinjConf)
        → TypesDistinct errors
        → All ReadsBack errors
        → config_init atoi (options (print errors)) ≡ some errors
    unfolding config_init
    parse_options-print_back errors d h = ap some (parse_options-print errors [] d h)
