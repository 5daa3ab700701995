-- ===== src/Tests/Files.antt =====
-- An example of a configuration that is printed and read.
use bnfs.Base.{
  ℕ, zero, suc, none, some, List, [], ◌∷◌, Bytes, codes, ◌≡◌, refl, to_unsigned, ℤ, pos, ◌/◌, ◌%◌,
  ◌*◌, ◌+◌, ◌-◌, ltb, if◌then◌else◌, ◌++◌,
}
use bnfs.Errinj.{ErrinjType, noop, slowdown, ErrinjConf}
use bnfs.Errinj.Config.{config_init, options}
use bnfs.Errinj.Printed.{print, parse_options-print_back}

-- Decimal digits.
read : ℕ → Bytes → ℕ
read n [] = n
read n (c ∷ cs) = read (10 * n + (c - 48)) cs

abbrev atoi : Bytes → ℤ
atoi cs = pos (read 0 cs)

digits : (fuel n : ℕ) → Bytes
digits zero n = []
digits (suc fuel) n =
    let more = digits fuel (n / 10) in (if ltb n 10 then [] else more) ++ ((48 + n % 10) ∷ [])

abbrev show : ℕ → Bytes
show = digits 10

abbrev errors : List ErrinjConf
errors =
    record {
      type_ = slowdown;
      op_regexp = some (codes "write");
      path_regexp = none;
      probability = 7;
      duration = 3;
    }
    ∷ record {
      type_ = noop;
      op_regexp = none;
      path_regexp = some (codes "a+");
      probability = 100;
      duration = 0;
    }
    ∷ []

parse_options-print_back_example : config_init atoi (options (print atoi show errors)) ≡ some errors
unfolding bnfs.Errinj.Config.find_conf bnfs.Errinj.Config.same_type read digits to_unsigned
parse_options-print_back_example =
    parse_options-print_back atoi show errors (refl, (refl, tt)) ((refl, refl), ((refl, refl), tt))
