-- ===== src/Errinj/Choice.antt =====
-- The random choices of unreliablefs/unreliablefs/unreliablefs_errinj.c.
use native.Mathlib.Nat.{mod-lt, mod-eq_of_lt}
use native.Mathlib.Decide.{dec_lt}
use native.Mathlib.Numerals.{unary_clauses}
use bnfs.Base.{
  ℕ, ◌+◌, ◌-◌, ◌%◌, ◌≤◌, Bool, ◌&&◌, Option, none, some, List, Bytes, length, get_elem?-some,
  get_elem?-none, refl, inl, inr, Option-cases, ◌≡◌, ◌↔◌, arith, ◌==◌, leb, if◌then◌else◌, zero,
  suc, ◌∙◌, sym, ap, ◌<◌,
}
use bnfs.Build.{Build}
use bnfs.Errno.{Errno}
use bnfs.Errno.Tables.{errno_table}
use bnfs.FuseOp.{FuseOp}
use bnfs.Errinj.{
  ErrinjConf, rand_range, random_element, op_random_errno, is_regex_matched, is_triggered,
}

-- `rand_range` stays within its bounds, both included.
pub rand_range_bounds :
    (draw min_n max_n : ℕ)
    → min_n ≤ max_n
    → (min_n ≤ rand_range draw min_n max_n) × (rand_range draw min_n max_n ≤ max_n)
unfolding rand_range
rand_range_bounds draw min_n max_n h =
    omega (arith, mod-lt draw {m = max_n - min_n + 1} (omega arith))

not_read {ℓ} : {A : Type ℓ} (o : Option A) → (x : A) × (o ≡ some x) → o ≡ none → ⊥
not_read o (x, e) n = cc

rand_range_zero : (draw n : ℕ) → rand_range draw 0 n ≡ draw % (n + 1)
unfolding rand_range
rand_range_zero draw n = simp unary_clauses

-- `RANDOM_ELEMENT` reads past the end of the array exactly for the draws that leave the length of
-- the array as their remainder by the length plus one.
pub random_element_overrun {ℓ} :
    {A : Type ℓ} (draw : ℕ) (arr : List A)
    → (random_element draw arr ≡ none) ↔ (draw % (length arr + 1) ≡ length arr)
unfolding random_element
random_element_overrun draw arr = (
  λ none_read. elim (dec_lt (rand_range draw 0 (length arr)) (length arr)) [
    | yes inside ↦
        absurd (not_read _ (get_elem?-some arr (rand_range draw 0 (length arr)) inside) none_read)
    | no outside ↦
        omega
          (arith, rand_range_zero draw (length arr), mod-lt draw {m = length arr + 1} (omega arith))
  ],
  λ e.
      get_elem?-none arr (rand_range draw 0 (length arr))
        (omega (arith, rand_range_zero draw (length arr), e)),
)

-- For every operation with a table, the choice of its errno reads past the end of the table exactly
-- for the draws that leave the length of the table as their remainder by the length plus one.
pub op_random_errno_overrun :
    (build : Build) (draw : ℕ) (op : FuseOp) (arr : List Errno)
    → errno_table build op ≡ some arr
    → (op_random_errno build draw op ≡ none) ↔ (draw % (length arr + 1) ≡ length arr)
unfolding op_random_errno
op_random_errno_overrun build draw op arr e =
    let chosen = random_element_overrun draw arr in
    rw (e, op_random_errno)
      (elim (Option-cases (random_element draw arr)) [
        | inl past ↦ rw past (λ h. chosen.0 past, λ h. refl)
        | inr (x, found) ↦
            rw found (λ h. absurd (ground arith), λ h. absurd (ground (arith, chosen.1 h, found)))
      ])

-- How many of the numbers below `n` pass a test.
abbrev pub count : (ℕ → Bool) → ℕ → ℕ
count f zero = 0
count f (suc n) = if f n then count f n + 1 else count f n

mod_mod : (n : ℕ) → n % 101 % 101 ≡ n % 101
mod_mod n = omega arith

mod_small : (n m : ℕ) → n < m → n % m ≡ n
mod_small n m h = mod-eq_of_lt h

module _ (build : Build) (value : Errno → ℕ) (regcomp : Bytes → ℕ) (regexec : Bytes → Bytes → ℕ)
    (path name : Bytes) (err : ErrinjConf) where
  abbrev pub matches_both : Bool
  matches_both =
      (is_regex_matched build value regcomp regexec err.path_regexp path == 0)
      && (is_regex_matched build value regcomp regexec err.op_regexp name == 0)

  abbrev pub triggers : ℕ → Bool
  triggers draw = is_triggered build value regcomp regexec draw path name err

  triggers-split : (draw : ℕ) → triggers draw ≡ leb (draw % 101) err.probability && matches_both
  unfolding is_triggered
  triggers-split draw = ground (arith, rand_range_zero draw 100)

  count_below :
      (n : ℕ)
      → n ≤ 101
      → count triggers n ≡ (
          if matches_both
          then if leb n (err.probability + 1) then n else err.probability + 1
          else 0)
  count_below zero h = ground arith
  count_below (suc n) h =
      ground (arith, triggers-split n, mod_small n 101 h, count_below n (omega arith))

  -- Of the 101 remainders that a draw can leave by 101, the number that trigger an error is the
  -- smaller of 101 and its probability plus one where both of its patterns match, and none
  -- otherwise; and whether a draw triggers depends on its remainder alone. So where the patterns
  -- match, an error of probability 0 is still triggered by one remainder.
  pub count-triggers :
      (count triggers 101 ≡ (
        if matches_both
        then if leb 101 (err.probability + 1) then 101 else err.probability + 1
        else 0))
      × ((draw : ℕ) → triggers draw ≡ triggers (draw % 101))
  count-triggers = (
    count_below 101 (omega arith),
    λ draw.
        triggers-split draw
        ∙ (ap (λ n. leb n err.probability && matches_both) (sym (mod_mod draw))
            ∙ sym (triggers-split (draw % 101))),
  )
