-- ===== src/Mounted/Waiting.antt =====
-- When an operation of unreliablefs/unreliablefs/unreliablefs_ops.c waits for ever.
use bnfs.Base.{
  ℕ, Bool, true, false, Option, none, some, List, Bytes, ℤ, pos, ◌≡◌, refl, inl, inr, take, arith,
  Bool-cases, Option-cases, ◌==◌,
}
use bnfs.Hash.{get_temp_path}
use bnfs.Posix.{Posix, close, dup, int_of}
use bnfs.Posix.Laws.{Ret-cases}
use bnfs.Cache.{Client, is_file_dirty}
use bnfs.Server.{Server, PutOutcome, blocked, answered, put_file}
use bnfs.Server.Failed.{put_file-blocked}
use bnfs.Wire.{Upload}
use bnfs.AfsClient.{upload}
use bnfs.AfsClient.Files.{State, client_flush, send_file, finish_flush}
use bnfs.Errinj.{Effect}
use bnfs.Ops.{
  Env, Mount, Chance, Outcome, returns, waits, overruns, finish, call_ret, called, Output, Body,
  guarded, no_output, strays,
}
use bnfs.Ops.Data.{flush_body, after_flush}
use bnfs.Mounted.Slots.{Kind}
use bnfs.Mounted.Answers.{Fits}
use bnfs.FuseOp.{FuseOp}
use bnfs.Ops.Branches.{guarded-good}

-- If the outcome is to wait for ever.
unfoldable pub WaitsFor : {E : Env} → Type 0 → Outcome E → Type 0
WaitsFor W (returns code handed effects m) = Unit
WaitsFor W waits = W
WaitsFor W overruns = Unit

pub overruns-WaitsFor : (E : Env) (W : Type 0) → WaitsFor {E = E} W overruns
unfolding WaitsFor
overruns-WaitsFor E W = tt

pub returns-WaitsFor :
    {E : Env} (W : Type 0) (code : ℤ) (handed : Output) (effects : List Effect) (m : Mount E)
    → WaitsFor {E = E} W (returns code handed effects m)
unfolding WaitsFor
returns-WaitsFor W code handed effects m = tt

-- A slot that never waits.
pub Fits-WaitsFor :
    {E : Env} (W : Type 0) (k : Kind) (number : Bool) (o : Outcome E)
    → Fits k number false o
    → WaitsFor W o
unfolding WaitsFor
Fits-WaitsFor W k number (returns code handed effects m) h = tt
Fits-WaitsFor W k number waits h = absurd (ground (arith, h))
Fits-WaitsFor W k number overruns h = tt

module _ (P Q : Posix) (sha256 : Bytes → Bytes) where
  finish_flush-blocked :
      (fine : Bool) (path : Bytes) (outcome : PutOutcome) (s : State P Q sha256)
      → finish_flush P Q sha256 fine path outcome s ≡ none
      → outcome ≡ blocked
  unfolding finish_flush
  finish_flush-blocked false path outcome s e = absurd (ground (arith, e))
  finish_flush-blocked true path blocked s e = refl
  finish_flush-blocked true path (answered st reply) s e = absurd (ground (arith, e))

  pub client_flush-blocked :
      (draws : ℕ → ℕ) (link : Upload) (path : Bytes) (k : Client P sha256) (s : Server Q)
      → client_flush P Q sha256 draws link path (k, s) ≡ none
      → s.locked ≡ true
  unfolding client_flush send_file
  client_flush-blocked draws link path k s e =
      elim (Option-cases (P.slurp k.world (get_temp_path sha256 path))) [
        | inl gone ↦ absurd (ground (arith, e, gone))
        | inr (contents, there) ↦
            let messages = take link.arrived (take link.accepted (upload path contents)) in
            elim (Bool-cases (is_file_dirty P sha256 path k)) [
              | inr clean ↦ absurd (ground (arith, e, there, clean))
              | inl dirty ↦ elim (Bool-cases (link.accepted == 0)) [
                | inl none_sent ↦ absurd (ground (arith, e, there, dirty, none_sent))
                | inr sent ↦ put_file-blocked Q draws messages s (
                    finish_flush-blocked link.finished path _ (k, (put_file Q draws messages s).1)
                      (ground (arith, e, there, dirty, sent)))
              ]
            ]
      ]

module _ {E : Env} where
  open E use {client_os, server_os, sha256}

  -- A slot whose body never waits.
  pub guarded-WaitsFor :
      (W : Type 0) (k : Kind) (number : Bool) (op : FuseOp) (path : Bytes) (c : Chance E)
      (m : Mount E) (body : Body E)
      → ((m : Mount E) (effects : List Effect) → Fits k number false (finish E effects (body m)))
      → WaitsFor W (guarded E op path c m body)
  guarded-WaitsFor W k number op path c m body h =
      guarded-good (WaitsFor W) op path c m body (overruns-WaitsFor E W)
        (λ code effects. returns-WaitsFor W code no_output effects _)
        (λ effects. Fits-WaitsFor W k number _ (h _ effects))

  pub strays-WaitsFor : (W : Type 0) (o : Outcome E) → WaitsFor W (strays E o)
  unfolding WaitsFor
  strays-WaitsFor W waits = tt
  strays-WaitsFor W overruns = tt
  strays-WaitsFor W (returns code handed effects m) = tt

  after_flush-WaitsFor :
      (W : Type 0) (r : Option (ℤ × State client_os server_os sha256)) (m : Mount E)
      (effects : List Effect)
      → (r ≡ none → W)
      → WaitsFor W (finish E effects (after_flush E r m))
  unfolding WaitsFor
  after_flush-WaitsFor W none m effects h = h refl
  after_flush-WaitsFor W (some (code, s)) m effects h = tt

  pub flush_body-WaitsFor :
      (path : Bytes) (fh : ℕ) (c : Chance E) (m : Mount E) (effects : List Effect)
      → WaitsFor (m.server.locked ≡ true) (finish E effects (flush_body E path fh c m))
  unfolding flush_body WaitsFor
  flush_body-WaitsFor path fh c m effects =
      let closing = close (int_of (call_ret E (dup (pos fh)) m)) in
      let closed = called E closing (called E (dup (pos fh)) m) in
      elim (Ret-cases (call_ret E closing (called E (dup (pos fh)) m))) [
        | inl (n, e) ↦
            rw (e, WaitsFor, flush_body, finish)
              (after_flush-WaitsFor (m.server.locked ≡ true) _ closed effects (λ r.
                client_flush-blocked client_os server_os sha256 c.server_draws c.upload path
                  closed.client m.server r))
        | inr (n, e) ↦ rw (e, WaitsFor, flush_body, finish) tt
      ]
