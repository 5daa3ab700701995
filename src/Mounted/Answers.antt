-- ===== src/Mounted/Answers.antt =====
-- What the slots of `unreliable_ops` of unreliablefs/unreliablefs/unreliablefs.c hand to FUSE, and
-- what the bodies of unreliablefs/unreliablefs/unreliablefs_ops.c do for it.
use bnfs.Base.{
  ℕ, Bool, true, false, Option, none, some, List, Bytes, ℤ, pos, negate, ◌≡◌, refl, inl, inr,
  Bool-cases, if◌then◌else◌, arith, subst, sym, eqb_ℤ, not, ◌&&◌, ltb, length,
}
use bnfs.Posix.{
  Answer, got, failed, Call, Flags, Stat, open_file, o_rdonly, o_wronly, other, opendir, close, dup,
  int_of, fsync, fdatasync, readlink,
}
use bnfs.Posix.Laws.{Ret-cases, Answer-cases}
use bnfs.Errinj.{Effect}
use bnfs.AfsClient.{is_negative}
use bnfs.AfsClient.Files.{State, client_open}
use bnfs.Ops.{
  Env, Mount, Chance, Output, no_output, stat_out, bytes_out, handle_out, Outcome, returns, waits,
  overruns, finish, one_call, stat_answer, call_ret, called, guarded, injected, Body, strays,
}
use bnfs.Ops.Names.{state_of, readlink_body}
use bnfs.Ops.Data.{
  open_body, read_body, write_body, flush_body, after_flush, use_fd, after_use, read_answer,
}
use bnfs.Ops.Misc.{fsyncdir_body}
use bnfs.Mounted.Codes.{FitsCode, any_code, errno-code}
use bnfs.Mounted.Slots.{Kind, nothing, a_stat, some_bytes, a_handle, a_target}
use bnfs.FuseOp.{FuseOp}
use bnfs.Errinj.Config.{answers}
use bnfs.Ops.Branches.{guarded-body}

-- A handle comes with 0 and is not negative, and without one the code is negative; bytes come with
-- a code that is not negative.
abbrev pub fits_kind : Kind → ℤ → Output → Bool
fits_kind a_handle code no_output = is_negative code
fits_kind a_handle code (handle_out fd) = eqb_ℤ code (pos 0) && not (is_negative fd)
fits_kind a_stat code (stat_out st) = true
fits_kind some_bytes code (bytes_out b) = not (is_negative code)
fits_kind a_target code (bytes_out b) = not (is_negative code)
fits_kind _ code no_output = true
fits_kind _ code _ = false

module _ {E : Env} where
  open E use {client_os, server_os, sha256}

  abbrev pub Fits : Kind → (number wait : Bool) → Outcome E → Type 0
  Fits k number wait (returns code handed effects m) =
      (fits_kind k code handed ≡ true) × FitsCode number code
  Fits k number wait waits = wait ≡ true
  Fits a_target number wait overruns = Unit {0}
  Fits k number wait overruns = ⊥

  pub one_call-Fits :
      (k : Call) (m : Mount E) (effects : List Effect)
      → Fits nothing false false (finish E effects (one_call E k m))
  one_call-Fits k m effects = elim (Ret-cases (call_ret E k m)) [
    | inl (n, e) ↦ rw (e, Fits, finish) (refl, refl)
    | inr (n, e) ↦ rw (e, Fits, finish) (refl, errno-code false n)
  ]

  pub fallocate-Fits :
      (b : Bool) (k : Call) (bad : ℕ) (m : Mount E) (effects : List Effect)
      → Fits nothing false false
          (finish E effects (if b then one_call E k m else some (negate bad, no_output, m)))
  fallocate-Fits true k bad m effects = one_call-Fits k m effects
  fallocate-Fits false k bad m effects = (refl, errno-code false bad)

  pub stat_answer-Fits :
      (r : Answer Stat) (m : Mount E) (effects : List Effect)
      → Fits a_stat false false (finish E effects (stat_answer E r m))
  stat_answer-Fits (got st) m effects = (refl, refl)
  stat_answer-Fits (failed e) m effects = (refl, errno-code false e)

  pub bytes_answer-Fits :
      (number : Bool) (r : Answer Bytes) (code : Bytes → ℤ) (out : Bytes → Bytes) (m : Mount E)
      (effects : List Effect)
      → ((b : Bytes) → is_negative (code b) ≡ false)
      → ((b : Bytes) → FitsCode number (code b))
      → Fits some_bytes number false (
          finish E effects (elim r [
            | got b ↦ some (code b, bytes_out (out b), m)
            | failed e ↦ some (negate e, no_output, m)
          ]))
  bytes_answer-Fits number (got b) code out m effects n h = (ground (arith, n b), h b)
  bytes_answer-Fits number (failed e) code out m effects n h = (refl, errno-code number e)

  pub strays-Fits :
      (number : Bool) (o : Outcome E)
      → Fits a_target number true o
      → Fits a_target number false (strays E o)
  strays-Fits number waits h = tt
  strays-Fits number overruns h = tt
  strays-Fits number (returns code handed effects m) h = h

  pub readlink_body-Fits :
      (path : Bytes) (size : ℕ) (m : Mount E) (effects : List Effect)
      → Fits a_target false true (finish E effects (readlink_body E path size m))
  unfolding readlink_body
  readlink_body-Fits path size m effects =
      elim (Answer-cases (client_os.query m.client.world (readlink path size))) [
        | inr (e, gone) ↦ rw (gone, Fits, readlink_body, finish) (refl, errno-code false e)
        | inl (b, there) ↦ elim (Bool-cases (ltb (length b) size)) [
          | inl fits ↦ rw (there, fits, if◌then◌else◌, Fits, readlink_body, finish) (refl, refl)
          | inr full ↦ rw (there, full, if◌then◌else◌, Fits, readlink_body, finish) refl
        ]
      ]

  pub open_body-Fits :
      (is_create : Bool) (path : Bytes) (flags : Flags) (c : Chance E) (m : Mount E)
      (effects : List Effect)
      → Fits a_handle false false (finish E effects (open_body E is_create path flags c m))
  unfolding open_body
  open_body-Fits is_create path flags c m effects =
      let r =
        client_open client_os server_os sha256 c.delivery c.download is_create flags path c.garbage
          c.buf c.file_stat (state_of E m) in
      elim (Bool-cases (is_negative r.0)) [
        | inl n ↦ rw (n, Fits, open_body, finish) (n, ground (arith, n))
        | inr n ↦ rw (n, Fits, open_body, finish) (ground (arith, n), refl)
      ]

  pub read_body-Fits :
      (path : Bytes) (size offset : ℕ) (fi : Option ℕ) (m : Mount E) (effects : List Effect)
      → Fits some_bytes true false (finish E effects (read_body E path size offset fi m))
  unfolding read_body use_fd after_use read_answer
  read_body-Fits path size offset (some fh) m effects =
      elim (Answer-cases (client_os.pread m.client.world (pos fh) size offset)) [
        | inl (b, a) ↦ rw (a, Fits, read_body, finish) (ground arith, search any_code)
        | inr (n, a) ↦ rw (a, Fits, read_body, finish) (refl, search any_code)
      ]
  read_body-Fits path size offset none m effects =
      let opened = called E (open_file path o_rdonly 0) m in
      elim (Ret-cases (call_ret E (open_file path o_rdonly 0) m)) [
        | inr (n, e) ↦ rw (e, Fits, read_body, finish) (refl, search any_code)
        | inl (fd, e) ↦
            elim (Answer-cases (client_os.pread opened.client.world (pos fd) size offset)) [
              | inl (b, a) ↦ rw (e, a, Fits, read_body, finish) (ground arith, search any_code)
              | inr (n, a) ↦ rw (e, a, Fits, read_body, finish) (refl, search any_code)
            ]
      ]

  pub write_body-Fits :
      (path buf : Bytes) (size offset : ℕ) (fi : Option ℕ) (m : Mount E) (effects : List Effect)
      → Fits nothing true false (finish E effects (write_body E path buf size offset fi m))
  unfolding write_body use_fd after_use
  write_body-Fits path buf size offset (some fh) m effects = (refl, search any_code)
  write_body-Fits path buf size offset none m effects =
      elim (Ret-cases (call_ret E (open_file path o_wronly 0) m)) [
        | inl (n, e) ↦ rw (e, Fits, write_body, finish) (refl, search any_code)
        | inr (n, e) ↦ rw (e, Fits, write_body, finish) (refl, search any_code)
      ]

  pub after_flush-Fits :
      (r : Option (ℤ × State client_os server_os sha256)) (m : Mount E) (effects : List Effect)
      → Fits nothing false true (finish E effects (after_flush E r m))
  after_flush-Fits none m effects = refl
  after_flush-Fits (some (code, s)) m effects = (refl, refl)

  pub flush_body-Fits :
      (path : Bytes) (fh : ℕ) (c : Chance E) (m : Mount E) (effects : List Effect)
      → Fits nothing false true (finish E effects (flush_body E path fh c m))
  unfolding flush_body
  flush_body-Fits path fh c m effects =
      let closing = close (int_of (call_ret E (dup (pos fh)) m)) in
      elim (Ret-cases (call_ret E closing (called E (dup (pos fh)) m))) [
        | inl (n, e) ↦ rw (e, Fits, flush_body, finish) (after_flush-Fits _ _ effects)
        | inr (n, e) ↦ rw (e, Fits, flush_body, finish) (refl, errno-code false n)
      ]

  pub fsyncdir_body-Fits :
      (datasync : Bool) (path : Bytes) (m : Mount E) (effects : List Effect)
      → Fits nothing false false (finish E effects (fsyncdir_body E datasync path m))
  unfolding fsyncdir_body
  fsyncdir_body-Fits datasync path m effects =
      elim (Ret-cases (call_ret E (other (opendir path)) m)) [
        | inr (n, e) ↦ rw (e, Fits, fsyncdir_body, finish) (refl, errno-code false n)
        | inl (dir, e) ↦
            let sync = other (if datasync then fdatasync (pos dir) else fsync (pos dir)) in
            elim (Ret-cases (call_ret E sync (called E (other (opendir path)) m))) [
              | inl (n, f) ↦ rw (e, Fits, fsyncdir_body, finish, f) (refl, refl)
              | inr (n, f) ↦ rw (e, Fits, fsyncdir_body, finish, f) (refl, errno-code false n)
            ]
      ]

  -- A slot into which nothing is injected.
  pub guarded-Fits :
      (k : Kind) (number wait : Bool) (op : FuseOp) (path : Bytes) (c : Chance E) (m : Mount E)
      (body : Body E) (effects : List Effect)
      → injected E op path c m ≡ answers (pos 0) effects
      → ((m : Mount E) (effects : List Effect) → Fits k number wait (finish E effects (body m)))
      → Fits k number wait (guarded E op path c m body)
  guarded-Fits k number wait op path c m body effects e h =
      subst (Fits k number wait) (sym (guarded-body op path c m body effects e)) (h _ effects)
