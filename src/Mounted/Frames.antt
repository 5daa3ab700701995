-- ===== src/Mounted/Frames.antt =====
-- What the bodies of the operations of unreliablefs/unreliablefs/unreliablefs_ops.c leave alone.
use bnfs.Base.{
  ℕ, Bool, true, false, Option, none, some, List, [], Bytes, ℤ, ◌≡◌, refl, inl, inr, All, arith,
  Bool-cases, if◌then◌else◌, pos, same, ltb, length,
}
use bnfs.Posix.{
  Flags, Call, Answer, got, failed, other, opendir, o_rdonly, o_wronly, open_file, close, dup,
  int_of, fsync, fdatasync, Stat, readlink,
}
use bnfs.Posix.Laws.{Ret-cases, Answer-cases}
use bnfs.FuseOp.{FuseOp}
use bnfs.Errinj.{Effect}
use bnfs.AfsClient.{is_negative}
use bnfs.AfsClient.Files.{State, client_open}
use bnfs.Queue.Drain.{WritesNothing}
use bnfs.Ops.{
  Env, Mount, Chance, Output, Outcome, returns, waits, overruns, Body, finish, guarded, no_output,
  after_inject, one_call, called, call_ret, stat_answer, guarded_queue, strays,
}
use bnfs.Ops.Names.{state_of, readlink_body}
use bnfs.Ops.Branches.{After, guarded-After, guarded_queue-After}
use bnfs.Ops.Data.{
  open_body, read_body, write_body, flush_body, after_flush, use_fd, after_use, close_if_null,
}
use bnfs.Ops.Misc.{fsyncdir_body}
use bnfs.Mounted.Requests.{Served, FromCopy, stays, client_open-Served, client_flush-Served}
use bnfs.Mounted.{HasSoundErrors}
use bnfs.Errinj.Config.{error_inject, config_init, ConfFile, absent, unreadable, options}
use bnfs.Errinj.Options.{parse_options-TypesDistinct}

pub config_init-HasSoundErrors :
    (atoi : Bytes → ℤ) (file : ConfFile atoi) → HasSoundErrors (config_init atoi file)
unfolding config_init
config_init-HasSoundErrors atoi absent = tt
config_init-HasSoundErrors atoi unreadable = tt
config_init-HasSoundErrors atoi (options ls) = parse_options-TypesDistinct atoi ls [] tt

module _ {E : Env} where
  open E use {client_os, server_os, sha256}

  -- From one mount to another: a queue without writing entries stays one, a sound configuration
  -- stays sound, the server has taken some requests of which the uploads are of working copies that the
  -- client has, and none in a local change.
  abbrev pub Frame : (local : Bool) → Mount E → Mount E → Type 0
  Frame local m m' =
      (All WritesNothing m.op_queue → All WritesNothing m'.op_queue)
      × (HasSoundErrors m.config.errors → HasSoundErrors m'.config.errors)
      × Served (FromCopy client_os server_os sha256 m.client) m.server m'.server
      × (local ≡ true → m'.server ≡ m.server)

  -- However the body ends.
  abbrev pub Frames : Bool → Body E → Type 0
  Frames local body =
      (m : Mount E) (effects : List Effect) → After (Frame local m) (finish E effects (body m))

module _ {E : Env} (local : Bool) where
  open E use {client_os, server_os, sha256}

  -- Reading the configuration again makes a sound one.
  after_inject-Frame :
      (op : FuseOp) (path : Bytes) (c : Chance E) (m : Mount E)
      → Frame local m (after_inject E op path c m)
  unfolding error_inject config_init
  after_inject-Frame op path c m = (
    λ q. q,
    λ s. elim (Bool-cases (same path m.config.config_path)) [
      | inr differs ↦ rw (differs, error_inject, if◌then◌else◌) s
      | inl own ↦ rw (own, error_inject, if◌then◌else◌) (config_init-HasSoundErrors E.atoi c.file)
    ],
    stays m.server,
    λ o. refl,
  )

  After-Frame :
      (op : FuseOp) (path : Bytes) (c : Chance E) (m : Mount E) (r : Outcome E)
      → After (Frame local (after_inject E op path c m)) r
      → After (Frame local m) r
  After-Frame op path c m (returns code out effects n) g =
      (λ q. g.0 q, λ s. g.1 ((after_inject-Frame op path c m).1 s), g.2, λ o. g.3 o)
  After-Frame op path c m waits g = tt
  After-Frame op path c m overruns g = tt

  pub guarded-Frame :
      (op : FuseOp) (path : Bytes) (c : Chance E) (m : Mount E) (body : Body E)
      → Frames local body
      → After (Frame local m) (guarded E op path c m body)
  guarded-Frame op path c m body h =
      guarded-After (Frame local m) op path c m body (after_inject-Frame op path c m)
        (λ effects. After-Frame op path c m _ (h _ effects))

  pub guarded_queue-Frame :
      (op : FuseOp) (path : Bytes) (c : Chance E) (m : Mount E) (queued body : Body E)
      → Frames local queued
      → Frames local body
      → After (Frame local m) (guarded_queue E op path c m queued body)
  guarded_queue-Frame op path c m queued body g h =
      guarded_queue-After (Frame local m) op path c m queued body (after_inject-Frame op path c m)
        (λ effects. After-Frame op path c m _ (g _ effects))
        (λ effects. After-Frame op path c m _ (h _ effects))

  pub either-Frame :
      (b : Bool) (k : Call) (bad : ℤ) (m : Mount E) (effects : List Effect)
      → After
          (Frame local m)
          (finish E effects (if b then one_call E k m else some (bad, no_output, m)))
  either-Frame true k bad m effects = (λ q. q, λ s. s, stays m.server, λ o. refl)
  either-Frame false k bad m effects = (λ q. q, λ s. s, stays m.server, λ o. refl)

  -- A struct or a buffer that is asked for.
  pub answer-Frame {ℓ} :
      {A : Type ℓ} (r : Answer A) (code : A → ℤ) (out : A → Output) (bad : ℕ → ℤ) (m : Mount E)
      (effects : List Effect)
      → After (Frame local m) (
          finish E effects
            (elim r [ got b ↦ some (code b, out b, m) | failed e ↦ some (bad e, no_output, m) ]))
  answer-Frame (got b) code out bad m effects = (λ q. q, λ s. s, stays m.server, λ o. refl)
  answer-Frame (failed e) code out bad m effects = (λ q. q, λ s. s, stays m.server, λ o. refl)

  pub stat_answer-Frame :
      (r : Answer Stat) (m : Mount E) (effects : List Effect)
      → After (Frame local m) (finish E effects (stat_answer E r m))
  stat_answer-Frame (got st) m effects = (λ q. q, λ s. s, stays m.server, λ o. refl)
  stat_answer-Frame (failed e) m effects = (λ q. q, λ s. s, stays m.server, λ o. refl)

  pub strays-Frame :
      (m : Mount E) (o : Outcome E) → After (Frame local m) o → After (Frame local m) (strays E o)
  strays-Frame m waits h = tt
  strays-Frame m overruns h = tt
  strays-Frame m (returns code handed effects m') h = h

  pub readlink_body-Frames : (path : Bytes) (size : ℕ) → Frames local (readlink_body E path size)
  unfolding readlink_body
  readlink_body-Frames path size m effects =
      elim (Answer-cases (client_os.query m.client.world (readlink path size))) [
        | inr (e, gone) ↦
            rw (gone, After, readlink_body, finish) (λ q. q, λ s. s, stays m.server, λ o. refl)
        | inl (b, there) ↦ elim (Bool-cases (ltb (length b) size)) [
          | inl fits ↦
              rw (there, fits, if◌then◌else◌, After, readlink_body, finish)
                (λ q. q, λ s. s, stays m.server, λ o. refl)
          | inr full ↦ rw (there, full, if◌then◌else◌, After, readlink_body, finish) tt
        ]
      ]

  pub read_body-Frames :
      (path : Bytes) (size offset : ℕ) (fi : Option ℕ)
      → Frames local (read_body E path size offset fi)
  unfolding read_body use_fd after_use close_if_null
  read_body-Frames path size offset (some fh) m effects =
      (λ q. q, λ s. s, stays m.server, λ o. refl)
  read_body-Frames path size offset none m effects =
      elim (Ret-cases (call_ret E (open_file path o_rdonly 0) m)) [
        | inl (n, e) ↦ rw (e, After, read_body, finish) (λ q. q, λ s. s, stays m.server, λ o. refl)
        | inr (n, e) ↦ rw (e, After, read_body, finish) (λ q. q, λ s. s, stays m.server, λ o. refl)
      ]

  pub write_body-Frames :
      (path buf : Bytes) (size offset : ℕ) (fi : Option ℕ)
      → Frames local (write_body E path buf size offset fi)
  unfolding write_body use_fd after_use close_if_null
  write_body-Frames path buf size offset (some fh) m effects =
      (λ q. q, λ s. s, stays m.server, λ o. refl)
  write_body-Frames path buf size offset none m effects =
      elim (Ret-cases (call_ret E (open_file path o_wronly 0) m)) [
        | inl (n, e) ↦ rw (e, After, write_body, finish) (λ q. q, λ s. s, stays m.server, λ o. refl)
        | inr (n, e) ↦ rw (e, After, write_body, finish) (λ q. q, λ s. s, stays m.server, λ o. refl)
      ]

  pub fsyncdir_body-Frames :
      (datasync : Bool) (path : Bytes) → Frames local (fsyncdir_body E datasync path)
  unfolding fsyncdir_body
  fsyncdir_body-Frames datasync path m effects =
      elim (Ret-cases (call_ret E (other (opendir path)) m)) [
        | inr (n, e) ↦
            rw (e, After, fsyncdir_body, finish) (λ q. q, λ s. s, stays m.server, λ o. refl)
        | inl (dir, e) ↦
            let sync = other (if datasync then fdatasync (pos dir) else fsync (pos dir)) in
            elim (Ret-cases (call_ret E sync (called E (other (opendir path)) m))) [
              | inl (n, f) ↦
                  rw (e, After, fsyncdir_body, finish, f)
                    (λ q. q, λ s. s, stays m.server, λ o. refl)
              | inr (n, f) ↦
                  rw (e, After, fsyncdir_body, finish, f)
                    (λ q. q, λ s. s, stays m.server, λ o. refl)
            ]
      ]

module _ {E : Env} where
  open E use {client_os, server_os, sha256}

  pub open_body-Frames :
      (is_create : Bool) (path : Bytes) (flags : Flags) (c : Chance E)
      → Frames false (open_body E is_create path flags c)
  unfolding open_body
  open_body-Frames is_create path flags c m effects =
      let r =
        client_open client_os server_os sha256 c.delivery c.download is_create flags path c.garbage
          c.buf c.file_stat (state_of E m) in
      let served =
        client_open-Served client_os server_os sha256 m.client c.delivery c.download is_create flags
          path c.garbage c.buf c.file_stat (state_of E m) in
      elim (Bool-cases (is_negative r.0)) [
        | inl n ↦
            rw (n, After, open_body, finish)
              (λ q. q, λ s. s, served, λ o. absurd (ground (arith, o)))
        | inr n ↦
            rw (n, After, open_body, finish)
              (λ q. q, λ s. s, served, λ o. absurd (ground (arith, o)))
      ]

  after_flush-Frame :
      (r : Option (ℤ × State client_os server_os sha256)) (fh : ℕ) (m : Mount E)
      (effects : List Effect)
      → ((code : ℤ) (s : State client_os server_os sha256)
          → r ≡ some (code, s)
          → Served (FromCopy client_os server_os sha256 m.client) m.server s.1)
      → let closing = close (int_of (call_ret E (dup (pos fh)) m)) in
        After
          (Frame false m)
          (finish E effects (after_flush E r (called E closing (called E (dup (pos fh)) m))))
  after_flush-Frame none fh m effects h = tt
  after_flush-Frame (some (code, s)) fh m effects h =
      (λ q. q, λ s. s, h code s refl, λ o. absurd (ground (arith, o)))

  pub flush_body-Frames :
      (path : Bytes) (fh : ℕ) (c : Chance E) → Frames false (flush_body E path fh c)
  unfolding flush_body
  flush_body-Frames path fh c m effects =
      let closing = close (int_of (call_ret E (dup (pos fh)) m)) in
      elim (Ret-cases (call_ret E closing (called E (dup (pos fh)) m))) [
        | inl (n, e) ↦
            rw (e, After, flush_body, finish)
              (after_flush-Frame _ fh m effects (λ code s r.
                client_flush-Served client_os server_os sha256 m.client c.server_draws c.upload path
                  fh m.server s code r))
        | inr (n, e) ↦ rw (e, After, flush_body, finish) (λ q. q, λ s. s, stays m.server, λ o. refl)
      ]
