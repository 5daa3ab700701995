-- ===== src/Launch/Serves.antt =====
-- What the program of unreliablefs/unreliablefs/unreliablefs.c hands to libfuse.
use bnfs.Base.{
  ℕ, Option, none, some, List, [], ◌++◌, Bytes, codes, length, ltb, ◌≡◌, subst, inl, inr, arith,
  Bool-cases, Option-cases, if◌then◌else◌, length-append, take_all, ◌^◌, ◌%◌, ℤ,
}
use bnfs.Posix.{Posix}
use bnfs.Cache.{Client}
use bnfs.Errinj.Config.{Config}
use bnfs.Server.{Server}
use bnfs.Ops.{Env, Mount}
use bnfs.Mounted.{HasSoundErrors, IsSound, Reach}
use bnfs.Mounted.Frames.{config_init-HasSoundErrors}
use bnfs.Mounted.Reachable.{Reach-IsSound}
use bnfs.Launch.{
  Opt, Settings, parse_args, default_conf_name, config_path_of, subdir_option, path_max, is_dir,
  Host, Launched, serves, with_config, with_settings, main,
}
use bnfs.Mounted.Fleet.{Fleet, FleetReach, mount_of, FleetReach-Reach}

-- The buffer of the path is as long as the text, its end included.
config_path_of-whole :
    (basedir : Bytes) → config_path_of basedir ≡ basedir ++ (codes "/" ++ default_conf_name)
unfolding config_path_of
config_path_of-whole basedir =
    let sized = length-append basedir (codes "/" ++ default_conf_name) in
    take_all _ (basedir ++ (codes "/" ++ default_conf_name)) (omega (arith, sized))

module _ (P : Posix) (sha256 : Bytes → Bytes) (atoi : Bytes → ℤ) where
  -- The path and the configuration of a program that serves.
  abbrev pub ServesWell : Launched P sha256 atoi → Type 0
  ServesWell (serves st conf k) =
      (conf.config_path ≡ st.basedir ++ (codes "/" ++ default_conf_name))
      × HasSoundErrors conf.errors
  ServesWell _ = Unit

  with_config-ServesWell :
      (h : Host P sha256 atoi) (st : Settings) (real : Option Bytes) (w : P.World)
      → ServesWell (with_config P sha256 atoi h st real w)
  unfolding with_config
  with_config-ServesWell h st none w = tt
  with_config-ServesWell h st (some real) w = elim (Bool-cases h.malloc) [
    | inr m ↦ rw (m, with_config, if◌then◌else◌) tt
    | inl m ↦ elim (Bool-cases h.mutex_init) [
      | inr i ↦ rw (m, i, with_config, if◌then◌else◌) tt
      | inl i ↦
          rw (m, i, with_config, if◌then◌else◌)
            (config_path_of-whole real, config_init-HasSoundErrors atoi h.file)
    ]
  ]

  with_settings-ServesWell :
      (h : Host P sha256 atoi) (st : Settings) (w : P.World)
      → ServesWell (with_settings P sha256 atoi h st w)
  unfolding with_settings
  with_settings-ServesWell h st w = elim (Bool-cases (is_dir P sha256 atoi w st.basedir)) [
    | inr d ↦ rw (d, with_settings, if◌then◌else◌) tt
    | inl d ↦ elim (Bool-cases (ltb (length (subdir_option st.basedir)) path_max)) [
      | inr f ↦ rw (d, f, with_settings, if◌then◌else◌) tt
      | inl f ↦
          rw (d, f, with_settings, if◌then◌else◌)
            (with_config-ServesWell h st (h.realpath st.basedir) w)
    ]
  ]

  main-ServesWell :
      (h : Host P sha256 atoi) (opts : List Opt) (w : P.World)
      → ServesWell (main P sha256 atoi h opts w)
  unfolding main
  main-ServesWell h opts w =
      elim (Option-cases
        (parse_args opts (record { seed = h.time % 2 ^ 32; basedir = codes "/" }))) [
          | inl none_left ↦ rw (none_left, main) tt
          | inr (st, e) ↦ rw (e, main) (with_settings-ServesWell h st w)
        ]

-- A program that serves has the configuration path `unreliablefs.conf` in the real base directory,
-- not cut off; and however it is mounted with an empty queue and used, with whatever server, its
-- queue never has an entry that writes, and its configuration has one entry for each type at most.
main-IsSound :
    (E : Env) (h : Host E.client_os E.sha256 E.atoi) (opts : List Opt) (w : E.client_os.World)
    (st : Settings) (conf : Config E.atoi) (k : Client E.client_os E.sha256)
    (s : Server E.server_os) (m : Mount E)
    → main E.client_os E.sha256 E.atoi h opts w ≡ serves st conf k
    → Reach E (record { client = k; server = s; op_queue = []; config = conf }) m
    → (conf.config_path ≡ st.basedir ++ (codes "/" ++ default_conf_name)) × IsSound E m
main-IsSound E h opts w st conf k s m e r =
    let well =
      subst (ServesWell E.client_os E.sha256 E.atoi) e
        (main-ServesWell E.client_os E.sha256 E.atoi h opts w) in
    (well.0, Reach-IsSound r (tt, well.1))

-- Any number of programs that serve one server, each started with options and on a machine of its
-- own, mounted with an empty queue, and then used in any order, with requests from outside in
-- between: every one has the configuration path `unreliablefs.conf` in its real base directory, not
-- cut off, its queue never has an entry that writes, and its configuration has one entry for each
-- type at most.
pub mains-IsSound :
    (E : Env) (h : ℕ → Host E.client_os E.sha256 E.atoi) (opts : ℕ → List Opt)
    (w : ℕ → E.client_os.World) (st : ℕ → Settings) (conf : ℕ → Config E.atoi)
    (k : ℕ → Client E.client_os E.sha256) (s : Server E.server_os) (f : Fleet E)
    → ((i : ℕ)
        → main E.client_os E.sha256 E.atoi (h i) (opts i) (w i) ≡ serves (st i) (conf i) (k i))
    → FleetReach E
        (record {
          members = λ i. record { client = k i; op_queue = []; config = conf i };
          server = s;
        })
        f
    → (i : ℕ)
    → ((conf i).config_path ≡ (st i).basedir ++ (codes "/" ++ default_conf_name))
      × IsSound E (mount_of E i f)
mains-IsSound E h opts w st conf k s f e r i =
    main-IsSound E (h i) (opts i) (w i) (st i) (conf i) (k i) s (mount_of E i f) (e i)
      (FleetReach-Reach r i)
