-- ===== src/Launch.antt =====
-- The program that mounts a client: `main`, `is_dir` and `unreliablefs_opt_proc` of
-- unreliablefs/unreliablefs/unreliablefs.c, up to the call of `fuse_main`. What libfuse's option
-- parser recognises, and the calls that may fail for lack of memory, are parameters.
pub mod Serves
use bnfs.Base.{
  ℕ, ◌+◌, ◌-◌, ◌/◌, ◌%◌, Bool, true, false, Option, none, some, List, [], ◌∷◌, ◌++◌, Bytes, codes,
  length, take, ltb, ◌==◌, if◌then◌else◌, ◌^◌, ℤ,
}
use bnfs.Posix.{Posix, Stat, Answer, got, failed, s_isdir}
use bnfs.Cache.{Client}
use bnfs.Cache.Setup.{new_afs_client}
use bnfs.Errinj.Config.{Config, ConfFile, config_init}

-- What the parser hands over, in order: the two options that set a field, and the keys that
-- `unreliablefs_opt_proc` is called with.
pub data Opt : Type 0 where
  seed_opt : ℕ → Opt
  basedir_opt : Bytes → Opt
  key_help key_version other_key : Opt

-- The fields of `conf` that options set.
pub record Settings : Type 0 where
  pub seed : ℕ
  pub basedir : Bytes

-- True is the result 1, which keeps the argument, and false `exit (1)`.
unfoldable pub unreliablefs_opt_proc : Opt → Bool
unreliablefs_opt_proc key_help = false
unreliablefs_opt_proc key_version = false
unreliablefs_opt_proc _ = true

set_field : Opt → Settings → Settings
set_field (seed_opt n) st = record st { seed = n }
set_field (basedir_opt p) st = record st { basedir = p }
set_field _ st = st

-- None: the program has exited.
unfoldable pub parse_args : List Opt → Settings → Option Settings
unfolding unreliablefs_opt_proc set_field
parse_args [] st = some st
parse_args (o ∷ os) st =
    let rest = parse_args os (set_field o st) in if unreliablefs_opt_proc o then rest else none

abbrev pub default_conf_name : Bytes
default_conf_name = codes "unreliablefs.conf"

-- `PATH_MAX` of <limits.h> on Linux
abbrev pub path_max : ℕ
path_max = 4096

-- `snprintf (s, size, …)` of a text leaves its first `size - 1` characters.
abbrev pub snprintf : ℕ → Bytes → Bytes
snprintf size text = take (size - 1) text

unfoldable pub config_path_of : (basedir : Bytes) → Bytes
config_path_of basedir =
    let sz = length default_conf_name + length basedir + 2 in
    snprintf sz (basedir ++ (codes "/" ++ default_conf_name))

-- `sprintf (subdir_option, "-omodules=subdir,subdir=%s", conf.basedir)`
abbrev pub subdir_option : Bytes → Bytes
subdir_option basedir = codes "-omodules=subdir,subdir=" ++ basedir

module _ (P : Posix) (sha256 : Bytes → Bytes) (atoi : Bytes → ℤ) where
  unfoldable pub is_dir : P.World → Bytes → Bool
  is_dir w path = elim (P.stat w path) [ failed e ↦ false | got st ↦ s_isdir st.mode ]

  -- The seconds of `time`, `realpath` (none is NULL), whether `malloc` and `pthread_mutex_init` succeed, and the
  -- configuration file.
  pub record Host : Type 0 where
    pub time : ℕ
    pub realpath : Bytes → Option Bytes
    pub malloc : Bool
    pub mutex_init : Bool
    pub file : ConfFile atoi

  -- An exit with a code, a text longer than its buffer, or a file system that is served.
  pub data Launched : Type 0 where
    exited : ℕ → Launched
    overflows : Launched
    serves : Settings → Config atoi → Client P sha256 → Launched

  -- From `realpath` on. `EXIT_FAILURE` is 1.
  pub with_config : Host → Settings → Option Bytes → P.World → Launched
  unfolding config_path_of
  with_config h st none w = exited 1
  with_config h st (some real) w =
      if h.malloc
      then if h.mutex_init
        then serves (record st { basedir = real })
            (record { errors = config_init atoi h.file; config_path = config_path_of real })
            (new_afs_client P sha256 w)
        else exited 1
      else exited 1

  pub with_settings : Host → Settings → P.World → Launched
  unfolding is_dir with_config
  with_settings h st w =
      if is_dir w st.basedir
      then if ltb (length (subdir_option st.basedir)) path_max
        then with_config h st (h.realpath st.basedir) w
        else overflows
      else exited 1

  unfoldable pub main : Host → List Opt → P.World → Launched
  unfolding with_settings parse_args
  main h opts w = elim (parse_args opts (record { seed = h.time % 2 ^ 32; basedir = codes "/" })) [
    | none ↦ exited 1
    | some st ↦ with_settings h st w
  ]
