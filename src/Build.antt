-- ===== src/Build.antt =====
-- What a build is made for: the system, as the preprocessor sees it, and the functions that
-- unreliablefs/unreliablefs/CMakeLists.txt looks for.
use bnfs.Base.{Bool, true, false, List, []}

pub data System : Type 0 where
  linux : System
  -- Version 12 or later?
  freebsd : Bool → System
  openbsd : System
  macosx : System

pub record Build : Type 0 where
  pub system : System
  pub have_xattr : Bool
  pub have_flock : Bool
  pub have_fallocate : Bool
  pub have_utimensat : Bool

-- `!defined (__OpenBSD__)`
abbrev pub have_ioctl : Build → Bool
have_ioctl b = elim b.system [
  | linux ↦ true
  | freebsd recent ↦ true
  | openbsd ↦ false
  | macosx ↦ true
]

-- `defined (__APPLE__)`
abbrev pub is_apple : Build → Bool
is_apple b = elim b.system [
  | linux ↦ false
  | freebsd recent ↦ false
  | openbsd ↦ false
  | macosx ↦ true
]

-- The items between `#if` and `#endif`.
abbrev pub if_defined {ℓ} : {A : Type ℓ} → Bool → List A → List A
if_defined true items = items
if_defined false items = []
