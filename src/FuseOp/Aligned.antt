-- ===== src/FuseOp/Aligned.antt =====
-- The enumerators and the array of names of unreliablefs/unreliablefs/unreliablefs_ops.h and
-- unreliablefs_ops.c go together in every build.
use bnfs.Base.{
  ℕ, ◌+◌, zero, suc, Bool, true, some, List, [], ◌∷◌, map, Bytes, codes, get_elem?, ◌≡◌, refl, ap,
  subst, ◌∙◌, inl, inr, arith, Bool-cases, ◌==◌,
}
use bnfs.Build.{Build, linux, have_ioctl}
use bnfs.FuseOp.{
  FuseOp, enumerators, enumerators_of, names_of, number, position_from, op_index, op_name,
  op_getattr, op_readlink, op_mknod, op_mkdir, op_unlink, op_rmdir, op_symlink, op_rename, op_link,
  op_chmod, op_chown, op_truncate, op_open, op_read, op_write, op_statfs, op_flush, op_release,
  op_fsync, op_setxattr, op_getxattr, op_listxattr, op_removexattr, op_opendir, op_readdir,
  op_releasedir, op_fsyncdir, op_access, op_creat, op_ftruncate, op_fgetattr, op_lock, op_ioctl,
  op_flock, op_fallocate, op_utimens, op_lstat,
}

-- What an operation is called.
abbrev pub plain_name : FuseOp → Bytes
plain_name op_getattr = codes "getattr"
plain_name op_readlink = codes "readlink"
plain_name op_mknod = codes "mknod"
plain_name op_mkdir = codes "mkdir"
plain_name op_unlink = codes "unlink"
plain_name op_rmdir = codes "rmdir"
plain_name op_symlink = codes "symlink"
plain_name op_rename = codes "rename"
plain_name op_link = codes "link"
plain_name op_chmod = codes "chmod"
plain_name op_chown = codes "chown"
plain_name op_truncate = codes "truncate"
plain_name op_open = codes "open"
plain_name op_read = codes "read"
plain_name op_write = codes "write"
plain_name op_statfs = codes "statfs"
plain_name op_flush = codes "flush"
plain_name op_release = codes "release"
plain_name op_fsync = codes "fsync"
plain_name op_setxattr = codes "setxattr"
plain_name op_getxattr = codes "getxattr"
plain_name op_listxattr = codes "listxattr"
plain_name op_removexattr = codes "removexattr"
plain_name op_opendir = codes "opendir"
plain_name op_readdir = codes "readdir"
plain_name op_releasedir = codes "releasedir"
plain_name op_fsyncdir = codes "fsyncdir"
plain_name op_access = codes "access"
plain_name op_creat = codes "creat"
plain_name op_ftruncate = codes "ftruncate"
plain_name op_fgetattr = codes "fgetattr"
plain_name op_lock = codes "lock"
plain_name op_ioctl = codes "ioctl"
plain_name op_flock = codes "flock"
plain_name op_fallocate = codes "fallocate"
plain_name op_utimens = codes "utimens"
plain_name op_lstat = codes "lstat"

-- The build that has everything.
abbrev full : Build
full = record {
  system = linux;
  have_xattr = true;
  have_flock = true;
  have_fallocate = true;
  have_utimensat = true;
}

get_elem?-number : (x : FuseOp) → get_elem? (enumerators full) (number x) ≡ some x
get_elem?-number op_getattr = refl
get_elem?-number op_readlink = refl
get_elem?-number op_mknod = refl
get_elem?-number op_mkdir = refl
get_elem?-number op_unlink = refl
get_elem?-number op_rmdir = refl
get_elem?-number op_symlink = refl
get_elem?-number op_rename = refl
get_elem?-number op_link = refl
get_elem?-number op_chmod = refl
get_elem?-number op_chown = refl
get_elem?-number op_truncate = refl
get_elem?-number op_open = refl
get_elem?-number op_read = refl
get_elem?-number op_write = refl
get_elem?-number op_statfs = refl
get_elem?-number op_flush = refl
get_elem?-number op_release = refl
get_elem?-number op_fsync = refl
get_elem?-number op_setxattr = refl
get_elem?-number op_getxattr = refl
get_elem?-number op_listxattr = refl
get_elem?-number op_removexattr = refl
get_elem?-number op_opendir = refl
get_elem?-number op_readdir = refl
get_elem?-number op_releasedir = refl
get_elem?-number op_fsyncdir = refl
get_elem?-number op_access = refl
get_elem?-number op_creat = refl
get_elem?-number op_ftruncate = refl
get_elem?-number op_fgetattr = refl
get_elem?-number op_lock = refl
get_elem?-number op_ioctl = refl
get_elem?-number op_flock = refl
get_elem?-number op_fallocate = refl
get_elem?-number op_utimens = refl
get_elem?-number op_lstat = refl

number-injective : (x y : FuseOp) → number x ≡ number y → x ≡ y
number-injective x y e =
    ground (arith, e, ap (get_elem? (enumerators full)) e, get_elem?-number x, get_elem?-number y)

-- Both lists leave out the same.
names_of-map : (x i f a u : Bool) → names_of x i f a u ≡ map plain_name (enumerators_of x i f a u)
names_of-map x i f a u = ground arith

-- An operation that is found stands there.
position_from-get_elem? :
    (op : FuseOp) (i n : ℕ) (xs : List FuseOp)
    → position_from i op xs ≡ some n
    → (k : ℕ) × (n ≡ i + k) × (get_elem? xs k ≡ some op)
position_from-get_elem? op i n [] e = absurd (ground (arith, e))
position_from-get_elem? op i n (x ∷ xs) e = elim (Bool-cases (number x == number op)) [
  | inl here ↦ (0, ground (arith, e, here), ap some (number-injective x op (ground (arith, here))))
  | inr apart ↦
      let (k, ahead, found) = position_from-get_elem? op (suc i) n xs (ground (arith, e, apart)) in
      (suc k, omega (arith, ahead), found)
]

get_elem?-map {ℓ κ} :
    {A : Type ℓ} {B : Type κ} (f : A → B) (xs : List A) (k : ℕ) (x : A)
    → get_elem? xs k ≡ some x
    → get_elem? (map f xs) k ≡ some (f x)
get_elem?-map f [] k x e = absurd (ground (arith, e))
get_elem?-map f (y ∷ xs) zero x e = ground (arith, e)
get_elem?-map f (y ∷ xs) (suc k) x e = get_elem?-map f xs k x e

-- In every build, the name that stands at an operation's enumerator is that operation's, whichever
-- of the optional operations are left out before it.
pub op_name-plain_name :
    (b : Build) (op : FuseOp) (i : ℕ) → op_index b op ≡ some i → op_name b op ≡ some (plain_name op)
unfolding op_name op_index
op_name-plain_name b op i e =
    let (k, at_k, found) = position_from-get_elem? op 0 i (enumerators b) e in
    let at_i : get_elem? (enumerators b) i ≡ some op =
      subst (λ n. get_elem? (enumerators b) n ≡ some op) {x = k} {y = i} (omega (arith, at_k))
        found in
    let names =
      names_of-map b.have_xattr (have_ioctl b) b.have_flock b.have_fallocate b.have_utimensat in
    rw (e, op_name)
      (ap (λ l. get_elem? l i) names ∙ get_elem?-map plain_name (enumerators b) i op at_i)
