-- ===== src/Mounted/Codes.antt =====
-- The codes that the calls of unreliablefs/unreliablefs/afs_client.cc and of the operating system
-- answer with.
use bnfs.Base.{
  ℕ, Bool, true, false, ◌&&◌, not, List, [], ◌∷◌, Bytes, ℤ, pos, negsuc, negate, ◌≡◌, refl, inl,
  inr, if◌then◌else◌, arith,
}
use bnfs.Posix.{Posix, Ret, ret, fail, Stat}
use bnfs.Posix.Laws.{Answer-cases}
use bnfs.Server.{Server, get_server_path, get_attr, read_dir_handler}
use bnfs.Wire.{Delivery, delivered, lost, unanswered}
use bnfs.AfsClient.{
  is_positive, is_negative, client_get_attr, client_read_dir, client_mkdir, client_rmdir,
  client_access, fill_all,
}

-- A code that is not positive, or one of a slot that may answer a number.
abbrev pub FitsCode : Bool → ℤ → Type 0
FitsCode number code = (is_positive code && not number) ≡ false

pub any_code : (code : ℤ) → FitsCode true code
any_code code = ground arith

pub link-code : (r : Ret) → FitsCode false (elim r [ ret n ↦ pos 0 | fail e ↦ negsuc 0 ])
link-code (ret n) = refl
link-code (fail e) = refl

pub negative_or_zero-code : (res : ℤ) → FitsCode false (if is_negative res then res else pos 0)
negative_or_zero-code res = ground arith

fill_all-code :
    (is_full : Bytes → Bool) (names : List Bytes) → FitsCode false (fill_all is_full names)
unfolding fill_all
fill_all-code is_full [] = refl
fill_all-code is_full (name ∷ names) = ground (arith, fill_all-code is_full names)

pub errno-code : (number : Bool) (e : ℕ) → FitsCode number (negate e)
errno-code number e = ground arith

-- The calls to the server.
module _ (P Q : Posix) (sha256 : Bytes → Bytes) where
  pub get_attr-code :
      (fate : Delivery) (path : Bytes) (garbage buf : Stat) (s : Server Q)
      → FitsCode false (client_get_attr P Q sha256 fate path garbage buf s).0
  unfolding client_get_attr get_attr
  get_attr-code lost path garbage buf s = refl
  get_attr-code unanswered path garbage buf s = refl
  get_attr-code delivered path garbage buf s =
      elim (Answer-cases (Q.lstat s.world (get_server_path path))) [
        | inl (st, e) ↦ rw (e, client_get_attr, get_attr) refl
        | inr (n, e) ↦ rw (e, client_get_attr, get_attr) (ground arith)
      ]

  pub read_dir-code :
      (fate : Delivery) (path : Bytes) (is_full : Bytes → Bool) (s : Server Q)
      → FitsCode false (client_read_dir P Q sha256 fate path is_full s)
  unfolding client_read_dir
  read_dir-code lost path is_full s = refl
  read_dir-code unanswered path is_full s = refl
  read_dir-code delivered path is_full s =
      let reply = read_dir_handler Q path s in ground (arith, fill_all-code is_full reply.dir_name)

  pub mkdir-code :
      (fate : Delivery) (path : Bytes) (mode : ℕ) (s : Server Q)
      → FitsCode false (client_mkdir P Q sha256 fate path mode s).0
  unfolding client_mkdir
  mkdir-code fate path mode s = search negative_or_zero-code

  pub rmdir-code :
      (fate : Delivery) (path : Bytes) (s : Server Q)
      → FitsCode false (client_rmdir P Q sha256 fate path s).0
  unfolding client_rmdir
  rmdir-code fate path s = search negative_or_zero-code

  pub access-code :
      (fate : Delivery) (path : Bytes) (mode : ℕ) (s : Server Q)
      → FitsCode false (client_access P Q sha256 fate path mode s).0
  unfolding client_access
  access-code fate path mode s = search negative_or_zero-code
