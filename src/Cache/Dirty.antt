-- ===== src/Cache/Dirty.antt =====
-- The set of dirty files of unreliablefs/unreliablefs/cache_helper.cc.
use bnfs.Base.{
  true, false, List, [], ◌∷◌, Bytes, ◌≡◌, refl, subst, ◌∙◌, arith, same, same_iff, same_refl,
  Bool-cases, inl, inr, if◌then◌else◌,
}
use bnfs.Hash.{get_hashed_path}
use bnfs.Hash.Paths.{IsDigest, get_hashed_path-injective}
use bnfs.Posix.{Posix}
use bnfs.Cache.{
  contains, insert, erase, Client, is_file_dirty, mark_file_dirty, unmark_file_dirty,
  delete_from_temp, erased,
}

pub contains-insert :
    (k j : Bytes) (xs : List Bytes)
    → contains j (insert k xs) ≡ (if same k j then true else contains j xs)
unfolding contains insert
contains-insert k j xs = elim (Bool-cases (contains k xs)) [
  | inl held ↦ rw held (elim (Bool-cases (same k j)) [
    | inl e ↦ rw e (subst (λ x. contains x xs ≡ true) ((same_iff k j).0 e) held)
    | inr e ↦ rw e
  ])
  | inr absent ↦ ground arith
]

pub contains-erase :
    (k j : Bytes) (xs : List Bytes)
    → contains j (erase k xs) ≡ (if same k j then false else contains j xs)
unfolding contains erase
contains-erase k j [] = ground arith
contains-erase k j (x ∷ xs) =
    ground (arith, contains-erase k j xs, same_iff x k, same_iff x j, same_iff k j)

module _ {sha256 : Bytes → Bytes} (digest : IsDigest sha256) where
  same-get_hashed_path :
      (p q : Bytes) → same (get_hashed_path sha256 p) (get_hashed_path sha256 q) ≡ same p q
  same-get_hashed_path p q = elim (Bool-cases (same p q)) [
    | inl e ↦ rw (e, (same_iff p q).0 e) (same_refl (get_hashed_path sha256 q))
    | inr e ↦ ground (
      arith,
      get_hashed_path-injective digest p q,
      same_iff p q,
      same_iff (get_hashed_path sha256 p) (get_hashed_path sha256 q),
    )
  ]

  module _ {P : Posix} where
    -- Under a digest without collisions, marking a path makes that path dirty, and changes no
    -- other.
    pub is_file_dirty-mark :
        (p q : Bytes) (k : Client P sha256)
        → is_file_dirty P sha256 q (mark_file_dirty P sha256 p k)
          ≡ (if same p q then true else is_file_dirty P sha256 q k)
    unfolding is_file_dirty mark_file_dirty
    is_file_dirty-mark p q k =
        contains-insert (get_hashed_path sha256 p) (get_hashed_path sha256 q) k.dirty_files
        ∙ rw (same-get_hashed_path p q)

    -- Erasing a path makes that path clean, and no other.
    pub is_file_dirty-erased :
        (p q : Bytes) (k : Client P sha256)
        → is_file_dirty P sha256 q (erased P sha256 p k)
          ≡ (if same p q then false else is_file_dirty P sha256 q k)
    unfolding is_file_dirty
    is_file_dirty-erased p q k =
        contains-erase (get_hashed_path sha256 p) (get_hashed_path sha256 q) k.dirty_files
        ∙ rw (same-get_hashed_path p q)

    -- Under a digest without collisions, deleting the working copy of a path makes that path clean,
    -- and changes no other.
    pub is_file_dirty-delete :
        (p q : Bytes) (k : Client P sha256)
        → is_file_dirty P sha256 q (delete_from_temp P sha256 p k)
          ≡ (if same p q then false else is_file_dirty P sha256 q k)
    unfolding delete_from_temp is_file_dirty
    is_file_dirty-delete p q k =
        contains-erase (get_hashed_path sha256 p) (get_hashed_path sha256 q) k.dirty_files
        ∙ rw (same-get_hashed_path p q)

-- `unmarkFileDirty` leaves every file as dirty as it was.
pub is_file_dirty-unmark :
    (P : Posix) (sha256 : Bytes → Bytes) (p q : Bytes) (k : Client P sha256)
    → is_file_dirty P sha256 q (unmark_file_dirty P sha256 p k) ≡ is_file_dirty P sha256 q k
unfolding is_file_dirty unmark_file_dirty
is_file_dirty-unmark P sha256 p q k = refl
