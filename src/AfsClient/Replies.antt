-- ===== src/AfsClient/Replies.antt =====
-- `mkdir`, `rmdir`, `access` and `readDir` of unreliablefs/unreliablefs/afs_client.cc: what their
-- codes say.
use bnfs.Base.{
  ℕ, zero, suc, Bytes, ℤ, pos, negate, ◌≡◌, refl, ap, if◌then◌else◌, List, [], ◌∷◌, All, Bool, true,
  false, ◌≢◌, ◌⊎◌, ◌↔◌, inl, inr, Bool-cases, arith, subst, sym, eqb_ℤ, negsuc,
}
use bnfs.Posix.{Posix, Ret, ret, fail, Call, mkdir, rmdir, access, got, failed, Answer}
use bnfs.Server.{
  Server, get_server_path, mkdir_handler, rmdir_handler, access_handler, read_dir_handler,
}
use bnfs.Wire.{Delivery, delivered, lost, unanswered, reaches, returns}
use bnfs.AfsClient.{
  negative_or_zero, client_mkdir, client_rmdir, client_access, client_read_dir, fill_all,
}
use bnfs.Posix.Laws.{Answer-cases}

-- 0, or the negated error.
abbrev pub code_of : Ret → ℤ
code_of (ret n) = pos 0
code_of (fail e) = negate e

-- `base_response` and then `res < 0`.
code_kept : (r : Ret) → negative_or_zero (elim r [ ret n ↦ pos 0 | fail e ↦ negate e ]) ≡ code_of r
code_kept (ret n) = refl
code_kept (fail zero) = refl
code_kept (fail (suc e)) = refl

module _ (P Q : Posix) (sha256 : Bytes → Bytes) where
  -- A call that the client makes on the server, whose fate is `delivery`.
  abbrev pub carried_out : Delivery → Call → Server Q → ℤ × Server Q
  carried_out delivery c s = (
    if returns delivery then code_of (Q.sys c s.world).0 else pos 0,
    if reaches delivery then record s { world = (Q.sys c s.world).1 } else s,
  )

  -- `mkdir`, `rmdir` and `access` of the client, whatever becomes of the call: the server makes the
  -- one call on the file's path if the request gets there, and the code is 0 or the negated error
  -- of that call if the reply comes back, and 0, as for a success, if it does not.
  pub directory_calls :
      (delivery : Delivery) (path : Bytes) (mode : ℕ) (s : Server Q)
      → (client_mkdir P Q sha256 delivery path mode s
          ≡ carried_out delivery (mkdir (get_server_path path) mode) s)
        × (client_rmdir P Q sha256 delivery path s
            ≡ carried_out delivery (rmdir (get_server_path path)) s)
        × (client_access P Q sha256 delivery path mode s
            ≡ carried_out delivery (access (get_server_path path) mode) s)
  unfolding client_mkdir client_rmdir client_access mkdir_handler rmdir_handler access_handler
  directory_calls lost path mode s = (refl, refl, refl)
  directory_calls unanswered path mode s = (refl, refl, refl)
  directory_calls delivered path mode s = (
    after_call (mkdir (get_server_path path) mode),
    after_call (rmdir (get_server_path path)),
    after_call (access (get_server_path path) mode),
  )
    where
      after_call :
          (c : Call)
          → ◌≡◌ {A = ℤ × Server Q}
              (
                negative_or_zero (code_of (Q.sys c s.world).0),
                record s { world = (Q.sys c s.world).1 },
              )
              (code_of (Q.sys c s.world).0, record s { world = (Q.sys c s.world).1 })
      after_call c =
          ap (λ x. (x, record s { world = (Q.sys c s.world).1 })) (code_kept (Q.sys c s.world).0)

-- The listing is all taken where no name fills the buffer.
fill_all-zero :
    (is_full : Bytes → Bool) (names : List Bytes)
    → (fill_all is_full names ≡ pos 0) ↔ All (λ n. is_full n ≡ false) names
unfolding fill_all
fill_all-zero is_full [] = (λ e. tt, λ h. refl)
fill_all-zero is_full (name ∷ names) =
    let rest = fill_all-zero is_full names in
    elim (Bool-cases (is_full name)) [
      | inl full ↦ (λ e. absurd (ground (arith, full, e)), λ h. absurd (ground (arith, full, h.0)))
      | inr room ↦
          (λ e. (room, rest.0 (ground (arith, room, e))), λ h. ground (arith, room, rest.1 h.1))
    ]

-- What `readDir` makes of a reply that comes back or not.
abbrev listing_code : (Bytes → Bool) → Bool → Answer (List Bytes) → ℤ
listing_code is_full false r = pos 0
listing_code is_full true (got names) = fill_all is_full names
listing_code is_full true (failed e) = if eqb_ℤ (negate e) (negsuc 0) then negate e else pos 0

abbrev listed_names : Answer (List Bytes) → List Bytes
listed_names (got names) = names
listed_names (failed e) = []

abbrev listing_error : Answer (List Bytes) → ℕ
listing_error (got names) = 0
listing_error (failed e) = e

-- The listings that are answered 0.
abbrev pub AnsweredZero : (Bytes → Bool) → Bool → Answer (List Bytes) → Type 0
AnsweredZero is_full replied r =
    (replied ≡ false)
    ⊎ (((e : ℕ) × (r ≡ failed e) × (e ≢ 1))
        ⊎ ((names : List Bytes) × (r ≡ got names) × All (λ n. is_full n ≡ false) names))

listing_code-zero :
    (is_full : Bytes → Bool) (replied : Bool) (r : Answer (List Bytes))
    → (listing_code is_full replied r ≡ pos 0) ↔ AnsweredZero is_full replied r
listing_code-zero is_full false r = (λ e. inl refl, λ h. refl)
listing_code-zero is_full true (got names) = (
  λ e. inr (inr (names, refl, (fill_all-zero is_full names).0 e)),
  λ h. elim h [
    | inl unreplied ↦ absurd (ground (arith, unreplied))
    | inr (inl (e, wrong, ne)) ↦ absurd (ground (arith, wrong))
    | inr (inr (ns, e, room)) ↦
        (fill_all-zero is_full names).1
          (subst (All (λ n. is_full n ≡ false)) (sym (ap listed_names e)) room)
  ],
)
listing_code-zero is_full true (failed e) = (
  λ z. inr (inl (e, refl, λ one. ground (arith, z, one))),
  λ h. elim h [
    | inl unreplied ↦ absurd (ground (arith, unreplied))
    | inr (inl (e', same, ne)) ↦ ground (arith, ne, ap listing_error same)
    | inr (inr (ns, wrong, room)) ↦ absurd (ground (arith, wrong))
  ],
)

module _ (P Q : Posix) (sha256 : Bytes → Bytes) where
  client_read_dir-code :
      (delivery : Delivery) (path : Bytes) (is_full : Bytes → Bool) (s : Server Q)
      → client_read_dir P Q sha256 delivery path is_full s
        ≡ listing_code is_full (returns delivery) (Q.read_dir s.world (get_server_path path))
  unfolding client_read_dir read_dir_handler fill_all
  client_read_dir-code lost path is_full s = refl
  client_read_dir-code unanswered path is_full s = refl
  client_read_dir-code delivered path is_full s =
      elim (Answer-cases (Q.read_dir s.world (get_server_path path))) [
        | inl (names, e) ↦ rw (e, client_read_dir, read_dir_handler) refl
        | inr (n, e) ↦ rw (e, client_read_dir, read_dir_handler) refl
      ]

  -- `readDir` of the client answers 0 exactly if no reply comes back, or the server could not open
  -- the directory for a reason other than EPERM, or no name of the listing fills the buffer.
  pub read_dir_zero_iff :
      (delivery : Delivery) (path : Bytes) (is_full : Bytes → Bool) (s : Server Q)
      → (client_read_dir P Q sha256 delivery path is_full s ≡ pos 0)
        ↔ AnsweredZero is_full (returns delivery) (Q.read_dir s.world (get_server_path path))
  read_dir_zero_iff delivery path is_full s =
      let r = Q.read_dir s.world (get_server_path path) in
      subst (λ x. (x ≡ pos 0) ↔ AnsweredZero is_full (returns delivery) r)
        (sym (client_read_dir-code delivery path is_full s))
        (listing_code-zero is_full (returns delivery) r)
