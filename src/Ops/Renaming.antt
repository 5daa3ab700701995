-- ===== src/Ops/Renaming.antt =====
-- What a rename of unreliablefs/unreliablefs/unreliablefs_ops.c answers, and what it does on the
-- server, through afs_client.cc and afs_server.cc.
use bnfs.Base.{
  ℕ, zero, suc, true, false, Bool, ◌&&◌, Bytes, ℤ, pos, negsuc, neg_ℤ, negate, ◌≡◌, refl, ap, ◌∙◌,
  inl, inr, Bool-cases, arith, if◌then◌else◌, List,
}
use bnfs.Hash.{get_temp_path}
use bnfs.Posix.{Posix, Ret, ret, fail, rename}
use bnfs.Posix.Laws.{Ret-cases}
use bnfs.Cache.{Client, answer, is_present_in_cache}
use bnfs.Server.{Server, called, get_server_path, rename_handler}
use bnfs.Wire
use bnfs.Wire.{Delivery, reaches}
use bnfs.AfsClient.{is_negative, is_positive}
use bnfs.AfsClient.Files.{client_rename, rename_local, rename_remote}
use bnfs.FuseOp.{op_rename}
use bnfs.Errinj.{Effect}
use bnfs.Errinj.Config.{answers}
use bnfs.Ops.{Env, Mount, Chance, no_output, returns, injected, after_inject}
use bnfs.Ops.Names.{with_state, unreliable_rename}
use bnfs.Ops.Branches.{guarded-body}

-- The number that the operation answers with, by the result of the client's rename.
abbrev rename_code : ℤ → ℕ
rename_code (pos n) = 0
rename_code (negsuc n) = suc n

if_negative : (r : ℤ) → (if is_negative r then neg_ℤ r else pos 0) ≡ pos (rename_code r)
if_negative (pos n) = ground arith
if_negative (negsuc n) = refl

abbrev pub succeeds : Ret → Bool
succeeds (ret n) = true
succeeds (fail e) = false

-- What the caller is told, by the answer of the `rename` of the working copy, the fate of the call
-- and the answer of the `rename` on the server.
abbrev pub told : Ret → Delivery → (renamed : Ret) → ℕ
told (fail e) fate renamed = e
told (ret n) fate renamed = if bnfs.Wire.returns fate && succeeds renamed then 0 else 1

-- What becomes of the server: `after` if the call gets there.
abbrev pub server_then {ℓ} : {S : Type ℓ} → Ret → Delivery → (after before : S) → S
server_then (fail e) fate after before = before
server_then (ret n) fate after before = if reaches fate then after else before

module _ (P Q : Posix) (sha256 : Bytes → Bytes) where
  -- The answer of the `rename` of the working copy: success where the old path is not cached.
  abbrev pub local_answer : (oldpath newpath : Bytes) → Client P sha256 → Ret
  local_answer oldpath newpath k =
      let r = is_present_in_cache P sha256 oldpath k in
      if is_positive r.0
      then answer P sha256 (rename (get_temp_path sha256 oldpath) (get_temp_path sha256 newpath))
          r.1
      else ret 0

  remote :
      (fate : Delivery) (oldpath newpath : Bytes) (k : Client P sha256) (s : Server Q) (n : ℕ)
      → let c = rename (get_server_path oldpath) (get_server_path newpath) in
        let r = rename_remote P Q sha256 fate oldpath newpath (k, s) in
        (rename_code r.0 ≡ told (ret n) fate (Q.sys c s.world).0)
        × (r.1.1 ≡ server_then (ret n) fate (called Q c s) s)
  unfolding rename_remote rename_handler
  remote fate oldpath newpath k s n =
      let c = rename (get_server_path oldpath) (get_server_path newpath) in
      elim (Ret-cases (Q.sys c s.world).0) [
        | inl (i, e) ↦ ground (arith, e)
        | inr (i, e) ↦ ground (arith, e)
      ]

  local_failure : (e : ℕ) → rename_code (negate e) ≡ e
  local_failure zero = refl
  local_failure (suc e) = refl

  client_rename_lem :
      (fate : Delivery) (oldpath newpath : Bytes) (k : Client P sha256) (s : Server Q)
      → let c = rename (get_server_path oldpath) (get_server_path newpath) in
        let r = client_rename P Q sha256 fate oldpath newpath (k, s) in
        (rename_code r.0 ≡ told (local_answer oldpath newpath k) fate (Q.sys c s.world).0)
        × (r.1.1 ≡ server_then (local_answer oldpath newpath k) fate (called Q c s) s)
  unfolding client_rename rename_local
  client_rename_lem fate oldpath newpath k s =
      let r = is_present_in_cache P sha256 oldpath k in
      let here = rename (get_temp_path sha256 oldpath) (get_temp_path sha256 newpath) in
      elim (Bool-cases (is_positive r.0)) [
        | inr out ↦ rw (out, if◌then◌else◌, client_rename) (remote fate oldpath newpath r.1 s 0)
        | inl cached ↦ elim (Ret-cases (answer P sha256 here r.1)) [
          | inr (e, failure) ↦
              rw (cached, if◌then◌else◌, failure, client_rename) (local_failure e, refl)
          | inl (n, moved) ↦
              rw (cached, if◌then◌else◌, moved, client_rename) (remote fate oldpath newpath k s n)
        ]
      ]

module _ {E : Env} where
  open E use {client_os, server_os, sha256}

  -- A rename in which nothing is injected. Where the old path is cached and the `rename` of the
  -- working copy fails, it answers the positive number of the failure and the server is as it was.
  -- Otherwise the server renames if the call reaches it, and the answer is 0 if its `rename`
  -- succeeds and the reply comes back, and the positive number 1 if not.
  pub unreliable_rename-answers :
      (oldpath newpath : Bytes) (c : Chance E) (m : Mount E) (effects : List Effect)
      → injected E op_rename oldpath c m ≡ answers (pos 0) effects
      → let on_server = rename (get_server_path oldpath) (get_server_path newpath) in
        let here = local_answer client_os server_os sha256 oldpath newpath m.client in
        (m' : Mount E) × (unreliable_rename E oldpath newpath c m
          ≡ returns
              (pos (told here c.delivery (server_os.sys on_server m.server.world).0))
              no_output
              effects
              m')
        × (m'.server ≡ server_then here c.delivery (called server_os on_server m.server) m.server)
  unfolding unreliable_rename
  unreliable_rename-answers oldpath newpath c m effects e =
      let r =
        client_rename client_os server_os sha256 c.delivery oldpath newpath (m.client, m.server) in
      let (code, server) =
        client_rename_lem client_os server_os sha256 c.delivery oldpath newpath m.client m.server in
      let m' = with_state E r.1 (after_inject E op_rename oldpath c m) in
      (
        m',
        guarded-body op_rename oldpath c m _ effects e
            ∙ ap (λ x. returns x no_output effects m') (if_negative r.0 ∙ ap pos code),
        server,
      )
