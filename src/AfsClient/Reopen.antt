-- ===== src/AfsClient/Reopen.antt =====
-- Opening a file whose working copy is current, of unreliablefs/unreliablefs/afs_client.cc.
use bnfs.Base.{
  ℕ, suc, Bool, false, some, Bytes, ℤ, pos, to_int, ltb_ℤ, ◌≡◌, refl, inl, inr, ◌∙◌, arith,
  if◌then◌else◌, Bool-cases,
}
use bnfs.Hash.{get_temp_path, get_cache_path}
use bnfs.Posix.{Posix, ret, got, Flags, Stat, o_rdonly, open_file}
use bnfs.Posix.Laws.{IsLawful, after, mtime, Answer-cases}
use bnfs.Server.{Server, get_server_path, get_attr}
use bnfs.Cache.{Client, is_present_in_cache, is_present_in_temp, is_out_of_date, mtime_of}
use bnfs.Wire.{delivered, Delivery, returns}
use bnfs.AfsClient.{get_open_flags, client_get_attr, copy_stat}
use bnfs.AfsClient.OpenFlags.{wanted_flag, get_open_flags-wanted}

ltb_ℤ-irreflexive : (x : ℤ) → ltb_ℤ x x ≡ false
ltb_ℤ-irreflexive x = ground arith

module _ (P Q : Posix) (sha256 : Bytes → Bytes) (L : IsLawful P) where
  -- The time that a descriptor of the working copy has.
  temp_time :
      (path : Bytes) (w : P.World) (t fd : ℕ) (garbage : Stat)
      → mtime P w (get_temp_path sha256 path) ≡ some t
      → (P.sys (open_file (get_temp_path sha256 path) o_rdonly 0) w).0 ≡ ret fd
      → mtime_of P sha256
          (P.fstat (after P (open_file (get_temp_path sha256 path) o_rdonly 0) w) (pos fd))
          garbage
        ≡ t
  temp_time path w t fd garbage time opened =
      elim (Answer-cases (P.lstat w (get_temp_path sha256 path))) [
        | inl (st, e) ↦ ground (
          arith,
          time,
          e,
          L.fstat-open_file (get_temp_path sha256 path) o_rdonly 0 w fd refl opened,
        )
        | inr (n, e) ↦ ground (arith, time, e)
      ]

  -- The time that `getOpenFlags` takes for the server's: what was in the memory of its struct if the
  -- reply does not come back.
  abbrev pub time_seen : Delivery → Stat → Stat → ℕ
  time_seen fate st buf = if returns fate then st.mtime else buf.mtime

  -- For a file that the server has and a working copy that opens with a descriptor above 0:
  -- `getOpenFlags` answers 1, to fetch, exactly if the copy is older than the time that it takes for
  -- the server's, and 2 otherwise. If the reply to its GetAttr does not come back, that time is
  -- whatever was in the memory of its struct.
  pub get_open_flags-compares :
      (fate : Delivery) (is_create : Bool) (flags : Flags) (path : Bytes)
      (garbage buf file_stat st : Stat) (s : Server Q) (k : Client P sha256) (fd time : ℕ)
      → Q.lstat s.world (get_server_path path) ≡ got st
      → mtime P k.world (get_temp_path sha256 path) ≡ some time
      → (P.sys
          (open_file (get_temp_path sha256 path) o_rdonly 0)
          (after P (open_file (get_cache_path sha256 path) o_rdonly 0) k.world)).0
        ≡ ret (suc fd)
      → (get_open_flags P Q sha256 fate is_create flags path garbage buf file_stat s k).0
        ≡ (if ltb_ℤ (to_int time) (to_int (time_seen fate st buf)) then 1 else 2)
  unfolding client_get_attr get_attr copy_stat is_out_of_date is_present_in_temp is_present_in_cache
      wanted_flag
  get_open_flags-compares fate is_create flags path garbage buf file_stat st s k fd time there timed
        opened =
      let cached = open_file (get_cache_path sha256 path) o_rdonly 0 in
      let w = after P cached k.world in
      let kept = L.mtime_kept cached k.world (get_temp_path sha256 path) refl ∙ timed in
      get_open_flags-wanted P Q sha256 fate is_create flags path garbage buf file_stat s k
      ∙ rw
          (
            there,
            client_get_attr,
            get_attr,
            is_out_of_date,
            is_present_in_temp,
            opened,
            temp_time path w time (suc fd) file_stat kept opened,
          )
          (elim (Bool-cases (returns fate)) [
            | inl e ↦ rw e (ground arith)
            | inr e ↦ rw e (ground arith)
          ])

  -- Where the server answers with the modification time of the working copy, and the copy opens
  -- with a descriptor above 0, `getOpenFlags` answers 2: the copy is used and nothing is fetched.
  get_open_flags-current :
      (is_create : Bool) (flags : Flags) (path : Bytes) (garbage buf file_stat st : Stat)
      (s : Server Q) (k : Client P sha256) (fd : ℕ)
      → Q.lstat s.world (get_server_path path) ≡ got st
      → mtime P k.world (get_temp_path sha256 path) ≡ some st.mtime
      → (P.sys
          (open_file (get_temp_path sha256 path) o_rdonly 0)
          (after P (open_file (get_cache_path sha256 path) o_rdonly 0) k.world)).0
        ≡ ret (suc fd)
      → (get_open_flags P Q sha256 delivered is_create flags path garbage buf file_stat s k).0 ≡ 2
  get_open_flags-current is_create flags path garbage buf file_stat st s k fd there time opened =
      get_open_flags-compares delivered is_create flags path garbage buf file_stat st s k fd
        st.mtime there time opened
      ∙ rw (ltb_ℤ-irreflexive (to_int st.mtime)) refl
