-- ===== src/Hash/Paths.antt =====
-- Where unreliablefs/unreliablefs/cache_helper.cc keeps a file: one name in each directory.
use mathlib.Core.List.{append_cancel_left}
use bnfs.Base.{◌<◌, Bytes, All, ◌≡◌, ◌≢◌, sym, ap, ◌∙◌, arith, codes, ◌++◌, ◌↔◌}
use bnfs.Hash.{get_hashed_path, get_cache_path, get_temp_path, temp_dir, cache_dir, hex}
use bnfs.Hash.Hex.{decode, decode-hex}

module _ (sha256 : Bytes → Bytes) (p q : Bytes) where
  -- The digests are made of bytes.
  abbrev pub AreBytes : Type 0
  AreBytes = All (λ b. b < 256) (sha256 p) × All (λ b. b < 256) (sha256 q)

  hashed-digest :
      AreBytes → get_hashed_path sha256 p ≡ get_hashed_path sha256 q → sha256 p ≡ sha256 q
  unfolding get_hashed_path
  hashed-digest bytes e =
      sym (decode-hex (sha256 p) bytes.0) ∙ ap decode e ∙ decode-hex (sha256 q) bytes.1

  temp-digest : AreBytes → get_temp_path sha256 p ≡ get_temp_path sha256 q → sha256 p ≡ sha256 q
  unfolding get_temp_path
  temp-digest bytes e =
      hashed-digest bytes (append_cancel_left (codes "/") _ _ (append_cancel_left temp_dir _ _ e))

  cache-digest : AreBytes → get_cache_path sha256 p ≡ get_cache_path sha256 q → sha256 p ≡ sha256 q
  unfolding get_cache_path
  cache-digest bytes e =
      hashed-digest bytes (append_cancel_left (codes "/") _ _ (append_cancel_left cache_dir _ _ e))

-- What the program relies on: a digest is bytes, and two paths have two digests.
pub record IsDigest (sha256 : Bytes → Bytes) : Type 0 where
  pub bytes : (p : Bytes) → All (λ b. b < 256) (sha256 p)
  pub collision_free : (p q : Bytes) → sha256 p ≡ sha256 q → p ≡ q

pub get_hashed_path-injective :
    {sha256 : Bytes → Bytes}
    → IsDigest sha256
    → (p q : Bytes) → get_hashed_path sha256 p ≡ get_hashed_path sha256 q
    → p ≡ q
get_hashed_path-injective {sha256} digest p q e =
    digest.collision_free p q (hashed-digest sha256 p q (digest.bytes p, digest.bytes q) e)

-- The working copy of a path is never the cached copy of a path, whatever the digest.
pub get_temp_path-ne-get_cache_path :
    (sha256 : Bytes → Bytes) (p q : Bytes) → get_temp_path sha256 p ≢ get_cache_path sha256 q
unfolding get_temp_path get_cache_path
get_temp_path-ne-get_cache_path sha256 p q e = ground arith

-- Whatever the digest, if what it makes of two paths is bytes: the working copies of both paths are
-- one file exactly if their digests are equal, and so are their cached copies; and the working copy
-- of the one is never the cached copy of the other.
pub copies_shared_iff :
    (sha256 : Bytes → Bytes) (p q : Bytes)
    → AreBytes sha256 p q
    → ((get_temp_path sha256 p ≡ get_temp_path sha256 q) ↔ (sha256 p ≡ sha256 q))
      × ((get_cache_path sha256 p ≡ get_cache_path sha256 q) ↔ (sha256 p ≡ sha256 q))
      × (get_temp_path sha256 p ≢ get_cache_path sha256 q)
unfolding get_temp_path get_cache_path get_hashed_path
copies_shared_iff sha256 p q bytes = (
  (temp-digest sha256 p q bytes, λ e. ap (λ d. temp_dir ++ (codes "/" ++ hex d)) e),
  (cache-digest sha256 p q bytes, λ e. ap (λ d. cache_dir ++ (codes "/" ++ hex d)) e),
  get_temp_path-ne-get_cache_path sha256 p q,
)
