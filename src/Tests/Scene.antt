-- ===== src/Tests/Scene.antt =====
-- A digest, disks, a client and a server for the examples.
use bnfs.Base.{
  ℕ, zero, suc, ◌<◌, false, none, some, [], ◌∷◌, Bytes, All, codes, same, ◌≡◌, refl, sym, arith,
  if◌then◌else◌,
}
use bnfs.Hash.{get_temp_path}
use bnfs.Hash.Paths.{IsDigest}
use bnfs.Posix.{Stat}
use bnfs.Posix.Memory.{Disk, memory, empty_disk}
use bnfs.Server.{Server, get_server_path}
use bnfs.Cache.{Client, mark_file_dirty}

-- A number as bytes: 1 as often as it says, and then 0.
ones : ℕ → Bytes → Bytes
ones zero rest = 0 ∷ rest
ones (suc n) rest = 1 ∷ ones n rest

unfoldable pub digest : Bytes → Bytes
unfolding ones
digest [] = []
digest (n ∷ p) = ones n (digest p)

ones-bytes : (n : ℕ) (rest : Bytes) → All (λ b. b < 256) rest → All (λ b. b < 256) (ones n rest)
unfolding ones
ones-bytes zero rest h = (omega arith, h)
ones-bytes (suc n) rest h = (omega arith, ones-bytes n rest h)

ones-injective : (m n : ℕ) (xs ys : Bytes) → ones m xs ≡ ones n ys → (m ≡ n) × (xs ≡ ys)
unfolding ones
ones-injective zero zero xs ys e = ground (arith, e)
ones-injective zero (suc n) xs ys e = ground (arith, e)
ones-injective (suc m) zero xs ys e = ground (arith, e)
ones-injective (suc m) (suc n) xs ys e = ground (arith, e, ones-injective m n xs ys)

ones-ne : (n : ℕ) (xs : Bytes) → ones n xs ≡ [] → ⊥
unfolding ones
ones-ne zero xs e = ground (arith, e)
ones-ne (suc n) xs e = ground (arith, e)

digest-bytes : (p : Bytes) → All (λ b. b < 256) (digest p)
unfolding digest
digest-bytes [] = tt
digest-bytes (n ∷ p) = ones-bytes n (digest p) (digest-bytes p)

digest-injective : (p q : Bytes) → digest p ≡ digest q → p ≡ q
unfolding digest
digest-injective [] [] e = refl
digest-injective [] (n ∷ q) e = absurd (ones-ne n (digest q) (sym e))
digest-injective (m ∷ p) [] e = absurd (ones-ne m (digest p) e)
digest-injective (m ∷ p) (n ∷ q) e =
    let (heads, tails) = ones-injective m n (digest p) (digest q) e in
    ground (arith, heads, digest-injective p q tails)

pub digest-IsDigest : IsDigest digest
digest-IsDigest = record { bytes = digest-bytes; collision_free = digest-injective }

abbrev pub path : Bytes
path = codes "/a"

abbrev pub other_path : Bytes
other_path = codes "/b"

abbrev pub text : Bytes
text = codes "hello"

-- One file, and one directory.
abbrev pub disk_with : Bytes → Bytes → Disk
disk_with p b = record empty_disk {
  files = λ q. if same p q then some (record { bytes = b; time = 7 }) else none;
}

abbrev pub client_with : Bytes → Client memory digest
client_with b = record { world = disk_with (get_temp_path digest path) b; dirty_files = [] }

abbrev pub dirty_client : Client memory digest
dirty_client = mark_file_dirty memory digest path (client_with text)

abbrev pub server_with : Bytes → Server memory
server_with b = record { world = disk_with (get_server_path path) b; locked = false }

abbrev pub empty_server : Server memory
empty_server = record { world = empty_disk; locked = false }

abbrev pub zeros : Stat
zeros = record {
  dev = 0;
  ino = 0;
  mode = 0;
  nlink = 0;
  uid = 0;
  gid = 0;
  rdev = 0;
  size = 0;
  blksize = 0;
  blocks = 0;
  atime = 0;
  mtime = 0;
  ctime = 0;
}
