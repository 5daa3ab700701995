-- ===== src/Hash.antt =====
-- `getHashedPath`, `getCachePath` and `getTempPath` of
-- unreliablefs/unreliablefs/cache_helper.cc. OpenSSL's SHA-256 is a parameter.
pub mod Hex
pub mod Paths
use bnfs.Base.{ℕ, ◌+◌, ◌-◌, ◌/◌, ◌%◌, List, [], ◌∷◌, ◌++◌, Bytes, codes, length, ltb, if◌then◌else◌}

-- `CLIENT_DIR_ROOT`
abbrev pub client_dir_root : Bytes
client_dir_root = codes "/users/chrahul5/bnfs_client"

abbrev pub cache_dir : Bytes
cache_dir = client_dir_root ++ codes "/cache"

abbrev pub temp_dir : Bytes
temp_dir = client_dir_root ++ codes "/temp"

-- `hex` writes lower-case digits.
pub hex_digit : ℕ → ℕ
hex_digit d = if ltb d 10 then b'0' + d else b'a' + (d - 10)

-- `ss << hex << n` for a number below 256: no leading zero.
pub hex_number : ℕ → Bytes
hex_number n = if ltb n 16 then hex_digit n ∷ [] else hex_digit (n / 16) ∷ hex_digit (n % 16) ∷ []

-- `setw(2) << setfill('0')`
pub pad : Bytes → Bytes
pad s = if ltb (length s) 2 then b'0' ∷ s else s

unfoldable pub hex_byte : ℕ → Bytes
unfolding hex_digit hex_number pad
hex_byte b = pad (hex_number b)

unfoldable pub hex : Bytes → Bytes
unfolding hex_byte
hex [] = []
hex (b ∷ bs) = hex_byte b ++ hex bs

module _ (sha256 : Bytes → Bytes) where
  unfoldable pub get_hashed_path : Bytes → Bytes
  get_hashed_path rel_path = hex (sha256 rel_path)

  unfoldable pub get_cache_path : Bytes → Bytes
  unfolding get_hashed_path
  get_cache_path rel_path = cache_dir ++ (codes "/" ++ get_hashed_path rel_path)

  unfoldable pub get_temp_path : Bytes → Bytes
  unfolding get_hashed_path
  get_temp_path rel_path = temp_dir ++ (codes "/" ++ get_hashed_path rel_path)
