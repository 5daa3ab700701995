-- ===== src/Hash/Hex.antt =====
-- The hexadecimal names of unreliablefs/unreliablefs/cache_helper.cc, `getHashedPath`.
use bnfs.Base.{
  ℕ, ◌+◌, ◌-◌, ◌*◌, ◌≤◌, ◌<◌, [], ◌∷◌, ◌++◌, Bytes, All, length, ◌≡◌, ◌≢◌, refl, ap, ◌∙◌, arith,
  ltb, if◌then◌else◌, length-append,
}
use bnfs.Hash.{hex_digit, hex_byte, hex}

-- Two digits, also where the number is below 16.
pub length-hex_byte : (b : ℕ) → length (hex_byte b) ≡ 2
unfolding hex_byte
length-hex_byte b = ground arith

pub length-hex : (bs : Bytes) → length (hex bs) ≡ 2 * length bs
unfolding hex
length-hex [] = omega arith
length-hex (b ∷ bs) =
    omega (arith, length-append (hex_byte b) (hex bs), length-hex_byte b, length-hex bs)

-- The value of a digit.
unhex : ℕ → ℕ
unhex c = if ltb c b'a' then c - b'0' else c - b'a' + 10

unhex-hex_digit : (d : ℕ) → d < 16 → unhex (hex_digit d) ≡ d
unfolding unhex hex_digit
unhex-hex_digit d h = ground arith

-- Reads pairs of digits back.
pub decode : Bytes → Bytes
unfolding unhex
decode [] = []
decode (a ∷ []) = []
decode (a ∷ b ∷ rest) = (unhex a * 16 + unhex b) ∷ decode rest

decode-hex_byte : (b : ℕ) (rest : Bytes) → b < 256 → decode (hex_byte b ++ rest) ≡ b ∷ decode rest
unfolding decode hex_byte
decode-hex_byte b rest h = ground arith

-- Decoding the digits of a digest, whose numbers are bytes, gives the digest back.
pub decode-hex : (bs : Bytes) → All (λ b. b < 256) bs → decode (hex bs) ≡ bs
unfolding hex
decode-hex [] h = unfold decode in refl
decode-hex (b ∷ bs) h = decode-hex_byte b (hex bs) h.0 ∙ ap (◌∷◌ b) (decode-hex bs h.1)

abbrev pub IsNameByte : ℕ → Type 0
IsNameByte c = (b'0' ≤ c) × (c ≢ b'/')

hex_byte-IsNameByte :
    (b : ℕ) (rest : Bytes) → b < 256 → All IsNameByte rest → All IsNameByte (hex_byte b ++ rest)
unfolding hex_byte
hex_byte-IsNameByte b rest h r = ground arith

pub hex-IsNameByte : (bs : Bytes) → All (λ b. b < 256) bs → All IsNameByte (hex bs)
unfolding hex
hex-IsNameByte [] h = tt
hex-IsNameByte (b ∷ bs) h = hex_byte-IsNameByte b (hex bs) h.0 (hex-IsNameByte bs h.1)
