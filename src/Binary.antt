-- ===== src/Binary.antt =====
-- encoding/binary's big-endian integers, and hash/crc32 with the IEEE polynomial.
use Prim.Native.Nat.{bit_xor}
use mathlib.Core.List.{foldl}
use my_dfs.Common.{
  ℕ, ◌+◌, ◌*◌, ◌/◌, ◌%◌, ◌^◌, ◌<◌, ◌≡◌, refl, ap, Option, none, some, List, [], ◌∷◌, ◌++◌, arith,
  ◌==◌, if◌then◌else◌,
}

abbrev pub IsByte : ℕ → Type 0
IsByte b = b < 256

-- binary.BigEndian.PutUint32
unfoldable pub put_uint32 : ℕ → List ℕ
put_uint32 v = v / 2 ^ 24 % 2 ^ 8 ∷ v / 2 ^ 16 % 2 ^ 8 ∷ v / 2 ^ 8 % 2 ^ 8 ∷ v % 2 ^ 8 ∷ []

-- binary.BigEndian.Uint32 of four bytes
unfoldable pub uint32_of : ℕ → ℕ → ℕ → ℕ → ℕ
uint32_of a b c d = a * 2 ^ 24 + b * 2 ^ 16 + c * 2 ^ 8 + d

-- binary.BigEndian.PutUint64
unfoldable pub put_uint64 : ℕ → List ℕ
put_uint64 v =
    v / 2 ^ 56 % 2 ^ 8
    ∷ v / 2 ^ 48 % 2 ^ 8
    ∷ v / 2 ^ 40 % 2 ^ 8
    ∷ v / 2 ^ 32 % 2 ^ 8
    ∷ v / 2 ^ 24 % 2 ^ 8
    ∷ v / 2 ^ 16 % 2 ^ 8
    ∷ v / 2 ^ 8 % 2 ^ 8
    ∷ v % 2 ^ 8
    ∷ []

-- binary.BigEndian.Uint64 at the front of a stream, and what is left.
unfoldable pub get_uint64 : List ℕ → Option (ℕ × List ℕ)
unfolding uint32_of
get_uint64 (a ∷ b ∷ c ∷ d ∷ e ∷ f ∷ g ∷ h ∷ rest) =
    some (uint32_of a b c d * 2 ^ 32 + uint32_of e f g h, rest)
get_uint64 _ = none

pub get_uint64-put :
    (v : ℕ) (rest : List ℕ) → v < 2 ^ 64 → get_uint64 (put_uint64 v ++ rest) ≡ some (v, rest)
unfolding get_uint64 put_uint64
get_uint64-put v rest h = ap (λ n. some (n, rest)) (omega arith)

pub uint32_of-put :
    (v : ℕ)
    → v < 2 ^ 32
    → uint32_of (v / 2 ^ 24 % 2 ^ 8) (v / 2 ^ 16 % 2 ^ 8) (v / 2 ^ 8 % 2 ^ 8) (v % 2 ^ 8) ≡ v
unfolding uint32_of
uint32_of-put v h = omega arith

pub put_uint32-of :
    (a b c d : ℕ)
    → IsByte a
    → IsByte b
    → IsByte c
    → IsByte d
    → put_uint32 (uint32_of a b c d) ≡ a ∷ b ∷ c ∷ d ∷ []
unfolding put_uint32 uint32_of
put_uint32-of a b c d ha hb hc hd = ground arith

-- One bit of the reflected IEEE polynomial.
crc_bit : ℕ → ℕ
crc_bit c = if c % 2 == 1 then bit_xor (c / 2) 0xEDB88320 else c / 2

crc_byte : ℕ → ℕ → ℕ
unfolding crc_bit
crc_byte c b =
    crc_bit (crc_bit (crc_bit (crc_bit (crc_bit (crc_bit (crc_bit (crc_bit (bit_xor c b))))))))

-- crc32.ChecksumIEEE
unfoldable pub crc32 : List ℕ → ℕ
unfolding crc_byte
crc32 bytes = bit_xor (foldl crc_byte 0xFFFFFFFF bytes) 0xFFFFFFFF

crc32_check : crc32 (b'1' ∷ b'2' ∷ b'3' ∷ b'4' ∷ b'5' ∷ b'6' ∷ b'7' ∷ b'8' ∷ b'9' ∷ []) ≡ 0xCBF43926
unfolding crc32
crc32_check = refl
