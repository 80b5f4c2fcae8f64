-- ===== src/Octets.antt =====
-- Octets and hard bits: `np.unpackbits` and `np.packbits` as gfsk_ax25/hdlc.py and
-- gfsk_ax25/endurosat_link.py call them. An octet is a number, a hard bit a `Bool`.
use gs_flowgraphs.Base.{ℕ, ◌+◌, ◌*◌, ◌/◌, ◌<◌, ◌≡◌, refl, ap₂, Bool, List, [], ◌∷◌, ◌++◌, arith}
use gs_flowgraphs.Base.{All, length, bit, odd, bit-odd}

abbrev pub IsByte : ℕ → Type 0
IsByte b = b < 256

abbrev pub IsBytes : List ℕ → Type 0
IsBytes bytes = All IsByte bytes

-- One octet, least-significant bit first.
pub byte_bits : ℕ → List Bool
byte_bits b =
    odd b
    ∷ odd (b / 2)
    ∷ odd (b / 4)
    ∷ odd (b / 8)
    ∷ odd (b / 16)
    ∷ odd (b / 32)
    ∷ odd (b / 64)
    ∷ odd (b / 128)
    ∷ []

unfoldable pub byte_of : Bool → Bool → Bool → Bool → Bool → Bool → Bool → Bool → ℕ
byte_of b0 b1 b2 b3 b4 b5 b6 b7 =
    bit b0
    + 2 * bit b1
    + 4 * bit b2
    + 8 * bit b3
    + 16 * bit b4
    + 32 * bit b5
    + 64 * bit b6
    + 128 * bit b7

-- hdlc.bytes_to_bits
pub bytes_to_bits : List ℕ → List Bool
bytes_to_bits [] = []
bytes_to_bits (b ∷ bytes) = byte_bits b ++ bytes_to_bits bytes

-- hdlc.bits_to_bytes: a trailing partial octet is dropped.
pub bits_to_bytes : List Bool → List ℕ
bits_to_bytes (b0 ∷ b1 ∷ b2 ∷ b3 ∷ b4 ∷ b5 ∷ b6 ∷ b7 ∷ rest) =
    byte_of b0 b1 b2 b3 b4 b5 b6 b7 ∷ bits_to_bytes rest
bits_to_bytes _ = []

-- np.unpackbits with the default order, most-significant bit first.
unfoldable pub unpack_msb : List ℕ → List Bool
unpack_msb [] = []
unpack_msb (b ∷ bytes) =
    odd (b / 128)
    ∷ odd (b / 64)
    ∷ odd (b / 32)
    ∷ odd (b / 16)
    ∷ odd (b / 8)
    ∷ odd (b / 4)
    ∷ odd (b / 2)
    ∷ odd b
    ∷ unpack_msb bytes

-- endurosat_link._pack_msb
unfoldable pub pack_msb : List Bool → List ℕ
pack_msb (b7 ∷ b6 ∷ b5 ∷ b4 ∷ b3 ∷ b2 ∷ b1 ∷ b0 ∷ rest) =
    byte_of b0 b1 b2 b3 b4 b5 b6 b7 ∷ pack_msb rest
pack_msb _ = []

pub byte_of-byte_bits :
    (b : ℕ)
    → IsByte b
    → byte_of
        (odd b)
        (odd (b / 2))
        (odd (b / 4))
        (odd (b / 8))
        (odd (b / 16))
        (odd (b / 32))
        (odd (b / 64))
        (odd (b / 128))
      ≡ b
unfolding byte_of
byte_of-byte_bits b h = omega (
  arith,
  bit-odd b,
  bit-odd (b / 2),
  bit-odd (b / 4),
  bit-odd (b / 8),
  bit-odd (b / 16),
  bit-odd (b / 32),
  bit-odd (b / 64),
  bit-odd (b / 128),
)

pub length-bytes_to_bits : (bytes : List ℕ) → length (bytes_to_bits bytes) ≡ length bytes * 8
unfolding bytes_to_bits byte_bits
length-bytes_to_bits [] = refl
length-bytes_to_bits (b ∷ bytes) = omega (arith, length-bytes_to_bits bytes)

-- Packing undoes unpacking.
pub bits_to_bytes-bytes_to_bits :
    (bytes : List ℕ) → IsBytes bytes → bits_to_bytes (bytes_to_bits bytes) ≡ bytes
unfolding bytes_to_bits bits_to_bytes byte_bits
bits_to_bytes-bytes_to_bits [] h = refl
bits_to_bytes-bytes_to_bits (b ∷ bytes) h =
    ap₂ ◌∷◌ (byte_of-byte_bits b h.0) (bits_to_bytes-bytes_to_bits bytes h.1)

pub pack_msb-unpack_msb : (bytes : List ℕ) → IsBytes bytes → pack_msb (unpack_msb bytes) ≡ bytes
unfolding unpack_msb pack_msb
pack_msb-unpack_msb [] h = refl
pack_msb-unpack_msb (b ∷ bytes) h =
    ap₂ ◌∷◌ (byte_of-byte_bits b h.0) (pack_msb-unpack_msb bytes h.1)
