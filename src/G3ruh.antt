-- ===== src/G3ruh.antt =====
-- gfsk_ax25/g3ruh.py: NRZI line coding and the G3RUH self-synchronising scrambler.
pub mod Register
pub mod Inverse
pub mod Sync
pub mod FeedForward
use gs_flowgraphs.Base.{
  ℕ, zero, suc, ◌+◌, ◌-◌, ◌≡◌, Bool, true, false, List, [], ◌∷◌, ◌++◌, bit_xor, bit_and, bit_or,
  not,
}
use gs_flowgraphs.Base.{◌==◌, if◌then◌else◌, length, take, drop, odd, bit, ◌<<<◌, ◌>>>◌, ◌⊕◌}

abbrev pub tap_a : ℕ
tap_a = 12

abbrev pub tap_b : ℕ
tap_b = 17

-- (1 << 17) - 1
abbrev pub mask : ℕ
mask = 0x1FFFF

-- The loop of `nrzi_encode`, from the level before the first bit: a zero toggles it.
pub nrzi_encode_loop : Bool → List Bool → List Bool
nrzi_encode_loop level [] = []
nrzi_encode_loop level (true ∷ bits) = level ∷ nrzi_encode_loop level bits
nrzi_encode_loop level (false ∷ bits) = not level ∷ nrzi_encode_loop (not level) bits

unfoldable pub nrzi_encode : List Bool → ℕ → List Bool
nrzi_encode bits initial = nrzi_encode_loop (odd initial) bits

-- Whether two hard bits are equal.
abbrev pub same_bit : Bool → Bool → Bool
same_bit a b = not (a ⊕ b)

-- `src[1:] == src[:-1]`: each bit against the one before it.
pub nrzi_decode_loop : Bool → List Bool → List Bool
nrzi_decode_loop previous [] = []
nrzi_decode_loop previous (bit ∷ bits) = same_bit bit previous ∷ nrzi_decode_loop bit bits

unfoldable pub nrzi_decode : List Bool → ℕ → List Bool
nrzi_decode bits initial = nrzi_decode_loop (odd initial) bits

-- ((sr >> 11) ^ (sr >> 16)) & 1
pub fb : ℕ → Bool
fb sr = odd (bit_xor (sr >>> 11) (sr >>> 16))

-- ((sr << 1) | y) & _MASK
pub shift_in : ℕ → Bool → ℕ
shift_in sr y = bit_and (bit_or (sr <<< 1) (bit y)) mask

pub scramble_loop : ℕ → List Bool → List Bool
scramble_loop sr [] = []
scramble_loop sr (bit ∷ bits) = let y = bit ⊕ fb sr in y ∷ scramble_loop (shift_in sr y) bits

unfoldable pub scramble : List Bool → ℕ → List Bool
scramble bits state = scramble_loop (bit_and state mask) bits

-- The direct recurrence of `descramble`, for a seed that is not zero.
pub descramble_loop : ℕ → List Bool → List Bool
descramble_loop sr [] = []
descramble_loop sr (y ∷ bits) = (y ⊕ fb sr) ∷ descramble_loop (shift_in sr y) bits

-- `out[k:] ^= src[:-k]`: from index `k` on, each bit of `out` with the bit of `src` `k` places back.
pub xor_lagged : ℕ → List Bool → List Bool → List Bool
xor_lagged k src [] = []
xor_lagged zero [] (o ∷ out) = o ∷ out
xor_lagged zero (s ∷ src) (o ∷ out) = (o ⊕ s) ∷ xor_lagged zero src out
xor_lagged (suc k) src (o ∷ out) = o ∷ xor_lagged k src out

-- The feed-forward form of `descramble`, for the zero seed.
pub feed_forward : List Bool → List Bool
feed_forward src = xor_lagged tap_b src (xor_lagged tap_a src src)

unfoldable pub descramble : List Bool → ℕ → List Bool
descramble src state =
    if state == 0 then feed_forward src else descramble_loop (bit_and state mask) src
