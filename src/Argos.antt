-- ===== src/Argos.antt =====
-- gfsk_ax25/argos.py: the BCH(31,21) code and the frames of a stream of hard bits.
pub mod Division
pub mod Frames
pub mod Correction
use gs_flowgraphs.Base.{
  ℕ, zero, suc, ◌+◌, ◌-◌, ◌*◌, ◌/◌, ◌%◌, ◌^◌, Bool, true, false, Option, none, some, List, [], ◌∷◌,
  ◌++◌, ◌&&◌, not, bit_or, bit_xor,
}
use gs_flowgraphs.Base.{
  Result, ok, value_error, ltb, leb, ◌==◌, if◌then◌else◌, length, replicate, take, drop, bit, odd,
  ◌<<<◌, ◌>>>◌,
}
use gs_flowgraphs.Octets.{pack_msb}
use gs_flowgraphs.Ccsds.Marker.{is_prefix}

abbrev pub bch_g : ℕ
bch_g = 0b11101101001

-- `int.bit_length`, of a number below `2 ** n`.
unfoldable pub bit_length : ℕ → ℕ → ℕ
bit_length zero a = 0
bit_length (suc n) a = let rest = bit_length n a in if leb (2 ^ n) a then suc n else rest

-- The loop of `_polymod` on words of 31 bits; a round takes the highest bit away.
unfoldable pub polymod_loop : ℕ → ℕ → ℕ → ℕ
polymod_loop zero a g = a
polymod_loop (suc fuel) a g =
    let rest = polymod_loop fuel (bit_xor a (g <<< (bit_length 31 a - bit_length 31 g))) g in
    if leb (bit_length 31 g) (bit_length 31 a) && not (a == 0) then rest else a

unfoldable pub polymod : ℕ → ℕ → ℕ
polymod a g = polymod_loop 31 a g

unfoldable pub bch3121_encode : ℕ → Result ℕ
bch3121_encode msg21 =
    if leb (1 <<< 21) msg21
    then value_error
    else ok (bit_xor (msg21 <<< 10) (polymod (msg21 <<< 10) bch_g))

-- The message of a word, if it is a codeword.
unfoldable pub message_of : ℕ → Option ℕ
message_of code31 = if polymod code31 bch_g == 0 then some (code31 >>> 10) else none

unfoldable pub or_else : Option ℕ → Option ℕ → Option ℕ
or_else none second = second
or_else (some message) second = some message

-- The loop over the bits from `i` on, `n` of them.
unfoldable pub one_error : ℕ → ℕ → ℕ → Option ℕ
one_error zero i code31 = none
one_error (suc n) i code31 =
    or_else (message_of (bit_xor code31 (1 <<< i))) (one_error n (i + 1) code31)

-- The loop over pairs of bits: for each bit, the bits after it.
unfoldable pub two_errors : ℕ → ℕ → ℕ → Option ℕ
two_errors zero i code31 = none
two_errors (suc n) i code31 =
    or_else (one_error n (i + 1) (bit_xor code31 (1 <<< i))) (two_errors n (i + 1) code31)

unfoldable pub bch3121_decode : ℕ → Result (Option ℕ)
bch3121_decode code31 =
    if leb (1 <<< 31) code31
    then value_error
    else ok (or_else (message_of code31) (or_else (one_error 31 0 code31) (two_errors 31 0 code31)))

unfoldable pub bits_of : ℕ → ℕ → List Bool
bits_of value zero = []
bits_of value (suc width) = odd (value / 2 ^ width) ∷ bits_of value width

-- The loop of `_int_of`.
unfoldable pub int_loop : ℕ → List Bool → ℕ
int_loop v [] = v
int_loop v (b ∷ bits) = int_loop (bit_or (v <<< 1) (bit b)) bits

unfoldable pub int_of : List Bool → ℕ
int_of bits = int_loop 0 bits

-- `np.packbits`, which fills the last octet with zeros.
unfoldable pub packbits : List Bool → List ℕ
packbits bits = pack_msb (bits ++ replicate ((8 - length bits % 8) % 8) false)

-- The message in three octets, and the payload behind it.
unfoldable pub record_of : ℕ → List Bool → List ℕ
record_of message payload =
    (message / 65536 % 256 ∷ message / 256 % 256 ∷ message % 256 ∷ []) ++ packbits payload

unfoldable pub message_record : Result (Option ℕ) → List Bool → List (List ℕ)
message_record value_error payload = []
message_record (ok none) payload = []
message_record (ok (some message)) payload = record_of message payload ∷ []

-- The frame after a sync word, if there is enough of it.
unfoldable pub frame_after : ℕ → List Bool → List (List ℕ)
frame_after payload_bits rest =
    if ltb (length rest) (31 + payload_bits)
    then []
    else message_record (bch3121_decode (int_of (take 31 rest))) (take payload_bits (drop 31 rest))

-- The frames at each place from here on where the sync word stands.
unfoldable pub starts_loop : List Bool → ℕ → List Bool → List (List ℕ)
starts_loop sync_pat payload_bits [] = []
starts_loop sync_pat payload_bits (b ∷ bits) =
    let rest = starts_loop sync_pat payload_bits bits in
    if is_prefix sync_pat (b ∷ bits)
    then frame_after payload_bits (drop (length sync_pat) (b ∷ bits)) ++ rest
    else rest

unfoldable pub deframe : List Bool → ℕ → ℕ → ℕ → List (List ℕ)
deframe bits sync sync_bits payload_bits =
    if ltb (length bits) (sync_bits + 31 + payload_bits)
    then []
    else starts_loop (bits_of sync sync_bits) payload_bits bits
