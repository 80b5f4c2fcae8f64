-- ===== src/Mobitex.antt =====
-- native_framing/codes/mobitex.py: the (12,8) code of Mobitex and its two codewords in three octets.
pub mod Correction
use gs_flowgraphs.Base.{
  ℕ, zero, suc, ◌+◌, ◌*◌, ◌/◌, ◌%◌, ◌≡◌, refl, Bool, true, false, Option, none, some, List, [], ◌∷◌,
  bit_and, bit_or, bit_xor, ◌||◌, ◌&&◌,
}
use gs_flowgraphs.Base.{Result, ok, value_error, ltb, ◌==◌, if◌then◌else◌, ◌<<<◌, ◌>>>◌, all_below}

pub data MobitexFecStatus : Type 0 where
  no_error error_corrected error_uncorrectable : MobitexFecStatus

pub record MobitexFecResult : Type 0 where
  pub message : ℕ
  pub fec : ℕ
  pub status : MobitexFecStatus

-- `int.bit_count`, of a number below `2 ** n`.
unfoldable pub bit_count : ℕ → ℕ → ℕ
bit_count zero x = 0
bit_count (suc n) x = x % 2 + bit_count n (x / 2)

-- `(word & mask).bit_count() & 1`
unfoldable pub parity : ℕ → ℕ → ℕ
parity word mask = bit_count 12 (bit_and word mask) % 2

unfoldable pub syndrome : ℕ → ℕ
syndrome word =
    parity word 0b111011001000 * 8
    + parity word 0b110100110100 * 4
    + parity word 0b101110100010 * 2
    + parity word 0b011101010001

-- The message and the four parity bits behind it.
unfoldable pub codeword_of : ℕ → ℕ
codeword_of message = bit_or (message <<< 4) (
    parity message 0b11101100 * 8
    + parity message 0b11010011 * 4
    + parity message 0b10111010 * 2
    + parity message 0b01110101)

unfoldable pub encode_mobitex_fec : ℕ → Result ℕ
encode_mobitex_fec message = if ltb 0xFF message then value_error else ok (codeword_of message)

-- `_SYNDROME_TABLE.get`, the positions from `position` on.
unfoldable pub position_of : ℕ → ℕ → ℕ → Option ℕ
position_of zero position s = none
position_of (suc n) position s =
    let rest = position_of n (position + 1) s in
    if syndrome (1 <<< position) == s then some position else rest

unfoldable pub repaired : ℕ → Option ℕ → MobitexFecResult
repaired codeword none = record {
  message = codeword >>> 4;
  fec = bit_and codeword 0x0F;
  status = error_uncorrectable;
}
repaired codeword (some position) = record {
  message = bit_xor codeword (1 <<< position) >>> 4;
  fec = bit_and (bit_xor codeword (1 <<< position)) 0x0F;
  status = error_corrected;
}

unfoldable pub decode_mobitex_fec : ℕ → Result MobitexFecResult
decode_mobitex_fec codeword =
    let s = syndrome codeword in
    if ltb 0xFFF codeword
    then value_error
    else if s == 0
    then ok (record { message = codeword >>> 4; fec = bit_and codeword 0x0F; status = no_error })
    else ok (repaired codeword (position_of 12 0 s))

unfoldable pub unpack_mobitex_pair : List ℕ → Result (ℕ × ℕ)
unpack_mobitex_pair (c0 ∷ c1 ∷ c2 ∷ []) =
    ok (bit_or (c0 <<< 4) (c1 >>> 4), bit_or (bit_and c1 0x0F <<< 8) c2)
unpack_mobitex_pair _ = value_error
