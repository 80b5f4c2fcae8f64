-- ===== src/Lora.antt =====
-- native_lora/framing.py: the pieces that decode one LoRa frame from its symbols. Its errors are
-- subclasses of `ValueError`; the tests on Python types have no counterpart.
pub mod Block
pub mod Config
pub mod Exact
pub mod Frame
pub mod Hamming
pub mod Received
use gs_flowgraphs.Base.{
  ℕ, zero, suc, ◌+◌, ◌-◌, ◌*◌, ◌/◌, ◌%◌, ◌^◌, Bool, true, false, Option, none, some, List, [], ◌∷◌,
  ◌++◌, ◌&&◌, ◌||◌, not, bit_and, bit_or, bit_xor,
}
use gs_flowgraphs.Base.{
  Result, ok, value_error, ◌>>=◌, ltb, leb, ◌==◌, if◌then◌else◌, length, take, drop, get_or, bit,
  odd, ◌⊕◌, ◌<<<◌, ◌>>>◌,
}

pub record LoRaHeader : Type 0 where
  pub payload_length : ℕ
  pub cr : ℕ
  pub has_crc : Bool
  pub checksum : Option ℕ
  pub explicit : Bool

pub record HammingDecode : Type 0 where
  pub nibble : ℕ
  pub error_detected : Bool
  pub data_bit_corrected : Bool

unfoldable pub gray_map_symbol : ℕ → ℕ → Result ℕ
gray_map_symbol symbol width =
    if width == 0 || ltb 12 width
    then value_error
    else if leb (1 <<< width) symbol
    then value_error
    else ok (bit_xor symbol (symbol >>> 1))

unfoldable pub bits_msb : ℕ → ℕ → List Bool
bits_msb value zero = []
bits_msb value (suc width) = odd (value / 2 ^ width) ∷ bits_msb value width

-- The loop of `_bits_to_int`.
unfoldable pub bits_to_int_loop : ℕ → List Bool → ℕ
bits_to_int_loop value [] = value
bits_to_int_loop value (b ∷ bits) = bits_to_int_loop (bit_or (value <<< 1) (bit b)) bits

unfoldable pub bits_to_int : List Bool → ℕ
bits_to_int bits = bits_to_int_loop 0 bits

-- `sum(bits) % 2 == 1`
unfoldable pub is_odd_sum : List Bool → Bool
is_odd_sum [] = false
is_odd_sum (b ∷ bits) = b ⊕ is_odd_sum bits

-- `{5: 3, 7: 2, 3: 1, 6: 0}.get`
unfoldable pub data_index : ℕ → Option ℕ
data_index syndrome =
    if syndrome == 5
    then some 3
    else if syndrome == 7
    then some 2
    else if syndrome == 3
    then some 1
    else if syndrome == 6
    then some 0
    else none

-- `data[index] ^= 1`
unfoldable pub flipped : ℕ → List Bool → List Bool
flipped index [] = []
flipped zero (b ∷ bits) = not b ∷ bits
flipped (suc index) (b ∷ bits) = b ∷ flipped index bits

unfoldable pub corrected : List Bool → Bool → Option ℕ → HammingDecode
corrected bits detected none = record {
  nibble = bits_to_int bits;
  error_detected = detected;
  data_bit_corrected = false;
}
corrected bits detected (some index) = record {
  nibble = bits_to_int (flipped index bits);
  error_detected = detected;
  data_bit_corrected = true;
}

-- The decoder for the bits of a codeword, most significant first.
unfoldable pub decode_bits : ℕ → List Bool → HammingDecode
decode_bits cr (b0 ∷ b1 ∷ b2 ∷ b3 ∷ b4 ∷ rest) =
    let word = b3 ∷ b2 ∷ b1 ∷ b0 ∷ [] in
    let sum_odd = is_odd_sum (b0 ∷ b1 ∷ b2 ∷ b3 ∷ b4 ∷ rest) in
    let s0 = ((b0 ⊕ b1) ⊕ b2) ⊕ b4 in
    let s1 = ((b1 ⊕ b2) ⊕ b3) ⊕ get_or rest 0 false in
    let s2 = ((b0 ⊕ b1) ⊕ b3) ⊕ get_or rest 1 false in
    let syndrome = bit_or (bit_or (bit s0) (bit s1 <<< 1)) (bit s2 <<< 2) in
    if leb 3 cr
    then corrected word (not (syndrome == 0))
        (if cr == 3 || sum_odd then data_index syndrome else none)
    else if cr == 2
    then corrected word (s0 || s1) none
    else corrected word sum_odd none
decode_bits cr _ = corrected [] false none

unfoldable pub hamming_decode_codeword : ℕ → ℕ → Result HammingDecode
hamming_decode_codeword codeword cr =
    if cr == 0 || ltb 4 cr
    then value_error
    else if leb (1 <<< (cr + 4)) codeword
    then value_error
    else ok (decode_bits cr (bits_msb codeword (cr + 4)))

unfoldable pub header_checksum : ℕ → ℕ → ℕ → ℕ
header_checksum a b c =
    let a3 = odd (a >>> 3) in
    let a2 = odd (a >>> 2) in
    let a1 = odd (a >>> 1) in
    let a0 = odd (a >>> 0) in
    let b3 = odd (b >>> 3) in
    let b2 = odd (b >>> 2) in
    let b1 = odd (b >>> 1) in
    let b0 = odd (b >>> 0) in
    let c3 = odd (c >>> 3) in
    let c2 = odd (c >>> 2) in
    let c1 = odd (c >>> 1) in
    let c0 = odd (c >>> 0) in
    let check4 = ((a3 ⊕ a2) ⊕ a1) ⊕ a0 in
    let check3 = (((a3 ⊕ b3) ⊕ b2) ⊕ b1) ⊕ c0 in
    let check2 = (((a2 ⊕ b3) ⊕ b0) ⊕ c3) ⊕ c1 in
    let check1 = ((((a1 ⊕ b2) ⊕ b0) ⊕ c2) ⊕ c1) ⊕ c0 in
    let check0 = ((((a0 ⊕ b1) ⊕ c3) ⊕ c2) ⊕ c1) ⊕ c0 in
    bit_or
      (bit_or (bit_or (bit_or (bit check4 <<< 4) (bit check3 <<< 3)) (bit check2 <<< 2))
        (bit check1 <<< 1))
      (bit check0)

unfoldable pub decode_explicit_header : List ℕ → Result LoRaHeader
decode_explicit_header (a ∷ b ∷ c ∷ d ∷ e ∷ rest) =
    let payload_length = bit_or (a <<< 4) b in
    let cr = c >>> 1 in
    let received_checksum = bit_or (bit_and d 1 <<< 4) e in
    if not (received_checksum == header_checksum a b c)
    then value_error
    else if payload_length == 0
    then value_error
    else if cr == 0 || ltb 4 cr
    then value_error
    else ok (record {
      payload_length = payload_length;
      cr = cr;
      has_crc = odd c;
      checksum = some received_checksum;
      explicit = true;
    })
decode_explicit_header _ = value_error

-- One bit of an octet into the payload check: the check and the octet after it.
unfoldable pub crc_bits : ℕ → ℕ → ℕ → ℕ
crc_bits zero value crc = crc
crc_bits (suc n) value crc = crc_bits n (bit_and (value <<< 1) 0xFF) (
    if bit_xor (bit_and crc 0x8000 >>> 8) (bit_and value 0x80) == 0
    then bit_and (crc <<< 1) 0xFFFF
    else bit_and (bit_xor (crc <<< 1) 0x1021) 0xFFFF)

-- The loop over all octets but the last two, then those.
unfoldable pub payload_crc_loop : ℕ → List ℕ → ℕ
payload_crc_loop crc [] = crc
payload_crc_loop crc (x ∷ []) = crc
payload_crc_loop crc (x ∷ y ∷ []) = bit_xor (bit_xor crc y) (x <<< 8)
payload_crc_loop crc (x ∷ y ∷ z ∷ payload) = payload_crc_loop (crc_bits 8 x crc) (y ∷ z ∷ payload)

unfoldable pub lora_payload_crc : List ℕ → Result ℕ
lora_payload_crc payload =
    if ltb (length payload) 2
    then value_error
    else if ltb 255 (length payload)
    then value_error
    else ok (payload_crc_loop 0 payload)
