-- ===== src/Crc/Ccitt.antt =====
-- gfsk_ax25/crc.py: CRC-16/CCITT-FALSE, most-significant bit first.
pub mod Bitwise
use gs_flowgraphs.Base.{ℕ, zero, suc, List, [], ◌∷◌, bit_xor, bit_and, ◌==◌, if◌then◌else◌, ◌<<<◌}

-- One turn of the inner loop.
pub shift_bit : ℕ → ℕ → ℕ
shift_bit poly crc =
    if bit_and crc 0x8000 == 0
    then bit_and (crc <<< 1) 0xFFFF
    else bit_and (bit_xor (crc <<< 1) poly) 0xFFFF

pub shift_bits : ℕ → ℕ → ℕ → ℕ
shift_bits poly zero crc = crc
shift_bits poly (suc n) crc = shift_bits poly n (shift_bit poly crc)

pub crc_loop : ℕ → ℕ → List ℕ → ℕ
crc_loop poly crc [] = crc
crc_loop poly crc (byte ∷ bytes) =
    crc_loop poly (shift_bits poly 8 (bit_xor crc (byte <<< 8))) bytes

pub crc16_ccitt_false : List ℕ → ℕ → ℕ → ℕ
crc16_ccitt_false bytes init poly = bit_and (crc_loop poly init bytes) 0xFFFF
