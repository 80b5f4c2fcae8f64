-- ===== src/Crc/Fcs.antt =====
-- gfsk_ax25/fcs.py: the table-driven frame check sequence of AX.25.
pub mod Table
pub mod Check
pub mod Detect
use gs_flowgraphs.Base.{
  ℕ, zero, suc, ◌+◌, ◌-◌, ◌/◌, ◌%◌, Bool, true, false, List, [], ◌∷◌, ◌++◌, bit_xor, bit_and,
}
use gs_flowgraphs.Base.{odd, ltb, ◌==◌, ◌&&◌, if◌then◌else◌, get_or, take, drop, length, ◌>>>◌}

abbrev pub poly_reflected : ℕ
poly_reflected = 0x8408

abbrev pub init_register : ℕ
init_register = 0xFFFF

abbrev pub xorout : ℕ
xorout = 0xFFFF

-- One turn of the inner loop that fills the table.
pub shift_bit : ℕ → ℕ
shift_bit c = if odd c then bit_xor (c >>> 1) poly_reflected else c >>> 1

pub shift_bits : ℕ → ℕ → ℕ
shift_bits zero c = c
shift_bits (suc n) c = shift_bits n (shift_bit c)

pub table_entry : ℕ → ℕ
table_entry b = bit_and (shift_bits 8 b) 0xFFFF

-- The entries for `b`, `b + 1`, … (`count` of them): the loop over `range(256)`.
pub table_from : ℕ → ℕ → List ℕ
table_from zero b = []
table_from (suc count) b = table_entry b ∷ table_from count (suc b)

pub table : List ℕ
table = table_from 256 0

-- The loop of `fcs` over the octets.
pub fcs_loop : ℕ → List ℕ → ℕ
fcs_loop crc [] = crc
fcs_loop crc (byte ∷ bytes) =
    fcs_loop (bit_xor (crc >>> 8) (get_or table (bit_and (bit_xor crc byte) 0xFF) 0)) bytes

pub fcs : List ℕ → ℕ
fcs bytes = bit_xor (fcs_loop init_register bytes) xorout

pub fcs_bytes : List ℕ → List ℕ
fcs_bytes bytes = let value = fcs bytes in bit_and value 0xFF ∷ bit_and (value >>> 8) 0xFF ∷ []

-- `==` of two byte strings.
pub same_bytes : List ℕ → List ℕ → Bool
same_bytes [] [] = true
same_bytes [] (y ∷ ys) = false
same_bytes (x ∷ xs) [] = false
same_bytes (x ∷ xs) (y ∷ ys) = x == y && same_bytes xs ys

-- `frame[:-2]` and `frame[-2:]` are cut at two octets before the end.
pub check : List ℕ → Bool
check frame_with_fcs =
    let cut = length frame_with_fcs - 2 in
    if ltb (length frame_with_fcs) 2
    then false
    else same_bytes (fcs_bytes (take cut frame_with_fcs)) (drop cut frame_with_fcs)
