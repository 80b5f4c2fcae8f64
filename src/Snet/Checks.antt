-- ===== src/Snet/Checks.antt =====
-- The checks of native_framing/codes/snet.py, `snet_crc5` of a header and `snet_crc13` of a payload,
-- with their historical errors. A row is the list of the bits of an octet.
use gs_flowgraphs.Base.{
  ℕ, zero, suc, bit_and, bit_xor, ◌<<<◌, ◌>>>◌, Bool, List, [], ◌∷◌, ◌++◌, map, ◌||◌, not, Result,
  ok, value_error, ◌==◌, if◌then◌else◌, length, take, drop,
}
use gs_flowgraphs.Snet.{binary}

unfoldable pub rows_of : ℕ → List ℕ → List (List ℕ)
rows_of zero bits = []
rows_of (suc left) bits = take 8 bits ∷ rows_of left (drop 8 bits)

-- `np.flipud`
unfoldable pub flipud : List (List ℕ) → List (List ℕ)
flipud [] = []
flipud (row ∷ rows) = flipud rows ++ row ∷ []

-- `rows[4, :] = rows[3, :]`
unfoldable pub repeated : List (List ℕ) → List (List ℕ)
repeated (a ∷ b ∷ c ∷ d ∷ e ∷ rows) = a ∷ b ∷ c ∷ d ∷ d ∷ rows
repeated rows = rows

unfoldable pub ravel : List (List ℕ) → List ℕ
ravel [] = []
ravel (row ∷ rows) = row ++ ravel rows

unfoldable pub crc5_loop : ℕ → List ℕ → ℕ
crc5_loop crc [] = crc
crc5_loop crc (bit ∷ bits) =
    let top = bit_and (crc >>> 4) 1 in
    let shifted = bit_and (crc <<< 1) 0x1F in
    crc5_loop (if top == bit then shifted else bit_xor shifted 0x15) bits

unfoldable pub snet_crc5 : List ℕ → Bool → Result ℕ
snet_crc5 bits buggy =
    let rows = rows_of 9 (bits ++ 1 ∷ 0 ∷ 1 ∷ 1 ∷ 0 ∷ 1 ∷ 1 ∷ []) in
    if not (length bits == 65) || not (binary bits)
    then value_error
    else ok (crc5_loop 0x1F (ravel (if buggy then repeated (flipud rows) else rows)))

-- `np.unpackbits` of one octet.
unfoldable pub row_of : ℕ → List ℕ
row_of octet =
    bit_and (octet >>> 7) 1
    ∷ bit_and (octet >>> 6) 1
    ∷ bit_and (octet >>> 5) 1
    ∷ bit_and (octet >>> 4) 1
    ∷ bit_and (octet >>> 3) 1
    ∷ bit_and (octet >>> 2) 1
    ∷ bit_and (octet >>> 1) 1
    ∷ bit_and octet 1
    ∷ []

unfoldable pub crc13_loop : Bool → ℕ → List ℕ → ℕ
crc13_loop buggy crc [] = crc
crc13_loop buggy crc (bit ∷ bits) =
    let top = bit_and (crc >>> 12) 1 in
    let shifted = bit_and (crc <<< 1) 0x1FFF in
    let feeds = if buggy then not (top == 0) || not (bit == 0) else not (top == bit) in
    crc13_loop buggy (if feeds then bit_xor shifted 0x1CF5 else shifted) bits

unfoldable pub snet_crc13 : List ℕ → Bool → ℕ
snet_crc13 payload buggy =
    let rows = map row_of payload in
    crc13_loop buggy 0x1FFF (ravel (if buggy then flipud rows else rows))
