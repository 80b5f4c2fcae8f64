-- ===== src/Golay.antt =====
-- native_framing/codes/golay24.py: the extended binary Golay code.
pub mod Linear
pub mod Correction
use gs_flowgraphs.Base.{
  ℕ, zero, suc, ◌+◌, ◌-◌, ◌*◌, ◌/◌, ◌%◌, Bool, true, false, Option, none, some, List, [], ◌∷◌, map,
  bit_and, bit_or, bit_xor,
}
use gs_flowgraphs.Base.Weight.{bit_count}
use gs_flowgraphs.Base.{Result, ok, value_error, ltb, leb, ◌==◌, if◌then◌else◌, ◌<<<◌}

pub record Golay24Result : Type 0 where
  pub message : ℕ
  pub codeword : ℕ
  pub corrected_bits : ℕ

-- `_H`
abbrev pub parity_rows : List ℕ
parity_rows =
    0x8008ED ∷ 0x4001DB ∷ 0x2003B5 ∷ 0x100769 ∷ 0x080ED1 ∷ 0x040DA3 ∷ 0x020B47 ∷ 0x01068F ∷ 0x008D1D
    ∷ 0x004A3B ∷ 0x002477 ∷ 0x001FFE ∷ []

-- `_B`
abbrev pub square_rows : List ℕ
square_rows = map (λ value. bit_and value 0xFFF) parity_rows

unfoldable pub parity : ℕ → ℕ
parity value = bit_and (bit_count 24 value) 1

-- The loop of `_syndrome`, and of the modified syndrome.
unfoldable pub syndrome_loop : List ℕ → ℕ → ℕ → ℕ
syndrome_loop [] word value = value
syndrome_loop (row ∷ rows) word value =
    syndrome_loop rows word (bit_or (value <<< 1) (parity (bit_and row word)))

unfoldable pub syndrome : ℕ → ℕ
syndrome word = syndrome_loop parity_rows word 0

unfoldable pub encode_golay24 : ℕ → Result ℕ
encode_golay24 message =
    if ltb 0xFFF message then value_error else ok (bit_or (syndrome message <<< 12) message)

-- The loops over the rows, `index` on: the first row next to which the syndrome has two bits at
-- most, with `single` of that index or the bit of the row.
unfoldable pub near_row : (ℕ → ℕ → ℕ) → ℕ → ℕ → List ℕ → Option ℕ
near_row error index syndrome_word [] = none
near_row error index syndrome_word (row ∷ rows) =
    let rest = near_row error (index + 1) syndrome_word rows in
    if leb (bit_count 24 (bit_xor syndrome_word row)) 2
    then some (error index (bit_xor syndrome_word row))
    else rest

-- An error in the syndrome's half, with one bit of the other half.
unfoldable pub error_high : ℕ → ℕ → ℕ
error_high index candidate = bit_or (candidate <<< 12) (1 <<< (12 - index - 1))

unfoldable pub error_low : ℕ → ℕ → ℕ
error_low index candidate = bit_or (1 <<< (24 - index - 1)) candidate

unfoldable pub first_error : ℕ → Option ℕ
first_error syndrome_word =
    if leb (bit_count 24 syndrome_word) 3
    then some (syndrome_word <<< 12)
    else near_row error_high 0 syndrome_word square_rows

unfoldable pub second_error : ℕ → Option ℕ
second_error syndrome_word =
    let modified = syndrome_loop square_rows syndrome_word 0 in
    if leb (bit_count 24 modified) 3
    then some modified
    else near_row error_low 0 modified square_rows

-- The second search, if the first found nothing.
unfoldable pub or_else : Option ℕ → Option ℕ → Option ℕ
or_else none second = second
or_else (some error) second = some error

unfoldable pub error_of : ℕ → Option ℕ
error_of syndrome_word = or_else (first_error syndrome_word) (second_error syndrome_word)

unfoldable pub without_error : ℕ → Option ℕ → Option Golay24Result
without_error codeword none = none
without_error codeword (some error) = some (record {
  message = bit_and (bit_xor codeword error) 0xFFF;
  codeword = bit_xor codeword error;
  corrected_bits = bit_count 24 error;
})

unfoldable pub decode_golay24 : ℕ → Result (Option Golay24Result)
decode_golay24 codeword =
    if ltb 0xFFFFFF codeword
    then value_error
    else ok (without_error codeword (error_of (syndrome codeword)))
