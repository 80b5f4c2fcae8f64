-- ===== src/Crc/Catalog.antt =====
-- native_framing/crc.py: the parameterised checks and their wire byte order.
pub mod RoundTrip
use gs_flowgraphs.Base.{
  ℕ, zero, suc, ◌+◌, ◌-◌, ◌*◌, ◌/◌, ◌%◌, ◌^◌, Bool, true, false, Option, none, some, List, [], ◌∷◌,
  ◌++◌, bit_xor, bit_and, bit_or, ◌||◌, not,
}
use gs_flowgraphs.Base.{
  odd, bit, ltb, ◌==◌, if◌then◌else◌, take, drop, length, ◌<<<◌, ◌>>>◌, Result, ok, value_error,
}
use mathlib.Core.List.{reverse}

-- `_reflect`: the lowest `width` bits in the opposite order, the loop with its accumulator.
unfoldable pub reflect_loop : ℕ → ℕ → ℕ → ℕ
reflect_loop zero result value = result
reflect_loop (suc width) result value =
    reflect_loop width (bit_or (result <<< 1) (bit_and value 1)) (value >>> 1)

unfoldable pub reflect : ℕ → ℕ → ℕ
reflect value width = reflect_loop width 0 value

pub record CrcSpec : Type 0 where
  pub width : ℕ
  pub polynomial : ℕ
  pub initial : ℕ
  pub xor_output : ℕ
  pub reflect_input : Bool
  pub reflect_output : Bool

abbrev pub mask : CrcSpec → ℕ
mask spec = 2 ^ spec.width - 1

-- `__post_init__`: a specification, or `ValueError`.
unfoldable pub post_init : CrcSpec → Result CrcSpec
post_init spec =
    if spec.width == 0 || not (spec.width % 8 == 0)
    then value_error
    else if ltb (mask spec) spec.polynomial
        || (ltb (mask spec) spec.initial || ltb (mask spec) spec.xor_output)
    then value_error
    else ok spec

abbrev pub byte_width : CrcSpec → ℕ
byte_width spec = spec.width / 8

-- One turn of the inner loop, for reflected input and otherwise.
unfoldable pub shift_right : ℕ → ℕ → ℕ
shift_right polynomial register = bit_xor (register >>> 1) (if odd register then polynomial else 0)

unfoldable pub shift_left : ℕ → ℕ → ℕ → ℕ
shift_left width polynomial register =
    bit_xor (bit_and (register <<< 1) (2 ^ width - 1))
      (if bit_and register (1 <<< (width - 1)) == 0 then 0 else polynomial)

unfoldable pub repeat : ℕ → (ℕ → ℕ) → ℕ → ℕ
repeat zero f register = register
repeat (suc n) f register = repeat n f (f register)

unfoldable pub reflected_loop : ℕ → ℕ → List ℕ → ℕ
reflected_loop polynomial register [] = register
reflected_loop polynomial register (value ∷ bytes) =
    reflected_loop polynomial (repeat 8 (shift_right polynomial) (bit_xor register value)) bytes

unfoldable pub straight_loop : ℕ → ℕ → ℕ → List ℕ → ℕ
straight_loop width polynomial register [] = register
straight_loop width polynomial register (value ∷ bytes) =
    straight_loop width polynomial
      (repeat 8 (shift_left width polynomial) (bit_xor register (value <<< (width - 8)))) bytes

-- `reflect_output != reflect_input`
unfoldable pub differs : Bool → Bool → Bool
differs true b = not b
differs false b = b

unfoldable pub compute : CrcSpec → List ℕ → ℕ
compute spec bytes =
    let register =
      if spec.reflect_input
      then reflected_loop (reflect spec.polynomial spec.width) spec.initial bytes
      else straight_loop spec.width spec.polynomial spec.initial bytes in
    let output =
      if differs spec.reflect_output spec.reflect_input
      then reflect register spec.width
      else register in
    bit_and (bit_xor output spec.xor_output) (mask spec)

pub data Byteorder : Type 0 where
  big little other : Byteorder

-- `int.to_bytes` for a value that fits, and `int.from_bytes`.
unfoldable pub to_bytes_little : ℕ → ℕ → List ℕ
to_bytes_little zero value = []
to_bytes_little (suc n) value = (value % 256) ∷ to_bytes_little n (value / 256)

pub from_bytes_little : List ℕ → ℕ
from_bytes_little [] = 0
from_bytes_little (b ∷ bytes) = b + 256 * from_bytes_little bytes

unfoldable pub to_bytes : Byteorder → ℕ → ℕ → Result (List ℕ)
to_bytes big n value = ok (reverse (to_bytes_little n value))
to_bytes little n value = ok (to_bytes_little n value)
to_bytes other n value = value_error

pub from_bytes : Byteorder → List ℕ → ℕ
from_bytes big bytes = from_bytes_little (reverse bytes)
from_bytes little bytes = from_bytes_little bytes
from_bytes other bytes = 0

unfoldable pub with_check : List ℕ → Result (List ℕ) → Result (List ℕ)
with_check bytes (ok check) = ok (bytes ++ check)
with_check bytes value_error = value_error

unfoldable pub append : CrcSpec → Byteorder → List ℕ → Result (List ℕ)
append spec order bytes = with_check bytes (to_bytes order (byte_width spec) (compute spec bytes))

-- The test on the length and the comparison, once the byte order is known to be one of the two.
pub strip_checked : CrcSpec → Byteorder → List ℕ → Option (List ℕ)
strip_checked spec order frame =
    let cut = length frame - byte_width spec in
    if ltb (length frame) (byte_width spec)
    then none
    else if compute spec (take cut frame) == from_bytes order (drop cut frame)
    then some (take cut frame)
    else none

pub strip_if_valid : CrcSpec → Byteorder → List ℕ → Result (Option (List ℕ))
strip_if_valid spec big frame = ok (strip_checked spec big frame)
strip_if_valid spec little frame = ok (strip_checked spec little frame)
strip_if_valid spec other frame = value_error

abbrev pub crc16_ccitt_false : CrcSpec
crc16_ccitt_false = record {
  width = 16;
  polynomial = 0x1021;
  initial = 0xFFFF;
  xor_output = 0;
  reflect_input = false;
  reflect_output = false;
}

abbrev pub crc16_x25 : CrcSpec
crc16_x25 = record {
  width = 16;
  polynomial = 0x1021;
  initial = 0xFFFF;
  xor_output = 0xFFFF;
  reflect_input = true;
  reflect_output = true;
}

abbrev pub crc16_arc : CrcSpec
crc16_arc = record {
  width = 16;
  polynomial = 0x8005;
  initial = 0;
  xor_output = 0;
  reflect_input = true;
  reflect_output = true;
}

abbrev pub crc16_cc11xx : CrcSpec
crc16_cc11xx = record {
  width = 16;
  polynomial = 0x8005;
  initial = 0xFFFF;
  xor_output = 0;
  reflect_input = false;
  reflect_output = false;
}
