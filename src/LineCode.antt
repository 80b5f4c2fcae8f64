-- ===== src/LineCode.antt =====
-- native_framing/linecode.py: reflection, the additive and the multiplicative randomizers, and
-- differential coding. A hard bit is a `Bool`, so that `_hard_bits` never raises.
pub mod Additive
pub mod Differential
pub mod Descrambler
use gs_flowgraphs.Base.{
  ℕ, zero, suc, ◌+◌, ◌*◌, ◌/◌, ◌%◌, ◌^◌, Bool, true, false, List, [], ◌∷◌, ◌||◌, map, bit_and,
  bit_or, bit_xor,
}
use gs_flowgraphs.Base.{
  Result, ok, value_error, ◌>>=◌, ltb, leb, ◌==◌, if◌then◌else◌, ◌<<<◌, ◌>>>◌, bit, odd, ◌⊕◌,
}
use gs_flowgraphs.Octets.{byte_of}

-- An entry of `_reflection_table`.
pub reflection : ℕ → ℕ
reflection value =
    byte_of (odd (value / 128)) (odd (value / 64)) (odd (value / 32)) (odd (value / 16))
      (odd (value / 8)) (odd (value / 4)) (odd (value / 2)) (odd value)

pub reflect_bytes : List ℕ → List ℕ
reflect_bytes bytes = map reflection bytes

-- The loop over `bit_index`, from that index on: the sequence octet and the state after it.
unfoldable pub pn9_octet : ℕ → ℕ → ℕ → ℕ → ℕ × ℕ
pn9_octet zero bit_index sequence state = (sequence, state)
pn9_octet (suc n) bit_index sequence state =
    let output_bit = bit_and state 1 in
    let feedback = bit_xor (bit_and state 1) (bit_and (state >>> 5) 1) in
    pn9_octet n (bit_index + 1) (bit_or sequence (output_bit <<< bit_index))
      (bit_or (state >>> 1) (feedback <<< 8))

unfoldable pub pn9_loop : ℕ → List ℕ → List ℕ
pn9_loop state [] = []
pn9_loop state (value ∷ bytes) =
    let drawn = pn9_octet 8 0 0 state in bit_xor value drawn.0 ∷ pn9_loop drawn.1 bytes

unfoldable pub pn9_bytes : List ℕ → ℕ → Result (List ℕ)
pn9_bytes bytes seed = if seed == 0 || ltb 0x1FF seed then value_error else ok (pn9_loop seed bytes)

-- `int.bit_count`, of a number below `2 ** n`.
unfoldable pub bit_count : ℕ → ℕ → ℕ
bit_count zero x = 0
bit_count (suc n) x = x % 2 + bit_count n (x / 2)

-- `(state & mask).bit_count() & 1`: the states and masks that pass the tests are below `2 ** 64`.
unfoldable pub tapped : ℕ → ℕ → Bool
tapped mask state = odd (bit_count 64 (bit_and state mask))

-- The three tests on a register's parameters.
unfoldable pub register_ok : ℕ → ℕ → ℕ → Bool
register_ok mask seed register_length =
    if register_length == 0 || ltb 63 register_length
    then false
    else if mask == 0 || leb (1 <<< (register_length + 1)) mask
    then false
    else if leb (1 <<< (register_length + 1)) seed
    then false
    else true

-- The register after one step with the given feedback.
unfoldable pub shift_down : ℕ → ℕ → Bool → ℕ
shift_down register_length state feedback = bit_or (state >>> 1) (bit feedback <<< register_length)

unfoldable pub additive_loop : ℕ → ℕ → ℕ → List Bool → List Bool
additive_loop mask register_length state [] = []
additive_loop mask register_length state (b ∷ bits) =
    (b ⊕ odd state)
    ∷ additive_loop mask register_length (shift_down register_length state (tapped mask state)) bits

unfoldable pub additive_randomize_bits : List Bool → ℕ → ℕ → ℕ → Result (List Bool)
additive_randomize_bits bits mask seed register_length =
    if register_ok mask seed register_length
    then ok (additive_loop mask register_length seed bits)
    else value_error

pub encode_loop : Bool → List Bool → List Bool
encode_loop previous [] = []
encode_loop previous (b ∷ bits) = let level = previous ⊕ b in level ∷ encode_loop level bits

unfoldable pub differential_encode : List Bool → ℕ → List Bool
differential_encode bits initial = encode_loop (odd initial) bits

pub decode_loop : Bool → List Bool → List Bool
decode_loop previous [] = []
decode_loop previous (current ∷ bits) = (current ⊕ previous) ∷ decode_loop current bits

unfoldable pub differential_decode : List Bool → ℕ → List Bool
differential_decode bits initial = decode_loop (odd initial) bits

pub record SelfSynchronizingDescrambler : Type 0 where
  pub mask : ℕ
  pub seed : ℕ
  pub register_length : ℕ
  pub state : ℕ

unfoldable pub descrambler : ℕ → ℕ → ℕ → Result SelfSynchronizingDescrambler
descrambler mask seed register_length =
    if register_ok mask seed register_length
    then ok (record { mask = mask; seed = seed; register_length = register_length; state = seed })
    else value_error

pub reset : SelfSynchronizingDescrambler → SelfSynchronizingDescrambler
reset d = record d { state = d.seed }

-- The loop of `push`: the output, and the state after it.
unfoldable pub push_bits : ℕ → ℕ → ℕ → List Bool → List Bool
push_bits mask register_length state [] = []
push_bits mask register_length state (received ∷ bits) =
    (tapped mask state ⊕ received)
    ∷ push_bits mask register_length (shift_down register_length state received) bits

pub push_state : ℕ → ℕ → List Bool → ℕ
push_state register_length state [] = state
push_state register_length state (received ∷ bits) =
    push_state register_length (shift_down register_length state received) bits

unfoldable pub push :
    SelfSynchronizingDescrambler → List Bool → SelfSynchronizingDescrambler × List Bool
push d bits = (
  record d { state = push_state d.register_length d.state bits },
  push_bits d.mask d.register_length d.state bits,
)

unfoldable pub multiplicative_loop : ℕ → ℕ → ℕ → List Bool → List Bool
multiplicative_loop mask register_length state [] = []
multiplicative_loop mask register_length state (b ∷ bits) =
    let transmitted = tapped mask state ⊕ b in
    transmitted
    ∷ multiplicative_loop mask register_length (shift_down register_length state transmitted) bits

unfoldable pub multiplicative_scramble : List Bool → ℕ → ℕ → ℕ → Result (List Bool)
multiplicative_scramble bits mask seed register_length = do
  config ← descrambler mask seed register_length
  ok (multiplicative_loop config.mask config.register_length config.state bits)
