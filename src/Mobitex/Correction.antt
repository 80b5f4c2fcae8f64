-- ===== src/Mobitex/Correction.antt =====
-- The code of mobitex.py corrects every single error.
use gs_flowgraphs.Base.{ℕ, ◌<◌, ◌≡◌, refl, Bool, true, false, bit_and, bit_xor, ◌&&◌, arith}
use gs_flowgraphs.Base.{Result, ok, value_error, ltb, ◌==◌, ◌<<<◌, all_below, all_below_sound}
use gs_flowgraphs.Mobitex.{
  MobitexFecStatus, no_error, error_corrected, error_uncorrectable, MobitexFecResult, bit_count,
  parity, syndrome, codeword_of, encode_mobitex_fec, position_of, repaired, decode_mobitex_fec,
}

-- Whether a result has the given fields, the status being `error_corrected` or `no_error`.
abbrev is_status : Bool → MobitexFecStatus → Bool
is_status true error_corrected = true
is_status false no_error = true
is_status _ _ = false

abbrev status_of : Bool → MobitexFecStatus
status_of true = error_corrected
status_of false = no_error

abbrev is_result : ℕ → ℕ → Bool → Result MobitexFecResult → Bool
is_result message fec corrected value_error = false
is_result message fec corrected (ok r) =
    r.message == message && (r.fec == fec && is_status corrected r.status)

status_sound :
    (corrected : Bool) (status : MobitexFecStatus)
    → is_status corrected status ≡ true
    → status ≡ status_of corrected
status_sound true error_corrected h = refl
status_sound true no_error h = absurd (cc)
status_sound true error_uncorrectable h = absurd (cc)
status_sound false no_error h = refl
status_sound false error_corrected h = absurd (cc)
status_sound false error_uncorrectable h = absurd (cc)

is_result_sound :
    (message fec : ℕ) (corrected : Bool) (r : Result MobitexFecResult)
    → is_result message fec corrected r ≡ true
    → r ≡ ok (record { message = message; fec = fec; status = status_of corrected })
is_result_sound message fec corrected value_error h = absurd (cc)
is_result_sound message fec corrected (ok r) h =
    let m : r.message ≡ message = ground arith in
    let f : r.fec ≡ fec = ground arith in
    let s : r.status ≡ status_of corrected = status_sound corrected r.status (ground arith) in
    λ i. ok (record { message = m i; fec = f i; status = s i })

abbrev corrects_one : ℕ → ℕ → Bool
corrects_one m p =
    is_result m (bit_and (codeword_of m) 0x0F) true
      (decode_mobitex_fec (bit_xor (codeword_of m) (1 <<< p)))

abbrev corrects : ℕ → Bool
corrects m = all_below 12 (corrects_one m)

abbrev accepts : ℕ → Bool
accepts m = is_result m (bit_and (codeword_of m) 0x0F) false (decode_mobitex_fec (codeword_of m))

all_corrected : all_below 256 corrects ≡ true
unfolding all_below decode_mobitex_fec codeword_of repaired position_of syndrome parity bit_count
all_corrected = refl

all_accepted : all_below 256 accepts ≡ true
unfolding all_below decode_mobitex_fec codeword_of repaired position_of syndrome parity bit_count
all_accepted = refl

-- Every octet has a codeword, which is decoded to it as free of errors, and with any one of its
-- twelve bits flipped to the same octet and parity as corrected.
pub decode_mobitex_fec-encode_mobitex_fec :
    (message position : ℕ)
    → message < 256
    → position < 12
    → (codeword : ℕ) × (encode_mobitex_fec message ≡ ok codeword)
      × (decode_mobitex_fec codeword
          ≡ ok (record { message = message; fec = bit_and codeword 0x0F; status = no_error }))
      × (decode_mobitex_fec (bit_xor codeword (1 <<< position))
          ≡ ok
              (record { message = message; fec = bit_and codeword 0x0F; status = error_corrected }))
unfolding encode_mobitex_fec
decode_mobitex_fec-encode_mobitex_fec message position octet bit =
    let c = codeword_of message in
    let fits : ltb 0xFF message ≡ false = ground arith in
    (
      c,
      rw fits refl,
      is_result_sound message (bit_and c 0x0F) false (decode_mobitex_fec c)
          (all_below_sound accepts {bound = 256} {value = message} octet all_accepted),
      is_result_sound message (bit_and c 0x0F) true
          (decode_mobitex_fec (bit_xor c (1 <<< position)))
          (all_below_sound (corrects_one message) {bound = 12} {value = position} bit
            (all_below_sound corrects {bound = 256} {value = message} octet all_corrected)),
    )
