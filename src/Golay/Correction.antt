-- ===== src/Golay/Correction.antt =====
-- The code of golay24.py corrects any three errors.
use gs_flowgraphs.Base.{
  ℕ, ◌%◌, ◌^◌, ◌≡◌, ◌≤◌, ◌<◌, refl, ap, ◌∙◌, Bool, true, false, Option, none, some, ok, ltb, ◌==◌,
  ==_iff, ◌&&◌, bit_and, bit_or, bit_xor, ◌<<<◌, all_below, all_below_sound, arith, or_fields,
  and_mask,
}
use gs_flowgraphs.Base.Xor.{zero-xor, xor_cancel, xor-lt}
use gs_flowgraphs.Base.Weight.{bit_count, all_light, all_light_sound}
use gs_flowgraphs.Golay.{
  parity, syndrome_loop, syndrome, near_row, error_high, error_low, first_error, second_error,
  or_else, error_of, encode_golay24, without_error, decode_golay24,
}
use gs_flowgraphs.Golay.Linear.{syndrome-xor}

abbrev is_error : ℕ → Option ℕ → Bool
is_error e none = false
is_error e (some f) = f == e

abbrev finds : ℕ → Bool
finds e = is_error e (error_of (syndrome e))

all_found : all_light 24 3 finds ≡ true
unfolding all_light error_of first_error second_error or_else near_row error_high error_low syndrome
    syndrome_loop parity bit_count
all_found = refl

abbrev word_of : ℕ → ℕ
word_of message = bit_or (syndrome message <<< 12) message

abbrev is_codeword : ℕ → Bool
is_codeword message = (syndrome (word_of message) == 0) && ltb (word_of message) (2 ^ 24)

all_codewords : all_below 4096 is_codeword ≡ true
unfolding all_below syndrome syndrome_loop parity bit_count
all_codewords = refl

error_of-light : (e : ℕ) → e < 2 ^ 24 → bit_count 24 e ≤ 3 → error_of (syndrome e) ≡ some e
error_of-light e small light =
    sound (error_of (syndrome e)) (all_light_sound 24 3 finds e all_found small light)
  where
    sound : (o : Option ℕ) → is_error e o ≡ true → o ≡ some e
    sound none h = absurd (cc)
    sound (some f) h = ap some ((==_iff f e).0 h)

-- Every message of 12 bits is encoded to a word that, with any three or fewer of its 24 bits
-- flipped, is decoded to that message and word, with the number of the flipped bits.
pub decode_golay24-encode_golay24 :
    (message error : ℕ)
    → message < 4096
    → error < 2 ^ 24
    → bit_count 24 error ≤ 3
    → (codeword : ℕ) × (encode_golay24 message ≡ ok codeword)
      × (decode_golay24 (bit_xor codeword error)
          ≡ ok (
              some (record {
                message = message;
                codeword = codeword;
                corrected_bits = bit_count 24 error;
              })))
unfolding encode_golay24 decode_golay24 without_error
decode_golay24-encode_golay24 message error short small light =
    let c = word_of message in
    let fits : ltb 0xFFF message ≡ false = ground arith in
    let valid = all_below_sound is_codeword {bound = 4096} {value = message} short all_codewords in
    let zero_syndrome : syndrome c ≡ 0 = ground arith in
    let room : c < 2 ^ 24 = ground arith in
    let inside : ltb 0xFFFFFF (bit_xor c error) ≡ false =
      ground (arith, xor-lt 24 c error room small) in
    let s : syndrome (bit_xor c error) ≡ syndrome error =
      syndrome-xor c error
      ∙ ap (λ t. bit_xor t (syndrome error)) zero_syndrome
      ∙ zero-xor (syndrome error) in
    let back : bit_xor (bit_xor c error) error ≡ c = xor_cancel c error in
    let low : bit_and c 0xFFF ≡ message =
      and_mask 12 c
      ∙ ap (λ t. t % 2 ^ 12) (or_fields 12 (syndrome message) message short)
      ∙ omega arith in
    (c, rw fits refl, rw (inside, s, error_of-light error small light, back, low) refl)
