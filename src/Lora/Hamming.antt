-- ===== src/Lora/Hamming.antt =====
-- The Hamming codes of native_lora/framing.py correct a single error.
use gs_flowgraphs.Base.{
  ℕ, ◌+◌, ◌≤◌, ◌<◌, ◌≡◌, refl, Bool, true, false, List, [], ◌∷◌, bit_xor, arith,
}
use gs_flowgraphs.Base.{
  Bool-cases, inl, inr, subst, sym, Result, ok, value_error, ◌==◌, ==_iff, if◌then◌else◌, odd, ◌⊕◌,
  ◌<<<◌, ◌>>>◌, all_below, all_below_sound,
}
use gs_flowgraphs.Lora.{
  HammingDecode, bits_msb, bits_to_int_loop, bits_to_int, is_odd_sum, data_index, flipped,
  corrected, decode_bits, hamming_decode_codeword,
}

-- The codeword of a nibble, by the parities that the decoder tests: seven bits, or with the parity
-- of those eight.
abbrev pub seven_bits : ℕ → List Bool
seven_bits nibble =
    let b0 = odd nibble in
    let b1 = odd (nibble >>> 1) in
    let b2 = odd (nibble >>> 2) in
    let b3 = odd (nibble >>> 3) in
    b0 ∷ b1 ∷ b2 ∷ b3 ∷ ((b0 ⊕ b1) ⊕ b2) ∷ ((b1 ⊕ b2) ⊕ b3) ∷ ((b0 ⊕ b1) ⊕ b3) ∷ []

abbrev pub codeword_of : ℕ → ℕ → ℕ
codeword_of nibble cr =
    let seven = seven_bits nibble in
    if cr == 3
    then bits_to_int seven
    else bits_to_int_loop (bits_to_int seven) (is_odd_sum seven ∷ [])

abbrev has_nibble : ℕ → Result HammingDecode → Bool
has_nibble nibble value_error = false
has_nibble nibble (ok r) = r.nibble == nibble

abbrev corrects_one : ℕ → ℕ → ℕ → Bool
corrects_one cr nibble position =
    has_nibble nibble
      (hamming_decode_codeword (bit_xor (codeword_of nibble cr) (1 <<< position)) cr)

abbrev corrects : ℕ → ℕ → Bool
corrects cr nibble = all_below (cr + 4) (corrects_one cr nibble)

three_corrects : all_below 16 (corrects 3) ≡ true
unfolding all_below hamming_decode_codeword decode_bits bits_msb bits_to_int bits_to_int_loop
    is_odd_sum data_index flipped corrected odd
three_corrects = refl

four_corrects : all_below 16 (corrects 4) ≡ true
unfolding all_below hamming_decode_codeword decode_bits bits_msb bits_to_int bits_to_int_loop
    is_odd_sum data_index flipped corrected odd
four_corrects = refl

nibble_sound :
    (nibble : ℕ) (r : Result HammingDecode)
    → has_nibble nibble r ≡ true
    → (d : HammingDecode) × (r ≡ ok d) × (d.nibble ≡ nibble)
nibble_sound nibble value_error h = absurd (cc)
nibble_sound nibble (ok d) h = (d, refl, (==_iff d.nibble nibble).0 h)

-- With coding rates 3 and 4, a codeword with any one bit flipped is decoded to its nibble.
pub hamming_corrects :
    (cr nibble position : ℕ)
    → 3 ≤ cr
    → cr ≤ 4
    → nibble < 16
    → position < cr + 4
    → (d : HammingDecode) × (hamming_decode_codeword
          (bit_xor (codeword_of nibble cr) (1 <<< position))
          cr
        ≡ ok d)
      × (d.nibble ≡ nibble)
hamming_corrects cr nibble position low high small inside =
    nibble_sound nibble
      (hamming_decode_codeword (bit_xor (codeword_of nibble cr) (1 <<< position)) cr)
      (all_below_sound (corrects_one cr nibble) {bound = cr + 4} {value = position} inside
        (all_below_sound (corrects cr) {bound = 16} {value = nibble} small rate))
  where
    rate : all_below 16 (corrects cr) ≡ true
    rate = elim (Bool-cases (cr == 3)) [
      | inl three ↦
          subst (λ c. all_below 16 (corrects c) ≡ true) (sym ((==_iff cr 3).0 three)) three_corrects
      | inr more ↦
          let four : cr ≡ 4 = ground arith in
          subst (λ c. all_below 16 (corrects c) ≡ true) (sym four) four_corrects
    ]
