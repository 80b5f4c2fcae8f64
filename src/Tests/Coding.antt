-- ===== src/Tests/Coding.antt =====
-- Concrete inputs for codes/golay24.py and gfsk_ax25/argos.py.
use gs_flowgraphs.Base.{
  ℕ, ◌≡◌, refl, true, false, Bool, some, List, [], ◌∷◌, ok, bit_xor, arith, ◌^◌, ◌<◌,
}
use gs_flowgraphs.Base.Weight.{bit_count}
use gs_flowgraphs.Golay.{encode_golay24, decode_golay24}
use gs_flowgraphs.Golay.Correction.{decode_golay24-encode_golay24}
use gs_flowgraphs.Argos.{bch3121_encode, bch3121_decode}
use gs_flowgraphs.Argos.Correction.{bch3121_decode-bch3121_encode}

three_bits : bit_count 24 0x800101 ≡ 3
unfolding bit_count
three_bits = refl

decode_golay24-encode_golay24_example :
    (codeword : ℕ) × (encode_golay24 0xABC ≡ ok codeword)
    × (decode_golay24 (bit_xor codeword 0x800101)
        ≡ ok (
            some (record {
              message = 0xABC;
              codeword = codeword;
              corrected_bits = bit_count 24 0x800101;
            })))
decode_golay24-encode_golay24_example =
    decode_golay24-encode_golay24 0xABC 0x800101 (omega arith) (omega arith)
      (omega (arith, three_bits))

two_bits : bit_count 31 0x40000200 ≡ 2
unfolding bit_count
two_bits = refl

bch3121_decode-bch3121_encode_example :
    (code31 : ℕ) × (bch3121_encode 0x12345 ≡ ok code31)
    × (code31 < 2 ^ 31)
    × (bch3121_decode (bit_xor code31 0x40000200) ≡ ok (some 0x12345))
bch3121_decode-bch3121_encode_example =
    bch3121_decode-bch3121_encode 0x12345 0x40000200 (omega arith) (omega arith)
      (omega (arith, two_bits))

abbrev noise : List Bool
noise = true ∷ false ∷ true ∷ []
