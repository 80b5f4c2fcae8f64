-- ===== src/Crc/Ccitt/Bitwise.antt =====
-- crc.py and the catalogue of native_framing/crc.py compute one check.
use gs_flowgraphs.Base.{
  ℕ, zero, suc, ◌%◌, ◌^◌, ◌<◌, ◌≡◌, refl, ap, sym, ◌∙◌, Bool, true, false, List, [], ◌∷◌, bit_xor,
  bit_and, arith,
}
use gs_flowgraphs.Base.{◌==◌, if◌then◌else◌, ◌<<<◌, and_mask}
use gs_flowgraphs.Base.Xor.{xor-zero, xor-mod}
use gs_flowgraphs.Crc.Catalog.{CrcSpec, compute, differs, straight_loop, shift_left, repeat}
use gs_flowgraphs.Crc.Ccitt.{shift_bit, shift_bits, crc_loop, crc16_ccitt_false}

module _ (poly : ℕ) (fits : poly < 2 ^ 16) where
  shift_bit-eq-shift_left : (crc : ℕ) → shift_bit poly crc ≡ shift_left 16 poly crc
  unfolding shift_bit shift_left
  shift_bit-eq-shift_left crc = choose (bit_and crc 0x8000 == 0)
    where
      masked : bit_and (bit_xor (crc <<< 1) poly) 0xFFFF ≡ bit_xor (bit_and (crc <<< 1) 0xFFFF) poly
      masked =
          and_mask 16 (bit_xor (crc <<< 1) poly)
          ∙ xor-mod 16 (crc <<< 1) poly
          ∙ rw (and_mask 16 (crc <<< 1)) (ap (bit_xor (crc <<< 1 % 2 ^ 16)) (omega arith))

      choose :
          (b : Bool)
          → (if b then bit_and (crc <<< 1) 0xFFFF else bit_and (bit_xor (crc <<< 1) poly) 0xFFFF)
            ≡ bit_xor (bit_and (crc <<< 1) 0xFFFF) (if b then 0 else poly)
      choose true = sym (xor-zero (bit_and (crc <<< 1) 0xFFFF))
      choose false = masked

  shift_bits-eq-repeat : (n crc : ℕ) → shift_bits poly n crc ≡ repeat n (shift_left 16 poly) crc
  unfolding shift_bits repeat
  shift_bits-eq-repeat zero crc = refl
  shift_bits-eq-repeat (suc n) crc =
      ap (shift_bits poly n) (shift_bit-eq-shift_left crc)
      ∙ shift_bits-eq-repeat n (shift_left 16 poly crc)

  crc_loop-eq-straight_loop :
      (bytes : List ℕ) (crc : ℕ) → crc_loop poly crc bytes ≡ straight_loop 16 poly crc bytes
  unfolding crc_loop straight_loop
  crc_loop-eq-straight_loop [] crc = refl
  crc_loop-eq-straight_loop (byte ∷ bytes) crc =
      ap (λ c. crc_loop poly c bytes) (shift_bits-eq-repeat 8 (bit_xor crc (byte <<< 8)))
      ∙ crc_loop-eq-straight_loop bytes (repeat 8 (shift_left 16 poly) (bit_xor crc (byte <<< 8)))

  abbrev pub as_spec : ℕ → CrcSpec
  as_spec init = record {
    width = 16;
    polynomial = poly;
    initial = init;
    xor_output = 0;
    reflect_input = false;
    reflect_output = false;
  }

  -- For any 16-bit polynomial and any initial value, `crc16_ccitt_false` of any octets is what
  -- the catalogue computes for the unreflected 16-bit specification with no final exclusive or.
  pub crc16_ccitt_false-eq-compute :
      (init : ℕ) (bytes : List ℕ) → crc16_ccitt_false bytes init poly ≡ compute (as_spec init) bytes
  unfolding crc16_ccitt_false compute differs
  crc16_ccitt_false-eq-compute init bytes =
      ap (λ c. bit_and c 0xFFFF)
        (crc_loop-eq-straight_loop bytes init ∙ sym (xor-zero (straight_loop 16 poly init bytes)))
