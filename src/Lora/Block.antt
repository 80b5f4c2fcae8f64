-- ===== src/Lora/Block.antt =====
-- native_lora/framing.py: the codewords of one interleaved block and their nibbles.
use gs_flowgraphs.Base.{ℕ, zero, suc, ◌+◌, ◌-◌, ◌%◌, Bool, false, List, [], ◌∷◌, ◌++◌, not, map}
use gs_flowgraphs.Base.{Result, ok, value_error, ◌>>=◌, ◌==◌, if◌then◌else◌, length, bit, replicate}
use gs_flowgraphs.Lora.{gray_map_symbol, bits_msb, bits_to_int, hamming_decode_codeword}
use gs_flowgraphs.Lora.Config.{within}

-- An assignment to one place of a list.
unfoldable pub adjust {ℓ} : {A : Type ℓ} → (A → A) → ℕ → List A → List A
adjust f index [] = []
adjust f zero (a ∷ rest) = f a ∷ rest
adjust f (suc index) (a ∷ rest) = a ∷ adjust f index rest

-- The bits of symbol `i` from bit `j` on, each written to its codeword.
unfoldable pub place_bits : ℕ → ℕ → ℕ → List Bool → List (List Bool) → List (List Bool)
place_bits sf_app i j [] codewords = codewords
place_bits sf_app i j (b ∷ bits) codewords =
    place_bits sf_app i (j + 1) bits
      (adjust (adjust (λ old. b) i) ((i + sf_app - (j + 1)) % sf_app) codewords)

unfoldable pub place_rows : ℕ → ℕ → List (List Bool) → List (List Bool) → List (List Bool)
place_rows sf_app i [] codewords = codewords
place_rows sf_app i (row ∷ rows) codewords =
    place_rows sf_app (i + 1) rows (place_bits sf_app i 0 row codewords)

unfoldable pub interleaved : ℕ → List ℕ → Result (List (List Bool))
interleaved sf_app [] = ok []
interleaved sf_app (symbol ∷ symbols) = do
  mapped ← gray_map_symbol symbol sf_app
  rest ← interleaved sf_app symbols
  ok (bits_msb mapped sf_app ∷ rest)

unfoldable pub deinterleave_block : List ℕ → ℕ → ℕ → Result (List ℕ)
deinterleave_block symbols sf_app cr =
    if not (within 3 12 sf_app)
    then value_error
    else if not (within 1 4 cr)
    then value_error
    else if not (length symbols == cr + 4)
    then value_error
    else do
      rows ← interleaved sf_app symbols
      ok (map bits_to_int (place_rows sf_app 0 rows (replicate sf_app (replicate (cr + 4) false))))

-- The nibbles of some codewords, and how many were corrected and found in error.
pub record Decoded : Type 0 where
  pub nibbles : List ℕ
  pub corrected : ℕ
  pub detected : ℕ

unfoldable pub joined : Decoded → Decoded → Decoded
joined first second = record {
  nibbles = first.nibbles ++ second.nibbles;
  corrected = first.corrected + second.corrected;
  detected = first.detected + second.detected;
}

unfoldable pub decode_codewords : List ℕ → ℕ → Result Decoded
decode_codewords [] cr = ok (record { nibbles = []; corrected = 0; detected = 0 })
decode_codewords (codeword ∷ codewords) cr = do
  decoded ← hamming_decode_codeword codeword cr
  rest ← decode_codewords codewords cr
  ok (
      joined
        (record {
          nibbles = decoded.nibble ∷ [];
          corrected = bit decoded.data_bit_corrected;
          detected = bit decoded.error_detected;
        })
        rest)
