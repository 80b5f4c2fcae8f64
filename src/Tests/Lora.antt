-- ===== src/Tests/Lora.antt =====
-- A concrete frame for native_lora/framing.py.
use gs_flowgraphs.Base.{◌≡◌, refl, true, false, none, some, List, ℕ, [], ◌∷◌, ok, odd}
use gs_flowgraphs.Lora.{
  gray_map_symbol, bits_msb, bits_to_int, bits_to_int_loop, is_odd_sum, data_index, flipped,
  corrected, decode_bits, hamming_decode_codeword, payload_crc_loop, lora_payload_crc, crc_bits,
}
use gs_flowgraphs.Lora.Config.{LoRaPhyConfig, checked_config, given, within, resolved_ldro}
use gs_flowgraphs.Lora.Block.{
  adjust, place_bits, place_rows, interleaved, deinterleave_block, joined, decode_codewords,
}
use gs_flowgraphs.Lora.Frame.{
  LoRaDecodeResult, payload_loop, decode_payload_bytes, open_header, decode_blocks, received_crc,
  judged, check_crc, required_nibbles, block_bits, block_count, result_of, checked_payload,
  read_payload, decode_rest, decode_opened, decode_first, decode_lora_symbols,
}
use gs_flowgraphs.Lora.Exact.{IsFrame, decode_lora_symbols-exact}

abbrev implicit : LoRaPhyConfig
implicit = record {
  sf = 7;
  bandwidth = 125000;
  explicit_header = false;
  cr = some 1;
  payload_length = some 2;
  has_crc = some true;
  ldro = none;
}

implicit_accepted : checked_config implicit ≡ ok implicit
unfolding checked_config given within
implicit_accepted = refl

-- Two octets of zero with their check, which is zero.
abbrev symbols : List ℕ
symbols = 13 ∷ 26 ∷ 18 ∷ 22 ∷ 27 ∷ 10 ∷ 25 ∷ 19 ∷ 0 ∷ 0 ∷ 0 ∷ 0 ∷ 0 ∷ []

abbrev decoded : LoRaDecodeResult
decoded = record {
  payload = 0 ∷ 0 ∷ [];
  header = record { payload_length = 2; cr = 1; has_crc = true; checksum = none; explicit = false };
  crc_valid = some true;
  ldro = false;
  consumed_symbols = 13;
  corrected_codewords = 0;
  detected_codewords = 0;
}

symbols_decoded : decode_lora_symbols symbols implicit true ≡ ok decoded
unfolding decode_lora_symbols decode_first decode_opened decode_rest read_payload checked_payload
    result_of block_count block_bits required_nibbles check_crc judged received_crc decode_blocks
    open_header decode_payload_bytes payload_loop decode_codewords joined deinterleave_block
    interleaved place_rows place_bits adjust resolved_ldro within given gray_map_symbol bits_msb
    bits_to_int bits_to_int_loop is_odd_sum data_index flipped corrected decode_bits
    hamming_decode_codeword payload_crc_loop lora_payload_crc crc_bits odd
symbols_decoded = refl

decode_lora_symbols-exact_example : IsFrame symbols implicit decoded
decode_lora_symbols-exact_example =
    decode_lora_symbols-exact symbols implicit decoded symbols_decoded
