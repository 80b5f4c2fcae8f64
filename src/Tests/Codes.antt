-- ===== src/Tests/Codes.antt =====
-- Concrete inputs for _rateplan.py, codes/mobitex.py, the profiles and the CCSDS parts.
use gs_flowgraphs.Base.{
  ℕ, ◌*◌, ◌≡◌, ◌≤◌, refl, true, some, [], ◌∷◌, ◌++◌, ok, bit_and, bit_xor, ◌<<<◌, arith,
}
use gs_flowgraphs.Base.{List, odd, Bool, false}
use gs_flowgraphs.Ccsds.Randomizer.{
  IsCache, ccsds_randomize, pn_sequence, pn_loop, pn_octet, feedback, xor_bytes,
}
use gs_flowgraphs.Ccsds.Marker.{find_asm, find_loop, is_prefix, u32_bits}
use gs_flowgraphs.Ccsds.Header.{
  TmHeader, masked, pack_tm_header, parse_tm_primary_header, parse_tm_primary_header-pack_tm_header,
}
use gs_flowgraphs.Crc.Catalog.{
  big, post_init, compute, append, with_check, to_bytes, to_bytes_little, straight_loop, repeat,
  shift_left, differs, crc16_cc11xx,
}
use gs_flowgraphs.LineCode.{pn9_loop}
use gs_flowgraphs.Lora.{HammingDecode, hamming_decode_codeword}
use gs_flowgraphs.Lora.Hamming.{codeword_of, hamming_corrects}
use gs_flowgraphs.RatePlan.{Plan, audio_rate_hz, fm_rx_plan, fm_rx_plan_exact}
use gs_flowgraphs.Mobitex.{no_error, error_corrected, encode_mobitex_fec, decode_mobitex_fec}
use gs_flowgraphs.Mobitex.Correction.{decode_mobitex_fec-encode_mobitex_fec}
use gs_flowgraphs.Profiles.{plain, wire_decoder}
use gs_flowgraphs.Profiles.Accepted.{packet_of, wire_decoder-append}
use gs_flowgraphs.Policies.{valid_ax25_address, callsign_ok, is_callsign_char}

pn_start :
    ccsds_randomize [] (0 ∷ 0 ∷ 0 ∷ 0 ∷ [])
    ≡ (0xFF ∷ 0x48 ∷ 0x0E ∷ 0xC0 ∷ [], 0xFF ∷ 0x48 ∷ 0x0E ∷ 0xC0 ∷ [])
unfolding ccsds_randomize pn_sequence pn_loop pn_octet feedback xor_bytes
pn_start = refl

no-IsCache : IsCache []
unfolding pn_loop
no-IsCache = refl

abbrev marked_bits : List Bool
marked_bits = false ∷ true ∷ false ∷ true ∷ true ∷ false ∷ []

marker_found : find_asm marked_bits 3 2 ≡ some 5
unfolding find_asm find_loop is_prefix u32_bits odd
marker_found = refl

abbrev header : TmHeader
header = record {
  version = 5;
  spacecraft_id = 0x155;
  virtual_channel_id = 6;
  ocf_flag = 1;
  master_channel_frame_count = 300;
  virtual_channel_frame_count = 7;
  secondary_header_flag = 0;
  sync_flag = 1;
  first_header_pointer = 0x7FE;
}

parse_tm_primary_header-pack_tm_header_example :
    parse_tm_primary_header (pack_tm_header header ++ 9 ∷ []) ≡ ok (masked header)
parse_tm_primary_header-pack_tm_header_example =
    parse_tm_primary_header-pack_tm_header header (9 ∷ [])

abbrev usual : Plan
usual = record { decim_to_if = 1; if_rate = 192000; audio_decim = 4 }

usual_plan : fm_rx_plan 192000 ≡ ok usual
unfolding fm_rx_plan
usual_plan = refl

fm_rx_plan_exact_example : (192000 ≡ 1 * 192000) × (192000 ≡ 4 * audio_rate_hz) × (1 ≤ 4) × (4 ≤ 7)
fm_rx_plan_exact_example = fm_rx_plan_exact 192000 usual usual_plan

decode_mobitex_fec-encode_mobitex_fec_example :
    (codeword : ℕ) × (encode_mobitex_fec 0xA5 ≡ ok codeword)
    × (decode_mobitex_fec codeword
        ≡ ok (record { message = 0xA5; fec = bit_and codeword 0x0F; status = no_error }))
    × (decode_mobitex_fec (bit_xor codeword (1 <<< 7))
        ≡ ok (record { message = 0xA5; fec = bit_and codeword 0x0F; status = error_corrected }))
decode_mobitex_fec-encode_mobitex_fec_example =
    decode_mobitex_fec-encode_mobitex_fec 0xA5 7 (omega arith) (omega arith)

checked_octet : append crc16_cc11xx big (7 ∷ []) ≡ ok (7 ∷ 0x7D ∷ 0x13 ∷ [])
unfolding append with_check to_bytes to_bytes_little compute straight_loop repeat shift_left differs
checked_octet = refl

checked_packet :
    append crc16_cc11xx big (packet_of 0 0 (1 ∷ []) 0) ≡ ok (4 ∷ 0 ∷ 0 ∷ 1 ∷ 0 ∷ 0x23 ∷ 0xE0 ∷ [])
unfolding append with_check to_bytes to_bytes_little compute straight_loop repeat shift_left differs
checked_packet = refl

cc11xx_valid : post_init crc16_cc11xx ≡ ok crc16_cc11xx
unfolding post_init
cc11xx_valid = refl

wire_decoder-append_example :
    wire_decoder crc16_cc11xx big
      (pn9_loop 0x1FF ((4 ∷ 0 ∷ 0 ∷ 1 ∷ 0 ∷ 0x23 ∷ 0xE0 ∷ []) ++ (9 ∷ [])))
    ≡ some (plain (1 ∷ []))
wire_decoder-append_example =
    wire_decoder-append crc16_cc11xx big cc11xx_valid refl 0 0 (1 ∷ []) 0
      (4 ∷ 0 ∷ 0 ∷ 1 ∷ 0 ∷ 0x23 ∷ 0xE0 ∷ []) (9 ∷ []) (omega arith) checked_packet

-- "A" and "B" with their spaces, shifted left, and one octet more.
valid_ax25_address_test :
    valid_ax25_address (
      0x82 ∷ 0x40 ∷ 0x40 ∷ 0x40 ∷ 0x40 ∷ 0x40 ∷ 0x60 ∷ 0x84 ∷ 0x40 ∷ 0x40 ∷ 0x40 ∷ 0x40 ∷ 0x40
      ∷ 0x61 ∷ 3 ∷ [])
    ≡ true
unfolding valid_ax25_address callsign_ok is_callsign_char
valid_ax25_address_test = refl

hamming_corrects_example :
    (d : HammingDecode) × (hamming_decode_codeword (bit_xor (codeword_of 5 4) (1 <<< 2)) 4 ≡ ok d)
    × (d.nibble ≡ 5)
hamming_corrects_example =
    hamming_corrects 4 5 2 (omega arith) (omega arith) (omega arith) (omega arith)
