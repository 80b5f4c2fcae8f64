-- ===== src/Profiles.antt =====
-- The wire decoders of the profiles in native_framing/profiles that whiten with PN9 and check with
-- a CRC: geoscan.py, cc11xx.py, grizu.py, ao40.py and sanosat.py. With a byte order that is one of
-- the two, `strip_if_valid` is `strip_checked`; with a seed of 1 to 511, `pn9_bytes` is its loop.
pub mod Accepted
use gs_flowgraphs.Base.{
  ℕ, zero, suc, ◌+◌, Bool, true, false, Option, none, some, List, [], ◌∷◌, ◌++◌, ◌&&◌, not,
}
use gs_flowgraphs.Base.{Result, ltb, ◌==◌, if◌then◌else◌, length, take, drop, get_or}
use gs_flowgraphs.Crc.Fcs.{same_bytes}
use gs_flowgraphs.Crc.Catalog.{
  CrcSpec, Byteorder, big, little, strip_checked, crc16_ccitt_false, crc16_cc11xx, crc16_x25,
}
use gs_flowgraphs.LineCode.{pn9_loop, reflect_bytes}
use gs_flowgraphs.Crop.{cc11xx_cut, head_tail}
use gs_flowgraphs.Fixed.{DecodedFixedFrame, passed}

-- `DecodedFixedFrame` with its defaults, without the metadata.
unfoldable pub plain : List ℕ → DecodedFixedFrame
plain payload = record { payload = payload; integrity = passed; corrected_symbols = none }

unfoldable pub made_plain : Option (List ℕ) → Option DecodedFixedFrame
made_plain none = none
made_plain (some payload) = some (plain payload)

unfoldable pub and_then : Option (List ℕ) → (List ℕ → Option (List ℕ)) → Option (List ℕ)
and_then none next = none
and_then (some bytes) next = next bytes

-- geoscan.py
unfoldable pub decode_geoscan : List ℕ → Option DecodedFixedFrame
decode_geoscan wire = made_plain (strip_checked crc16_cc11xx big (pn9_loop 0x1FF wire))

-- ao40.py
unfoldable pub decode_uncoded : List ℕ → Option DecodedFixedFrame
decode_uncoded wire = made_plain (strip_checked crc16_ccitt_false big wire)

abbrev pub frame_size : ℕ
frame_size = 258

-- What cc11xx.py and grizu.py do with a packet that is no longer whitened.
unfoldable pub decode_packet : CrcSpec → Byteorder → List ℕ → Option DecodedFixedFrame
decode_packet spec order packet = made_plain (
    and_then (and_then (cc11xx_cut 2 frame_size packet) (strip_checked spec order))
      (λ without_crc. head_tail without_crc 3 1))

-- `_wire_decoder` of cc11xx.py
unfoldable pub wire_decoder : CrcSpec → Byteorder → List ℕ → Option DecodedFixedFrame
wire_decoder spec order wire = decode_packet spec order (pn9_loop 0x1FF wire)

abbrev pub decode_reaktor : List ℕ → Option DecodedFixedFrame
decode_reaktor wire = wire_decoder crc16_cc11xx big wire

abbrev pub decode_aalto1 : List ℕ → Option DecodedFixedFrame
decode_aalto1 wire = wire_decoder crc16_x25 little wire

abbrev pub scrambler_seed : ℕ
scrambler_seed = 0x100

-- grizu.py
unfoldable pub decode_grizu : List ℕ → Option DecodedFixedFrame
decode_grizu wire =
    decode_packet crc16_cc11xx big (reflect_bytes (pn9_loop scrambler_seed (reflect_bytes wire)))

-- `crc1_payload != packet[:1]`
unfoldable pub is_first : List ℕ → Option (List ℕ) → Bool
is_first packet none = false
is_first packet (some payload) = same_bytes payload (take 1 packet)

-- sanosat.py, from the second check on.
unfoldable pub sanosat_payload : List ℕ → Option (List ℕ)
sanosat_payload without_crc =
    if not (same_bytes (take 4 (drop 1 without_crc)) (0xFF ∷ 0xFF ∷ 0 ∷ 0 ∷ []))
    then none
    else and_then (head_tail without_crc 5 0)
        (λ payload. if length payload == 0 then none else some payload)

unfoldable pub decode_sanosat : List ℕ → Option DecodedFixedFrame
decode_sanosat [] = none
decode_sanosat (size ∷ rest) =
    let packet_length = size + 5 in
    let packet = take packet_length (size ∷ rest) in
    if ltb (length (size ∷ rest)) packet_length
    then none
    else if ltb (length packet) 10
    then none
    else if not (is_first packet (strip_checked crc16_ccitt_false little (take 3 packet)))
    then none
    else made_plain (
        and_then (strip_checked crc16_ccitt_false little (take 1 packet ++ drop 3 packet))
          sanosat_payload)
