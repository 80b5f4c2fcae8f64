-- ===== src/Lora/Frame.antt =====
-- native_lora/framing.py: the decoder of a whole frame.
use gs_flowgraphs.Base.{
  ℕ, zero, suc, ◌+◌, ◌-◌, ◌*◌, ◌/◌, Bool, false, Option, none, some, List, [], ◌∷◌, ◌&&◌, not,
  bit_or, bit_xor,
}
use gs_flowgraphs.Base.{
  Result, ok, value_error, ◌>>=◌, ltb, ◌==◌, if◌then◌else◌, length, take, drop, get_or, ◌<<<◌,
}
use gs_flowgraphs.Lora.{LoRaHeader, decode_explicit_header, lora_payload_crc}
use gs_flowgraphs.Lora.Config.{LoRaPhyConfig, resolved_ldro}
use gs_flowgraphs.Lora.Block.{Decoded, joined, deinterleave_block, decode_codewords}

abbrev pub whitening_sequence : List ℕ
whitening_sequence =
    0xFF ∷ 0xFE ∷ 0xFC ∷ 0xF8 ∷ 0xF0 ∷ 0xE1 ∷ 0xC2 ∷ 0x85 ∷ 0x0B ∷ 0x17 ∷ 0x2F ∷ 0x5E ∷ 0xBC ∷ 0x78
    ∷ 0xF1 ∷ 0xE3 ∷ 0xC6 ∷ 0x8D ∷ 0x1A ∷ 0x34 ∷ 0x68 ∷ 0xD0 ∷ 0xA0 ∷ 0x40 ∷ 0x80 ∷ 0x01 ∷ 0x02
    ∷ 0x04 ∷ 0x08 ∷ 0x11 ∷ 0x23 ∷ 0x47 ∷ 0x8E ∷ 0x1C ∷ 0x38 ∷ 0x71 ∷ 0xE2 ∷ 0xC4 ∷ 0x89 ∷ 0x12
    ∷ 0x25 ∷ 0x4B ∷ 0x97 ∷ 0x2E ∷ 0x5C ∷ 0xB8 ∷ 0x70 ∷ 0xE0 ∷ 0xC0 ∷ 0x81 ∷ 0x03 ∷ 0x06 ∷ 0x0C
    ∷ 0x19 ∷ 0x32 ∷ 0x64 ∷ 0xC9 ∷ 0x92 ∷ 0x24 ∷ 0x49 ∷ 0x93 ∷ 0x26 ∷ 0x4D ∷ 0x9B ∷ 0x37 ∷ 0x6E
    ∷ 0xDC ∷ 0xB9 ∷ 0x72 ∷ 0xE4 ∷ 0xC8 ∷ 0x90 ∷ 0x20 ∷ 0x41 ∷ 0x82 ∷ 0x05 ∷ 0x0A ∷ 0x15 ∷ 0x2B
    ∷ 0x56 ∷ 0xAD ∷ 0x5B ∷ 0xB6 ∷ 0x6D ∷ 0xDA ∷ 0xB5 ∷ 0x6B ∷ 0xD6 ∷ 0xAC ∷ 0x59 ∷ 0xB2 ∷ 0x65
    ∷ 0xCB ∷ 0x96 ∷ 0x2C ∷ 0x58 ∷ 0xB0 ∷ 0x61 ∷ 0xC3 ∷ 0x87 ∷ 0x0F ∷ 0x1F ∷ 0x3E ∷ 0x7D ∷ 0xFB
    ∷ 0xF6 ∷ 0xED ∷ 0xDB ∷ 0xB7 ∷ 0x6F ∷ 0xDE ∷ 0xBD ∷ 0x7A ∷ 0xF5 ∷ 0xEB ∷ 0xD7 ∷ 0xAE ∷ 0x5D
    ∷ 0xBA ∷ 0x74 ∷ 0xE8 ∷ 0xD1 ∷ 0xA2 ∷ 0x44 ∷ 0x88 ∷ 0x10 ∷ 0x21 ∷ 0x43 ∷ 0x86 ∷ 0x0D ∷ 0x1B
    ∷ 0x36 ∷ 0x6C ∷ 0xD8 ∷ 0xB1 ∷ 0x63 ∷ 0xC7 ∷ 0x8F ∷ 0x1E ∷ 0x3C ∷ 0x79 ∷ 0xF3 ∷ 0xE7 ∷ 0xCE
    ∷ 0x9C ∷ 0x39 ∷ 0x73 ∷ 0xE6 ∷ 0xCC ∷ 0x98 ∷ 0x31 ∷ 0x62 ∷ 0xC5 ∷ 0x8B ∷ 0x16 ∷ 0x2D ∷ 0x5A
    ∷ 0xB4 ∷ 0x69 ∷ 0xD2 ∷ 0xA4 ∷ 0x48 ∷ 0x91 ∷ 0x22 ∷ 0x45 ∷ 0x8A ∷ 0x14 ∷ 0x29 ∷ 0x52 ∷ 0xA5
    ∷ 0x4A ∷ 0x95 ∷ 0x2A ∷ 0x54 ∷ 0xA9 ∷ 0x53 ∷ 0xA7 ∷ 0x4E ∷ 0x9D ∷ 0x3B ∷ 0x77 ∷ 0xEE ∷ 0xDD
    ∷ 0xBB ∷ 0x76 ∷ 0xEC ∷ 0xD9 ∷ 0xB3 ∷ 0x67 ∷ 0xCF ∷ 0x9E ∷ 0x3D ∷ 0x7B ∷ 0xF7 ∷ 0xEF ∷ 0xDF
    ∷ 0xBF ∷ 0x7E ∷ 0xFD ∷ 0xFA ∷ 0xF4 ∷ 0xE9 ∷ 0xD3 ∷ 0xA6 ∷ 0x4C ∷ 0x99 ∷ 0x33 ∷ 0x66 ∷ 0xCD
    ∷ 0x9A ∷ 0x35 ∷ 0x6A ∷ 0xD4 ∷ 0xA8 ∷ 0x51 ∷ 0xA3 ∷ 0x46 ∷ 0x8C ∷ 0x18 ∷ 0x30 ∷ 0x60 ∷ 0xC1
    ∷ 0x83 ∷ 0x07 ∷ 0x0E ∷ 0x1D ∷ 0x3A ∷ 0x75 ∷ 0xEA ∷ 0xD5 ∷ 0xAA ∷ 0x55 ∷ 0xAB ∷ 0x57 ∷ 0xAF
    ∷ 0x5F ∷ 0xBE ∷ 0x7C ∷ 0xF9 ∷ 0xF2 ∷ 0xE5 ∷ 0xCA ∷ 0x94 ∷ 0x28 ∷ 0x50 ∷ 0xA1 ∷ 0x42 ∷ 0x84
    ∷ 0x09 ∷ 0x13 ∷ 0x27 ∷ 0x4F ∷ 0x9F ∷ 0x3F ∷ 0x7F ∷ []

-- The octets from `index` on, with the nibbles of them.
unfoldable pub payload_loop : ℕ → ℕ → List ℕ → List ℕ
payload_loop zero index nibbles = []
payload_loop (suc n) index nibbles =
    bit_xor (bit_or (get_or nibbles 0 0) (get_or nibbles 1 0 <<< 4))
      (get_or whitening_sequence index 0)
    ∷ payload_loop n (index + 1) (drop 2 nibbles)

unfoldable pub decode_payload_bytes : List ℕ → ℕ → Result (List ℕ)
decode_payload_bytes nibbles payload_length =
    if ltb (length nibbles) (payload_length * 2)
    then value_error
    else ok (payload_loop payload_length 0 nibbles)

pub record LoRaDecodeResult : Type 0 where
  pub payload : List ℕ
  pub header : LoRaHeader
  pub crc_valid : Option Bool
  pub ldro : Bool
  pub consumed_symbols : ℕ
  pub corrected_codewords : ℕ
  pub detected_codewords : ℕ

-- The header and the nibbles of the payload in the first block. `checked_config` refuses an
-- implicit header with a part missing, so the assertions on its parts hold.
unfoldable pub open_header : LoRaPhyConfig → List ℕ → Result (LoRaHeader × List ℕ)
open_header config nibbles =
    if config.explicit_header
    then (do header ← decode_explicit_header nibbles; ok (header, drop 5 nibbles))
    else implicit config.payload_length config.cr config.has_crc
  where
    implicit : Option ℕ → Option ℕ → Option Bool → Result (LoRaHeader × List ℕ)
    implicit (some payload_length) (some cr) (some has_crc) = ok (
      record {
        payload_length = payload_length;
        cr = cr;
        has_crc = has_crc;
        checksum = none;
        explicit = false;
      },
      nibbles,
    )
    implicit _ _ _ = value_error

-- The loop over the blocks after the first.
unfoldable pub decode_blocks : ℕ → ℕ → ℕ → List ℕ → Result Decoded
decode_blocks zero sf_app cr symbols = ok (record { nibbles = []; corrected = 0; detected = 0 })
decode_blocks (suc n) sf_app cr symbols = do
  codewords ← deinterleave_block (take (cr + 4) symbols) sf_app cr
  block ← decode_codewords codewords cr
  rest ← decode_blocks n sf_app cr (drop (cr + 4) symbols)
  ok (joined block rest)

-- The payload's check, which stands in the four nibbles after it.
unfoldable pub received_crc : List ℕ → ℕ → ℕ
received_crc nibbles offset =
    (get_or nibbles offset 0 + (get_or nibbles (offset + 1) 0 <<< 4))
    + ((get_or nibbles (offset + 2) 0 <<< 8) + (get_or nibbles (offset + 3) 0 <<< 12))

-- Whether the check is valid, with a refusal if it must be.
unfoldable pub judged : Bool → Bool → Result (Option Bool)
judged require_valid_crc valid =
    if require_valid_crc && not valid then value_error else ok (some valid)

unfoldable pub check_crc : LoRaHeader → Bool → List ℕ → List ℕ → Result (Option Bool)
check_crc header require_valid_crc nibbles payload = if not header.has_crc then ok none else do
  expected ← lora_payload_crc payload
  judged require_valid_crc (received_crc nibbles (2 * header.payload_length) == expected)

unfoldable pub required_nibbles : LoRaHeader → ℕ
required_nibbles header = 2 * header.payload_length + (if header.has_crc then 4 else 0)

unfoldable pub block_bits : LoRaPhyConfig → ℕ
block_bits config = if resolved_ldro config then config.sf - 2 else config.sf

-- How many blocks follow when the first one has given some nibbles of the payload.
unfoldable pub block_count : LoRaPhyConfig → LoRaHeader → ℕ → ℕ
block_count config header available =
    (required_nibbles header - available + block_bits config - 1) / block_bits config

unfoldable pub result_of :
    LoRaPhyConfig → LoRaHeader → ℕ → Decoded → List ℕ → Option Bool → LoRaDecodeResult
result_of config header required_symbols all payload crc_valid = record {
  payload = payload;
  header = header;
  crc_valid = crc_valid;
  ldro = resolved_ldro config;
  consumed_symbols = required_symbols;
  corrected_codewords = all.corrected;
  detected_codewords = all.detected;
}

unfoldable pub checked_payload :
    LoRaPhyConfig → Bool → LoRaHeader → ℕ → Decoded → List ℕ → Result LoRaDecodeResult
checked_payload config require_valid_crc header required_symbols all payload = do
  crc_valid ←
      check_crc header require_valid_crc (take (required_nibbles header) all.nibbles) payload
  ok (result_of config header required_symbols all payload crc_valid)

-- What follows the blocks: the payload, then its check.
unfoldable pub read_payload :
    LoRaPhyConfig → Bool → LoRaHeader → ℕ → Decoded → Result LoRaDecodeResult
read_payload config require_valid_crc header required_symbols all = do
  payload ← decode_payload_bytes (take (required_nibbles header) all.nibbles) header.payload_length
  checked_payload config require_valid_crc header required_symbols all payload

-- What follows the first block, whose nibbles of the payload are in `first`.
unfoldable pub decode_rest :
    List ℕ → LoRaPhyConfig → Bool → Decoded → LoRaHeader → Result LoRaDecodeResult
decode_rest symbols config require_valid_crc first header =
    let blocks = block_count config header (length first.nibbles) in
    let required_symbols = 8 + blocks * (header.cr + 4) in
    if header.has_crc && ltb header.payload_length 2
    then value_error
    else if ltb (length symbols) required_symbols
    then value_error
    else if ltb required_symbols (length symbols)
    then value_error
    else do
      rest ← decode_blocks blocks (block_bits config) header.cr (drop 8 symbols)
      read_payload config require_valid_crc header required_symbols (joined first rest)

-- What follows the codewords of the first block.
unfoldable pub decode_opened :
    List ℕ → LoRaPhyConfig → Bool → Decoded → (LoRaHeader × List ℕ) → Result LoRaDecodeResult
decode_opened symbols config require_valid_crc first (header, payload_nibbles) =
    decode_rest symbols config require_valid_crc
      (record { nibbles = payload_nibbles; corrected = first.corrected; detected = first.detected })
      header

unfoldable pub decode_first : List ℕ → LoRaPhyConfig → Bool → Decoded → Result LoRaDecodeResult
decode_first symbols config require_valid_crc first = do
  opened ← open_header config first.nibbles
  decode_opened symbols config require_valid_crc first opened

unfoldable pub decode_lora_symbols : List ℕ → LoRaPhyConfig → Bool → Result LoRaDecodeResult
decode_lora_symbols symbols config require_valid_crc =
    if ltb 4096 (length symbols)
    then value_error
    else if ltb (length symbols) 8
    then value_error
    else do
      codewords ← deinterleave_block (take 8 symbols) (config.sf - 2) 4
      first ← decode_codewords codewords 4
      decode_first symbols config require_valid_crc first
