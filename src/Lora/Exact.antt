-- ===== src/Lora/Exact.antt =====
-- Frames that the decoder accepts.
use gs_flowgraphs.Base.{
  ℕ, ◌+◌, ◌*◌, ◌≡◌, ◌-◌, ◌&&◌, inl, inr, refl, sym, ap, ◌∙◌, ◌++◌, Bool, true, false, Option, none,
  some, List, arith, zero, suc, subst,
}
use gs_flowgraphs.Base.{
  ok, ◌>>=◌, ltb, ◌==◌, if◌then◌else◌, length, drop, take, ok-bind, ok-if, Bool-cases,
}
use gs_flowgraphs.Lora.{LoRaHeader, lora_payload_crc}
use gs_flowgraphs.Lora.Config.{LoRaPhyConfig}
use gs_flowgraphs.Lora.Block.{Decoded, joined, decode_codewords, deinterleave_block}
use gs_flowgraphs.Lora.Frame.{
  LoRaDecodeResult, decode_rest, decode_opened, decode_first, result_of, checked_payload,
  read_payload, decode_lora_symbols, decode_blocks, block_count, block_bits, decode_payload_bytes,
  payload_loop, check_crc, judged, received_crc, required_nibbles, open_header,
}
use gs_flowgraphs.Lora.Received.{Checked, check_crc-Checked}

-- The check of an accepted frame that must be valid.
abbrev verdict : LoRaHeader → Option Bool
verdict header = if header.has_crc then some true else none

length-payload_loop : (n index : ℕ) (nibbles : List ℕ) → length (payload_loop n index nibbles) ≡ n
unfolding payload_loop
length-payload_loop zero index nibbles = refl
length-payload_loop (suc n) index nibbles =
    ap suc (length-payload_loop n (index + 1) (drop 2 nibbles))

decode_payload_bytes-size :
    (nibbles : List ℕ) (n : ℕ) (payload : List ℕ)
    → decode_payload_bytes nibbles n ≡ ok payload
    → length payload ≡ n
unfolding decode_payload_bytes
decode_payload_bytes-size nibbles n payload h = elim (Bool-cases (ltb (length nibbles) (n * 2))) [
  | inl short ↦ ground arith
  | inr enough ↦
      let same : payload ≡ payload_loop n 0 nibbles = ground arith in
      ap length same ∙ length-payload_loop n 0 nibbles
]

judged-true : (valid : Bool) (v : Option Bool) → judged true valid ≡ ok v → v ≡ some true
unfolding judged
judged-true true v h = ground arith
judged-true false v h = absurd (cc)

check_crc-valid :
    (header : LoRaHeader) (nibbles payload : List ℕ) (crc_valid : Option Bool)
    → check_crc header true nibbles payload ≡ ok crc_valid
    → crc_valid ≡ verdict header
unfolding check_crc
check_crc-valid header nibbles payload crc_valid h = elim (Bool-cases header.has_crc) [
  | inl checked ↦
      let called : (lora_payload_crc payload >>= (λ expected.
        judged true (received_crc nibbles (2 * header.payload_length) == expected)))
          ≡ ok crc_valid =
        ground arith in
      let (expected, _, told) =
        ok-bind (lora_payload_crc payload)
          (λ expected. judged true (received_crc nibbles (2 * header.payload_length) == expected))
          crc_valid called in
      rw checked (judged-true _ crc_valid told)
  | inr unchecked ↦ ground arith
]

-- What an accepted frame is: its length, that of its payload and its check, with the payload read
-- from some nibbles, which hold its check after it.
abbrev Exact : List ℕ → LoRaHeader → List ℕ → LoRaDecodeResult → Type 0
Exact symbols header nibbles r =
    (r.consumed_symbols ≡ length symbols)
    × (length r.payload ≡ header.payload_length)
    × (r.crc_valid ≡ verdict header)
    × (decode_payload_bytes nibbles header.payload_length ≡ ok r.payload)
    × Checked header.has_crc (2 * header.payload_length) nibbles r.payload
    × (r.header ≡ header)

read_payload-Exact :
    (symbols : List ℕ) (config : LoRaPhyConfig) (header : LoRaHeader) (required : ℕ) (all : Decoded)
    (r : LoRaDecodeResult)
    → required ≡ length symbols
    → read_payload config true header required all ≡ ok r
    → Exact symbols header (take (required_nibbles header) all.nibbles) r
unfolding read_payload checked_payload result_of
read_payload-Exact symbols config header required all r whole h =
    let nibbles = take (required_nibbles header) all.nibbles in
    let (payload, got, after) =
      ok-bind (decode_payload_bytes nibbles header.payload_length)
        (checked_payload config true header required all) r h in
    let (crc_valid, judgement, same) =
      ok-bind (check_crc header true nibbles payload)
        (λ v. ok (result_of config header required all payload v)) r after in
    let size = decode_payload_bytes-size nibbles header.payload_length payload got in
    let valid = check_crc-valid header nibbles payload crc_valid judgement in
    let checked = check_crc-Checked header nibbles payload crc_valid judgement in
    let r-eq : result_of config header required all payload crc_valid ≡ r = cc in
    subst (Exact symbols header nibbles) r-eq (whole, size, valid, got, checked, refl)

-- The frame that the symbols are, read block by block: the first block, the header and the nibbles
-- after it, and the blocks that the header asks for.
pub record IsFrame (symbols : List ℕ) (config : LoRaPhyConfig) (r : LoRaDecodeResult) : Type 0 where
  codewords : List ℕ
  first : Decoded
  rest : Decoded
  opened : List ℕ
  first_block : deinterleave_block (take 8 symbols) (config.sf - 2) 4 ≡ ok codewords
  first_nibbles : decode_codewords codewords 4 ≡ ok first
  header_read : open_header config first.nibbles ≡ ok (r.header, opened)
  blocks :
      decode_blocks
        (block_count config r.header (length opened))
        (block_bits config)
        r.header.cr
        (drop 8 symbols)
      ≡ ok rest
  nibbles : List ℕ
  all_nibbles : nibbles ≡ take (required_nibbles r.header) (opened ++ rest.nibbles)
  whole : r.consumed_symbols ≡ length symbols
  size : length r.payload ≡ r.header.payload_length
  payload_read : decode_payload_bytes nibbles r.header.payload_length ≡ ok r.payload
  check_read : Checked r.header.has_crc (2 * r.header.payload_length) nibbles r.payload
  valid : r.crc_valid ≡ verdict r.header

-- The same for a header that is not yet known to be that of the result.
abbrev RestExact : List ℕ → LoRaPhyConfig → List ℕ → LoRaDecodeResult → LoRaHeader → Type 0
RestExact symbols config opened r header =
    (rest : Decoded) × (decode_blocks (block_count config header (length opened))
        (block_bits config) header.cr (drop 8 symbols)
      ≡ ok rest)
    × Exact symbols header (take (required_nibbles header) (opened ++ rest.nibbles)) r

decode_rest-Exact :
    (symbols : List ℕ) (config : LoRaPhyConfig) (first : Decoded) (header : LoRaHeader)
    (r : LoRaDecodeResult)
    → decode_rest symbols config true first header ≡ ok r
    → RestExact symbols config first.nibbles r header
unfolding decode_rest joined
decode_rest-Exact symbols config first header r h =
    let blocks = block_count config header (length first.nibbles) in
    let required = 8 + blocks * (header.cr + 4) in
    let long = ok-if (header.has_crc && ltb header.payload_length 2) _ r h in
    let enough = ok-if (ltb (length symbols) required) _ r long.1 in
    let exact = ok-if (ltb required (length symbols)) _ r enough.1 in
    let (rest, got, after) =
      ok-bind (decode_blocks blocks (block_bits config) header.cr (drop 8 symbols))
        (λ d. read_payload config true header required (joined first d)) r exact.1 in
    let whole : required ≡ length symbols = ground arith in
    (rest, got, read_payload-Exact symbols config header required (joined first rest) r whole after)

decode_first-IsFrame :
    (symbols : List ℕ) (config : LoRaPhyConfig) (codewords : List ℕ) (first : Decoded)
    (r : LoRaDecodeResult)
    → deinterleave_block (take 8 symbols) (config.sf - 2) 4 ≡ ok codewords
    → decode_codewords codewords 4 ≡ ok first
    → decode_first symbols config true first ≡ ok r
    → IsFrame symbols config r
unfolding decode_first decode_opened
decode_first-IsFrame symbols config codewords first r block decoded h =
    let ((header, opened), got, after) =
      ok-bind (open_header config first.nibbles) (decode_opened symbols config true first) r h in
    let found = decode_rest-Exact symbols config _ header r after in
    let same : header ≡ r.header = sym found.2.5 in
    let (rest, blocks, (whole, size, valid, payload, check, _)) =
      subst (RestExact symbols config opened r) same found in
    record {
      codewords = codewords;
      first = first;
      rest = rest;
      opened = opened;
      first_block = block;
      first_nibbles = decoded;
      header_read = got ∙ ap (λ h. ok (h, opened)) same;
      blocks = blocks;
      nibbles = take (required_nibbles r.header) (opened ++ rest.nibbles);
      all_nibbles = refl;
      whole = whole;
      size = size;
      payload_read = payload;
      check_read = check;
      valid = valid;
    }

-- A frame that is decoded with its check required has no symbol left over, and its payload has the
-- length that its header says. The header and the payload are those of the nibbles of its blocks,
-- cut behind the payload and its check. If the header says that there is a check, it is valid: the
-- four nibbles after the payload are the payload's check.
pub decode_lora_symbols-exact :
    (symbols : List ℕ) (config : LoRaPhyConfig) (r : LoRaDecodeResult)
    → decode_lora_symbols symbols config true ≡ ok r
    → IsFrame symbols config r
unfolding decode_lora_symbols
decode_lora_symbols-exact symbols config r h =
    let short = ok-if (ltb 4096 (length symbols)) _ r h in
    let enough = ok-if (ltb (length symbols) 8) _ r short.1 in
    let (codewords, block, after) =
      ok-bind (deinterleave_block (take 8 symbols) (config.sf - 2) 4) _ r enough.1 in
    let (first, decoded, last) =
      ok-bind (decode_codewords codewords 4) (decode_first symbols config true) r after in
    decode_first-IsFrame symbols config codewords first r block decoded last
