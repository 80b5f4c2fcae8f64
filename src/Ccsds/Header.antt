-- ===== src/Ccsds/Header.antt =====
-- gfsk_ax25/ccsds.py, the primary headers: TM packed and parsed, AOS parsed.
use gs_flowgraphs.Base.{
  ℕ, ◌+◌, ◌*◌, ◌/◌, ◌%◌, ◌^◌, ◌<◌, ◌≡◌, ap, sym, ◌∙◌, List, [], ◌∷◌, ◌++◌, bit_and, bit_or, arith,
}
use gs_flowgraphs.Base.{Result, ok, value_error, ◌<<<◌, ◌>>>◌, and_mask, or_fields}

pub record TmHeader : Type 0 where
  pub version : ℕ
  pub spacecraft_id : ℕ
  pub virtual_channel_id : ℕ
  pub ocf_flag : ℕ
  pub master_channel_frame_count : ℕ
  pub virtual_channel_frame_count : ℕ
  pub secondary_header_flag : ℕ
  pub sync_flag : ℕ
  pub first_header_pointer : ℕ

unfoldable pub word_0 : TmHeader → ℕ
word_0 h =
    bit_or
      (bit_or (bit_or (bit_and h.version 0x3 <<< 14) (bit_and h.spacecraft_id 0x3FF <<< 4))
        (bit_and h.virtual_channel_id 0x7 <<< 1))
      (bit_and h.ocf_flag 0x1)

unfoldable pub word_2 : TmHeader → ℕ
word_2 h =
    bit_or
      (bit_or
        (bit_or
          (bit_or (bit_and h.secondary_header_flag 0x1 <<< 15) (bit_and h.sync_flag 0x1 <<< 14))
          (bit_and 0 0x1 <<< 13))
        (bit_and 0 0x3 <<< 11))
      (bit_and h.first_header_pointer 0x7FF)

unfoldable pub pack_tm_header : TmHeader → List ℕ
pack_tm_header h =
    bit_and (word_0 h >>> 8) 0xFF
    ∷ bit_and (word_0 h) 0xFF
    ∷ bit_and h.master_channel_frame_count 0xFF
    ∷ bit_and h.virtual_channel_frame_count 0xFF
    ∷ bit_and (word_2 h >>> 8) 0xFF
    ∷ bit_and (word_2 h) 0xFF
    ∷ []

unfoldable pub parse_tm_primary_header : List ℕ → Result TmHeader
parse_tm_primary_header (f0 ∷ f1 ∷ f2 ∷ f3 ∷ f4 ∷ f5 ∷ rest) =
    let w0 = bit_or (f0 <<< 8) f1 in
    let w2 = bit_or (f4 <<< 8) f5 in
    ok (record {
      version = bit_and (w0 >>> 14) 0x3;
      spacecraft_id = bit_and (w0 >>> 4) 0x3FF;
      virtual_channel_id = bit_and (w0 >>> 1) 0x7;
      ocf_flag = bit_and w0 0x1;
      master_channel_frame_count = f2;
      virtual_channel_frame_count = f3;
      secondary_header_flag = bit_and (w2 >>> 15) 0x1;
      sync_flag = bit_and (w2 >>> 14) 0x1;
      first_header_pointer = bit_and w2 0x7FF;
    })
parse_tm_primary_header _ = value_error

pub record AosHeader : Type 0 where
  pub version : ℕ
  pub spacecraft_id : ℕ
  pub virtual_channel_id : ℕ
  pub virtual_channel_frame_count : ℕ
  pub replay_flag : ℕ

unfoldable pub parse_aos_primary_header : List ℕ → Result AosHeader
parse_aos_primary_header (f0 ∷ f1 ∷ f2 ∷ f3 ∷ f4 ∷ f5 ∷ rest) =
    let w0 = bit_or (f0 <<< 8) f1 in
    ok (record {
      version = bit_and (w0 >>> 14) 0x3;
      spacecraft_id = bit_and (w0 >>> 6) 0xFF;
      virtual_channel_id = bit_and w0 0x3F;
      virtual_channel_frame_count = bit_or (bit_or (f2 <<< 16) (f3 <<< 8)) f4;
      replay_flag = bit_and (f5 >>> 7) 0x1;
    })
parse_aos_primary_header _ = value_error

-- The fields as wide as they are sent.
abbrev pub masked : TmHeader → TmHeader
masked h = record {
  version = h.version % 4;
  spacecraft_id = h.spacecraft_id % 1024;
  virtual_channel_id = h.virtual_channel_id % 8;
  ocf_flag = h.ocf_flag % 2;
  master_channel_frame_count = h.master_channel_frame_count % 256;
  virtual_channel_frame_count = h.virtual_channel_frame_count % 256;
  secondary_header_flag = h.secondary_header_flag % 2;
  sync_flag = h.sync_flag % 2;
  first_header_pointer = h.first_header_pointer % 2048;
}

-- Bits above a field of `k` bits.
fields : (k x q r : ℕ) → x ≡ q * 2 ^ k → r < 2 ^ k → bit_or x r ≡ x + r
fields k x q r e fits = ap (λ y. bit_or y r) e ∙ or_fields k q r fits ∙ ap (λ y. y + r) (sym e)

word_0-eq :
    (h : TmHeader)
    → word_0 h
      ≡ h.version % 4 * 16384
        + h.spacecraft_id % 1024 * 16
        + h.virtual_channel_id % 8 * 2
        + h.ocf_flag % 2
unfolding word_0
word_0-eq h =
    let v = h.version % 4 in
    let s = h.spacecraft_id % 1024 in
    let c = h.virtual_channel_id % 8 in
    let f = h.ocf_flag % 2 in
    rw
      (
        and_mask 2 h.version,
        and_mask 10 h.spacecraft_id,
        and_mask 3 h.virtual_channel_id,
        and_mask 1 h.ocf_flag,
      )
      (ap (λ x. bit_or (bit_or x (c * 2)) f)
          (fields 14 (v * 16384) v (s * 16) (omega arith) (omega arith))
        ∙ ap (λ x. bit_or x f)
            (fields 4 (v * 16384 + s * 16) (v * 1024 + s) (c * 2) (omega arith) (omega arith))
        ∙ fields 1 (v * 16384 + s * 16 + c * 2) (v * 8192 + s * 8 + c) f (omega arith)
            (omega arith))

word_2-eq :
    (h : TmHeader)
    → word_2 h
      ≡ h.secondary_header_flag % 2 * 32768
        + h.sync_flag % 2 * 16384
        + h.first_header_pointer % 2048
unfolding word_2
word_2-eq h =
    let s = h.secondary_header_flag % 2 in
    let y = h.sync_flag % 2 in
    let p = h.first_header_pointer % 2048 in
    rw
      (
        and_mask 1 h.secondary_header_flag,
        and_mask 1 h.sync_flag,
        and_mask 11 h.first_header_pointer,
      )
      (ap (λ x. bit_or (bit_or (bit_or x 0) 0) p)
          (fields 15 (s * 32768) s (y * 16384) (omega arith) (omega arith))
        ∙ ap (λ x. bit_or (bit_or x 0) p)
            (fields 1 (s * 32768 + y * 16384) (s * 16384 + y * 8192) 0 (omega arith) (omega arith))
        ∙ ap (λ x. bit_or x p)
            (fields 1 (s * 32768 + y * 16384 + 0) (s * 16384 + y * 8192) 0 (omega arith)
              (omega arith))
        ∙ fields 11 (s * 32768 + y * 16384 + 0 + 0) (s * 16 + y * 8) p (omega arith) (omega arith)
        ∙ omega arith)

-- Two octets give back a word of 16 bits.
joined : (w : ℕ) → w < 65536 → bit_or (bit_and (w >>> 8) 0xFF <<< 8) (bit_and w 0xFF) ≡ w
joined w h =
    rw (and_mask 8 (w / 256), and_mask 8 w)
      (or_fields 8 (w / 256 % 256) (w % 256) (omega arith) ∙ omega arith)

-- Parsing a packed TM header, whatever follows it, gives its fields, each cut to the width it is
-- sent with.
pub parse_tm_primary_header-pack_tm_header :
    (h : TmHeader) (rest : List ℕ)
    → parse_tm_primary_header (pack_tm_header h ++ rest) ≡ ok (masked h)
unfolding parse_tm_primary_header pack_tm_header
parse_tm_primary_header-pack_tm_header h rest =
    let w0 = bit_or (bit_and (word_0 h >>> 8) 0xFF <<< 8) (bit_and (word_0 h) 0xFF) in
    let w2 = bit_or (bit_and (word_2 h >>> 8) 0xFF <<< 8) (bit_and (word_2 h) 0xFF) in
    let e0 = joined (word_0 h) (omega (arith, word_0-eq h)) ∙ word_0-eq h in
    let e2 = joined (word_2 h) (omega (arith, word_2-eq h)) ∙ word_2-eq h in
    let version : bit_and (w0 >>> 14) 0x3 ≡ h.version % 4 =
      and_mask 2 (w0 >>> 14) ∙ omega (arith, e0) in
    let spacecraft : bit_and (w0 >>> 4) 0x3FF ≡ h.spacecraft_id % 1024 =
      and_mask 10 (w0 >>> 4) ∙ omega (arith, e0) in
    let channel : bit_and (w0 >>> 1) 0x7 ≡ h.virtual_channel_id % 8 =
      and_mask 3 (w0 >>> 1) ∙ omega (arith, e0) in
    let ocf : bit_and w0 0x1 ≡ h.ocf_flag % 2 = and_mask 1 w0 ∙ omega (arith, e0) in
    let secondary : bit_and (w2 >>> 15) 0x1 ≡ h.secondary_header_flag % 2 =
      and_mask 1 (w2 >>> 15) ∙ omega (arith, e2) in
    let sync : bit_and (w2 >>> 14) 0x1 ≡ h.sync_flag % 2 =
      and_mask 1 (w2 >>> 14) ∙ omega (arith, e2) in
    let pointer : bit_and w2 0x7FF ≡ h.first_header_pointer % 2048 =
      and_mask 11 w2 ∙ omega (arith, e2) in
    λ i. ok (record {
      version = version i;
      spacecraft_id = spacecraft i;
      virtual_channel_id = channel i;
      ocf_flag = ocf i;
      master_channel_frame_count = and_mask 8 h.master_channel_frame_count i;
      virtual_channel_frame_count = and_mask 8 h.virtual_channel_frame_count i;
      secondary_header_flag = secondary i;
      sync_flag = sync i;
      first_header_pointer = pointer i;
    })
