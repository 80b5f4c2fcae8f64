-- ===== src/ReedSolomon/Conventional.antt =====
-- The codec that `RSCodec()` of gfsk_ax25/reedsolomon.py makes: RS(255,223).
use gs_flowgraphs.Base.{ℕ, ◌+◌, ◌≤◌, true, List, [], ◌≡◌, refl, arith, All, length, ok, all_below}
use gs_flowgraphs.ReedSolomon.{
  RsCodec, doubled, mul, pow, eval_from, rs_codec, octets, encode, without_first, exp_table,
  log_table, exp_entries, log_entries, copied, set_at, generator_from, poly_mul, add_rows,
  poly_scale, xor_prefix,
}
use gs_flowgraphs.ReedSolomon.Tested.{
  every_step, every_entry, every_root, octets_only, tested-IsCodec,
}
use gs_flowgraphs.ReedSolomon.Decoder.{decoded, decode_with_count}
use gs_flowgraphs.ReedSolomon.Horner.{IsOctet}
use gs_flowgraphs.ReedSolomon.RoundTrip.{decode_with_count-encode}

abbrev pub conventional : RsCodec
conventional = rs_codec 32 0x11D 0 2

steps : every_step 0x11D ≡ true
unfolding every_step all_below doubled
steps = refl

entries : every_entry 0x11D conventional.exp conventional.log ≡ true
unfolding every_entry all_below rs_codec exp_table copied exp_entries log_table log_entries set_at
    doubled
entries = refl

roots : every_root conventional ≡ true
unfolding every_root octets_only all_below rs_codec exp_table copied exp_entries log_table
    log_entries set_at doubled generator_from poly_mul add_rows poly_scale xor_prefix mul pow
    eval_from without_first
roots = refl

-- RS(255,223): `encode` accepts up to 223 octets, appends 32 octets of parity, and
-- `decode_with_count` gives the octets back, with no symbol corrected.
pub conventional_round_trip :
    (data_ : List ℕ)
    → length data_ ≤ 223
    → (codeword : List ℕ) × (encode conventional data_ ≡ ok codeword)
      × (length codeword ≡ length data_ + 32)
      × All IsOctet codeword
      × (decode_with_count conventional codeword [] ≡ decoded (octets data_) 0)
unfolding rs_codec
conventional_round_trip data_ h =
    decode_with_count-encode conventional 0x11D
      (tested-IsCodec conventional 0x11D steps entries roots) data_ (omega arith)
