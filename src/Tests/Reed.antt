-- ===== src/Tests/Reed.antt =====
-- Concrete words for gfsk_ax25/reedsolomon.py and native_framing/rs.py.
use gs_flowgraphs.Base.{
  ℕ, ◌+◌, List, [], ◌∷◌, ◌≡◌, refl, arith, ◌/◌, ◌*◌, some, true, All, ok, length,
}
use gs_flowgraphs.ReedSolomon.{
  set_at, doubled, exp_entries, log_entries, copied, exp_table, log_table, mul, pow, inv,
  xor_prefix, poly_add, poly_scale, add_rows, poly_mul, eval_from, poly_eval, generator_from,
  remainder, rs_codec, octets, encode, without_first,
}
use gs_flowgraphs.ReedSolomon.Conventional.{conventional, conventional_round_trip}
use gs_flowgraphs.ReedSolomon.Horner.{IsOctet}
use gs_flowgraphs.DualBasis
use gs_flowgraphs.DualBasis.{
  CcsdsReedSolomon, decode, taltab, tal1tab, inverse_table, inverse_entries,
}
use gs_flowgraphs.DualBasis.RoundTrip.{decode-encode}
use gs_flowgraphs.ReedSolomon.Sound.{IsSound, decode_with_count-IsSound}
use gs_flowgraphs.ReedSolomon.Decoder.{
  decode_with_count, sorted_set, inserted, any_outside, erased, decode_erased, syndromes,
  syndromes_from, all_zero, folded, forney_syndromes, coord_of, error_locator, locator_from,
  located, discrepancy, reversed, reverse_onto, find_errors, positions_from, errors_found, correct,
  errata_from, evaluator, values_from, denominator, add_errors, confirmed, distinct, mem, decoded,
  without_parity,
}

abbrev word : List ℕ
word = 65 ∷ 0 ∷ 255 ∷ []

encode-value : encode (rs_codec 4 0x11D 0 2) word ≡ ok (65 ∷ 0 ∷ 255 ∷ 174 ∷ 63 ∷ 4 ∷ 43 ∷ [])
unfolding encode rs_codec without_first remainder octets generator_from poly_mul add_rows poly_scale
    xor_prefix pow mul log_table log_entries set_at exp_table copied exp_entries doubled
encode-value = refl

two_errors_corrected :
    decode_with_count (rs_codec 4 0x11D 0 2) (66 ∷ 0 ∷ 255 ∷ 174 ∷ 63 ∷ 5 ∷ 43 ∷ []) []
    ≡ decoded word 2
unfolding encode rs_codec without_first remainder octets generator_from poly_mul add_rows poly_scale
    xor_prefix pow mul log_table log_entries set_at exp_table copied exp_entries doubled
    decode_with_count sorted_set any_outside erased decode_erased syndromes syndromes_from all_zero
    forney_syndromes coord_of error_locator locator_from located discrepancy reversed reverse_onto
    find_errors positions_from errors_found correct errata_from evaluator values_from denominator
    add_errors confirmed without_parity distinct mem poly_eval eval_from inv poly_add
two_errors_corrected = refl

erasures_corrected :
    decode_with_count
      (rs_codec 4 0x11D 0 2)
      (66 ∷ 0 ∷ 255 ∷ 174 ∷ 69 ∷ 5 ∷ 43 ∷ [])
      (4 ∷ 0 ∷ 4 ∷ [])
    ≡ decoded word 3
unfolding encode rs_codec without_first remainder octets generator_from poly_mul add_rows poly_scale
    xor_prefix pow mul log_table log_entries set_at exp_table copied exp_entries doubled
    decode_with_count sorted_set inserted any_outside erased decode_erased syndromes syndromes_from
    all_zero folded forney_syndromes coord_of error_locator locator_from located discrepancy
    reversed reverse_onto find_errors positions_from errors_found correct errata_from evaluator
    values_from denominator add_errors confirmed without_parity distinct mem poly_eval eval_from inv
    poly_add
erasures_corrected = refl

conventional_round_trip_example :
    (codeword : List ℕ) × (encode conventional word ≡ ok codeword)
    × (length codeword ≡ length word + 32)
    × All IsOctet codeword
    × (decode_with_count conventional codeword [] ≡ decoded (octets word) 0)
conventional_round_trip_example = conventional_round_trip word (omega arith)

abbrev received : List ℕ
received = 66 ∷ 0 ∷ 255 ∷ 174 ∷ 63 ∷ 5 ∷ 43 ∷ []

decode_with_count-IsSound_example :
    IsSound
      (rs_codec 4 0x11D 0 2)
      (octets received)
      (2 ∷ [])
      (decode_with_count (rs_codec 4 0x11D 0 2) received (2 ∷ []))
decode_with_count-IsSound_example =
    decode_with_count-IsSound (rs_codec 4 0x11D 0 2) received (2 ∷ [])

-- Fewer symbols than parity: the slice counts from its end.
short_word : decode_with_count (rs_codec 4 0x11D 0 2) (0 ∷ 0 ∷ 0 ∷ []) [] ≡ decoded (0 ∷ 0 ∷ []) 0
unfolding rs_codec octets generator_from poly_mul add_rows poly_scale xor_prefix pow mul log_table
    log_entries set_at exp_table copied exp_entries doubled decode_with_count sorted_set any_outside
    erased decode_erased syndromes syndromes_from all_zero without_parity poly_eval eval_from
short_word = refl

-- The check that the source makes when it is imported.
tal1tab-value : inverse_table taltab ≡ ok tal1tab
unfolding inverse_table inverse_entries tal1tab set_at distinct mem
tal1tab-value = refl

abbrev two_paths : CcsdsReedSolomon
two_paths = record { dual = true; interleaving = 2 }

abbrev wire_payload : List ℕ
wire_payload = 1 ∷ 2 ∷ 3 ∷ 255 ∷ []

decode-encode_example :
    (codeword : List ℕ) × (DualBasis.encode two_paths wire_payload ≡ ok codeword)
    × (length codeword ≡ (length wire_payload / 2 + 32) * 2)
    × (decode two_paths codeword []
        ≡ ok (some (record { payload = wire_payload; corrected_symbols = 0 })))
decode-encode_example =
    decode-encode two_paths wire_payload
      (omega arith, (omega arith, (omega arith, (omega arith, tt)))) (omega arith) (omega arith)
      refl (omega arith)
