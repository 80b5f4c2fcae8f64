-- ===== src/DualBasis/RoundTrip.antt =====
-- The codec of native_framing/rs.py: encoding and decoding with every number of paths.
use gs_flowgraphs.Base.{
  ℕ, zero, suc, ◌+◌, ◌*◌, ◌/◌, ◌%◌, ◌<◌, ◌≤◌, true, false, some, List, [], ◌≡◌, refl, subst, sym,
  ap, ◌∙◌, arith, All, ok, ltb, leb, ◌==◌, ==_iff, length,
}
use native.Mathlib.Nat.{mul-pos, mul-div_left, mul-mod_left, div-add-mod}
use gs_flowgraphs.ReedSolomon.Horner.{IsOctet}
use gs_flowgraphs.ReedSolomon.Decoder.{sorted_set, any_outside}
use gs_flowgraphs.DualBasis.{
  CcsdsReedSolomon, columns, interleave, encode_paths, encode, decode_paths, joined, decode,
}
use gs_flowgraphs.DualBasis.Columns.{
  slices, slices-length, slices-HasLength, columns-slices, slices-columns, columns-length,
}
use gs_flowgraphs.DualBasis.Paths.{
  Coded, slices-octets, Coded-HasLength, interleave-columns, short_paths, encode_paths-Coded,
  decode_paths-Coded,
}

not_zero : (k : ℕ) → 0 < k → (k == 0) ≡ false
not_zero k h = ground arith

module _ (s : CcsdsReedSolomon) (m : ℕ) (some_paths : 0 < s.interleaving) (some_data : 0 < m)
    (short : m ≤ 223) where
  encode-paths :
      (payload : List ℕ) (ws : List (List ℕ))
      → length payload ≡ m * s.interleaving
      → encode_paths s payload s.interleaving 0 ≡ ok ws
      → encode s payload ≡ interleave ws
  unfolding encode
  encode-paths payload ws size e =
      let path_size : length payload / s.interleaving ≡ m =
        ap (λ k. k / s.interleaving) size ∙ mul-div_left m some_paths in
      let even : (length payload % s.interleaving == 0) ≡ true =
        (==_iff (length payload % s.interleaving) 0).1
          (ap (λ k. k % s.interleaving) size ∙ mul-mod_left m s.interleaving) in
      let given : (length payload == 0) ≡ false =
        not_zero (length payload) (subst (λ k. 0 < k) (sym size) (mul-pos some_data some_paths)) in
      let fits : ltb 223 m ≡ false = ground arith in rw (even, given, path_size, fits, e) refl

  decode-paths :
      (codeword : List ℕ) (ds : List (List ℕ))
      → length codeword ≡ (m + 32) * s.interleaving
      → decode_paths s codeword [] s.interleaving 0 ≡ ok (some (ds, 0))
      → decode s codeword [] ≡ joined (some (ds, 0))
  unfolding decode any_outside sorted_set
  decode-paths codeword ds size e =
      let path_size : length codeword / s.interleaving ≡ m + 32 =
        ap (λ k. k / s.interleaving) size ∙ mul-div_left (m + 32) some_paths in
      let even : (length codeword % s.interleaving == 0) ≡ true =
        (==_iff (length codeword % s.interleaving) 0).1
          (ap (λ k. k % s.interleaving) size ∙ mul-mod_left (m + 32) s.interleaving) in
      let given : (length codeword == 0) ≡ false =
        not_zero (length codeword)
          (subst (λ k. 0 < k) (sym size) (mul-pos {m = m + 32} (omega arith) some_paths)) in
      let long : leb (m + 32) 32 ≡ false = ground arith in
      let fits : ltb 255 (m + 32) ≡ false = ground arith in
      rw (even, given, path_size, long, fits, e) refl

  paths_round_trip :
      (payload : List ℕ)
      → All IsOctet payload
      → length payload ≡ m * s.interleaving
      → (codeword : List ℕ) × (encode s payload ≡ ok codeword)
        × (length codeword ≡ (m + 32) * s.interleaving)
        × (decode s codeword [] ≡ ok (some (record { payload = payload; corrected_symbols = 0 })))
  unfolding joined
  paths_round_trip payload h size =
      let n = s.interleaving in
      let ds = slices n n 0 payload in
      let even_ds = slices-HasLength n m payload size in
      let (ws, encoded, coded) =
        encode_paths-Coded s payload n 0 h (short_paths m ds short even_ds) in
      let (even_ws, same) = Coded-HasLength s.dual m ws ds coded even_ds in
      let count_ds : length ds ≡ n = slices-length n n 0 payload in
      let count : length ws ≡ n = same ∙ count_ds in
      let sent = interleave-columns (m + 32) ws even_ws (omega (arith, count)) in
      let back = slices-columns n (m + 32) ws count even_ws in
      let total = columns-length (m + 32) ws even_ws ∙ ap (◌*◌ (m + 32)) count in
      let decoded_paths =
        decode_paths-Coded s (columns (m + 32) ws) n 0 ds
          (subst (λ v. Coded s.dual v ds) (sym back) coded) (slices-octets n n 0 payload h) in
      (
        columns (m + 32) ws,
        encode-paths payload ws size encoded ∙ sent,
        total,
        decode-paths (columns (m + 32) ws) ds total decoded_paths
            ∙ rw
                (
                  interleave-columns m ds even_ds (omega (arith, count_ds)),
                  columns-slices n m payload size,
                )
                refl,
      )

quotient_of : (k n : ℕ) → k % n ≡ 0 → k ≡ k / n * n
quotient_of k n h = ground (arith, div-add-mod k n)

factor_positive : (k m n : ℕ) → k ≡ m * n → 0 < k → 0 < m
factor_positive k zero n h p = absurd (ground arith)
factor_positive k (suc m) n h p = omega arith

-- Octets that fill every path with the same number of symbols, 223 at most and one at least, are
-- encoded, in either basis and with any number of paths, into that number of symbols and 32 more for
-- each path, and decoding gives them back with no symbol corrected.
pub decode-encode :
    (s : CcsdsReedSolomon) (payload : List ℕ)
    → All IsOctet payload
    → 0 < s.interleaving
    → 0 < length payload
    → length payload % s.interleaving ≡ 0
    → length payload / s.interleaving ≤ 223
    → (codeword : List ℕ) × (encode s payload ≡ ok codeword)
      × (length codeword ≡ (length payload / s.interleaving + 32) * s.interleaving)
      × (decode s codeword [] ≡ ok (some (record { payload = payload; corrected_symbols = 0 })))
decode-encode s payload h some_paths given even short =
    let m = length payload / s.interleaving in
    let size : length payload ≡ m * s.interleaving =
      quotient_of (length payload) s.interleaving even in
    let some_data : 0 < m = factor_positive (length payload) m s.interleaving size given in
    paths_round_trip s m some_paths some_data short payload h size
