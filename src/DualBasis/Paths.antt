-- ===== src/DualBasis/Paths.antt =====
-- The paths of native_framing/rs.py, each a codeword of the codec, as they are encoded and decoded.
use gs_flowgraphs.Base.{
  ℕ, zero, suc, ◌+◌, ◌-◌, ◌<◌, ◌≤◌, Bool, true, some, List, [], ◌∷◌, ◌≡◌, refl, ap, ◌∙◌, arith, All,
  ok, ==_self, length,
}
use gs_flowgraphs.ReedSolomon
use gs_flowgraphs.ReedSolomon.{octets}
use gs_flowgraphs.ReedSolomon.Horner.{IsOctet}
use gs_flowgraphs.ReedSolomon.RoundTrip.{octets-same}
use gs_flowgraphs.ReedSolomon.Decoder.{decoded, decode_with_count}
use gs_flowgraphs.DualBasis.{
  codec, CcsdsReedSolomon, every_nth, to_conventional, from_conventional, columns, same_lengths,
  interleave, encode_paths, path_erasures, add_path, decode_paths,
}
use gs_flowgraphs.DualBasis.Basis.{
  codec_round_trip, to_conventional-octets, from_conventional-length,
  from_conventional-to_conventional, to_conventional-from_conventional,
}
use gs_flowgraphs.DualBasis.Columns.{slices, HasLength}

-- A path of the data, and its codeword on the wire.
abbrev pub IsCoded : Bool → List ℕ → List ℕ → Type 0
IsCoded dual w d =
    (length w ≡ length d + 32)
    × (decode_with_count codec (to_conventional dual w) [] ≡ decoded (to_conventional dual d) 0)

abbrev pub Coded : Bool → List (List ℕ) → List (List ℕ) → Type 0
Coded dual [] [] = Unit
Coded dual [] (d ∷ ds) = ⊥
Coded dual (w ∷ ws) [] = ⊥
Coded dual (w ∷ ws) (d ∷ ds) = IsCoded dual w d × Coded dual ws ds

every_nth-octets : (n p : ℕ) (xs : List ℕ) → All IsOctet xs → All IsOctet (every_nth n p xs)
unfolding every_nth
every_nth-octets n p [] h = tt
every_nth-octets n zero (x ∷ xs) h = (h.0, every_nth-octets n (n - 1) xs h.1)
every_nth-octets n (suc p) (x ∷ xs) h = every_nth-octets n p xs h.1

pub slices-octets :
    (n left p : ℕ) (xs : List ℕ) → All IsOctet xs → All (All IsOctet) (slices n left p xs)
unfolding slices
slices-octets n zero p xs h = tt
slices-octets n (suc left) p xs h = (every_nth-octets n p xs h, slices-octets n left (p + 1) xs h)

-- The codec on one path.
path-IsCoded :
    (dual : Bool) (d : List ℕ)
    → All IsOctet d
    → length d ≤ 223
    → (cw : List ℕ) × (ReedSolomon.encode codec (to_conventional dual d) ≡ ok cw)
      × IsCoded dual (from_conventional dual cw) d
path-IsCoded dual d octets_d h =
    let (octets_c, size) = to_conventional-octets dual d octets_d in
    let (cw, encoded, n, octets_cw, value) =
      codec_round_trip (to_conventional dual d) (omega (arith, size)) in
    (
      cw,
      encoded,
      (
        from_conventional-length dual cw ∙ omega (arith, n, size),
        ap (λ w. decode_with_count codec w []) (to_conventional-from_conventional dual cw octets_cw)
            ∙ value
            ∙ ap (λ w. decoded w 0) (octets-same (to_conventional dual d) octets_c),
      ),
    )

module _ (s : CcsdsReedSolomon) where
  pub encode_paths-Coded :
      (payload : List ℕ) (left path : ℕ)
      → All IsOctet payload
      → All (λ d. length d ≤ 223) (slices s.interleaving left path payload)
      → (ws : List (List ℕ)) × (encode_paths s payload left path ≡ ok ws)
        × Coded s.dual ws (slices s.interleaving left path payload)
  unfolding encode_paths slices
  encode_paths-Coded payload zero path h k = ([], refl, tt)
  encode_paths-Coded payload (suc left) path h k =
      let d = every_nth s.interleaving path payload in
      let (cw, encoded, coded) =
        path-IsCoded s.dual d (every_nth-octets s.interleaving path payload h) k.0 in
      let (ws, rest, all_coded) = encode_paths-Coded payload left (path + 1) h k.1 in
      (from_conventional s.dual cw ∷ ws, rw (encoded, rest) refl, (coded, all_coded))

  pub decode_paths-Coded :
      (codeword : List ℕ) (left path : ℕ) (ds : List (List ℕ))
      → Coded s.dual (slices s.interleaving left path codeword) ds
      → All (All IsOctet) ds
      → decode_paths s codeword [] left path ≡ ok (some (ds, 0))
  unfolding decode_paths slices path_erasures add_path
  decode_paths-Coded codeword zero path [] h k = refl
  decode_paths-Coded codeword zero path (d ∷ ds) h k = absurd h
  decode_paths-Coded codeword (suc left) path [] h k = absurd h
  decode_paths-Coded codeword (suc left) path (d ∷ ds) h k =
      rw
        (
          h.0.1,
          decode_paths-Coded codeword left (path + 1) ds h.1 k.1,
          from_conventional-to_conventional s.dual d k.0,
        )
        refl

pub Coded-HasLength :
    (dual : Bool) (m : ℕ) (ws ds : List (List ℕ))
    → Coded dual ws ds
    → All (HasLength m) ds
    → All (HasLength (m + 32)) ws × (length ws ≡ length ds)
Coded-HasLength dual m [] [] h k = (tt, refl)
Coded-HasLength dual m [] (d ∷ ds) h k = absurd h
Coded-HasLength dual m (w ∷ ws) [] h k = absurd h
Coded-HasLength dual m (w ∷ ws) (d ∷ ds) h k =
    let (rest, same) = Coded-HasLength dual m ws ds h.1 k.1 in
    ((omega (arith, h.0.0, k.0), rest), ap suc same)

same_lengths-true : (m : ℕ) (ws : List (List ℕ)) → All (HasLength m) ws → same_lengths m ws ≡ true
unfolding same_lengths
same_lengths-true m [] h = refl
same_lengths-true m (w ∷ ws) h = rw (h.0, ==_self m, same_lengths-true m ws h.1) refl

pub interleave-columns :
    (m : ℕ) (ws : List (List ℕ))
    → All (HasLength m) ws
    → 0 < length ws
    → interleave ws ≡ ok (columns m ws)
unfolding interleave
interleave-columns m [] h k = absurd (omega arith)
interleave-columns m (w ∷ ws) h k = rw (h.0, same_lengths-true m ws h.1) refl

pub short_paths :
    (m : ℕ) (ds : List (List ℕ)) → m ≤ 223 → All (HasLength m) ds → All (λ d. length d ≤ 223) ds
short_paths m [] h k = tt
short_paths m (d ∷ ds) h k = (omega (arith, k.0), short_paths m ds h k.1)
