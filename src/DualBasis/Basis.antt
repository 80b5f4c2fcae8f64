-- ===== src/DualBasis/Basis.antt =====
-- The code and the two bases of native_framing/rs.py: the generator has its roots, and the tables of
-- the bases undo each other.
use gs_flowgraphs.Base.{
  lt_of, both_of, ℕ, suc, ◌+◌, ◌≤◌, Bool, true, false, List, [], ◌∷◌, ◌≡◌, refl, ap, ap₂, arith,
  All, ◌&&◌, ok, ltb, ◌==◌, ==_iff, length, length-map, get_or, all_below, all_below_sound,
}
use gs_flowgraphs.ReedSolomon
use gs_flowgraphs.ReedSolomon.{
  RsCodec, doubled, mul, pow, eval_from, rs_codec, octets, without_first, exp_table, log_table,
  exp_entries, log_entries, copied, set_at, generator_from, poly_mul, add_rows, poly_scale,
  xor_prefix,
}
use gs_flowgraphs.ReedSolomon.Horner.{IsOctet}
use gs_flowgraphs.ReedSolomon.Tested.{
  every_step, every_entry, every_root, octets_only, tested-IsCodec,
}
use gs_flowgraphs.ReedSolomon.RoundTrip.{decode_with_count-encode}
use gs_flowgraphs.ReedSolomon.Decoder.{decoded, decode_with_count}
use gs_flowgraphs.DualBasis.{
  taltab, tal1tab, inverse_entries, codec, to_conventional, from_conventional,
}

steps : every_step 0x187 ≡ true
unfolding every_step all_below doubled
steps = refl

entries : every_entry 0x187 codec.exp codec.log ≡ true
unfolding every_entry all_below rs_codec exp_table copied exp_entries log_table log_entries set_at
    doubled
entries = refl

roots : every_root codec ≡ true
unfolding every_root octets_only all_below rs_codec exp_table copied exp_entries log_table
    log_entries set_at doubled generator_from poly_mul add_rows poly_scale xor_prefix mul pow
    eval_from without_first
roots = refl

abbrev inverted : ℕ → Bool
inverted v =
    (get_or taltab (get_or tal1tab v 0) 0 == v)
    && ((get_or tal1tab (get_or taltab v 0) 0 == v)
        && (ltb (get_or taltab v 0) 256 && ltb (get_or tal1tab v 0) 256))

every_inverted : all_below 256 inverted ≡ true
unfolding all_below tal1tab inverse_entries set_at
every_inverted = refl

pub codec_round_trip :
    (data_ : List ℕ)
    → length data_ ≤ 223
    → (codeword : List ℕ) × (ReedSolomon.encode codec data_ ≡ ok codeword)
      × (length codeword ≡ length data_ + 32)
      × All IsOctet codeword
      × (decode_with_count codec codeword [] ≡ decoded (octets data_) 0)
unfolding rs_codec
codec_round_trip data_ h =
    decode_with_count-encode codec 0x187 (tested-IsCodec codec 0x187 steps entries roots) data_
      (omega arith)

inverted_at :
    (v : ℕ)
    → IsOctet v
    → (get_or taltab (get_or tal1tab v 0) 0 ≡ v)
      × (get_or tal1tab (get_or taltab v 0) 0 ≡ v)
      × IsOctet (get_or taltab v 0)
      × IsOctet (get_or tal1tab v 0)
inverted_at v h =
    let (a, rest) =
      both_of (get_or taltab (get_or tal1tab v 0) 0 == v) _
        (all_below_sound inverted {bound = 256} {value = v} h every_inverted) in
    let (b, rest') = both_of (get_or tal1tab (get_or taltab v 0) 0 == v) _ rest in
    let (c, d) = both_of (ltb (get_or taltab v 0) 256) _ rest' in
    (
      (==_iff (get_or taltab (get_or tal1tab v 0) 0) v).0 a,
      (==_iff (get_or tal1tab (get_or taltab v 0) 0) v).0 b,
      lt_of (get_or taltab v 0) 256 c,
      lt_of (get_or tal1tab v 0) 256 d,
    )

pub to_conventional-octets :
    (dual : Bool) (d : List ℕ)
    → All IsOctet d
    → All IsOctet (to_conventional dual d) × (length (to_conventional dual d) ≡ length d)
unfolding to_conventional
to_conventional-octets false d h = (h, refl)
to_conventional-octets true [] h = (tt, refl)
to_conventional-octets true (v ∷ d) h =
    let (rest, size) = to_conventional-octets true d h.1 in
    (((inverted_at v h.0).3, rest), ap suc size)

pub from_conventional-length :
    (dual : Bool) (d : List ℕ) → length (from_conventional dual d) ≡ length d
unfolding from_conventional
from_conventional-length false d = refl
from_conventional-length true d = length-map (λ v. get_or taltab v 0) d

pub from_conventional-to_conventional :
    (dual : Bool) (d : List ℕ) → All IsOctet d → from_conventional dual (to_conventional dual d) ≡ d
unfolding to_conventional from_conventional
from_conventional-to_conventional false d h = refl
from_conventional-to_conventional true [] h = refl
from_conventional-to_conventional true (v ∷ d) h =
    ap₂ ◌∷◌ (inverted_at v h.0).0 (from_conventional-to_conventional true d h.1)

pub to_conventional-from_conventional :
    (dual : Bool) (d : List ℕ) → All IsOctet d → to_conventional dual (from_conventional dual d) ≡ d
unfolding to_conventional from_conventional
to_conventional-from_conventional false d h = refl
to_conventional-from_conventional true [] h = refl
to_conventional-from_conventional true (v ∷ d) h =
    ap₂ ◌∷◌ (inverted_at v h.0).1 (to_conventional-from_conventional true d h.1)
