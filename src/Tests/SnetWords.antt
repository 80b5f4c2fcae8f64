-- ===== src/Tests/SnetWords.antt =====
-- A concrete word for native_framing/codes/snet.py.
use gs_flowgraphs.Base.{ℕ, ◌-◌, ◌/◌, true, false, List, [], ◌∷◌, ◌≡◌, refl, All}
use gs_flowgraphs.Snet.{word_of, syndrome_from, syndromes_from, syndromes, any, binary, supported}
use gs_flowgraphs.Snet.Correction.{Corrects, error_sets, decode_bch15-Corrects}
use gs_flowgraphs.Snet.Checks.{snet_crc13, crc13_loop, ravel, flipud}

-- The word of the generator for distance 7.
abbrev generator : List ℕ
generator = 1 ∷ 1 ∷ 1 ∷ 0 ∷ 1 ∷ 1 ∷ 0 ∷ 0 ∷ 1 ∷ 0 ∷ 1 ∷ 0 ∷ 0 ∷ 0 ∷ 0 ∷ []

hard : binary generator ≡ true
unfolding binary
hard = refl

quiet : any (syndromes generator 7) ≡ false
unfolding any syndromes syndromes_from syndrome_from word_of
quiet = refl

seven : supported 7 ≡ true
unfolding supported
seven = refl

decode_bch15-Corrects_example :
    All (Corrects 7 generator refl hard quiet) (error_sets ((7 - 1) / 2) 1)
decode_bch15-Corrects_example = decode_bch15-Corrects 7 generator refl hard quiet seven

empty_payload : snet_crc13 [] true ≡ 0x1FFF
unfolding snet_crc13 crc13_loop ravel flipud
empty_payload = refl
