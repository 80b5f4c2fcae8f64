-- ===== src/LineCode/Differential.antt =====
-- Differential coding of linecode.py, in both directions.
use gs_flowgraphs.Base.{ℕ, ◌≡◌, refl, ap, ap₂, ◌∙◌, Bool, true, false, List, [], ◌∷◌}
use gs_flowgraphs.Base.{odd, ◌⊕◌}
use gs_flowgraphs.LineCode.{encode_loop, decode_loop, differential_encode, differential_decode}

again : (previous b : Bool) → (previous ⊕ b) ⊕ previous ≡ b
again false false = refl
again false true = refl
again true false = refl
again true true = refl

onto : (previous current : Bool) → previous ⊕ (current ⊕ previous) ≡ current
onto false false = refl
onto false true = refl
onto true false = refl
onto true true = refl

loops :
    (previous : Bool) (bits : List Bool) → decode_loop previous (encode_loop previous bits) ≡ bits
unfolding encode_loop decode_loop
loops previous [] = refl
loops previous (b ∷ bits) = ap₂ ◌∷◌ (again previous b) (loops (previous ⊕ b) bits)

-- Decoding from the level the encoder started at gives the bits back.
pub differential_decode-differential_encode :
    (bits : List Bool) (initial : ℕ)
    → differential_decode (differential_encode bits initial) initial ≡ bits
unfolding differential_decode differential_encode
differential_decode-differential_encode bits initial = loops (odd initial) bits

back_loops :
    (previous : Bool) (bits : List Bool) → encode_loop previous (decode_loop previous bits) ≡ bits
unfolding encode_loop decode_loop
back_loops previous [] = refl
back_loops previous (current ∷ bits) = ap₂ ◌∷◌ (onto previous current) (
    ap (λ p. encode_loop p (decode_loop current bits)) (onto previous current)
    ∙ back_loops current bits)

-- Encoding what was decoded gives the received bits back: no two streams are decoded alike.
pub differential_encode-differential_decode :
    (bits : List Bool) (initial : ℕ)
    → differential_encode (differential_decode bits initial) initial ≡ bits
unfolding differential_decode differential_encode
differential_encode-differential_decode bits initial = back_loops (odd initial) bits
