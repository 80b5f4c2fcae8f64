-- ===== src/LineCode/Additive.antt =====
-- The randomizers of linecode.py that add a sequence are their own inverses, and so is the
-- reflection of octets, which is the reflection of the check catalogue.
use gs_flowgraphs.Base.{ℕ, ◌≡◌, refl, ap, ap₂, ◌∙◌, Bool, true, List, [], ◌∷◌, ◌||◌, map, inl, inr}
use gs_flowgraphs.Base.{
  ltb, ok, ◌==◌, ==_iff, odd, ⊕_cancel, all_below, all_below_sound, value_error, Bool-cases,
}
use gs_flowgraphs.Base.Xor.{xor_cancel}
use gs_flowgraphs.Octets.{IsBytes, byte_of}
use gs_flowgraphs.Crc.Catalog.{reflect, reflect_loop}
use gs_flowgraphs.LineCode.{
  reflection, reflect_bytes, pn9_octet, pn9_loop, pn9_bytes, shift_down, tapped, register_ok,
  additive_loop, additive_randomize_bits,
}

abbrev reflection_right : ℕ → Bool
reflection_right b = reflection b == reflect b 8

reflections_right : all_below 256 reflection_right ≡ true
unfolding all_below reflection reflect reflect_loop byte_of odd
reflections_right = refl

-- Reflecting octets is what `_reflect` of native_framing/crc.py does to each with width 8.
pub reflect_bytes-eq-reflect :
    (bytes : List ℕ) → IsBytes bytes → reflect_bytes bytes ≡ map (λ b. reflect b 8) bytes
unfolding reflect_bytes
reflect_bytes-eq-reflect [] h = refl
reflect_bytes-eq-reflect (b ∷ bytes) h =
    ap₂ ◌∷◌
      ((==_iff (reflection b) (reflect b 8)).0
        (all_below_sound reflection_right {bound = 256} {value = b} h.0 reflections_right))
      (reflect_bytes-eq-reflect bytes h.1)

abbrev reflected_back : ℕ → Bool
reflected_back b = reflection (reflection b) == b

all_reflected_back : all_below 256 reflected_back ≡ true
unfolding all_below reflection byte_of odd
all_reflected_back = refl

-- Reflecting octets twice gives them back.
pub reflect_bytes_twice :
    (bytes : List ℕ) → IsBytes bytes → reflect_bytes (reflect_bytes bytes) ≡ bytes
unfolding reflect_bytes
reflect_bytes_twice [] h = refl
reflect_bytes_twice (b ∷ bytes) h =
    ap₂ ◌∷◌
      ((==_iff (reflection (reflection b)) b).0
        (all_below_sound reflected_back {bound = 256} {value = b} h.0 all_reflected_back))
      (reflect_bytes_twice bytes h.1)

pub pn9_loop_twice : (state : ℕ) (bytes : List ℕ) → pn9_loop state (pn9_loop state bytes) ≡ bytes
unfolding pn9_loop
pn9_loop_twice state [] = refl
pn9_loop_twice state (b ∷ bytes) =
    let drawn = pn9_octet 8 0 0 state in
    ap₂ ◌∷◌ (xor_cancel b drawn.0) (pn9_loop_twice drawn.1 bytes)

-- With one seed, the PN9 sequence removes what it added.
pub pn9_bytes_twice :
    (bytes whitened : List ℕ) (seed : ℕ)
    → pn9_bytes bytes seed ≡ ok whitened
    → pn9_bytes whitened seed ≡ ok bytes
unfolding pn9_bytes
pn9_bytes_twice bytes whitened seed h = elim (Bool-cases (seed == 0 || ltb 0x1FF seed)) [
  | inl bad ↦ absurd (let e : value_error ≡ ok whitened = rw bad at h in cc)
  | inr good ↦
      let e : ok (pn9_loop seed bytes) ≡ ok whitened = rw good at h in
      rw good (ap ok (ap (pn9_loop seed) {x = whitened} (cc) ∙ pn9_loop_twice seed bytes))
]

additive_loop_twice :
    (mask register_length state : ℕ) (bits : List Bool)
    → additive_loop mask register_length state (additive_loop mask register_length state bits)
      ≡ bits
unfolding additive_loop
additive_loop_twice mask register_length state [] = refl
additive_loop_twice mask register_length state (b ∷ bits) = ap₂ ◌∷◌ (⊕_cancel b (odd state)) (
    additive_loop_twice mask register_length (shift_down register_length state (tapped mask state))
      bits)

-- For each register that passes the tests, randomizing twice gives the bits back.
pub additive_randomize_bits_twice :
    (bits randomized : List Bool) (mask seed register_length : ℕ)
    → additive_randomize_bits bits mask seed register_length ≡ ok randomized
    → additive_randomize_bits randomized mask seed register_length ≡ ok bits
unfolding additive_randomize_bits
additive_randomize_bits_twice bits randomized mask seed register_length h =
    elim (Bool-cases (register_ok mask seed register_length)) [
      | inl good ↦
          let e : ok (additive_loop mask register_length seed bits) ≡ ok randomized =
            rw good at h in
          rw good (
            ap ok (
              ap (additive_loop mask register_length seed) {x = randomized} (cc)
              ∙ additive_loop_twice mask register_length seed bits))
      | inr bad ↦ absurd (let e : value_error ≡ ok randomized = rw bad at h in cc)
    ]
