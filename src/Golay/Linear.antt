-- ===== src/Golay/Linear.antt =====
-- The syndrome of golay24.py is linear over exclusive or.
use gs_flowgraphs.Base.{
  ℕ, ◌+◌, ◌*◌, ◌/◌, ◌%◌, ◌≡◌, ◌<◌, refl, ap, ap₂, sym, ◌∙◌, List, [], ◌∷◌, arith, bit_and, bit_or,
  bit_xor, ◌<<<◌, or_fields, and_mask,
}
use gs_flowgraphs.Base.Xor.{xor_step}
use gs_flowgraphs.Base.Weight.{bit_count, bit_count-xor, and-xor}
use gs_flowgraphs.Golay.{parity, syndrome_loop, syndrome, parity_rows}

pub parity-eq : (x : ℕ) → parity x ≡ bit_count 24 x % 2
unfolding parity
parity-eq x = and_mask 1 (bit_count 24 x)

parity-xor :
    (r a b : ℕ)
    → parity (bit_and r (bit_xor a b)) ≡ (parity (bit_and r a) + parity (bit_and r b)) % 2
parity-xor r a b = omega (
  arith,
  parity-eq (bit_and r (bit_xor a b)),
  parity-eq (bit_and r a),
  parity-eq (bit_and r b),
  ap (bit_count 24) (and-xor r a b),
  bit_count-xor 24 (bit_and r a) (bit_and r b),
)

shifted : (v p : ℕ) → p < 2 → bit_or (v <<< 1) p ≡ v * 2 + p
shifted v p small = or_fields 1 v p small

shifted-xor :
    (v w p q : ℕ) → p < 2 → q < 2 → bit_xor (v * 2 + p) (w * 2 + q) ≡ bit_xor v w * 2 + (p + q) % 2
shifted-xor v w p q h k =
    let hv : (v * 2 + p) / 2 ≡ v = omega arith in
    let hw : (w * 2 + q) / 2 ≡ w = omega arith in
    xor_step (v * 2 + p) (w * 2 + q) ∙ rw (hv, hw) (omega arith)

pub syndrome_loop-xor :
    (rows : List ℕ) (a b v w : ℕ)
    → syndrome_loop rows (bit_xor a b) (bit_xor v w)
      ≡ bit_xor (syndrome_loop rows a v) (syndrome_loop rows b w)
unfolding syndrome_loop
syndrome_loop-xor [] a b v w = refl
syndrome_loop-xor (row ∷ rows) a b v w =
    let p = parity (bit_and row a) in
    let q = parity (bit_and row b) in
    let small : (x : ℕ) → parity x < 2 = λ x. omega (arith, parity-eq x) in
    let step : bit_or (bit_xor v w <<< 1) (parity (bit_and row (bit_xor a b)))
        ≡ bit_xor (bit_or (v <<< 1) p) (bit_or (w <<< 1) q) =
      shifted (bit_xor v w) _ (small (bit_and row (bit_xor a b)))
      ∙ ap (λ t. bit_xor v w * 2 + t) (parity-xor row a b)
      ∙ sym (shifted-xor v w p q (small (bit_and row a)) (small (bit_and row b)))
      ∙ sym (
          ap₂ bit_xor (shifted v p (small (bit_and row a)))
            (shifted w q (small (bit_and row b)))) in
    ap (syndrome_loop rows (bit_xor a b)) step
    ∙ syndrome_loop-xor rows a b (bit_or (v <<< 1) p) (bit_or (w <<< 1) q)

pub syndrome-xor : (a b : ℕ) → syndrome (bit_xor a b) ≡ bit_xor (syndrome a) (syndrome b)
unfolding syndrome
syndrome-xor a b = syndrome_loop-xor parity_rows a b 0 0
