-- ===== src/ReedSolomon/Codeword.antt =====
-- Every root of the generator is a root of what `encode` of gfsk_ax25/reedsolomon.py gives.
use gs_flowgraphs.Base.{
  ℕ, zero, suc, ◌+◌, ◌≤◌, bit_xor, List, [], ◌∷◌, ◌++◌, ◌≡◌, refl, sym, ap, ap₂, ◌∙◌, arith, All,
  All-append, All-replicate, length, length-append, length-map, length-replicate, replicate, ◌==◌,
  ==_iff, Bool-cases, inl, inr, if◌then◌else◌,
}
use gs_flowgraphs.Base.Xor.{xor-lt, xor_self, xor-zero, zero-xor}
use gs_flowgraphs.ReedSolomon.{mul, xor_prefix, poly_scale, eval_from, remainder}
use gs_flowgraphs.ReedSolomon.Field.{IsField, times-lt, zero_times, one_times}
use gs_flowgraphs.ReedSolomon.Horner.{
  IsOctet, eval-append, eval-lt, eval-xor_prefix, eval-zeros, eval-poly_scale,
}

pub xor_prefix-length : (p q : List ℕ) → length (xor_prefix p q) ≡ length p
unfolding xor_prefix
xor_prefix-length [] q = refl
xor_prefix-length (b ∷ p) [] = refl
xor_prefix-length (b ∷ p) (a ∷ q) = ap suc (xor_prefix-length p q)

xor_prefix-octets : (p q : List ℕ) → All IsOctet p → All IsOctet q → All IsOctet (xor_prefix p q)
unfolding xor_prefix
xor_prefix-octets [] q m n = tt
xor_prefix-octets (b ∷ p) [] m n = m
xor_prefix-octets (b ∷ p) (a ∷ q) m n = (xor-lt 8 b a m.0 n.0, xor_prefix-octets p q m.1 n.1)

zero-IsOctet : IsOctet 0
zero-IsOctet = omega arith

zeros-octets : (n : ℕ) → All IsOctet (replicate n 0)
zeros-octets n = All-replicate IsOctet n 0 (omega arith)

module _ (prim : ℕ) (exp log : List ℕ) (field : IsField prim exp log) where
  abbrev eval : ℕ → List ℕ → ℕ → ℕ
  eval = eval_from exp log

  poly_scale-octets :
      (p : List ℕ) (s : ℕ) → All IsOctet p → IsOctet s → All IsOctet (poly_scale exp log p s)
  unfolding poly_scale
  poly_scale-octets [] s m k = tt
  poly_scale-octets (c ∷ p) s m k =
      (times-lt prim exp log field c s m.0 k, poly_scale-octets p s m.1 k)

  poly_scale-length : (p : List ℕ) (s : ℕ) → length (poly_scale exp log p s) ≡ length p
  unfolding poly_scale
  poly_scale-length p s = length-map (λ c. mul exp log c s) p

  round-octets :
      (tail : List ℕ) (coef : ℕ) (out : List ℕ)
      → All IsOctet tail
      → IsOctet coef
      → All IsOctet out
      → All IsOctet (if coef == 0 then out else xor_prefix out (poly_scale exp log tail coef))
        × (length (if coef == 0 then out else xor_prefix out (poly_scale exp log tail coef))
            ≡ length out)
  round-octets tail coef out t k m = elim (Bool-cases (coef == 0)) [
    | inl z ↦ rw (z) (m, refl)
    | inr n ↦ rw (n) (
      xor_prefix-octets out (poly_scale exp log tail coef) m (poly_scale-octets tail coef t k),
      xor_prefix-length out (poly_scale exp log tail coef),
    )
  ]

  -- The remainder consists of octets, as many as the divisor has after its leading 1.
  pub remainder-octets :
      (tail : List ℕ) (left : ℕ) (out : List ℕ)
      → All IsOctet tail
      → All IsOctet out
      → length out ≡ left + length tail
      → All IsOctet (remainder exp log tail left out)
        × (length (remainder exp log tail left out) ≡ length tail)
  unfolding remainder
  remainder-octets tail zero out t m h = (m, omega arith)
  remainder-octets tail (suc left) [] t m h = absurd (omega arith)
  remainder-octets tail (suc left) (coef ∷ out) t m h =
      let next = if coef == 0 then out else xor_prefix out (poly_scale exp log tail coef) in
      let (octets_next, same) = round-octets tail coef out t m.0 m.1 in
      remainder-octets tail left next t octets_next (same ∙ omega arith)

  -- A message with zeros in the place of the parity.
  pub padded-octets : (msg : List ℕ) (n : ℕ) → All IsOctet msg → All IsOctet (msg ++ replicate n 0)
  padded-octets msg n m = All-append IsOctet msg (replicate n 0) m (zeros-octets n)

  pub padded-length : (msg : List ℕ) (n : ℕ) → length (msg ++ replicate n 0) ≡ length msg + n
  padded-length msg n =
      length-append msg (replicate n 0) ∙ ap (◌+◌ (length msg)) (length-replicate n 0)

  module _ (tail : List ℕ) (x : ℕ) (octets_tail : All IsOctet tail) (octet : IsOctet x)
      (root : eval 1 tail x ≡ 0) where
    multiple-root : (coef : ℕ) → IsOctet coef → eval coef (poly_scale exp log tail coef) x ≡ 0
    multiple-root coef k =
        ap (λ w. eval w (poly_scale exp log tail coef) x)
          (sym (one_times prim exp log field coef k))
        ∙ eval-poly_scale prim exp log field 1 coef tail x (omega arith) k octet octets_tail
        ∙ ap (λ w. mul exp log w coef) root
        ∙ zero_times prim exp log field coef

    -- One round of the division leaves the value.
    round-eval :
        (coef : ℕ) (out : List ℕ)
        → IsOctet coef
        → All IsOctet out
        → length tail ≤ length out
        → eval 0 (if coef == 0 then out else xor_prefix out (poly_scale exp log tail coef)) x
          ≡ eval coef out x
    round-eval coef out k m h = elim (Bool-cases (coef == 0)) [
      | inl z ↦ rw (z) (ap (λ w. eval w out x) (sym ((==_iff coef 0).0 z)))
      | inr n ↦ rw (n) (
          ap (λ w. eval w (xor_prefix out (poly_scale exp log tail coef)) x) (sym (xor_self coef))
          ∙ eval-xor_prefix prim exp log field coef coef out (poly_scale exp log tail coef) x k k
              octet m (poly_scale-octets tail coef octets_tail k)
              (omega (arith, poly_scale-length tail coef)) (multiple-root coef k))
    ]

    front : (coef : ℕ) (out : List ℕ) → eval 0 (coef ∷ out) x ≡ eval coef out x
    unfolding eval_from
    front coef out =
        ap (λ w. eval w out x)
          (ap (λ w. bit_xor w coef) (zero_times prim exp log field x) ∙ zero-xor coef)

    remainder-eval :
        (left : ℕ) (out : List ℕ)
        → All IsOctet out
        → length out ≡ left + length tail
        → eval 0 (remainder exp log tail left out) x ≡ eval 0 out x
    unfolding remainder
    remainder-eval zero out m h = refl
    remainder-eval (suc left) [] m h = absurd (omega arith)
    remainder-eval (suc left) (coef ∷ out) m h =
        let next = if coef == 0 then out else xor_prefix out (poly_scale exp log tail coef) in
        let (octets_next, same) = round-octets tail coef out octets_tail m.0 m.1 in
        remainder-eval left next octets_next (same ∙ omega arith)
        ∙ round-eval coef out m.0 m.1 (omega arith)
        ∙ sym (front coef out)

    -- What `encode` appends makes the root of the generator a root of the whole word.
    pub eval-encoded :
        (msg : List ℕ)
        → All IsOctet msg
        → eval 0 (msg ++ remainder exp log tail (length msg) (msg ++ replicate (length tail) 0)) x
          ≡ 0
    eval-encoded msg m =
        let zeros = replicate (length tail) 0 in
        let word = msg ++ zeros in
        let parity = remainder exp log tail (length msg) word in
        let octets_word = padded-octets msg (length tail) m in
        let size = padded-length msg (length tail) in
        let (octets_parity, n) =
          remainder-octets tail (length msg) word octets_tail octets_word size in
        let e = eval 0 msg x in
        let small : IsOctet e = eval-lt prim exp log field 0 msg x zero-IsOctet m octet in
        eval-append prim exp log field 0 msg parity x
        ∙ ap (λ w. eval w parity x) (sym (xor-zero e))
        ∙ eval-zeros prim exp log field e 0 parity x small zero-IsOctet octet octets_parity
        ∙ ap₂ bit_xor (ap (λ k. eval e (replicate k 0) x) n) (
            remainder-eval (length msg) word octets_word size
            ∙ eval-append prim exp log field 0 msg zeros x)
        ∙ xor_self (eval e zeros x)
