-- ===== src/ReedSolomon/Horner.antt =====
-- Horner's rule, `_poly_eval` of gfsk_ax25/reedsolomon.py, on sums and multiples of polynomials.
use gs_flowgraphs.Base.{
  ℕ, ◌<◌, ◌≤◌, bit_xor, List, [], ◌∷◌, ◌++◌, ◌≡◌, refl, sym, ap, ◌∙◌, arith, All, length, replicate,
  map,
}
use gs_flowgraphs.Base.Xor.{xor-lt, xor-zero, zero-xor, xor_exchange}
use gs_flowgraphs.ReedSolomon.{mul, xor_prefix, poly_scale, eval_from}
use gs_flowgraphs.ReedSolomon.Field.{IsField, times-lt, times-xor, times-times}

abbrev pub IsOctet : ℕ → Type 0
IsOctet a = a < 256

module _ (prim : ℕ) (exp log : List ℕ) (field : IsField prim exp log) where
  abbrev eval : ℕ → List ℕ → ℕ → ℕ
  eval = eval_from exp log

  pub eval-append : (y : ℕ) (p q : List ℕ) (x : ℕ) → eval y (p ++ q) x ≡ eval (eval y p x) q x
  unfolding eval_from
  eval-append y [] q x = refl
  eval-append y (c ∷ p) q x = eval-append (bit_xor (mul exp log y x) c) p q x

  pub horner-lt :
      (y c x : ℕ) → IsOctet y → IsOctet c → IsOctet x → IsOctet (bit_xor (mul exp log y x) c)
  horner-lt y c x h k l = xor-lt 8 (mul exp log y x) c (times-lt prim exp log field y x h l) k

  pub eval-lt :
      (y : ℕ) (p : List ℕ) (x : ℕ) → IsOctet y → All IsOctet p → IsOctet x → IsOctet (eval y p x)
  unfolding eval_from
  eval-lt y [] x h k l = h
  eval-lt y (c ∷ p) x h k l =
      eval-lt (bit_xor (mul exp log y x) c) p x (horner-lt y c x h k.0 l) k.1 l

  -- One step of Horner's rule on a sum of two polynomials.
  horner-xor :
      (y z b a x : ℕ)
      → IsOctet y
      → IsOctet z
      → IsOctet x
      → bit_xor (mul exp log (bit_xor y z) x) (bit_xor b a)
        ≡ bit_xor (bit_xor (mul exp log y x) b) (bit_xor (mul exp log z x) a)
  horner-xor y z b a x h k l =
      ap (λ w. bit_xor w (bit_xor b a)) (times-xor prim exp log field y z x h k l)
      ∙ xor_exchange (mul exp log y x) (mul exp log z x) b a

  -- The sum with a polynomial that has the root, at the start, leaves the value.
  pub eval-xor_prefix :
      (y z : ℕ) (p q : List ℕ) (x : ℕ)
      → IsOctet y
      → IsOctet z
      → IsOctet x
      → All IsOctet p
      → All IsOctet q
      → length q ≤ length p
      → eval z q x ≡ 0
      → eval (bit_xor y z) (xor_prefix p q) x ≡ eval y p x
  unfolding eval_from xor_prefix
  eval-xor_prefix y z [] [] x h k l m n o e = ap (bit_xor y) e ∙ xor-zero y
  eval-xor_prefix y z (b ∷ p) [] x h k l m n o e =
      ap (λ w. eval w (b ∷ p) x) (ap (bit_xor y) e ∙ xor-zero y)
  eval-xor_prefix y z [] (a ∷ q) x h k l m n o e = absurd (omega arith)
  eval-xor_prefix y z (b ∷ p) (a ∷ q) x h k l m n o e =
      ap (λ w. eval w (xor_prefix p q) x) (horner-xor y z b a x h k l)
      ∙ eval-xor_prefix (bit_xor (mul exp log y x) b) (bit_xor (mul exp log z x) a) p q x
          (horner-lt y b x h m.0 l) (horner-lt z a x k n.0 l) l m.1 n.1 (omega arith) e

  -- The value of a sum, here with zeros.
  pub eval-zeros :
      (y z : ℕ) (q : List ℕ) (x : ℕ)
      → IsOctet y
      → IsOctet z
      → IsOctet x
      → All IsOctet q
      → eval (bit_xor y z) q x ≡ bit_xor (eval y (replicate (length q) 0) x) (eval z q x)
  unfolding eval_from
  eval-zeros y z [] x h k l n = refl
  eval-zeros y z (a ∷ q) x h k l n =
      ap (λ w. eval w q x)
        (ap (bit_xor (mul exp log (bit_xor y z) x)) (sym (zero-xor a)) ∙ horner-xor y z 0 a x h k l)
      ∙ eval-zeros (bit_xor (mul exp log y x) 0) (bit_xor (mul exp log z x) a) q x
          (horner-lt y 0 x h (omega arith) l) (horner-lt z a x k n.0 l) l n.1

  pub eval-poly_scale :
      (y s : ℕ) (p : List ℕ) (x : ℕ)
      → IsOctet y
      → IsOctet s
      → IsOctet x
      → All IsOctet p
      → eval (mul exp log y s) (poly_scale exp log p s) x ≡ mul exp log (eval y p x) s
  unfolding eval_from poly_scale
  eval-poly_scale y s [] x h k l n = refl
  eval-poly_scale y s (c ∷ p) x h k l n =
      ap (λ w. eval w (map (λ d. mul exp log d s) p) x)
        (ap (λ w. bit_xor w (mul exp log c s)) (times-times prim exp log field y s x h k l)
          ∙ sym (
              times-xor prim exp log field (mul exp log y x) c s
                (times-lt prim exp log field y x h l) n.0 k))
      ∙ eval-poly_scale (bit_xor (mul exp log y x) c) s p x (horner-lt y c x h n.0 l) k l n.1
