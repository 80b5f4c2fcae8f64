-- ===== src/ReedSolomon/Field.antt =====
-- The field of gfsk_ax25/reedsolomon.py: a product by a factor is the step of the tables, made as
-- many times as the logarithm of the factor tells. So it is additive, and two factors commute.
use gs_flowgraphs.Base.{
  ℕ, zero, suc, ◌+◌, ◌<◌, ◌≤◌, bit_xor, false, List, ◌≡◌, refl, sym, ap, ap₂, ◌∙◌, ◌==◌, get_or,
  subst, arith,
}
use gs_flowgraphs.Base.Xor.{xor-lt}
use gs_flowgraphs.ReedSolomon.{doubled, mul}

-- What the tables satisfy. The step stays in the field and is additive, each entry is the step of
-- the one before, and the logarithm undoes the power.
pub record IsField (prim : ℕ) (exp log : List ℕ) : Type 0 where
  pub doubled-lt : (a : ℕ) → a < 256 → doubled prim a < 256
  pub doubled-xor :
      (a b : ℕ)
      → a < 256
      → b < 256
      → doubled prim (bit_xor a b) ≡ bit_xor (doubled prim a) (doubled prim b)
  pub exp_first : get_or exp 0 0 ≡ 1
  pub exp_next : (k : ℕ) → k < 510 → get_or exp (k + 1) 0 ≡ doubled prim (get_or exp k 0)
  pub exp-log : (a : ℕ) → 0 < a → a < 256 → get_or exp (get_or log a 0) 0 ≡ a
  pub log-lt : (a : ℕ) → 0 < a → a < 256 → get_or log a 0 < 255

module _ (prim : ℕ) where
  unfoldable pub steps : ℕ → ℕ → ℕ
  steps zero a = a
  steps (suc n) a = doubled prim (steps n a)

module _ (prim : ℕ) (exp log : List ℕ) (field : IsField prim exp log) where
  abbrev pub times : ℕ → ℕ → ℕ
  times = mul exp log

  steps-lt : (n a : ℕ) → a < 256 → steps prim n a < 256
  unfolding steps
  steps-lt zero a h = h
  steps-lt (suc n) a h = field.doubled-lt (steps prim n a) (steps-lt n a h)

  steps-xor :
      (n a b : ℕ)
      → a < 256
      → b < 256
      → steps prim n (bit_xor a b) ≡ bit_xor (steps prim n a) (steps prim n b)
  unfolding steps
  steps-xor zero a b h k = refl
  steps-xor (suc n) a b h k =
      ap (doubled prim) (steps-xor n a b h k)
      ∙ field.doubled-xor (steps prim n a) (steps prim n b) (steps-lt n a h) (steps-lt n b k)

  steps-doubled : (n a : ℕ) → steps prim n (doubled prim a) ≡ doubled prim (steps prim n a)
  unfolding steps
  steps-doubled zero a = refl
  steps-doubled (suc n) a = ap (doubled prim) (steps-doubled n a)

  steps-steps : (n m a : ℕ) → steps prim n (steps prim m a) ≡ steps prim m (steps prim n a)
  unfolding steps
  steps-steps zero m a = refl
  steps-steps (suc n) m a =
      ap (doubled prim) (steps-steps n m a) ∙ sym (steps-doubled m (steps prim n a))

  steps-exp : (n k : ℕ) → k + n ≤ 510 → steps prim n (get_or exp k 0) ≡ get_or exp (k + n) 0
  unfolding steps
  steps-exp zero k h = ap (λ i. get_or exp i 0) (omega arith)
  steps-exp (suc n) k h =
      let next : k + suc n ≡ k + n + 1 = omega arith in
      ap (doubled prim) (steps-exp n k (omega arith))
      ∙ sym (field.exp_next (k + n) (omega arith))
      ∙ ap (λ i. get_or exp i 0) (sym next)

  steps-zero : (n : ℕ) → steps prim n 0 ≡ 0
  unfolding steps doubled
  steps-zero zero = refl
  steps-zero (suc n) = ap (doubled prim) (steps-zero n)

  -- The product by a factor that is not 0.
  times-steps : (a x : ℕ) → a < 256 → 0 < x → x < 256 → times a x ≡ steps prim (get_or log x 0) a
  unfolding mul
  times-steps zero x h p q = sym (steps-zero (get_or log x 0))
  times-steps (suc a) x h p q =
      let nonzero : (suc a == 0) ≡ false = ground arith in
      let nonzero' : (x == 0) ≡ false = ground arith in
      rw (nonzero, nonzero')
        (sym (
          steps-exp (get_or log x 0) (get_or log (suc a) 0)
            (omega (arith, field.log-lt (suc a) (omega arith) h, field.log-lt x p q))))
      ∙ ap (steps prim (get_or log x 0)) (field.exp-log (suc a) (omega arith) h)

  times_zero : (a : ℕ) → times a 0 ≡ 0
  unfolding mul
  times_zero zero = refl
  times_zero (suc a) = let nonzero : (suc a == 0) ≡ false = ground arith in rw (nonzero) refl

  pub zero_times : (x : ℕ) → times 0 x ≡ 0
  unfolding mul
  zero_times x = refl

  pub times-lt : (a x : ℕ) → a < 256 → x < 256 → times a x < 256
  times-lt a zero h k = subst (λ n. n < 256) (sym (times_zero a)) (omega arith)
  times-lt a (suc x) h k =
      subst (λ n. n < 256) (sym (times-steps a (suc x) h (omega arith) k))
        (steps-lt (get_or log (suc x) 0) a h)

  pub times-xor :
      (a b x : ℕ)
      → a < 256
      → b < 256
      → x < 256
      → times (bit_xor a b) x ≡ bit_xor (times a x) (times b x)
  times-xor a b zero h k l = rw (times_zero a, times_zero b, times_zero (bit_xor a b)) refl
  times-xor a b (suc x) h k l =
      times-steps (bit_xor a b) (suc x) (xor-lt 8 a b h k) (omega arith) l
      ∙ steps-xor (get_or log (suc x) 0) a b h k
      ∙ ap₂ bit_xor (sym (times-steps a (suc x) h (omega arith) l))
          (sym (times-steps b (suc x) k (omega arith) l))

  pub times-times :
      (a x y : ℕ) → a < 256 → x < 256 → y < 256 → times (times a x) y ≡ times (times a y) x
  times-times a zero y h k l = rw (times_zero a, times_zero (times a y)) (zero_times y)
  times-times a (suc x) zero h k l =
      rw (times_zero a, times_zero (times a (suc x))) (sym (zero_times (suc x)))
  times-times a (suc x) (suc y) h k l =
      times-steps (times a (suc x)) (suc y) (times-lt a (suc x) h k) (omega arith) l
      ∙ ap (steps prim (get_or log (suc y) 0)) (times-steps a (suc x) h (omega arith) k)
      ∙ steps-steps (get_or log (suc y) 0) (get_or log (suc x) 0) a
      ∙ sym (ap (steps prim (get_or log (suc x) 0)) (times-steps a (suc y) h (omega arith) l))
      ∙ sym (times-steps (times a (suc y)) (suc x) (times-lt a (suc y) h l) (omega arith) k)

  pub one_times : (x : ℕ) → x < 256 → times 1 x ≡ x
  one_times zero h = times_zero 1
  one_times (suc x) h =
      times-steps 1 (suc x) (omega arith) (omega arith) h
      ∙ ap (steps prim (get_or log (suc x) 0)) (sym field.exp_first)
      ∙ steps-exp (get_or log (suc x) 0) 0 (omega (arith, field.log-lt (suc x) (omega arith) h))
      ∙ ap (λ i. get_or exp i 0) (omega arith)
      ∙ field.exp-log (suc x) (omega arith) h
