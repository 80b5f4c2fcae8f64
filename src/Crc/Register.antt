-- ===== src/Crc/Register.antt =====
-- One bit of a right-shifting register: it is linear for exclusive or, and can be undone.
use gs_flowgraphs.Base.{
  ℕ, zero, suc, ◌*◌, ◌/◌, ◌^◌, ◌<◌, ◌≡◌, refl, ap, ap₂, sym, ◌∙◌, Bool, true, false, bit_xor, arith,
}
use gs_flowgraphs.Base.{odd, odd_of, ◌⊕◌, if◌then◌else◌}
use native.Mathlib.Nat.{pow-suc}
use gs_flowgraphs.Base.Xor.{odd-xor, xor-half, xor-zero, zero-xor, xor_self, xor_exchange, xor-lt}

module _ (polynomial : ℕ) where
  -- What is added when the bit that leaves is `b`.
  abbrev pub feedback : Bool → ℕ
  feedback b = if b then polynomial else 0

  abbrev pub turn : ℕ → ℕ
  turn c = bit_xor (c / 2) (feedback (odd c))

  feedback-xor : (a b : Bool) → feedback (a ⊕ b) ≡ bit_xor (feedback a) (feedback b)
  feedback-xor false b = sym (zero-xor (feedback b))
  feedback-xor true false = sym (xor-zero polynomial)
  feedback-xor true true = sym (xor_self polynomial)

  pub turn-xor : (a b : ℕ) → turn (bit_xor a b) ≡ bit_xor (turn a) (turn b)
  turn-xor a b =
      ap₂ bit_xor (xor-half a b) (ap feedback (odd-xor a b) ∙ feedback-xor (odd a) (odd b))
      ∙ xor_exchange (a / 2) (b / 2) (feedback (odd a)) (feedback (odd b))

  unfoldable pub turns : ℕ → ℕ → ℕ
  turns zero c = c
  turns (suc n) c = turns n (turn c)

  pub turns-xor : (n a b : ℕ) → turns n (bit_xor a b) ≡ bit_xor (turns n a) (turns n b)
  unfolding turns
  turns-xor zero a b = refl
  turns-xor (suc n) a b = ap (turns n) (turn-xor a b) ∙ turns-xor n (turn a) (turn b)

  -- Low zeros leave the register one by one.
  pub turns-shift : (n q : ℕ) → turns n (q * 2 ^ n) ≡ q
  unfolding turns
  turns-shift zero q = omega arith
  turns-shift (suc n) q =
      let e : q * 2 ^ suc n ≡ 2 * (q * 2 ^ n) =
        omega (arith, ap (λ (t : ℕ). q * t) (pow-suc 2 n)) in
      let half : q * 2 ^ suc n / 2 ≡ q * 2 ^ n = omega (arith, e) in
      let even : odd (q * 2 ^ suc n) ≡ false = odd_of false (q * 2 ^ suc n) (omega (arith, e)) in
      ap (turns n) (rw (half, even) (xor-zero (q * 2 ^ n))) ∙ turns-shift n q

  module _ (width : ℕ) (fits : polynomial < 2 ^ width) where
    pub turn-lt : (c : ℕ) → c < 2 ^ width → turn c < 2 ^ width
    turn-lt c h = xor-lt width (c / 2) (feedback (odd c)) (omega arith) (within (odd c))
      where
        within : (b : Bool) → feedback b < 2 ^ width
        within false = omega arith
        within true = fits

    pub turns-lt : (n c : ℕ) → c < 2 ^ width → turns n c < 2 ^ width
    unfolding turns
    turns-lt zero c h = h
    turns-lt (suc n) c h = turns-lt n (turn c) (turn-lt c h)
