-- ===== src/G3ruh/Sync.antt =====
-- Self-synchronisation: what the descrambler gives after 17 bits does not depend on its register.
use gs_flowgraphs.Base.{
  ℕ, zero, suc, ◌+◌, ◌<◌, ◌≡◌, refl, ap₂, sym, ◌∙◌, Bool, List, [], ◌∷◌, arith,
}
use gs_flowgraphs.Base.{◌⊕◌, drop}
use gs_flowgraphs.Base.Word.{test_bit}
use gs_flowgraphs.G3ruh.{fb, shift_in, descramble_loop}
use gs_flowgraphs.G3ruh.Register.{test_bit-shift_in_zero, test_bit-shift_in-suc, fb-eq}

-- The two registers have the same `k` newest bits.
abbrev Agree : ℕ → ℕ → ℕ → Type 0
Agree k s t = (i : ℕ) → i < k → test_bit s i ≡ test_bit t i

fb-Agree : (s t : ℕ) → Agree 17 s t → fb s ≡ fb t
fb-Agree s t h = fb-eq s ∙ ap₂ ◌⊕◌ (h 11 (omega arith)) (h 16 (omega arith)) ∙ sym (fb-eq t)

Agree-shift_in :
    (k s t : ℕ) (y : Bool) → k < 17 → Agree k s t → Agree (suc k) (shift_in s y) (shift_in t y)
Agree-shift_in k s t y h a zero p = test_bit-shift_in_zero s y ∙ sym (test_bit-shift_in_zero t y)
Agree-shift_in k s t y h a (suc i) p =
    test_bit-shift_in-suc s i y (omega arith)
    ∙ a i (omega arith)
    ∙ sym (test_bit-shift_in-suc t i y (omega arith))

Agree-fewer : (s t : ℕ) → Agree 17 s t → Agree 16 s t
Agree-fewer s t a i p = a i (omega arith)

Agree-forever :
    (s t : ℕ) (bits : List Bool) → Agree 17 s t → descramble_loop s bits ≡ descramble_loop t bits
unfolding descramble_loop
Agree-forever s t [] a = refl
Agree-forever s t (y ∷ bits) a =
    ap₂ (λ f l. (y ⊕ f) ∷ l) (fb-Agree s t a)
      (Agree-forever (shift_in s y) (shift_in t y) bits
        (Agree-shift_in 16 s t y (omega arith) (Agree-fewer s t a)))

Agree-after :
    (k left s t : ℕ) (bits : List Bool)
    → k + left ≡ 17
    → Agree k s t
    → drop left (descramble_loop s bits) ≡ drop left (descramble_loop t bits)
unfolding descramble_loop
Agree-after k zero s t bits e a =
    unfold descramble_loop in Agree-forever s t bits (λ i p. a i (omega arith))
Agree-after k (suc left) s t [] e a = refl
Agree-after k (suc left) s t (y ∷ bits) e a =
    Agree-after (suc k) left (shift_in s y) (shift_in t y) bits (omega arith)
      (Agree-shift_in k s t y (omega arith) a)

-- From any two registers the descrambler gives the same bits from the 18th on.
pub descramble_loop_sync :
    (s t : ℕ) (bits : List Bool)
    → drop 17 (descramble_loop s bits) ≡ drop 17 (descramble_loop t bits)
descramble_loop_sync s t bits = Agree-after 0 17 s t bits refl (λ i p. absurd (omega arith))
