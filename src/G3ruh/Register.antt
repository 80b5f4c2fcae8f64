-- ===== src/G3ruh/Register.antt =====
-- The 17-bit register of g3ruh.py, bit by bit: the newest bit is the lowest.
use gs_flowgraphs.Base.{
  ℕ, suc, ◌+◌, ◌*◌, ◌/◌, ◌%◌, ◌^◌, ◌<◌, ◌≡◌, ap, ap₂, ◌∙◌, Bool, true, false, bit_or, arith,
}
use gs_flowgraphs.Base.{odd, odd_of, bit, ◌⊕◌, ◌<<<◌, ◌>>>◌, and_mask, or_fields}
use gs_flowgraphs.Base.Xor.{odd-xor}
use gs_flowgraphs.Base.Word.{test_bit, test_bit-mod}
use gs_flowgraphs.G3ruh.{fb, shift_in}

bit-lt : (y : Bool) → bit y < 2 ^ 1
bit-lt false = omega arith
bit-lt true = omega arith

shift_in-eq : (sr : ℕ) (y : Bool) → shift_in sr y ≡ (sr * 2 ^ 1 + bit y) % 2 ^ 17
unfolding shift_in
shift_in-eq sr y =
    and_mask 17 (bit_or (sr <<< 1) (bit y))
    ∙ ap (λ x. x % 2 ^ 17) (or_fields 1 sr (bit y) (bit-lt y))

-- The bit that enters is the lowest bit, and every other moves up by one.
pub test_bit-shift_in_zero : (sr : ℕ) (y : Bool) → test_bit (shift_in sr y) 0 ≡ y
unfolding test_bit
test_bit-shift_in_zero sr y =
    ap (λ x. test_bit x 0) (shift_in-eq sr y)
    ∙ odd_of y ((sr * 2 ^ 1 + bit y) % 2 ^ 17) (omega (arith, bit-lt y))

pub test_bit-shift_in-suc :
    (sr i : ℕ) (y : Bool) → i < 16 → test_bit (shift_in sr y) (suc i) ≡ test_bit sr i
unfolding test_bit
test_bit-shift_in-suc sr i y h =
    ap (λ x. test_bit x (suc i)) (shift_in-eq sr y)
    ∙ test_bit-mod 17 (suc i) (sr * 2 ^ 1 + bit y) (omega arith)
    ∙ ap (λ x. test_bit x i) {x = (sr * 2 ^ 1 + bit y) / 2} (omega (arith, bit-lt y))

-- The feedback is the exclusive or of the bits received 12 and 17 places back.
pub fb-eq : (sr : ℕ) → fb sr ≡ test_bit sr 11 ⊕ test_bit sr 16
unfolding fb test_bit
fb-eq sr =
    odd-xor (sr >>> 11) (sr >>> 16)
    ∙ ap₂ (λ a b. odd a ⊕ odd b) {x = sr >>> 11}
        {y = sr / 2 / 2 / 2 / 2 / 2 / 2 / 2 / 2 / 2 / 2 / 2} (omega arith) (omega arith)
