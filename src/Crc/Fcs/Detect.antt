-- ===== src/Crc/Fcs/Detect.antt =====
-- What the frame check sequence detects: the register never merges two states.
use gs_flowgraphs.Base.{
  ℕ, zero, suc, ◌/◌, ◌%◌, ◌^◌, ◌<◌, ◌≡◌, ◌≢◌, refl, ap, sym, ◌∙◌, Bool, true, false, List, [], ◌∷◌,
  ◌++◌, bit_xor, arith,
}
use gs_flowgraphs.Base.{odd, bit, bit-odd, All-append}
use gs_flowgraphs.Base.Xor.{xor-zero, zero-xor, xor_comm, xor_cancel, xor-lt, xor-shift}
use gs_flowgraphs.Octets.{IsByte, IsBytes}
use gs_flowgraphs.Crc.Register.{feedback, turn, turns, turns-lt}
use gs_flowgraphs.Crc.Catalog.{reflected_loop, repeat, shift_right}
use gs_flowgraphs.Crc.Fcs.{fcs, xorout, poly_reflected, init_register}
use gs_flowgraphs.Crc.Fcs.Table.{fcs_loop-eq-reflected_loop, reflected_loop-lt, repeat-turns}

xor-cancel_right : (a b c : ℕ) → bit_xor a c ≡ bit_xor b c → a ≡ b
xor-cancel_right a b c e = sym (xor_cancel a c) ∙ ap (λ t. bit_xor t c) e ∙ xor_cancel b c

xor-cancel_left : (a b c : ℕ) → bit_xor c a ≡ bit_xor c b → a ≡ b
xor-cancel_left a b c e = xor-cancel_right a b c (xor_comm a c ∙ e ∙ xor_comm c b)

-- The top bit of the register tells whether the bit that left was set.
top_bit :
    (c : ℕ) (b : Bool) → c < 2 ^ 16 → bit_xor (c / 2) (feedback poly_reflected b) / 2 ^ 15 ≡ bit b
top_bit c true h =
    xor-shift 15 (c / 2) poly_reflected
    ∙ ap (λ t. bit_xor t (poly_reflected / 2 ^ 15)) {y = 0} (omega arith)
    ∙ zero-xor 1
top_bit c false h = ap (λ t. t / 2 ^ 15) (xor-zero (c / 2)) ∙ omega arith

turn-injective :
    (a b : ℕ) → a < 2 ^ 16 → b < 2 ^ 16 → turn poly_reflected a ≡ turn poly_reflected b → a ≡ b
turn-injective a b h k e = same (odd a) (odd b) (bit-odd a) (bit-odd b) e
  where
    same :
        (p q : Bool)
        → bit p ≡ a % 2
        → bit q ≡ b % 2
        → bit_xor (a / 2) (feedback poly_reflected p) ≡ bit_xor (b / 2) (feedback poly_reflected q)
        → a ≡ b
    same false false i j f = omega (arith, xor-cancel_right (a / 2) (b / 2) 0 f)
    same true true i j f = omega (arith, xor-cancel_right (a / 2) (b / 2) poly_reflected f)
    same false true i j f =
        absurd (omega (arith, top_bit a false h, top_bit b true k, ap (λ t. t / 2 ^ 15) f))
    same true false i j f =
        absurd (omega (arith, top_bit a true h, top_bit b false k, ap (λ t. t / 2 ^ 15) f))

turns-injective :
    (n a b : ℕ)
    → a < 2 ^ 16
    → b < 2 ^ 16
    → turns poly_reflected n a ≡ turns poly_reflected n b
    → a ≡ b
unfolding turns
turns-injective zero a b h k e = e
turns-injective (suc n) a b h k e = turn-injective a b h k (
    turns-injective n (turn poly_reflected a) (turn poly_reflected b)
      (turns-lt poly_reflected 16 (omega arith) 1 a h)
      (turns-lt poly_reflected 16 (omega arith) 1 b k) e)

abbrev step : ℕ → ℕ
step c = repeat 8 (shift_right poly_reflected) c

step-injective : (a b : ℕ) → a < 2 ^ 16 → b < 2 ^ 16 → step a ≡ step b → a ≡ b
step-injective a b h k e =
    turns-injective 8 a b h k
      (sym (repeat-turns poly_reflected 8 a) ∙ e ∙ repeat-turns poly_reflected 8 b)

step-lt : (c byte : ℕ) → c < 2 ^ 16 → IsByte byte → step (bit_xor c byte) < 2 ^ 16
unfolding reflected_loop
step-lt c byte h k = reflected_loop-lt poly_reflected c (byte ∷ []) (omega arith) h (k, tt)

-- From two registers the same octets lead to two registers.
loop-injective :
    (a b : ℕ) (bytes : List ℕ)
    → a < 2 ^ 16
    → b < 2 ^ 16
    → IsBytes bytes
    → reflected_loop poly_reflected a bytes ≡ reflected_loop poly_reflected b bytes
    → a ≡ b
unfolding reflected_loop
loop-injective a b [] h k l e = e
loop-injective a b (byte ∷ bytes) h k l e = xor-cancel_right a b byte (
    step-injective (bit_xor a byte) (bit_xor b byte) (xor-lt 16 a byte h (omega (arith, l.0)))
      (xor-lt 16 b byte k (omega (arith, l.0)))
      (loop-injective (step (bit_xor a byte)) (step (bit_xor b byte)) bytes (step-lt a byte h l.0)
        (step-lt b byte k l.0) l.1 e))

reflected_loop-append :
    (c : ℕ) (xs ys : List ℕ)
    → reflected_loop poly_reflected c (xs ++ ys)
      ≡ reflected_loop poly_reflected (reflected_loop poly_reflected c xs) ys
unfolding reflected_loop
reflected_loop-append c [] ys = refl
reflected_loop-append c (x ∷ xs) ys = reflected_loop-append (step (bit_xor c x)) xs ys

-- Two bodies of octets that differ in one octet only have different frame check sequences.
pub fcs_single_octet :
    (before after : List ℕ) (x y : ℕ)
    → IsBytes before
    → IsBytes after
    → IsByte x
    → IsByte y
    → x ≢ y
    → fcs (before ++ x ∷ after) ≢ fcs (before ++ y ∷ after)
unfolding fcs
fcs_single_octet before after x y hb ha hx hy ne e =
    let r = reflected_loop poly_reflected init_register before in
    let r_lt : r < 2 ^ 16 =
      reflected_loop-lt poly_reflected init_register before (omega arith) (omega arith) hb in
    let unfolded = λ (z : ℕ) (hz : IsByte z).
      fcs_loop-eq-reflected_loop init_register (before ++ z ∷ after)
        (All-append IsByte before (z ∷ after) hb (hz, ha))
      ∙ reflected_loop-append init_register before (z ∷ after) in
    ne (
      xor-cancel_left x y r (
        step-injective (bit_xor r x) (bit_xor r y) (xor-lt 16 r x r_lt (omega arith))
          (xor-lt 16 r y r_lt (omega arith))
          (loop-injective (step (bit_xor r x)) (step (bit_xor r y)) after (step-lt r x r_lt hx)
            (step-lt r y r_lt hy) ha
            (unfold reflected_loop in
              sym (unfolded x hx) ∙ xor-cancel_right _ _ xorout e ∙ unfolded y hy))))
