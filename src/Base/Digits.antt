-- ===== src/Base/Digits.antt =====
-- The native bit operations recurse on the binary digits with the first number as fuel. Here the
-- fuel is dropped: one equation that goes from a number to its half.
use Prim.Native.Nat.{ℕ, zero, suc, ◌+◌, ◌*◌, ◌/◌, ◌%◌, ◌≤◌, digits, bitwise}
use mathlib.Core.Path.{◌≡◌, refl, ap, sym, ◌∙◌}
use native.Mathlib.Omega.{arith}

module _ (tail_of : ℕ → ℕ) (digit : ℕ → ℕ → ℕ) where
  abbrev run : ℕ → ℕ → ℕ → ℕ
  run fuel a b = digits tail_of digit fuel a b

  run-zero : (fuel b : ℕ) → run fuel 0 b ≡ tail_of b
  run-zero zero b = refl
  run-zero (suc fuel) b = refl

  -- Any fuel that covers the first number gives what the number itself as fuel gives.
  run_enough :
      (bound fuel a b : ℕ) → fuel ≤ bound → a ≤ fuel → run fuel a b ≡ bitwise tail_of digit a b
  run_enough bound fuel zero b p q = run-zero fuel b
  run_enough bound zero (suc a) b p q = absurd (omega arith)
  run_enough zero (suc fuel) (suc a) b p q = absurd (omega arith)
  run_enough (suc bound) (suc fuel) (suc a) b p q =
      ap (λ t. t * 2 + digit (suc a % 2) (b % 2))
        (run_enough bound fuel (suc a / 2) (b / 2) (omega arith) (omega arith)
          ∙ sym (run_enough bound a (suc a / 2) (b / 2) (omega arith) (omega arith)))

  pub digits-suc :
      (a b : ℕ)
      → bitwise tail_of digit (suc a) b
        ≡ bitwise tail_of digit (suc a / 2) (b / 2) * 2 + digit (suc a % 2) (b % 2)
  digits-suc a b =
      ap (λ t. t * 2 + digit (suc a % 2) (b % 2))
        (run_enough a a (suc a / 2) (b / 2) (omega arith) (omega arith))
