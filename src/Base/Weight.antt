-- ===== src/Base/Weight.antt =====
-- `int.bit_count`, and checks of every word with few ones.
use Prim.Native.Nat.{
  ℕ, zero, suc, ◌+◌, ◌*◌, ◌/◌, ◌%◌, ◌^◌, ◌≤◌, ◌<◌, bit_xor, bit_and, bit_and-bitwise, min,
}
use mathlib.Core.Path.{◌≡◌, refl, ap, ap₂, ◌∙◌, sym, subst}
use mathlib.Core.Bool.{Bool, true, ◌&&◌}
use mathlib.Core.Logic.{◌⊎◌, inl, inr}
use native.Mathlib.Omega.{arith}
use native.Mathlib.Nat.{pow-suc}
use gs_flowgraphs.Base.Word.{and_step}
use gs_flowgraphs.Base.Xor.{xor-half, xor-odd, xor-zero}

-- `int.bit_count`, of a number below `2 ** n`.
unfoldable pub bit_count : ℕ → ℕ → ℕ
bit_count zero x = 0
bit_count (suc n) x = x % 2 + bit_count n (x / 2)

-- The parity of the count of ones is additive.
pub bit_count-xor :
    (n a b : ℕ) → bit_count n (bit_xor a b) % 2 ≡ (bit_count n a + bit_count n b) % 2
unfolding bit_count
bit_count-xor zero a b = omega arith
bit_count-xor (suc n) a b =
    let ih = bit_count-xor n (a / 2) (b / 2) in
    let half : bit_count n (bit_xor a b / 2) ≡ bit_count n (bit_xor (a / 2) (b / 2)) =
      ap (bit_count n) (xor-half a b) in
    omega (arith, ih, half, xor-odd a b)

-- Whether a test holds of each word of `n` bits with `w` ones at most.
unfoldable pub all_light : ℕ → ℕ → (ℕ → Bool) → Bool
all_light zero w p = p 0
all_light (suc n) zero p = all_light n zero (λ x. p (x * 2))
all_light (suc n) (suc w) p =
    let evens = all_light n (suc w) (λ x. p (x * 2)) in
    let odds = all_light n w (λ x. p (x * 2 + 1)) in evens && odds

low_bit : (x : ℕ) → (x % 2 ≡ 0) ⊎ (x % 2 ≡ 1)
low_bit x = small (x % 2) (omega arith)
  where
    small : (r : ℕ) → r < 2 → (r ≡ 0) ⊎ (r ≡ 1)
    small zero h = inl refl
    small (suc zero) h = inr refl
    small (suc (suc r)) h = absurd (omega arith)

pub all_light_sound :
    (n w : ℕ) (p : ℕ → Bool) (x : ℕ)
    → all_light n w p ≡ true
    → x < 2 ^ n
    → bit_count n x ≤ w
    → p x ≡ true
unfolding all_light bit_count
all_light_sound zero w p zero h small light = h
all_light_sound zero w p (suc x) h small light = absurd (omega arith)
all_light_sound (suc n) zero p x h small light =
    let even : x % 2 ≡ 0 = omega (arith, light) in
    let whole : x / 2 * 2 ≡ x = omega (arith, even) in
    subst (λ y. p y ≡ true) whole
      (all_light_sound n zero (λ y. p (y * 2)) (x / 2) h (omega (arith, pow-suc 2 n))
        (omega (arith, light)))
all_light_sound (suc n) (suc w) p x h small light = elim (low_bit x) [
  | inl even ↦
      subst (λ y. p y ≡ true) {x = x / 2 * 2} (omega (arith, even))
        (all_light_sound n (suc w) (λ y. p (y * 2)) (x / 2) (ground arith)
          (omega (arith, pow-suc 2 n)) (omega (arith, light)))
  | inr one ↦
      subst (λ y. p y ≡ true) {x = x / 2 * 2 + 1} (omega (arith, one))
        (all_light_sound n w (λ y. p (y * 2 + 1)) (x / 2) (ground arith)
          (omega (arith, pow-suc 2 n)) (omega (arith, light, one)))
]

and-half : (a b : ℕ) → bit_and a b / 2 ≡ bit_and (a / 2) (b / 2)
and-half a b = omega (arith, and_step a b)

and-odd : (a b : ℕ) → bit_and a b % 2 ≡ min (a % 2) (b % 2)
and-odd a b = omega (arith, and_step a b)

and-xor_fuel : (n r a b : ℕ) → r ≤ n → bit_and r (bit_xor a b) ≡ bit_xor (bit_and r a) (bit_and r b)
and-xor_fuel zero zero a b h = omega (
  arith,
  bit_and-bitwise 0 (bit_xor a b),
  bit_and-bitwise 0 a,
  bit_and-bitwise 0 b,
  xor-zero 0,
  ap₂ bit_xor (bit_and-bitwise 0 a) (bit_and-bitwise 0 b),
)
and-xor_fuel zero (suc r) a b h = absurd (omega arith)
and-xor_fuel (suc n) r a b h =
    let ih = and-xor_fuel n (r / 2) (a / 2) (b / 2) (omega arith) in
    let x = bit_xor a b in
    let half : bit_and r x / 2 ≡ bit_xor (bit_and r a) (bit_and r b) / 2 =
      and-half r x
      ∙ ap (bit_and (r / 2)) (xor-half a b)
      ∙ ih
      ∙ sym (ap₂ bit_xor (and-half r a) (and-half r b))
      ∙ sym (xor-half (bit_and r a) (bit_and r b)) in
    let low : bit_and r x % 2 ≡ bit_xor (bit_and r a) (bit_and r b) % 2 = omega (
      arith,
      and-odd r x,
      and-odd r a,
      and-odd r b,
      xor-odd a b,
      xor-odd (bit_and r a) (bit_and r b),
    ) in
    omega (arith, half, low)

-- A mask distributes over exclusive or.
pub and-xor : (r a b : ℕ) → bit_and r (bit_xor a b) ≡ bit_xor (bit_and r a) (bit_and r b)
and-xor r a b = and-xor_fuel r r a b (omega arith)
