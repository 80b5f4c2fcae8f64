-- ===== src/Base/Word.antt =====
-- Shifts, masks and joined fields of Python integers, as arithmetic.
use Prim.Native.Nat.{ℕ, zero, suc, ◌+◌, ◌-◌, ◌*◌, ◌/◌, ◌%◌, ◌^◌, ◌≤◌, ◌<◌, min, max}
use Prim.Native.Nat.{bit_and, bit_or, bit_and-bitwise, bit_or-bitwise}
use mathlib.Core.Path.{◌≡◌, refl, ap, sym, ◌∙◌}
use mathlib.Core.Bool.{Bool, true, false}
use native.Mathlib.Nat.{
  pow-suc, one-le-pow, mul_comm, div-div-eq-div-mul, mod-eq-sub-div-mul, div-mul-le_self,
}
use native.Mathlib.Omega.{arith}
use gs_flowgraphs.Base.Digits.{digits-suc}

infixl 75 ◌<<<◌ ◌>>>◌
-- x << k
abbrev pub ◌<<<◌ : ℕ → ℕ → ℕ
x <<< k = x * 2 ^ k

-- x >> k
abbrev pub ◌>>>◌ : ℕ → ℕ → ℕ
x >>> k = x / 2 ^ k

-- A hard bit as the integer 0 or 1.
abbrev pub bit : Bool → ℕ
bit false = 0
bit true = 1

-- Whether an integer is odd: `x & 1` as a hard bit.
unfoldable pub odd : ℕ → Bool
odd x = elim (x % 2) [ zero ↦ false | suc _ ↦ true ]

pub bit-odd : (x : ℕ) → bit (odd x) ≡ x % 2
unfolding odd
bit-odd x = ground arith

-- A number with the parity of a bit has that bit as its lowest digit.
pub odd_of : (b : Bool) (x : ℕ) → x % 2 ≡ bit b → odd x ≡ b
unfolding odd
odd_of false x e = ground arith
odd_of true x e = ground arith

pub and_step : (a b : ℕ) → bit_and a b ≡ bit_and (a / 2) (b / 2) * 2 + min (a % 2) (b % 2)
and_step zero b = omega (arith, bit_and-bitwise 0 b, bit_and-bitwise 0 (b / 2))
and_step (suc a) b = omega (
  arith,
  bit_and-bitwise (suc a) b,
  bit_and-bitwise (suc a / 2) (b / 2),
  digits-suc (λ y. 0) min a b,
)

pub or_step : (a b : ℕ) → bit_or a b ≡ bit_or (a / 2) (b / 2) * 2 + max (a % 2) (b % 2)
or_step zero b = omega (arith, bit_or-bitwise 0 b, bit_or-bitwise 0 (b / 2))
or_step (suc a) b = omega (
  arith,
  bit_or-bitwise (suc a) b,
  bit_or-bitwise (suc a / 2) (b / 2),
  digits-suc (λ y. y) max a b,
)

and-zero_fuel : (n a : ℕ) → a ≤ n → bit_and a 0 ≡ 0
and-zero_fuel n zero p = bit_and-bitwise 0 0
and-zero_fuel zero (suc a) p = absurd (omega arith)
and-zero_fuel (suc n) (suc a) p =
    omega (arith, and_step (suc a) 0, and-zero_fuel n (suc a / 2) (omega arith))

or-zero_fuel : (n a : ℕ) → a ≤ n → bit_or a 0 ≡ a
or-zero_fuel n zero p = bit_or-bitwise 0 0
or-zero_fuel zero (suc a) p = absurd (omega arith)
or-zero_fuel (suc n) (suc a) p =
    omega (arith, or_step (suc a) 0, or-zero_fuel n (suc a / 2) (omega arith))

pub mod_double : (m x : ℕ) → 0 < m → x % (m * 2) ≡ x / 2 % m * 2 + x % 2
mod_double m x pos =
    let q : x / (m * 2) ≡ x / 2 / m = rw (mul_comm m 2) (sym (div-div-eq-div-mul x 2 m)) in
    mod-eq-sub-div-mul x (m * 2)
    ∙ rw q (omega (arith, mod-eq-sub-div-mul (x / 2) m, div-mul-le_self (x / 2) m))

-- `x & ((1 << k) - 1)` is the remainder.
pub and_mask : (k x : ℕ) → bit_and x (2 ^ k - 1) ≡ x % 2 ^ k
and_mask zero x = omega (arith, and-zero_fuel x x (omega arith))
and_mask (suc k) x =
    let e = pow-suc 2 k in
    let pos = one-le-pow k 2 in
    let half : (2 ^ suc k - 1) / 2 ≡ 2 ^ k - 1 = omega (arith, e, pos) in
    let low : (2 ^ suc k - 1) % 2 ≡ 1 = omega (arith, e, pos) in
    let ih = and_mask k (x / 2) in
    and_step x (2 ^ suc k - 1)
    ∙ rw (half, low, ih) (rw e (omega (arith, mod_double (2 ^ k) x (pos (omega arith)))))

-- `(q << k) | r` is a sum when `r` fits in `k` bits.
pub or_fields : (k q r : ℕ) → r < 2 ^ k → bit_or (q <<< k) r ≡ q * 2 ^ k + r
or_fields zero q zero fits = omega (arith, or-zero_fuel (q * 2 ^ 0) (q * 2 ^ 0) (omega arith))
or_fields zero q (suc r) fits = absurd (omega arith)
or_fields (suc k) q r fits =
    let e : q * 2 ^ suc k ≡ 2 * (q * 2 ^ k) = omega (arith, ap (λ (t : ℕ). q * t) (pow-suc 2 k)) in
    let half : q * 2 ^ suc k / 2 ≡ q * 2 ^ k = omega (arith, e) in
    let ih = or_fields k q (r / 2) (omega (arith, pow-suc 2 k)) in
    or_step (q * 2 ^ suc k) r ∙ rw (half, ih) (omega (arith, e))

pub low_or_fields : (k q r : ℕ) → r < 2 ^ k → bit_or r (q <<< k) ≡ q * 2 ^ k + r
low_or_fields zero q zero fits = omega (arith, bit_or-bitwise 0 (q * 2 ^ 0))
low_or_fields zero q (suc r) fits = absurd (omega arith)
low_or_fields (suc k) q r fits =
    let e : q * 2 ^ suc k ≡ 2 * (q * 2 ^ k) = omega (arith, ap (λ (t : ℕ). q * t) (pow-suc 2 k)) in
    let half : q * 2 ^ suc k / 2 ≡ q * 2 ^ k = omega (arith, e) in
    let ih = low_or_fields k q (r / 2) (omega (arith, pow-suc 2 k)) in
    or_step r (q * 2 ^ suc k) ∙ rw (half, ih) (omega (arith, e))

-- The binary digit of weight `2 ^ i`.
unfoldable pub test_bit : ℕ → ℕ → Bool
test_bit x zero = odd x
test_bit x (suc i) = test_bit (x / 2) i

pub test_bit-mod : (n i x : ℕ) → i < n → test_bit (x % 2 ^ n) i ≡ test_bit x i
unfolding test_bit
test_bit-mod zero i x h = absurd (omega arith)
test_bit-mod (suc n) zero x h = odd_of (odd x) (x % 2 ^ suc n) (
    omega (arith, pow-suc 2 n, bit-odd x, mod_double (2 ^ n) x (one-le-pow n 2 (omega arith)), low))
  where
    low : x % 2 ^ suc n ≡ x / 2 % 2 ^ n * 2 + x % 2
    low = rw (pow-suc 2 n) (mod_double (2 ^ n) x (one-le-pow n 2 (omega arith)))
test_bit-mod (suc n) (suc i) x h =
    ap (λ t. test_bit t i) (omega (arith, low)) ∙ test_bit-mod n i (x / 2) (omega arith)
  where
    low : x % 2 ^ suc n ≡ x / 2 % 2 ^ n * 2 + x % 2
    low = rw (pow-suc 2 n) (mod_double (2 ^ n) x (one-le-pow n 2 (omega arith)))

pub test_bit_zero : (i : ℕ) → test_bit 0 i ≡ false
unfolding test_bit odd
test_bit_zero zero = refl
test_bit_zero (suc i) = test_bit_zero i
