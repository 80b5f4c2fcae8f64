-- ===== src/Base/Xor.antt =====
-- `^` of Python integers: the laws at variables, by induction on the binary digits.
use Prim.Native.Nat.{ℕ, zero, suc, ◌+◌, ◌*◌, ◌/◌, ◌%◌, ◌^◌, ◌≤◌, ◌<◌}
use Prim.Native.Nat.{bit_xor, bit_xor-bitwise, differ}
use gs_flowgraphs.Base.Digits.{digits-suc}
use mathlib.Core.Path.{◌≡◌, refl, ap, ap₂, sym, ◌∙◌}
use native.Mathlib.Nat.{le_refl, pow-suc, pow-succ', div-div-eq-div-mul, one-le-pow}
use mathlib.Core.Bool.{Bool, true, false}
use gs_flowgraphs.Base.Tests.{◌⊕◌}
use gs_flowgraphs.Base.Word.{mod_double, odd, bit, bit-odd, odd_of}
use native.Mathlib.Omega.{arith}

-- One digit: exclusive or is addition modulo 2.
differ-eq : (a b : ℕ) → a < 2 → b < 2 → differ a b ≡ (a + b) % 2
differ-eq zero zero p q = refl
differ-eq zero (suc zero) p q = refl
differ-eq zero (suc (suc b)) p q = absurd (omega arith)
differ-eq (suc zero) zero p q = refl
differ-eq (suc zero) (suc zero) p q = refl
differ-eq (suc zero) (suc (suc b)) p q = absurd (omega arith)
differ-eq (suc (suc a)) b p q = absurd (omega arith)

pub zero-xor : (b : ℕ) → bit_xor 0 b ≡ b
zero-xor b = bit_xor-bitwise 0 b

pub xor_step : (a b : ℕ) → bit_xor a b ≡ bit_xor (a / 2) (b / 2) * 2 + (a % 2 + b % 2) % 2
xor_step zero b = omega (arith, zero-xor b, zero-xor (b / 2))
xor_step (suc a) b = omega (
  arith,
  bit_xor-bitwise (suc a) b,
  bit_xor-bitwise (suc a / 2) (b / 2),
  digits-suc (λ y. y) differ a b,
  differ-eq (suc a % 2) (b % 2) (omega arith) (omega arith),
)

pub xor-half : (a b : ℕ) → bit_xor a b / 2 ≡ bit_xor (a / 2) (b / 2)
xor-half a b = omega (arith, xor_step a b)

pub xor-odd : (a b : ℕ) → bit_xor a b % 2 ≡ (a % 2 + b % 2) % 2
xor-odd a b = omega (arith, xor_step a b)

-- Two numbers are equal when their lowest digits and their halves are.
halves_ext : (a b : ℕ) → a / 2 ≡ b / 2 → a % 2 ≡ b % 2 → a ≡ b
halves_ext a b p q = omega arith

comm_fuel : (n a b : ℕ) → a ≤ n → b ≤ n → bit_xor a b ≡ bit_xor b a
comm_fuel zero zero zero p q = refl
comm_fuel zero (suc a) b p q = absurd (omega arith)
comm_fuel zero zero (suc b) p q = absurd (omega arith)
comm_fuel (suc n) a b p q =
    omega
      (arith, xor_step a b, xor_step b a, comm_fuel n (a / 2) (b / 2) (omega arith) (omega arith))

pub xor_comm : (a b : ℕ) → bit_xor a b ≡ bit_xor b a
xor_comm a b = comm_fuel (a + b) a b (omega arith) (omega arith)

pub xor-zero : (a : ℕ) → bit_xor a 0 ≡ a
xor-zero a = xor_comm a 0 ∙ zero-xor a

self_fuel : (n a : ℕ) → a ≤ n → bit_xor a a ≡ 0
self_fuel zero zero p = refl
self_fuel zero (suc a) p = absurd (omega arith)
self_fuel (suc n) a p = omega (arith, xor_step a a, self_fuel n (a / 2) (omega arith))

pub xor_self : (a : ℕ) → bit_xor a a ≡ 0
xor_self a = self_fuel a a (le_refl a)

assoc_fuel :
    (n a b c : ℕ) → a ≤ n → b ≤ n → c ≤ n → bit_xor (bit_xor a b) c ≡ bit_xor a (bit_xor b c)
assoc_fuel zero zero zero zero p q r = refl
assoc_fuel zero (suc a) b c p q r = absurd (omega arith)
assoc_fuel zero zero (suc b) c p q r = absurd (omega arith)
assoc_fuel zero zero zero (suc c) p q r = absurd (omega arith)
assoc_fuel (suc n) a b c p q r =
    halves_ext _ _
      (xor-half (bit_xor a b) c
        ∙ ap (λ t. bit_xor t (c / 2)) (xor-half a b)
        ∙ assoc_fuel n (a / 2) (b / 2) (c / 2) (omega arith) (omega arith) (omega arith)
        ∙ ap (bit_xor (a / 2)) (sym (xor-half b c))
        ∙ sym (xor-half a (bit_xor b c)))
      (omega (arith, xor-odd (bit_xor a b) c, xor-odd a b, xor-odd a (bit_xor b c), xor-odd b c))

pub xor_assoc : (a b c : ℕ) → bit_xor (bit_xor a b) c ≡ bit_xor a (bit_xor b c)
xor_assoc a b c = assoc_fuel (a + b + c) a b c (omega arith) (omega arith) (omega arith)

-- The same number on twice cancels.
pub xor_cancel : (a b : ℕ) → bit_xor (bit_xor a b) b ≡ a
xor_cancel a b = xor_assoc a b b ∙ ap (bit_xor a) (xor_self b) ∙ xor-zero a

-- (a ^ b) ^ (c ^ d) = (a ^ c) ^ (b ^ d)
pub xor_exchange :
    (a b c d : ℕ) → bit_xor (bit_xor a b) (bit_xor c d) ≡ bit_xor (bit_xor a c) (bit_xor b d)
xor_exchange a b c d =
    xor_assoc a b (bit_xor c d)
    ∙ ap (bit_xor a)
        (sym (xor_assoc b c d) ∙ ap (λ t. bit_xor t d) (xor_comm b c) ∙ xor_assoc c b d)
    ∙ sym (xor_assoc a c (bit_xor b d))

-- Exclusive or does not carry: it stays within the width.
pub xor-lt : (k a b : ℕ) → a < 2 ^ k → b < 2 ^ k → bit_xor a b < 2 ^ k
xor-lt zero zero zero p q = omega arith
xor-lt zero (suc a) b p q = absurd (omega arith)
xor-lt zero zero (suc b) p q = absurd (omega arith)
xor-lt (suc k) a b p q =
    let e = pow-suc 2 k in
    omega (arith, e, xor_step a b, xor-lt k (a / 2) (b / 2) (omega (arith, e)) (omega (arith, e)))

-- It distributes over a shift to the left.
pub xor-double : (a b : ℕ) → bit_xor (a * 2) (b * 2) ≡ bit_xor a b * 2
xor-double a b =
    let p : a * 2 / 2 ≡ a = omega arith in
    let q : b * 2 / 2 ≡ b = omega arith in
    let r : (a * 2 % 2 + b * 2 % 2) % 2 ≡ 0 = omega arith in
    xor_step (a * 2) (b * 2) ∙ rw (p, q, r) (omega arith)

-- A high field and a low field do not meet.
pub xor_fields : (k q r : ℕ) → r < 2 ^ k → bit_xor (q * 2 ^ k) r ≡ q * 2 ^ k + r
xor_fields zero q zero fits = xor-zero (q * 2 ^ 0) ∙ omega arith
xor_fields zero q (suc r) fits = absurd (omega arith)
xor_fields (suc k) q r fits =
    let e : q * 2 ^ suc k ≡ 2 * (q * 2 ^ k) = omega (arith, ap (λ (t : ℕ). q * t) (pow-suc 2 k)) in
    let half : q * 2 ^ suc k / 2 ≡ q * 2 ^ k = omega (arith, e) in
    let ih = xor_fields k q (r / 2) (omega (arith, pow-suc 2 k)) in
    xor_step (q * 2 ^ suc k) r ∙ rw (half, ih) (omega (arith, e))

-- It commutes with a shift to the right.
pub xor-shift : (k a b : ℕ) → bit_xor a b / 2 ^ k ≡ bit_xor (a / 2 ^ k) (b / 2 ^ k)
xor-shift zero a b =
    let p : (x : ℕ) → x / 2 ^ 0 ≡ x = λ x. omega arith in rw (p (bit_xor a b), p a, p b)
xor-shift (suc k) a b =
    let p : (x : ℕ) → x / 2 ^ suc k ≡ x / 2 / 2 ^ k =
      λ x. rw (pow-succ' 2 k) (sym (div-div-eq-div-mul x 2 (2 ^ k))) in
    rw (p (bit_xor a b), p a, p b, xor-half a b) (xor-shift k (a / 2) (b / 2))

-- It commutes with a mask.
pub xor-mod : (k a b : ℕ) → bit_xor a b % 2 ^ k ≡ bit_xor (a % 2 ^ k) (b % 2 ^ k)
xor-mod zero a b =
    let p : (x : ℕ) → x % 2 ^ 0 ≡ 0 = λ x. omega arith in
    rw (p (bit_xor a b), p a, p b) (sym (zero-xor 0))
xor-mod (suc k) a b =
    let pos : 0 < 2 ^ k = one-le-pow k 2 (omega arith) in
    let p : (x : ℕ) → x % 2 ^ suc k ≡ x / 2 % 2 ^ k * 2 + x % 2 =
      λ x. rw (pow-suc 2 k) (mod_double (2 ^ k) x pos) in
    let half : (x : ℕ) → x % 2 ^ suc k / 2 ≡ x / 2 % 2 ^ k = λ x. omega (arith, p x) in
    let low : (x : ℕ) → x % 2 ^ suc k % 2 ≡ x % 2 = λ x. omega (arith, p x) in
    halves_ext _ _
      (half (bit_xor a b)
        ∙ ap (λ t. t % 2 ^ k) (xor-half a b)
        ∙ xor-mod k (a / 2) (b / 2)
        ∙ sym (ap₂ bit_xor (half a) (half b))
        ∙ sym (xor-half (a % 2 ^ suc k) (b % 2 ^ suc k)))
      (omega (
        arith,
        low (bit_xor a b),
        low a,
        low b,
        xor-odd a b,
        xor-odd (a % 2 ^ suc k) (b % 2 ^ suc k),
      ))

-- The lowest digits are joined as hard bits.
pub odd-xor : (a b : ℕ) → odd (bit_xor a b) ≡ odd a ⊕ odd b
odd-xor a b = odd_of _ (bit_xor a b) (xor-odd a b ∙ sum (odd a) (odd b) (bit-odd a) (bit-odd b))
  where
    sum : (p q : Bool) → bit p ≡ a % 2 → bit q ≡ b % 2 → (a % 2 + b % 2) % 2 ≡ bit (p ⊕ q)
    sum false false e f = omega arith
    sum false true e f = omega arith
    sum true false e f = omega arith
    sum true true e f = omega arith
