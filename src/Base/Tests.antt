-- ===== src/Base/Tests.antt =====
-- Boolean tests on the native numbers, and the conditional.
use Prim.Native.Nat.{ℕ, zero, suc, ◌<◌, compare, Ordering}
use mathlib.Core.Path.{◌≡◌, refl}
use mathlib.Core.Logic.{◌↔◌, ◌⊎◌, inl, inr}
use mathlib.Core.Bool.{Bool, true, false, ◌&&◌}
use mathlib.Core.Option.{Option, none, some}
use native.Mathlib.Omega.{arith}

abbrev pub ltb : ℕ → ℕ → Bool
ltb a b = elim (compare a b) [ Ordering.lt ↦ true | _ ↦ false ]

abbrev pub leb : ℕ → ℕ → Bool
leb a b = elim (compare a b) [ Ordering.gt ↦ false | _ ↦ true ]

infix 50 ◌==◌
abbrev pub ◌==◌ : ℕ → ℕ → Bool
a == b = elim (compare a b) [ Ordering.eq ↦ true | _ ↦ false ]

infix 1 if◌then◌else◌
abbrev pub if◌then◌else◌ {ℓ} : {A : Type ℓ} → Bool → A → A → A
if true then x else y = x
if false then x else y = y

pub ==_iff : (a b : ℕ) → ((a == b) ≡ true) ↔ (a ≡ b)
==_iff a b = ground arith

pub ==_self : (a : ℕ) → (a == a) ≡ true
==_self a = ground arith

pub Bool-cases : (b : Bool) → (b ≡ true) ⊎ (b ≡ false)
Bool-cases true = inl refl
Bool-cases false = inr refl

pub Option-cases {ℓ} : {A : Type ℓ} (o : Option A) → (o ≡ none) ⊎ ((a : A) × (o ≡ some a))
Option-cases none = inl refl
Option-cases (some a) = inr (a, refl)

-- Exclusive or of two hard bits.
infixl 65 ◌⊕◌
abbrev pub ◌⊕◌ : Bool → Bool → Bool
false ⊕ b = b
true ⊕ false = true
true ⊕ true = false

pub ⊕_cancel : (a b : Bool) → (a ⊕ b) ⊕ b ≡ a
⊕_cancel false false = refl
⊕_cancel false true = refl
⊕_cancel true false = refl
⊕_cancel true true = refl

pub ⊕_assoc : (a b c : Bool) → (a ⊕ b) ⊕ c ≡ a ⊕ (b ⊕ c)
⊕_assoc false b c = refl
⊕_assoc true false c = refl
⊕_assoc true true false = refl
⊕_assoc true true true = refl

pub ⊕-false : (a : Bool) → a ⊕ false ≡ a
⊕-false false = refl
⊕-false true = refl

-- A test that holds of every number below a bound, by evaluation.
unfoldable pub all_below : ℕ → (ℕ → Bool) → Bool
all_below zero test = true
all_below (suc bound) test = all_below bound test && test bound

pub all_below_sound :
    (test : ℕ → Bool) {bound value : ℕ}
    → value < bound
    → all_below bound test ≡ true
    → test value ≡ true
unfolding all_below
all_below_sound test {bound = zero} small every = absurd (omega arith)
all_below_sound test {bound = suc bound} {value = value} small every =
    ground (arith, all_below_sound test {bound = bound} {value = value})

pub lt_of : (a b : ℕ) → ltb a b ≡ true → a < b
lt_of a b h = ground arith

pub both_of : (a b : Bool) → (a && b) ≡ true → (a ≡ true) × (b ≡ true)
both_of true b h = (refl, h)
both_of false b h = absurd (cc)
