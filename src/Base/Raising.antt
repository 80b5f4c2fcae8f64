-- ===== src/Base/Raising.antt =====
-- A call that may raise `ValueError`; the message is not kept.
use mathlib.Core.Path.{◌≡◌, refl}
use mathlib.Core.Bool.{Bool, true, false}
use gs_flowgraphs.Base.Tests.{if◌then◌else◌}

pub data Result {ℓ} (A : Type ℓ) : Type ℓ where
  ok : A → Result A
  value_error : Result A

infixl 5 ◌>>=◌
abbrev pub ◌>>=◌ {ℓ κ} : {A : Type ℓ} {B : Type κ} → Result A → (A → Result B) → Result B
ok a >>= f = f a
value_error >>= f = value_error

-- A result of two calls in turn is one of the second on a result of the first.
pub ok-bind {ℓ κ} :
    {A : Type ℓ} {B : Type κ} (m : Result A) (f : A → Result B) (b : B)
    → (m >>= f) ≡ ok b
    → (a : A) × (m ≡ ok a) × (f a ≡ ok b)
ok-bind (ok a) f b h = (a, refl, h)
ok-bind value_error f b h = absurd (cc)

-- A result behind a test that raises.
pub ok-if {ℓ} :
    {A : Type ℓ} (test : Bool) (m : Result A) (a : A)
    → (if test then value_error else m) ≡ ok a
    → (test ≡ false) × (m ≡ ok a)
ok-if true m a h = absurd (cc)
ok-if false m a h = (refl, h)
