-- ===== src/LineCode/Descrambler.antt =====
-- The self-synchronising descrambler of linecode.py: it undoes the scrambler, chunk by chunk, and
-- forgets the register it started from.
use native.Mathlib.Nat.{pow-suc, pow-succ', div-div-eq-div-mul, div-eq_of_lt}
use gs_flowgraphs.Base.{
  ℕ, zero, suc, ◌+◌, ◌*◌, ◌/◌, ◌^◌, ◌≤◌, ◌<◌, ◌≡◌, refl, ap, ap₂, sym, ◌∙◌, Bool, true, false, List,
  [], ◌∷◌, ◌++◌, arith, inl, inr,
}
use gs_flowgraphs.Base.{Bool-cases, ok, ◌⊕◌, drop, bit, low_or_fields, value_error}
use gs_flowgraphs.LineCode.{
  SelfSynchronizingDescrambler, tapped, register_ok, shift_down, descrambler, push_bits, push_state,
  push, multiplicative_loop, multiplicative_scramble,
}

again : (feedback b : Bool) → feedback ⊕ (feedback ⊕ b) ≡ b
again false b = refl
again true false = refl
again true true = refl

loops :
    (mask register_length state : ℕ) (bits : List Bool)
    → push_bits mask register_length state (multiplicative_loop mask register_length state bits)
      ≡ bits
unfolding push_bits multiplicative_loop
loops mask register_length state [] = refl
loops mask register_length state (b ∷ bits) =
    ap₂ ◌∷◌ (again (tapped mask state) b)
      (loops mask register_length (shift_down register_length state (tapped mask state ⊕ b)) bits)

bits-append :
    (mask register_length state : ℕ) (xs ys : List Bool)
    → push_bits mask register_length state (xs ++ ys)
      ≡ push_bits mask register_length state xs
        ++ push_bits mask register_length (push_state register_length state xs) ys
unfolding push_bits push_state
bits-append mask register_length state [] ys = refl
bits-append mask register_length state (x ∷ xs) ys =
    ap (◌∷◌ (tapped mask state ⊕ x))
      (bits-append mask register_length (shift_down register_length state x) xs ys)

state-append :
    (register_length state : ℕ) (xs ys : List Bool)
    → push_state register_length state (xs ++ ys)
      ≡ push_state register_length (push_state register_length state xs) ys
unfolding push_state
state-append register_length state [] ys = refl
state-append register_length state (x ∷ xs) ys =
    state-append register_length (shift_down register_length state x) xs ys

-- Pushing a stream in two chunks gives the same output, joined, and the same descrambler as
-- pushing it at once.
pub push-append :
    (d : SelfSynchronizingDescrambler) (xs ys : List Bool)
    → let first = push d xs in
      let second = push first.0 ys in push d (xs ++ ys) ≡ (second.0, first.1 ++ second.1)
unfolding push
push-append d xs ys =
    ap₂ (λ s out. (record d { state = s }, out)) (state-append d.register_length d.state xs ys)
      (bits-append d.mask d.register_length d.state xs ys)

shift_down-eq : (l s : ℕ) (r : Bool) → s < 2 ^ suc l → shift_down l s r ≡ bit r * 2 ^ l + s / 2
unfolding shift_down
shift_down-eq l s r fits = low_or_fields l (bit r) (s / 2) (omega (arith, pow-suc 2 l))

shift_down-lt : (l s : ℕ) (r : Bool) → s < 2 ^ suc l → shift_down l s r < 2 ^ suc l
shift_down-lt l s false fits = omega (arith, shift_down-eq l s false fits, pow-suc 2 l)
shift_down-lt l s true fits = omega (arith, shift_down-eq l s true fits, pow-suc 2 l)

halved : (j x : ℕ) → x / 2 ^ suc j ≡ x / 2 / 2 ^ j
halved j x = rw (pow-succ' 2 j) (sym (div-div-eq-div-mul x 2 (2 ^ j)))

-- Above its lowest `j` digits, a shifted register is the received bit and what was there before.
above : (j l b : ℕ) → j ≤ l → (c : ℕ) × ((s : ℕ) → (b * 2 ^ l + s / 2) / 2 ^ j ≡ c + s / 2 ^ suc j)
above zero l b h = (b * 2 ^ l, λ s. omega arith)
above (suc j) zero b h = absurd (omega arith)
above (suc j) (suc l) b h =
    let rest = above j l b (omega arith) in
    let doubled : b * 2 ^ suc l ≡ 2 * (b * 2 ^ l) =
      omega (arith, ap (λ (t : ℕ). b * t) (pow-suc 2 l)) in
    (
      rest.0,
      λ s.
          let half : (b * 2 ^ suc l + s / 2) / 2 ≡ b * 2 ^ l + s / 2 / 2 = omega (arith, doubled) in
          halved j (b * 2 ^ suc l + s / 2)
          ∙ ap (λ x. x / 2 ^ j) half
          ∙ rest.1 (s / 2)
          ∙ ap (◌+◌ rest.0) (sym (halved (suc j) s)),
    )

-- Two registers that agree above their lowest `k` digits give the same after `k` bits.
push_bits_sync :
    (k mask l s t : ℕ) (bits : List Bool)
    → k ≤ suc l
    → s < 2 ^ suc l
    → t < 2 ^ suc l
    → s / 2 ^ k ≡ t / 2 ^ k
    → drop k (push_bits mask l s bits) ≡ drop k (push_bits mask l t bits)
unfolding push_bits
push_bits_sync zero mask l s t bits h fs ft e =
    ap (λ x. push_bits mask l x bits) {x = s} {y = t} (omega (arith, e))
push_bits_sync (suc k) mask l s t [] h fs ft e = refl
push_bits_sync (suc k) mask l s t (r ∷ bits) h fs ft e =
    push_bits_sync k mask l (shift_down l s r) (shift_down l t r) bits (omega arith)
      (shift_down-lt l s r fs) (shift_down-lt l t r ft) agree
  where
    high : (c : ℕ) × ((s : ℕ) → (bit r * 2 ^ l + s / 2) / 2 ^ k ≡ c + s / 2 ^ suc k)
    high = above k l (bit r) (omega arith)

    agree : shift_down l s r / 2 ^ k ≡ shift_down l t r / 2 ^ k
    agree =
        rw (shift_down-eq l s r fs, shift_down-eq l t r ft)
          (high.1 s ∙ ap (◌+◌ high.0) e ∙ sym (high.1 t))

-- What the tests of the constructor leave.
descrambler_made :
    (mask seed register_length : ℕ) (d : SelfSynchronizingDescrambler)
    → descrambler mask seed register_length ≡ ok d
    → (d ≡ record { mask = mask; seed = seed; register_length = register_length; state = seed })
      × (seed < 2 ^ suc register_length)
unfolding descrambler register_ok
descrambler_made mask seed register_length d h = (ground arith, ground arith)

scrambled :
    (bits sent : List Bool) (mask seed register_length : ℕ)
    → multiplicative_scramble bits mask seed register_length ≡ ok sent
    → (multiplicative_loop mask register_length seed bits ≡ sent) × (seed < 2 ^ suc register_length)
unfolding multiplicative_scramble descrambler
scrambled bits sent mask seed register_length h =
    elim (Bool-cases (register_ok mask seed register_length)) [
      | inl good ↦
          let e : ok (multiplicative_loop mask register_length seed bits) ≡ ok sent =
            rw good at h in
          (cc, unfold register_ok in ground arith)
      | inr bad ↦ absurd (let e : value_error ≡ ok sent = rw bad at h in cc)
    ]

-- A descrambler with the scrambler's register and seed gives the bits back, whatever the mask.
pub push-multiplicative_scramble :
    (bits sent : List Bool) (mask seed register_length : ℕ) (d : SelfSynchronizingDescrambler)
    → multiplicative_scramble bits mask seed register_length ≡ ok sent
    → descrambler mask seed register_length ≡ ok d
    → (push d sent).1 ≡ bits
unfolding push
push-multiplicative_scramble bits sent mask seed register_length d s m =
    let made = descrambler_made mask seed register_length d m in
    ap₂ (λ x out. push_bits x.mask x.register_length x.state out) made.0
      (sym (scrambled bits sent mask seed register_length s).0)
    ∙ loops mask register_length seed bits

-- A descrambler with the same register and any seed gives all bits back after the first
-- `register_length + 1`.
pub push_self_sync :
    (bits sent : List Bool) (mask seed other register_length : ℕ) (d : SelfSynchronizingDescrambler)
    → multiplicative_scramble bits mask seed register_length ≡ ok sent
    → descrambler mask other register_length ≡ ok d
    → drop (suc register_length) (push d sent).1 ≡ drop (suc register_length) bits
unfolding push
push_self_sync bits sent mask seed other register_length d s m =
    let made = descrambler_made mask other register_length d m in
    let from = scrambled bits sent mask seed register_length s in
    ap₂ (λ x out. drop (suc register_length) (push_bits x.mask x.register_length x.state out))
      made.0 (sym from.0)
    ∙ push_bits_sync (suc register_length) mask register_length other seed
        (multiplicative_loop mask register_length seed bits) (omega arith) made.1 from.1
        (div-eq_of_lt made.1 ∙ sym (div-eq_of_lt from.1))
    ∙ ap (drop (suc register_length)) (loops mask register_length seed bits)
