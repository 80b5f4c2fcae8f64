-- ===== src/Argos/Division.antt =====
-- The division of argos.py, one bit of the dividend at a time, and its linearity.
use native.Mathlib.Nat.{
  pow-suc, one-le-pow, pow-le-pow_right, div-eq_of_lt, div-eq_of_lt-le, le-div_iff_mul-le,
}
use native.Mathlib.Numerals.{towards_suc}
use gs_flowgraphs.Base.{
  ℕ, zero, suc, ◌+◌, ◌-◌, ◌*◌, ◌/◌, ◌^◌, ◌≤◌, ◌<◌, ◌≡◌, refl, ap, ap₂, sym, ◌∙◌, subst, true, false,
  arith, inl, inr, Bool-cases, ◌⊎◌,
}
use gs_flowgraphs.Base.{leb, ◌==◌, if◌then◌else◌, bit_xor, ◌<<<◌}
use gs_flowgraphs.Base.Xor.{
  xor_comm, xor_assoc, xor_self, xor-zero, xor_exchange, xor-shift, xor-lt,
}
use gs_flowgraphs.Argos.{bch_g, bit_length, polymod_loop, polymod}

pow_mono : (k m : ℕ) → k ≤ m → 2 ^ k ≤ 2 ^ m
pow_mono k m h = pow-le-pow_right {n = 2} (omega arith) h

bit_length-le : (m k a : ℕ) → a < 2 ^ k → bit_length m a ≤ k
unfolding bit_length
bit_length-le zero k a h = omega arith
bit_length-le (suc m) k a h = elim (Bool-cases (leb (2 ^ m) a)) [
  | inl big ↦ rw big (elim (Bool-cases (leb k m)) [
    | inl less ↦ absurd (ground (arith, pow_mono k m))
    | inr more ↦ ground arith
  ])
  | inr small ↦ rw small (bit_length-le m k a h)
]

bit_length-eq : (m k a : ℕ) → 2 ^ k ≤ a → a < 2 ^ suc k → k < m → bit_length m a ≡ suc k
unfolding bit_length
bit_length-eq zero k a low high inside = absurd (omega arith)
bit_length-eq (suc m) k a low high inside = elim (Bool-cases (leb (2 ^ m) a)) [
  | inl big ↦ rw big (elim (Bool-cases (leb (suc k) m)) [
    | inl less ↦ absurd (ground (arith, pow_mono (suc k) m))
    | inr more ↦ ground arith
  ])
  | inr small ↦ rw small (elim (Bool-cases (leb m k)) [
    | inl less ↦ absurd (ground (arith, pow_mono m k))
    | inr more ↦ bit_length-eq m k a low high (ground arith)
  ])
]

-- One round: bit `n + 10` is taken away, if it is there.
abbrev pub strip : ℕ → ℕ → ℕ
strip n a = if leb (2 ^ (n + 10)) a then bit_xor a (bch_g <<< n) else a

abbrev pub remainder : ℕ → ℕ → ℕ
remainder zero a = a
remainder (suc n) a = remainder n (strip n a)

-- The bit of weight `2 ^ k`, of a number below twice that.
abbrev Top : ℕ → ℕ → Type 0
Top k a = ((leb (2 ^ k) a ≡ true) × (a / 2 ^ k ≡ 1)) ⊎ ((leb (2 ^ k) a ≡ false) × (a / 2 ^ k ≡ 0))

top : (k a : ℕ) → a < 2 ^ suc k → Top k a
top k a h = elim (Bool-cases (leb (2 ^ k) a)) [
  | inl big ↦ inl (big, div-eq_of_lt-le (2 ^ k) (ground arith) (omega (arith, pow-suc 2 k)))
  | inr small ↦ inr (small, div-eq_of_lt (ground arith))
]

-- A number below twice `2 ^ k` with no bit of that weight is below it.
below_top : (k a : ℕ) → a / 2 ^ k ≡ 0 → a < 2 ^ k
below_top k a e = elim (Bool-cases (leb (2 ^ k) a)) [
  | inl big ↦
      let one : 1 ≤ a / 2 ^ k =
        (le-div_iff_mul-le {k = 2 ^ k} {x = 1} {y = a} (one-le-pow k 2 (omega arith))).1
          (ground arith) in
      absurd (omega (arith, one, e))
  | inr small ↦ ground arith
]

ten_more : (n : ℕ) → 2 ^ (n + 10) ≡ 1024 * 2 ^ n
ten_more n =
    let e : n + 10 ≡ suc (suc (n + 8)) = omega arith in
    let eight : 2 ^ (n + 8) ≡ 256 * 2 ^ n = simp towards_suc (omega arith) in
    rw e (omega (arith, eight, pow-suc 2 (suc (n + 8)), pow-suc 2 (n + 8)))

divisor_small : (n : ℕ) → bch_g <<< n < 2 ^ suc (n + 10)
divisor_small n = omega (arith, ten_more n, pow-suc 2 (n + 10), one-le-pow n 2 (omega arith))

divisor_top : (n : ℕ) → bch_g <<< n / 2 ^ (n + 10) ≡ 1
divisor_top n =
    div-eq_of_lt-le (2 ^ (n + 10)) (omega (arith, ten_more n))
      (omega (arith, ten_more n, one-le-pow n 2 (omega arith)))

strip-lt : (n a : ℕ) → a < 2 ^ suc (n + 10) → strip n a < 2 ^ (n + 10)
strip-lt n a h = elim (top (n + 10) a h) [
  | inl (big, one) ↦ rw big (
      below_top (n + 10) (bit_xor a (bch_g <<< n))
        (xor-shift (n + 10) a (bch_g <<< n) ∙ ap₂ bit_xor one (divisor_top n)))
  | inr (small, none) ↦ rw small (below_top (n + 10) a none)
]

strip-xor :
    (n a b : ℕ)
    → a < 2 ^ suc (n + 10)
    → b < 2 ^ suc (n + 10)
    → strip n (bit_xor a b) ≡ bit_xor (strip n a) (strip n b)
strip-xor n a b h k =
    let G = bch_g <<< n in
    let joint = xor-shift (n + 10) a b in
    let c = top (n + 10) (bit_xor a b) (xor-lt (suc (n + 10)) a b h k) in
    elim (top (n + 10) a h) [
      | inl (big_a, one_a) ↦ elim (top (n + 10) b k) [
        | inl (big_b, one_b) ↦ elim c [
          | inl (big, one) ↦ absurd (omega (arith, joint, one, ap₂ bit_xor one_a one_b))
          | inr (small, none) ↦
              rw (small, big_a, big_b)
                (sym (xor-zero (bit_xor a b))
                  ∙ ap (bit_xor (bit_xor a b)) (sym (xor_self G))
                  ∙ xor_exchange a b G G)
        ]
        | inr (small_b, none_b) ↦ elim c [
          | inl (big, one) ↦
              rw (big, big_a, small_b)
                (xor_assoc a b G ∙ ap (bit_xor a) (xor_comm b G) ∙ sym (xor_assoc a G b))
          | inr (small, none) ↦ absurd (omega (arith, joint, none, ap₂ bit_xor one_a none_b))
        ]
      ]
      | inr (small_a, none_a) ↦ elim (top (n + 10) b k) [
        | inl (big_b, one_b) ↦ elim c [
          | inl (big, one) ↦ rw (big, small_a, big_b) (xor_assoc a b G)
          | inr (small, none) ↦ absurd (omega (arith, joint, none, ap₂ bit_xor none_a one_b))
        ]
        | inr (small_b, none_b) ↦ elim c [
          | inl (big, one) ↦ absurd (omega (arith, joint, one, ap₂ bit_xor none_a none_b))
          | inr (small, none) ↦ rw (small, small_a, small_b) refl
        ]
      ]
    ]

more : (n a : ℕ) → a < 2 ^ (suc n + 10) → a < 2 ^ suc (n + 10)
more n a h = let e : suc n + 10 ≡ suc (n + 10) = omega arith in subst (λ t. a < 2 ^ t) e h

pub remainder-xor :
    (n a b : ℕ)
    → a < 2 ^ (n + 10)
    → b < 2 ^ (n + 10)
    → remainder n (bit_xor a b) ≡ bit_xor (remainder n a) (remainder n b)
remainder-xor zero a b h k = refl
remainder-xor (suc n) a b h k =
    let h' = more n a h in
    let k' = more n b k in
    ap (remainder n) (strip-xor n a b h' k')
    ∙ remainder-xor n (strip n a) (strip n b) (strip-lt n a h') (strip-lt n b k')

pub remainder-lt : (n a : ℕ) → a < 2 ^ (n + 10) → remainder n a < 2 ^ 10
remainder-lt zero a h = let e : zero + 10 ≡ 10 = omega arith in subst (λ t. a < 2 ^ t) e h
remainder-lt (suc n) a h = remainder-lt n (strip n a) (strip-lt n a (more n a h))

length_g : bit_length 31 bch_g ≡ 11
unfolding bit_length
length_g = refl

polymod_loop-remainder :
    (n fuel a : ℕ)
    → n ≤ fuel
    → n ≤ 21
    → a < 2 ^ (n + 10)
    → polymod_loop fuel a bch_g ≡ remainder n a
unfolding polymod_loop
polymod_loop-remainder zero zero a enough few h = refl
polymod_loop-remainder zero (suc fuel) a enough few h =
    let shorter = bit_length-le 31 10 a (remainder-lt zero a h) in
    let stops : leb (bit_length 31 bch_g) (bit_length 31 a) ≡ false = ground (arith, length_g) in
    rw stops refl
polymod_loop-remainder (suc n) zero a enough few h = absurd (omega arith)
polymod_loop-remainder (suc n) (suc fuel) a enough few h = elim (top (n + 10) a (more n a h)) [
  | inl (big, one) ↦
      let long : bit_length 31 a ≡ suc (n + 10) =
        bit_length-eq 31 (n + 10) a (ground arith) (more n a h) (omega arith) in
      let goes : leb (bit_length 31 bch_g) (bit_length 31 a) ≡ true = ground (arith, length_g) in
      let pos : (a == 0) ≡ false = ground (arith, one-le-pow (n + 10) 2 (omega arith)) in
      let by : bit_length 31 a - bit_length 31 bch_g ≡ n = omega (arith, length_g) in
      let inside : bit_xor a (bch_g <<< n) < 2 ^ (n + 10) = rw big at (strip-lt n a (more n a h)) in
      rw (goes, pos, by, big)
        (polymod_loop-remainder n fuel (bit_xor a (bch_g <<< n)) (omega arith) (omega arith) inside)
  | inr (small, none) ↦ rw small (
      polymod_loop-remainder n (suc fuel) a (omega arith) (omega arith) (below_top (n + 10) a none))
]

pub polymod-eq : (a : ℕ) → a < 2 ^ 31 → polymod a bch_g ≡ remainder 21 a
unfolding polymod
polymod-eq a h = polymod_loop-remainder 21 31 a (omega arith) (omega arith) h

pub polymod-xor :
    (a b : ℕ)
    → a < 2 ^ 31
    → b < 2 ^ 31
    → polymod (bit_xor a b) bch_g ≡ bit_xor (polymod a bch_g) (polymod b bch_g)
polymod-xor a b h k =
    polymod-eq (bit_xor a b) (xor-lt 31 a b h k)
    ∙ remainder-xor 21 a b h k
    ∙ sym (ap₂ bit_xor (polymod-eq a h) (polymod-eq b k))

pub polymod-lt : (a : ℕ) → a < 2 ^ 31 → polymod a bch_g < 2 ^ 10
polymod-lt a h = subst (λ r. r < 2 ^ 10) (sym (polymod-eq a h)) (remainder-lt 21 a h)

pub polymod-small : (a : ℕ) → a < 2 ^ 10 → polymod a bch_g ≡ a
unfolding polymod
polymod-small a h = polymod_loop-remainder 0 31 a (omega arith) (omega arith) h
