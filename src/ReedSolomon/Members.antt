-- ===== src/ReedSolomon/Members.antt =====
-- Membership in the lists of positions of gfsk_ax25/reedsolomon.py.
use gs_flowgraphs.Base.{
  ℕ, zero, suc, ◌<◌, Bool, true, false, List, [], ◌∷◌, ◌++◌, ◌≡◌, refl, arith, ltb, ◌==◌,
  if◌then◌else◌, Bool-cases, ◌⊎◌, inl, inr, length, get_or,
}
use gs_flowgraphs.ReedSolomon.Decoder.{mem, inserted, sorted_set}

pub mem-head : (p q : ℕ) (ps : List ℕ) → p ≡ q → mem p (q ∷ ps) ≡ true
unfolding mem
mem-head p q ps h = ground arith

pub mem-tail : (p q : ℕ) (ps : List ℕ) → mem p ps ≡ true → mem p (q ∷ ps) ≡ true
unfolding mem
mem-tail p q ps h = ground arith

mem-either : (p q : ℕ) (ps : List ℕ) → mem p (q ∷ ps) ≡ true → (p ≡ q) ⊎ (mem p ps ≡ true)
unfolding mem
mem-either p q ps h = elim (Bool-cases (p == q)) [
  | inl same ↦ inl (ground arith)
  | inr other ↦ inr (ground arith)
]

pub mem-left : (p : ℕ) (xs ys : List ℕ) → mem p xs ≡ true → mem p (xs ++ ys) ≡ true
unfolding mem
mem-left p [] ys h = absurd (cc)
mem-left p (x ∷ xs) ys h = elim (mem-either p x xs h) [
  | inl same ↦ mem-head p x (xs ++ ys) same
  | inr later ↦ mem-tail p x (xs ++ ys) (mem-left p xs ys later)
]

pub mem-right : (p : ℕ) (xs ys : List ℕ) → mem p ys ≡ true → mem p (xs ++ ys) ≡ true
mem-right p [] ys h = h
mem-right p (x ∷ xs) ys h = mem-tail p x (xs ++ ys) (mem-right p xs ys h)

pub mem-append :
    (p : ℕ) (xs ys : List ℕ) → mem p (xs ++ ys) ≡ true → (mem p xs ≡ true) ⊎ (mem p ys ≡ true)
mem-append p [] ys h = inr h
mem-append p (x ∷ xs) ys h = elim (mem-either p x (xs ++ ys) h) [
  | inl same ↦ inl (mem-head p x xs same)
  | inr later ↦ elim (mem-append p xs ys later) [
    | inl left ↦ inl (mem-tail p x xs left)
    | inr right ↦ inr right
  ]
]

pub mem-get_or : (ps : List ℕ) (i : ℕ) → i < length ps → mem (get_or ps i 0) ps ≡ true
mem-get_or [] i h = absurd (omega arith)
mem-get_or (p ∷ ps) zero h = mem-head p p ps refl
mem-get_or (p ∷ ps) (suc i) h = mem-tail (get_or ps i 0) p ps (mem-get_or ps i (omega arith))

inserted-mem : (p q : ℕ) (qs : List ℕ) → mem p (inserted q qs) ≡ true → (p ≡ q) ⊎ (mem p qs ≡ true)
unfolding inserted
inserted-mem p q [] h = mem-either p q [] h
inserted-mem p q (r ∷ qs) h = pick (inserted-mem p q qs) (q == r) (ltb q r) h
  where
    deeper : (p ≡ q) ⊎ (mem p qs ≡ true) → (p ≡ q) ⊎ (mem p (r ∷ qs) ≡ true)
    deeper (inl same) = inl same
    deeper (inr there) = inr (mem-tail p r qs there)

    pick :
        (mem p (inserted q qs) ≡ true → (p ≡ q) ⊎ (mem p qs ≡ true))
        → (same below : Bool)
        → mem p (if same then r ∷ qs else if below then q ∷ r ∷ qs else r ∷ inserted q qs) ≡ true
        → (p ≡ q) ⊎ (mem p (r ∷ qs) ≡ true)
    pick later true below k = inr k
    pick later false true k = mem-either p q (r ∷ qs) k
    pick later false false k = elim (mem-either p r (inserted q qs) k) [
      | inl here ↦ inr (mem-head p r qs here)
      | inr there ↦ deeper (later there)
    ]

pub sorted_set-mem : (p : ℕ) (ps : List ℕ) → mem p (sorted_set ps) ≡ true → mem p ps ≡ true
unfolding sorted_set
sorted_set-mem p [] h = h
sorted_set-mem p (q ∷ ps) h = elim (inserted-mem p q (sorted_set ps) h) [
  | inl same ↦ mem-head p q ps same
  | inr later ↦ mem-tail p q ps (sorted_set-mem p ps later)
]
