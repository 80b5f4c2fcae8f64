-- ===== src/G3ruh/FeedForward.antt =====
-- The feed-forward descrambler over whole arrays is the recurrence from the zero register.
use mathlib.Core.List.{reverse, reverse-cons}
use gs_flowgraphs.Base.{
  ℕ, zero, suc, ◌-◌, ◌≤◌, ◌<◌, ◌≡◌, refl, ap, ap₂, sym, ◌∙◌, Bool, false, List, [], ◌∷◌, ◌++◌,
  append_assoc, arith, ◌⊎◌, inl, inr,
}
use gs_flowgraphs.Base.{◌⊕◌, ⊕_assoc, ⊕-false, get_or, take, length}
use gs_flowgraphs.Base.Word.{test_bit, test_bit_zero}
use gs_flowgraphs.G3ruh.{shift_in, descramble_loop, xor_lagged, feed_forward}
use gs_flowgraphs.G3ruh.Register.{test_bit-shift_in_zero, test_bit-shift_in-suc, fb-eq}

-- Each bit of `outs` with the bit `suc k` places back; `past` holds what came before, newest first.
abbrev lagged : ℕ → List Bool → List Bool → List Bool → List Bool
lagged k past rest [] = []
lagged k past [] (o ∷ outs) = o ∷ outs
lagged k past (r ∷ rest) (o ∷ outs) = (o ⊕ get_or past k false) ∷ lagged k (r ∷ past) rest outs

get_or-long : (past : List Bool) (k : ℕ) → length past ≤ k → get_or past k false ≡ false
get_or-long [] k h = refl
get_or-long (p ∷ past) zero h = absurd (omega arith)
get_or-long (p ∷ past) (suc k) h = get_or-long past k (omega arith)

take_all : (k : ℕ) (past : List Bool) → length past ≤ k → take k past ≡ past
take_all zero [] h = refl
take_all zero (p ∷ past) h = absurd (omega arith)
take_all (suc k) [] h = refl
take_all (suc k) (p ∷ past) h = ap (◌∷◌ p) (take_all k past (omega arith))

-- The oldest of the last `suc k` bits comes first in order of arrival.
reverse-take-suc :
    (k : ℕ) (past : List Bool)
    → k < length past
    → reverse (take (suc k) past) ≡ get_or past k false ∷ reverse (take k past)
reverse-take-suc k [] h = absurd (omega arith)
reverse-take-suc zero (p ∷ past) h = refl
reverse-take-suc (suc k) (p ∷ past) h =
    reverse-cons p (take (suc k) past)
    ∙ ap (λ l. l ++ p ∷ []) (reverse-take-suc k past (omega arith))
    ∙ ap (◌∷◌ (get_or past k false)) (sym (reverse-cons p (take k past)))

-- What `src` is, seen from the place where the history is `past` and `rest` is to come.
abbrev window : ℕ → List Bool → List Bool → List Bool
window k past rest = reverse (take (suc k) past) ++ rest

window-cons :
    (k : ℕ) (past rest : List Bool) (r : Bool)
    → window k (r ∷ past) rest ≡ reverse (take k past) ++ r ∷ rest
window-cons k past rest r =
    ap (λ l. l ++ rest) (reverse-cons r (take k past))
    ∙ append_assoc (reverse (take k past)) (r ∷ []) rest

le_cases : (a b : ℕ) → (a ≤ b) ⊎ (b < a)
le_cases a b = ground arith

xor_lagged-eq :
    (k : ℕ) (past rest outs : List Bool)
    → length outs ≡ length rest
    → xor_lagged (suc k - length past) (window k past rest) outs ≡ lagged k past rest outs
unfolding xor_lagged
xor_lagged-eq k past [] [] e = refl
xor_lagged-eq k past [] (o ∷ outs) e = absurd (omega arith)
xor_lagged-eq k past (r ∷ rest) [] e = absurd (omega arith)
xor_lagged-eq k past (r ∷ rest) (o ∷ outs) e = elim (le_cases (length past) k) [
  | inl early ↦
      let count : suc k - length past ≡ suc (suc k - length (r ∷ past)) = omega arith in
      let same : window k past (r ∷ rest) ≡ window k (r ∷ past) rest =
        ap (λ l. reverse l ++ r ∷ rest)
          (take_all (suc k) past (omega arith) ∙ sym (take_all k past early))
        ∙ sym (window-cons k past rest r) in
      rw (count, get_or-long past k early, ⊕-false o, same)
        (ap (◌∷◌ o) (xor_lagged-eq k (r ∷ past) rest outs (omega arith)))
  | inr late ↦
      let count : suc k - length past ≡ 0 = omega arith in
      let count' : 0 ≡ suc k - length (r ∷ past) = omega arith in
      let head : window k past (r ∷ rest)
          ≡ get_or past k false ∷ (reverse (take k past) ++ r ∷ rest) =
        ap (λ l. l ++ r ∷ rest) (reverse-take-suc k past late) in
      rw (count, head)
        (ap (◌∷◌ (o ⊕ get_or past k false)) (
          ap₂ (λ c w. xor_lagged c w outs) count' (sym (window-cons k past rest r))
          ∙ xor_lagged-eq k (r ∷ past) rest outs (omega arith)))
]

-- The register holds the last 17 bits of the history.
abbrev Holds : ℕ → List Bool → Type 0
Holds sr past = (i : ℕ) → i < 17 → test_bit sr i ≡ get_or past i false

Holds-shift_in :
    (sr : ℕ) (past : List Bool) (y : Bool) → Holds sr past → Holds (shift_in sr y) (y ∷ past)
Holds-shift_in sr past y h zero p = test_bit-shift_in_zero sr y
Holds-shift_in sr past y h (suc i) p =
    test_bit-shift_in-suc sr i y (omega arith) ∙ h i (omega arith)

length-lagged :
    (k : ℕ) (past rest outs : List Bool) → length (lagged k past rest outs) ≡ length outs
length-lagged k past rest [] = refl
length-lagged k past [] (o ∷ outs) = refl
length-lagged k past (r ∷ rest) (o ∷ outs) = ap suc (length-lagged k (r ∷ past) rest outs)

twice_lagged :
    (sr : ℕ) (past bits : List Bool)
    → Holds sr past
    → lagged 16 past bits (lagged 11 past bits bits) ≡ descramble_loop sr bits
unfolding descramble_loop
twice_lagged sr past [] h = refl
twice_lagged sr past (y ∷ bits) h =
    ap₂ ◌∷◌
      (⊕_assoc y (get_or past 11 false) (get_or past 16 false)
        ∙ ap (◌⊕◌ y)
            (ap₂ ◌⊕◌ (sym (h 11 (omega arith))) (sym (h 16 (omega arith))) ∙ sym (fb-eq sr)))
      (twice_lagged (shift_in sr y) (y ∷ past) bits (Holds-shift_in sr past y h))

-- For the zero seed the feed-forward form gives what the recurrence gives, on any bits.
pub feed_forward-eq-descramble_loop :
    (bits : List Bool) → feed_forward bits ≡ descramble_loop 0 bits
unfolding feed_forward
feed_forward-eq-descramble_loop bits =
    xor_lagged-eq 16 [] bits (xor_lagged 12 bits bits)
      (ap length (xor_lagged-eq 11 [] bits bits refl) ∙ length-lagged 11 [] bits bits)
    ∙ ap (lagged 16 [] bits) (xor_lagged-eq 11 [] bits bits refl)
    ∙ twice_lagged 0 [] bits (λ i p. test_bit_zero i)
