-- ===== src/Hdlc/Scan.antt =====
-- The scan for flags finds the flags of a frame and nothing inside its stuffed content.
use gs_flowgraphs.Base.{
  ℕ, zero, suc, ◌+◌, ◌*◌, ◌≡◌, ap, ◌∙◌, Bool, true, false, List, [], ◌∷◌, ◌++◌, inl, inr, arith,
}
use gs_flowgraphs.Base.{◌==◌, length, Bool-cases}
use gs_flowgraphs.Hdlc.{flags, at_flag, starts_loop, bit_stuff_loop}
use gs_flowgraphs.Hdlc.Stuffing.{begins_ones, stuffed_ones}

at_flag_needs :
    (b : Bool) (l : List Bool) → at_flag (b ∷ l) ≡ true → (b ≡ false) × (begins_ones 6 l ≡ true)
unfolding at_flag
at_flag_needs b [] h = cc
at_flag_needs b (b1 ∷ []) h = cc
at_flag_needs b (b1 ∷ b2 ∷ []) h = cc
at_flag_needs b (b1 ∷ b2 ∷ b3 ∷ []) h = cc
at_flag_needs b (b1 ∷ b2 ∷ b3 ∷ b4 ∷ []) h = cc
at_flag_needs b (b1 ∷ b2 ∷ b3 ∷ b4 ∷ b5 ∷ []) h = cc
at_flag_needs b (b1 ∷ b2 ∷ b3 ∷ b4 ∷ b5 ∷ b6 ∷ []) h = cc
at_flag_needs b (b1 ∷ b2 ∷ b3 ∷ b4 ∷ b5 ∷ b6 ∷ b7 ∷ l) h = ground arith

-- A position at which no flag starts is passed over.
scan_past :
    (i : ℕ) (b : Bool) (l : List Bool)
    → at_flag (b ∷ l) ≡ false
    → starts_loop 0 i (b ∷ l) ≡ starts_loop 0 (i + 1) l
unfolding starts_loop
scan_past i b l e = rw e

not_at_true : (l : List Bool) → at_flag (true ∷ l) ≡ false
not_at_true l = elim (Bool-cases (at_flag (true ∷ l))) [
  | inl e ↦ cc ((at_flag_needs true l e).0)
  | inr e ↦ e
]

-- No flag starts at a zero that stuffed content follows.
not_at_zero :
    (bits tail : List Bool) → at_flag (false ∷ (bit_stuff_loop 0 bits ++ false ∷ tail)) ≡ false
not_at_zero bits tail =
    elim (Bool-cases (at_flag (false ∷ (bit_stuff_loop 0 bits ++ false ∷ tail)))) [
      | inl e ↦
          absurd
            (omega (arith, stuffed_ones 6 0 bits tail (omega arith) (at_flag_needs false _ e).1))
      | inr e ↦ e
    ]

-- The scan passes over stuffed content that a zero follows, and finds no flag in it.
pub scan_stuffed :
    (ones i : ℕ) (bits tail : List Bool)
    → starts_loop 0 i (bit_stuff_loop ones bits ++ false ∷ tail)
      ≡ starts_loop 0 (i + length (bit_stuff_loop ones bits)) (false ∷ tail)
unfolding bit_stuff_loop
scan_stuffed ones i [] tail = ap (λ k. starts_loop 0 k (false ∷ tail)) (omega arith)
scan_stuffed ones i (false ∷ bits) tail =
    scan_past i false _ (not_at_zero bits tail)
    ∙ scan_stuffed 0 (i + 1) bits tail
    ∙ ap (λ k. starts_loop 0 k (false ∷ tail)) (omega arith)
scan_stuffed ones i (true ∷ bits) tail = elim (Bool-cases ((ones + 1) == 5)) [
  | inl full ↦ rw full (
      scan_past i true _ (not_at_true _)
      ∙ scan_past (i + 1) false _ (not_at_zero bits tail)
      ∙ scan_stuffed 0 (i + 1 + 1) bits tail
      ∙ ap (λ k. starts_loop 0 k (false ∷ tail)) (omega arith))
  | inr more ↦ rw more (
      scan_past i true _ (not_at_true _)
      ∙ scan_stuffed (ones + 1) (i + 1) bits tail
      ∙ ap (λ k. starts_loop 0 k (false ∷ tail)) (omega arith))
]

-- The indices of `n` flags in a row, the first at `i`.
abbrev pub flag_starts : ℕ → ℕ → List ℕ
flag_starts zero i = []
flag_starts (suc n) i = i ∷ flag_starts n (i + 8)

-- The scan finds every flag of a run, and goes on after it.
pub scan_flags :
    (n i : ℕ) (tail : List Bool)
    → starts_loop 0 i (flags n ++ tail) ≡ flag_starts n i ++ starts_loop 0 (i + 8 * n) tail
unfolding flags starts_loop at_flag
scan_flags zero i tail = ap (λ k. starts_loop 0 k tail) (omega arith)
scan_flags (suc n) i tail = ap (◌∷◌ i) (
    ap (λ k. starts_loop 0 k (flags n ++ tail)) {y = i + 8} (omega arith)
    ∙ scan_flags n (i + 8) tail
    ∙ ap (λ k. flag_starts n (i + 8) ++ starts_loop 0 k tail) (omega arith))

pub length-flags : (n : ℕ) → length (flags n) ≡ 8 * n
unfolding flags
length-flags zero = omega arith
length-flags (suc n) = omega (arith, length-flags n)
