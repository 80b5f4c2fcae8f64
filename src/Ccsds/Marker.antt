-- ===== src/Ccsds/Marker.antt =====
-- fec.py, the attached sync marker: its first place in a stream of hard bits.
use gs_flowgraphs.Base.{
  ℕ, zero, suc, ◌+◌, ◌/◌, ◌^◌, ◌<◌, ◌≡◌, Bool, true, false, Option, none, some, List, [], ◌∷◌, ◌&&◌,
  not, arith, inl, inr,
}
use gs_flowgraphs.Base.{if◌then◌else◌, length, drop, odd, ◌⊕◌, Bool-cases}

-- `_u32_bits`
unfoldable pub u32_bits : ℕ → ℕ → List Bool
u32_bits value zero = []
u32_bits value (suc width) = odd (value / 2 ^ width) ∷ u32_bits value width

-- Whether a window starts with the pattern.
unfoldable pub is_prefix : List Bool → List Bool → Bool
is_prefix [] bits = true
is_prefix (p ∷ pattern) [] = false
is_prefix (p ∷ pattern) (b ∷ bits) = not (p ⊕ b) && is_prefix pattern bits

unfoldable pub find_loop : List Bool → ℕ → List Bool → Option ℕ
find_loop pattern i [] = none
find_loop pattern i (b ∷ bits) =
    let rest = find_loop pattern (i + 1) bits in
    if is_prefix pattern (b ∷ bits) then some (i + length pattern) else rest

-- The index after the marker; the source's -1 is `none`.
unfoldable pub find_asm : List Bool → ℕ → ℕ → Option ℕ
find_asm bits marker width = find_loop (u32_bits marker width) 0 bits

find_loop_first :
    (pattern : List Bool) (i k : ℕ) (bits : List Bool)
    → find_loop pattern i bits ≡ some k
    → (j : ℕ) × (k ≡ i + j + length pattern)
      × (is_prefix pattern (drop j bits) ≡ true)
      × ((earlier : ℕ) → earlier < j → is_prefix pattern (drop earlier bits) ≡ false)
unfolding find_loop
find_loop_first pattern i k [] h = absurd (cc)
find_loop_first pattern i k (b ∷ bits) h = elim (Bool-cases (is_prefix pattern (b ∷ bits))) [
  | inl here ↦
      let e : some (i + length pattern) ≡ some k = rw here at h in
      let found : i + length pattern ≡ k = cc in
      (0, omega (arith, found), here, λ earlier less. absurd (omega arith))
  | inr further ↦
      let r = find_loop_first pattern (i + 1) k bits (rw further at h) in
      (suc r.0, omega (arith, r.1), r.2, λ earlier less. before bits further r.0 r.3 earlier less)
]
  where
    before :
        (rest : List Bool)
        → is_prefix pattern (b ∷ rest) ≡ false
        → (j : ℕ) → ((earlier : ℕ) → earlier < j → is_prefix pattern (drop earlier rest) ≡ false)
        → (earlier : ℕ) → earlier < suc j
        → is_prefix pattern (drop earlier (b ∷ rest)) ≡ false
    before rest here j later zero less = here
    before rest here j later (suc earlier) less = later earlier (omega arith)

-- The index that is returned is the one after a place where the marker stands, and at no earlier
-- place does the marker stand.
pub find_asm_first :
    (bits : List Bool) (marker width k : ℕ)
    → find_asm bits marker width ≡ some k
    → (j : ℕ) × (k ≡ j + length (u32_bits marker width))
      × (is_prefix (u32_bits marker width) (drop j bits) ≡ true)
      × ((earlier : ℕ)
          → earlier < j
          → is_prefix (u32_bits marker width) (drop earlier bits) ≡ false)
unfolding find_asm
find_asm_first bits marker width k h =
    let r = find_loop_first (u32_bits marker width) 0 k bits h in
    (r.0, omega (arith, r.1), r.2, r.3)
