-- ===== src/Hdlc/Stuffing.antt =====
-- Bit stuffing of hdlc.py: removing the stuffed zeros gives the bits back, and no six ones in a
-- row are left.
use gs_flowgraphs.Base.{
  ℕ, zero, suc, ◌+◌, ◌≤◌, ◌<◌, ◌≡◌, refl, ap, Bool, true, false, List, [], ◌∷◌, ◌++◌, inl, inr,
  arith,
}
use gs_flowgraphs.Base.{◌==◌, length, Bool-cases}
use gs_flowgraphs.Hdlc.{bit_stuff_loop, bit_stuff, destuff_loop, destuff}

destuff-stuff_loop :
    (ones : ℕ) (bits : List Bool) → ones < 5 → destuff_loop ones (bit_stuff_loop ones bits) ≡ bits
unfolding destuff_loop bit_stuff_loop
destuff-stuff_loop ones [] h = refl
destuff-stuff_loop ones (false ∷ bits) h =
    let short : (ones == 5) ≡ false = ground arith in
    rw short (ap (◌∷◌ false) (destuff-stuff_loop 0 bits (omega arith)))
destuff-stuff_loop ones (true ∷ bits) h = elim (Bool-cases ((ones + 1) == 5)) [
  | inl full ↦ rw (full, full) (ap (◌∷◌ true) (destuff-stuff_loop 0 bits (omega arith)))
  | inr more ↦ rw more (ap (◌∷◌ true) (destuff-stuff_loop (ones + 1) bits (ground arith)))
]

-- Removing the stuffed zeros from a stuffed stream gives the stream back, whatever its bits.
pub destuff-bit_stuff : (bits : List Bool) → destuff (bit_stuff bits) ≡ bits
unfolding destuff bit_stuff
destuff-bit_stuff bits = destuff-stuff_loop 0 bits (omega arith)

pub length-le-stuff_loop :
    (ones : ℕ) (bits : List Bool) → length bits ≤ length (bit_stuff_loop ones bits)
unfolding bit_stuff_loop
length-le-stuff_loop ones [] = omega arith
length-le-stuff_loop ones (false ∷ bits) = omega (arith, length-le-stuff_loop 0 bits)
length-le-stuff_loop ones (true ∷ bits) =
    ground (arith, length-le-stuff_loop 0 bits, length-le-stuff_loop (ones + 1) bits)

-- `l` begins with `n` ones.
abbrev pub begins_ones : ℕ → List Bool → Bool
begins_ones zero l = true
begins_ones (suc n) [] = false
begins_ones (suc n) (false ∷ l) = false
begins_ones (suc n) (true ∷ l) = begins_ones n l

-- After `ones` ones the stream goes on with so few that there are five at most, if a zero
-- follows the stream.
pub stuffed_ones :
    (n ones : ℕ) (bits tail : List Bool)
    → ones < 5
    → begins_ones n (bit_stuff_loop ones bits ++ false ∷ tail) ≡ true
    → ones + n ≤ 5
unfolding bit_stuff_loop
stuffed_ones zero ones bits tail h e = omega arith
stuffed_ones (suc n) ones [] tail h e = cc
stuffed_ones (suc n) ones (false ∷ bits) tail h e = cc
stuffed_ones (suc n) ones (true ∷ bits) tail h e = elim (Bool-cases ((ones + 1) == 5)) [
  | inl full ↦ after_five n (rw full at e)
  | inr more ↦ ground (arith, stuffed_ones n (ones + 1) bits tail)
]
  where
    after_five :
        (k : ℕ)
        → begins_ones k (false ∷ (bit_stuff_loop 0 bits ++ false ∷ tail)) ≡ true
        → ones + suc k ≤ 5
    after_five zero f = omega arith
    after_five (suc k) f = cc
