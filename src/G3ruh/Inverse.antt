-- ===== src/G3ruh/Inverse.antt =====
-- The receive side of g3ruh.py undoes the transmit side.
use gs_flowgraphs.Base.{
  ℕ, zero, suc, ◌≡◌, refl, ap, ap₂, ◌∙◌, Bool, true, false, List, [], ◌∷◌, bit_and, arith,
}
use gs_flowgraphs.Base.{odd, ◌⊕◌, ⊕_cancel, ◌==◌, drop}
use gs_flowgraphs.G3ruh.{
  mask, nrzi_encode_loop, nrzi_encode, nrzi_decode_loop, nrzi_decode, fb, shift_in, scramble_loop,
  scramble, descramble_loop, descramble,
}
use gs_flowgraphs.G3ruh.FeedForward.{feed_forward-eq-descramble_loop}
use gs_flowgraphs.G3ruh.Sync.{descramble_loop_sync}

nrzi_loops :
    (level : Bool) (bits : List Bool) → nrzi_decode_loop level (nrzi_encode_loop level bits) ≡ bits
unfolding nrzi_decode_loop nrzi_encode_loop
nrzi_loops level [] = refl
nrzi_loops false (true ∷ bits) = ap (◌∷◌ true) (nrzi_loops false bits)
nrzi_loops true (true ∷ bits) = ap (◌∷◌ true) (nrzi_loops true bits)
nrzi_loops false (false ∷ bits) = ap (◌∷◌ false) (nrzi_loops true bits)
nrzi_loops true (false ∷ bits) = ap (◌∷◌ false) (nrzi_loops false bits)

-- NRZI decoding from the level that the encoder started at gives the bits back.
pub nrzi_decode-nrzi_encode :
    (bits : List Bool) (initial : ℕ) → nrzi_decode (nrzi_encode bits initial) initial ≡ bits
unfolding nrzi_decode nrzi_encode
nrzi_decode-nrzi_encode bits initial = nrzi_loops (odd initial) bits

pub scramble_loops : (sr : ℕ) (bits : List Bool) → descramble_loop sr (scramble_loop sr bits) ≡ bits
unfolding descramble_loop scramble_loop
scramble_loops sr [] = refl
scramble_loops sr (b ∷ bits) =
    ap₂ ◌∷◌ (⊕_cancel b (fb sr)) (scramble_loops (shift_in sr (b ⊕ fb sr)) bits)

-- Both branches of `descramble` are the recurrence from the masked seed.
pub descramble-eq-loop :
    (state : ℕ) (bits : List Bool)
    → descramble bits state ≡ descramble_loop (bit_and state mask) bits
unfolding descramble
descramble-eq-loop zero bits = feed_forward-eq-descramble_loop bits
descramble-eq-loop (suc state) bits =
    let seeded : (suc state == 0) ≡ false = ground arith in rw seeded

-- Descrambling with the seed of the scrambler gives the bits back, for the zero seed (the
-- feed-forward form) and for any other.
pub descramble-scramble :
    (bits : List Bool) (state : ℕ) → descramble (scramble bits state) state ≡ bits
unfolding scramble
descramble-scramble bits state =
    descramble-eq-loop state (scramble_loop (bit_and state mask) bits)
    ∙ scramble_loops (bit_and state mask) bits

-- Whatever seeds the scrambler and the descrambler start from, all bits after the first 17 come
-- through.
pub descramble_self_sync :
    (bits : List Bool) (sent_seed seed : ℕ)
    → drop 17 (descramble (scramble bits sent_seed) seed) ≡ drop 17 bits
unfolding scramble
descramble_self_sync bits sent_seed seed =
    let received = scramble_loop (bit_and sent_seed mask) bits in
    ap (drop 17) (descramble-eq-loop seed received)
    ∙ descramble_loop_sync (bit_and seed mask) (bit_and sent_seed mask) received
    ∙ ap (drop 17) (scramble_loops (bit_and sent_seed mask) bits)
