-- ===== src/Ccsds/Randomizer.antt =====
-- fec.py, the pseudo-randomizer: a sequence kept in a module variable, which is passed along here.
use gs_flowgraphs.Base.{
  ℕ, zero, suc, ◌≤◌, ◌≡◌, refl, ap, ap₂, sym, ◌∙◌, List, [], ◌∷◌, bit_and, bit_or, bit_xor, arith,
  inl, inr,
}
use gs_flowgraphs.Base.{leb, if◌then◌else◌, length, take, Bool-cases, ◌<<<◌, ◌>>>◌}
use gs_flowgraphs.Base.Xor.{xor_cancel}

-- The taps 7, 4, 2 and 0.
unfoldable pub feedback : ℕ → ℕ
feedback state =
    bit_xor
      (bit_xor (bit_xor (bit_xor 0 (bit_and (state >>> 7) 1)) (bit_and (state >>> 4) 1))
        (bit_and (state >>> 2) 1))
      (bit_and (state >>> 0) 1)

-- `n` bits of an octet, and the state after them.
unfoldable pub pn_octet : ℕ → ℕ → ℕ → ℕ × ℕ
pn_octet zero byte state = (byte, state)
pn_octet (suc n) byte state =
    pn_octet n (bit_or (byte <<< 1) (bit_and (state >>> 7) 1))
      (bit_and (bit_or (state <<< 1) (feedback state)) 0xFF)

unfoldable pub pn_loop : ℕ → ℕ → List ℕ
pn_loop zero state = []
pn_loop (suc n) state = let drawn = pn_octet 8 0 state in drawn.0 ∷ pn_loop n drawn.1

-- `_pn_sequence`: the cache after the call, and the sequence.
unfoldable pub pn_sequence : List ℕ → ℕ → List ℕ × List ℕ
pn_sequence pn_cache nbytes =
    if leb nbytes (length pn_cache)
    then (pn_cache, take nbytes pn_cache)
    else (pn_loop nbytes 0xFF, pn_loop nbytes 0xFF)

-- The exclusive or of two strings of one length.
unfoldable pub xor_bytes : List ℕ → List ℕ → List ℕ
xor_bytes [] pn = []
xor_bytes (b ∷ bytes) [] = []
xor_bytes (b ∷ bytes) (p ∷ pn) = bit_xor b p ∷ xor_bytes bytes pn

unfoldable pub ccsds_randomize : List ℕ → List ℕ → List ℕ × List ℕ
ccsds_randomize pn_cache bytes =
    let drawn = pn_sequence pn_cache (length bytes) in (drawn.0, xor_bytes bytes drawn.1)

-- The cache holds the beginning of the sequence.
abbrev pub IsCache : List ℕ → Type 0
IsCache pn_cache = pn_cache ≡ pn_loop (length pn_cache) 0xFF

length-pn_loop : (n state : ℕ) → length (pn_loop n state) ≡ n
unfolding pn_loop
length-pn_loop zero state = refl
length-pn_loop (suc n) state = ap suc (length-pn_loop n (pn_octet 8 0 state).1)

take-pn_loop : (n m state : ℕ) → n ≤ m → take n (pn_loop m state) ≡ pn_loop n state
unfolding pn_loop
take-pn_loop zero m state h = refl
take-pn_loop (suc n) zero state h = absurd (omega arith)
take-pn_loop (suc n) (suc m) state h =
    ap (◌∷◌ (pn_octet 8 0 state).0) (take-pn_loop n m (pn_octet 8 0 state).1 (omega arith))

pn_sequence-eq :
    (pn_cache : List ℕ) (n : ℕ)
    → IsCache pn_cache
    → ((pn_sequence pn_cache n).1 ≡ pn_loop n 0xFF) × IsCache (pn_sequence pn_cache n).0
unfolding pn_sequence
pn_sequence-eq pn_cache n h = elim (Bool-cases (leb n (length pn_cache))) [
  | inl there ↦ rw there (ap (take n) h ∙ take-pn_loop n (length pn_cache) 0xFF (ground arith), h)
  | inr short ↦ rw short (refl, ap (λ k. pn_loop k 0xFF) (sym (length-pn_loop n 0xFF)))
]

xor_bytes_twice :
    (bytes pn : List ℕ) → length bytes ≤ length pn → xor_bytes (xor_bytes bytes pn) pn ≡ bytes
unfolding xor_bytes
xor_bytes_twice [] pn h = refl
xor_bytes_twice (b ∷ bytes) [] h = absurd (omega arith)
xor_bytes_twice (b ∷ bytes) (p ∷ pn) h =
    ap₂ ◌∷◌ (xor_cancel b p) (xor_bytes_twice bytes pn (omega arith))

length-xor_bytes :
    (bytes pn : List ℕ) → length bytes ≤ length pn → length (xor_bytes bytes pn) ≡ length bytes
unfolding xor_bytes
length-xor_bytes [] pn h = refl
length-xor_bytes (b ∷ bytes) [] h = absurd (omega arith)
length-xor_bytes (b ∷ bytes) (p ∷ pn) h = ap suc (length-xor_bytes bytes pn (omega arith))

-- From any cache that holds the beginning of the sequence, randomizing twice gives the octets back
-- and leaves such a cache, whichever of the calls makes the sequence longer.
pub ccsds_randomize_twice :
    (pn_cache bytes : List ℕ)
    → IsCache pn_cache
    → let once = ccsds_randomize pn_cache bytes in
      let twice = ccsds_randomize once.0 once.1 in (twice.1 ≡ bytes) × IsCache twice.0
unfolding ccsds_randomize
ccsds_randomize_twice pn_cache bytes h =
    let n = length bytes in
    let first = pn_sequence-eq pn_cache n h in
    let once = ccsds_randomize pn_cache bytes in
    let second = pn_sequence-eq once.0 (length once.1) first.1 in
    let long : length bytes ≤ length (pn_loop n 0xFF) = omega (arith, length-pn_loop n 0xFF) in
    let sent : once.1 ≡ xor_bytes bytes (pn_loop n 0xFF) = ap (xor_bytes bytes) first.0 in
    let same : length once.1 ≡ n = ap length sent ∙ length-xor_bytes bytes (pn_loop n 0xFF) long in
    (
      ap₂ xor_bytes sent (second.0 ∙ ap (λ k. pn_loop k 0xFF) same)
          ∙ xor_bytes_twice bytes (pn_loop n 0xFF) long,
      second.1,
    )
