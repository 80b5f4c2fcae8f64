-- ===== src/Hdlc.antt =====
-- gfsk_ax25/hdlc.py: flags, bit stuffing and the frame check on a stream of hard bits.
pub mod Stuffing
pub mod Scan
pub mod Segment
pub mod RoundTrip
use gs_flowgraphs.Base.{
  ℕ, zero, suc, ◌+◌, ◌-◌, ◌%◌, ◌≡◌, Bool, true, false, List, [], ◌∷◌, ◌++◌, ◌&&◌, max, map,
}
use gs_flowgraphs.Base.{leb, ltb, ◌==◌, if◌then◌else◌, length, take, drop, not, ◌||◌}
use gs_flowgraphs.Octets.{bytes_to_bits, bits_to_bytes}
use gs_flowgraphs.Crc.Fcs.{fcs_bytes, check}

abbrev pub flag_bits : List Bool
flag_bits = false ∷ true ∷ true ∷ true ∷ true ∷ true ∷ true ∷ false ∷ []

abbrev pub min_frame_octets : ℕ
min_frame_octets = 18

-- The loop of `bit_stuff`, with the run of ones so far.
pub bit_stuff_loop : ℕ → List Bool → List Bool
bit_stuff_loop ones [] = []
bit_stuff_loop ones (true ∷ bits) =
    let full = (ones + 1) == 5 in
    let rest = bit_stuff_loop (if full then 0 else ones + 1) bits in
    if full then true ∷ false ∷ rest else true ∷ rest
bit_stuff_loop ones (false ∷ bits) = false ∷ bit_stuff_loop 0 bits

pub bit_stuff : List Bool → List Bool
bit_stuff bits = bit_stuff_loop 0 bits

-- The loop of `_destuff`.
pub destuff_loop : ℕ → List Bool → List Bool
destuff_loop ones [] = []
destuff_loop ones (false ∷ bits) =
    let rest = destuff_loop 0 bits in if ones == 5 then rest else false ∷ rest
destuff_loop ones (true ∷ bits) = true ∷ destuff_loop (ones + 1) bits

pub destuff : List Bool → List Bool
destuff bits = destuff_loop 0 bits

-- `list(FLAG_BITS) * n`
pub flags : ℕ → List Bool
flags zero = []
flags (suc n) = flag_bits ++ flags n

pub frame : List ℕ → ℕ → ℕ → List Bool
frame body preamble_flags postamble_flags =
    let stuffed = bit_stuff (bytes_to_bits (body ++ fcs_bytes body)) in
    flags (max 1 preamble_flags) ++ (stuffed ++ flags (max 1 postamble_flags))

-- `bl[i : i + 8] == flag`, for the list from index `i` on.
pub at_flag : List Bool → Bool
at_flag (b0 ∷ b1 ∷ b2 ∷ b3 ∷ b4 ∷ b5 ∷ b6 ∷ b7 ∷ rest) =
    not b0 && (b1 && (b2 && (b3 && (b4 && (b5 && (b6 && not b7))))))
at_flag _ = false

-- The scan for flags: `skip` octet positions are left to pass over after a hit. The result lists
-- the indices where a flag starts, `i` being the index of the head of the list.
pub starts_loop : ℕ → ℕ → List Bool → List ℕ
starts_loop skip i [] = []
starts_loop zero i (b ∷ bits) =
    let hit = at_flag (b ∷ bits) in
    let rest = starts_loop (if hit then 7 else 0) (i + 1) bits in if hit then i ∷ rest else rest
starts_loop (suc skip) i (b ∷ bits) = starts_loop skip (i + 1) bits

pub starts : List Bool → List ℕ
starts bits = starts_loop 0 0 bits

pub record Deframed : Type 0 where
  pub body : List ℕ
  pub offset : ℕ

-- What one pair of neighbouring flags holds: nothing, or one frame.
pub between : List Bool → ℕ → ℕ → List Deframed
between bits opening closing =
    let start = opening + 8 in
    let content = destuff (take (closing - start) (drop start bits)) in
    let body_fcs = bits_to_bytes content in
    if leb closing start
    then []
    else if not (length content % 8 == 0)
    then []
    else if leb min_frame_octets (length body_fcs) && check body_fcs
    then record { body = take (length body_fcs - 2) body_fcs; offset = opening } ∷ []
    else []

-- The loop over `range(len(starts) - 1)`.
pub frames : List Bool → List ℕ → List Deframed
frames bits [] = []
frames bits (opening ∷ []) = []
frames bits (opening ∷ closing ∷ rest) =
    between bits opening closing ++ frames bits (closing ∷ rest)

pub deframe_with_offsets : List Bool → List Deframed
deframe_with_offsets bits = frames bits (starts bits)

pub deframe : List Bool → List (List ℕ)
deframe bits = map (λ f. f.body) (deframe_with_offsets bits)
